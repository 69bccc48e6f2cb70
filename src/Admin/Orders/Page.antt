-- ===== src/Admin/Orders/Page.antt =====
-- OrdersPage.tsx: the state of the page, its requests and its buttons.
pub use openmarket.Shared.Machine.{Reply, done, failed}
use openmarket.Prelude.{
  ℕ, ◌-◌, Bool, true, false, not, ◌&&◌, Option, none, some, List, [], ◌∷◌, ◌++◌, map, if◌then◌else◌,
  ◌==◌, length, filter, any, is_empty, Text, text_eq, codes,
}
use openmarket.Shared.Types.{Order, OrderListItem}
use openmarket.Shared.Machine.{Machine}
use openmarket.Shared.Numerals.{print}

pub data Tab : Type 0 where
  unfulfilled fulfilled : Tab

-- The parameters of the list that may be undefined, and the tab.
pub record Query : Type 0 where
  pub fulfillment_status : Tab
  pub search : Option Text
  pub source : Option Text

pub record State : Type 0 where
  pub orders : List OrderListItem
  pub loading : Bool
  pub tab : Tab
  pub search : Text
  -- `useDebounce(search, 300)`.
  pub debounced : Text
  pub source_filter : Text
  pub expanded_order : Option Order
  pub bulk_busy : Bool
  pub confirm_bulk : Bool
  pub toasts : List Text

-- What follows when the list has come.
pub data Next : Type 0 where
  nothing : Next
  -- `fulfill` closes the expanded order.
  close : Next
  -- `fulfillAllVisible` tells how many requests there were and how many of them failed.
  tell : ℕ → ℕ → Next

pub data Request : Type 0 where
  list : Query → Next → Request
  get : ℕ → Request
  -- `api.fulfillments.create`, by `fulfill` and by `fulfillAllVisible`, with the list that the
  -- handler of this render will ask for.
  create : ℕ → Query → Request
  create_all : List ℕ → Query → Request

-- `Promise.allSettled` gives one result for each order.
abbrev pub Answer : Request → Type 0
Answer (list q n) = Reply (List OrderListItem)
Answer (get i) = Reply Order
Answer (create i q) = Reply (Unit {0})
Answer (create_all is q) = ℕ → Reply (Unit {0})

-- `t || undefined`.
abbrev pub or_undefined : Text → Option Text
or_undefined t = if is_empty t then none else some t

unfoldable pub query_of : State → Query
query_of s = record {
  fulfillment_status = s.tab;
  search = or_undefined s.debounced;
  source = or_undefined s.source_filter;
}

-- `loadOrders`.
unfoldable pub load_orders : Query → Next → State → State × List Request
load_orders q n s = (record s { loading = true }, list q n ∷ [])

abbrev pub is_expanded : ℕ → State → Bool
is_expanded i s = elim s.expanded_order [ none ↦ false | some o ↦ o.id == i ]

-- `expandOrder`.
unfoldable pub expand_order : ℕ → State → State × List Request
expand_order i s =
    if is_expanded i s then (record s { expanded_order = none }, []) else (s, get i ∷ [])

abbrev pub ids : List OrderListItem → List ℕ
ids = map (λ o. o.id)

-- `fulfillAllVisible`, up to the requests.
unfoldable pub fulfill_all_visible : State → State × List Request
unfolding query_of
fulfill_all_visible s = (
  record s { confirm_bulk = false; bulk_busy = true },
  create_all (ids s.orders) (query_of s) ∷ [],
)

abbrev pub is_rejected : Reply (Unit {0}) → Bool
is_rejected (done u) = false
is_rejected (failed m) = true

unfoldable pub told : ℕ → ℕ → Text
told total bad =
    if bad == 0
    then codes "Fulfilled " ++ (print total ++ codes " order(s)")
    else codes "Fulfilled " ++ (print (total - bad) ++ (codes ", failed " ++ print bad))

unfoldable pub follow : Next → State → State
unfolding told
follow nothing s = s
follow close s = record s { expanded_order = none }
follow (tell total bad) s = record s { toasts = s.toasts ++ told total bad ∷ [] }

unfoldable pub replied : (r : Request) → Answer r → State → State × List Request
unfolding follow load_orders
replied (list q n) (done os) s = (follow n (record s { orders = os; loading = false }), [])
replied (list q n) (failed m) s = (s, [])
replied (get i) (done o) s = (record s { expanded_order = some o }, [])
replied (get i) (failed m) s = (s, [])
replied (create i q) (done u) s = load_orders q close s
replied (create i q) (failed m) s = (s, [])
replied (create_all is q) outcome s =
    let results = map outcome is in
    load_orders q (tell (length results) (length (filter is_rejected results)))
      (record s { bulk_busy = false })

pub data Event : Type 0 where
  tab_chosen : Tab → Event
  typed : Text → Event
  -- The debounced search takes the value of the search.
  settled : Event
  source_chosen : Text → Event
  row_clicked : ℕ → Event
  fulfill_clicked : ℕ → Event
  bulk_clicked : Event
  bulk_confirmed : Event
  bulk_cancelled : Event

abbrev pub same_tab : Tab → Tab → Bool
same_tab unfulfilled unfulfilled = true
same_tab fulfilled fulfilled = true
same_tab _ _ = false

abbrev pub is_listed : ℕ → State → Bool
is_listed i s = not s.loading && any (λ o. o.id == i) s.orders

abbrev pub is_unfulfilled : State → Bool
is_unfulfilled s = elim s.expanded_order [
  | none ↦ false
  | some o ↦ text_eq o.fulfillment_status (codes "unfulfilled")
]

unfoldable pub is_offered : Event → State → Bool
is_offered (tab_chosen t) s = true
is_offered (typed t) s = true
is_offered settled s = not (text_eq s.debounced s.search)
is_offered (source_chosen t) s = not (text_eq s.source_filter t)
is_offered (row_clicked i) s = is_listed i s
is_offered (fulfill_clicked i) s = is_listed i s && is_expanded i s && is_unfulfilled s
is_offered bulk_clicked s = same_tab s.tab unfulfilled && not (is_empty s.orders) && not s.bulk_busy
is_offered bulk_confirmed s = s.confirm_bulk
is_offered bulk_cancelled s = s.confirm_bulk

unfoldable pub react : Event → State → State × List Request
unfolding query_of load_orders expand_order fulfill_all_visible
react (tab_chosen t) s =
    let next = record s { tab = t } in
    if same_tab t s.tab then (next, []) else load_orders (query_of next) nothing next
react (typed t) s = (record s { search = t }, [])
react settled s =
    let next = record s { debounced = s.search } in load_orders (query_of next) nothing next
react (source_chosen t) s =
    let next = record s { source_filter = t } in load_orders (query_of next) nothing next
react (row_clicked i) s = expand_order i s
react (fulfill_clicked i) s = (s, create i (query_of s) ∷ [])
react bulk_clicked s = (record s { confirm_bulk = true }, [])
react bulk_confirmed s = fulfill_all_visible s
react bulk_cancelled s = (record s { confirm_bulk = false }, [])

-- The first render, by the text that the address has for the search, and after its effect.
unfoldable pub start : Text → State × List Request
unfolding query_of load_orders
start search =
    let first : State = record {
      orders = [];
      loading = true;
      tab = unfulfilled;
      search = search;
      debounced = search;
      source_filter = [];
      expanded_order = none;
      bulk_busy = false;
      confirm_bulk = false;
      toasts = [];
    } in
    load_orders (query_of first) nothing first

abbrev pub page : Machine
page = record {
  State = State;
  Event = Event;
  Request = Request;
  Answer = Answer;
  is_offered = is_offered;
  react = react;
  replied = replied;
}
