-- ===== src/Store/Shop/Page.antt =====
-- ShopPage.tsx: the state of the page, the requests for the list, the timer that gathers the inventory
-- updates into one of them, and the quick way into the cart.
pub use openmarket.Shared.Machine.{Reply, done, failed}
use openmarket.Prelude.{
  ℕ, Bool, true, false, not, ◌&&◌, Option, none, some, List, [], ◌∷◌, ◌++◌, if◌then◌else◌, ◌==◌,
  any, is_empty, Text, text_eq, codes,
}
use openmarket.Shared.Types.{Product, ProductVariant, ProductListWithPrice, CartItem}
use openmarket.Shared.Machine.{Machine}
use openmarket.Store.Cart.{add_item}
use openmarket.Store.Shop.Types.{product_types}

-- The parameters of the list that may be undefined; the status is always "active".
pub record Query : Type 0 where
  pub search : Option Text
  pub product_type : Option Text
  pub sort_by : Option Text

-- The page, and the cart that it has from the context.
pub record State : Type 0 where
  pub products : List ProductListWithPrice
  pub loading : Bool
  pub error : Text
  pub search : Text
  -- `useDebounce(search, 300)`.
  pub debounced : Text
  pub sort_by : Text
  pub selected_type : Option Text
  pub filters_open : Bool
  pub quick_add_busy_id : Option ℕ
  -- `refetchTimer`, while it is set: what the `refetch` that it will call asks for.
  pub timer : Option Query
  pub cart : List CartItem
  pub toasts : List Text
  -- The page is no longer shown.
  pub gone : Bool

pub data Request : Type 0 where
  -- `api.products.list`, of the effect and of `refetch`.
  list : Query → Request
  refetch : Query → Request
  -- `api.products.get`, of `quickAdd`.
  get : ℕ → Request

abbrev pub Answer : Request → Type 0
Answer (list q) = Reply (List ProductListWithPrice)
Answer (refetch q) = Reply (List ProductListWithPrice)
Answer (get i) = Reply Product

pub data Event : Type 0 where
  typed : Text → Event
  -- The debounced search takes the value of the search.
  settled : Event
  sorted : Text → Event
  chosen : Option Text → Event
  filters : Event
  dismissed : Event
  -- A message of the web socket, and the timer.
  inventory_updated : Event
  fired : Event
  quick_add : ProductListWithPrice → Event
  left : Event

-- `t || undefined`.
abbrev pub or_undefined : Text → Option Text
or_undefined t = if is_empty t then none else some t

unfoldable pub query_of : State → Query
query_of s = record {
  search = or_undefined s.debounced;
  product_type = elim s.selected_type [ none ↦ none | some t ↦ or_undefined t ];
  sort_by = or_undefined s.sort_by;
}

-- The effect on the debounced search, the type and the order.
unfoldable pub load : State → State × List Request
unfolding query_of
load s = (record s { loading = true; error = [] }, list (query_of s) ∷ [])

unfoldable pub toast : Text → State → State
toast t s = record s { toasts = s.toasts ++ t ∷ [] }

abbrev pub is_zero : Option ℕ → Bool
is_zero none = false
is_zero (some n) = n == 0

-- `handleInventoryUpdate`.
unfoldable pub handle_inventory_update : State → State
unfolding query_of
handle_inventory_update s = record s { timer = some (query_of s) }

-- `quickAdd`, up to the request.
unfoldable pub start_quick_add : ProductListWithPrice → State → State × List Request
unfolding toast
start_quick_add p s =
    if is_zero p.total_stock
    then (toast (codes "Sold out") s, [])
    else (record s { quick_add_busy_id = some p.id }, get p.id ∷ [])

-- `quickAdd`, after the request, up to `finally`.
unfoldable pub finish_quick_add : Product → List ProductVariant → State → State
unfolding toast
finish_quick_add p [] s = toast (codes "This product is unavailable") s
finish_quick_add p (v ∷ vs) s =
    if is_zero v.available
    then toast (codes "Sold out") s
    else toast (codes "Added " ++ (p.title ++ codes " to cart"))
        (record s { cart = add_item p v s.cart })

unfoldable pub replied : (r : Request) → Answer r → State → State
unfolding finish_quick_add
replied (list q) (done ps) s = record s { products = ps; loading = false }
replied (list q) (failed m) s = record s {
  error = codes "Failed to load products. Please try again.";
  loading = false;
}
replied (refetch q) (done ps) s = record s { products = ps }
replied (refetch q) (failed m) s = s
replied (get i) (done p) s = record (finish_quick_add p p.variants s) { quick_add_busy_id = none }
replied (get i) (failed m) s = record (toast (codes "Couldn’t add to cart. Try again.") s) {
  quick_add_busy_id = none;
}

abbrev pub same_type : Option Text → Option Text → Bool
same_type none none = true
same_type none (some t) = false
same_type (some t) none = false
same_type (some t) (some u) = text_eq t u

abbrev pub sort_options : List Text
sort_options = [] ∷ codes "title" ∷ codes "price_asc" ∷ codes "price_desc" ∷ codes "newest" ∷ []

abbrev pub is_busy_with : ℕ → State → Bool
is_busy_with i s = elim s.quick_add_busy_id [ none ↦ false | some j ↦ j == i ]

unfoldable pub is_enabled : Event → State → Bool
unfolding product_types
is_enabled (typed t) s = true
is_enabled settled s = not (text_eq s.debounced s.search)
is_enabled (sorted t) s = any (text_eq t) sort_options && not (text_eq t s.sort_by)
is_enabled (chosen none) s = true
is_enabled (chosen (some t)) s = any (text_eq t) (product_types s.products)
is_enabled filters s = true
is_enabled dismissed s = not (is_empty s.error)
is_enabled inventory_updated s = true
is_enabled fired s = elim s.timer [ none ↦ false | some q ↦ true ]
is_enabled (quick_add p) s =
    not s.loading
    && any (λ q. q.id == p.id) s.products
    && not (is_zero p.total_stock)
    && not (is_busy_with p.id s)
is_enabled left s = true

unfoldable pub is_offered : Event → State → Bool
unfolding is_enabled
is_offered e s = not s.gone && is_enabled e s

unfoldable pub react : Event → State → State × List Request
unfolding load handle_inventory_update start_quick_add
react (typed t) s = (record s { search = t }, [])
react settled s = load (record s { debounced = s.search })
react (sorted t) s = load (record s { sort_by = t })
react (chosen t) s =
    let next = record s { selected_type = t; filters_open = false } in
    if same_type t s.selected_type then (next, []) else load next
react filters s = (record s { filters_open = not s.filters_open }, [])
react dismissed s = (record s { error = [] }, [])
react inventory_updated s = (handle_inventory_update s, [])
react fired s = elim s.timer [
  | none ↦ (s, [])
  | some q ↦ (record s { timer = none }, refetch q ∷ [])
]
react (quick_add p) s = start_quick_add p s
react left s = (record s { timer = none; gone = true }, [])

unfoldable pub initial : List CartItem → State
initial cart = record {
  products = [];
  loading = true;
  error = [];
  search = [];
  debounced = [];
  sort_by = [];
  selected_type = none;
  filters_open = false;
  quick_add_busy_id = none;
  timer = none;
  cart = cart;
  toasts = [];
  gone = false;
}

-- The first render, after its effect.
unfoldable pub start : List CartItem → State × List Request
unfolding initial load
start cart = load (initial cart)

abbrev pub shop : Machine
shop = record {
  State = State;
  Event = Event;
  Request = Request;
  Answer = Answer;
  is_offered = is_offered;
  react = react;
  replied = λ r a s. (replied r a s, []);
}
