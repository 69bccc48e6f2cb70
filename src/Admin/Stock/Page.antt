-- ===== src/Admin/Stock/Page.antt =====
-- ProductsInventoryPage.tsx: the list, the row that is expanded, the locations and the changes of stock.
-- `parseInt` of the host is a parameter, NaN being none.
pub use openmarket.Shared.Machine.{Reply, done, failed}
use openmarket.Prelude.{
  ℕ, zero, suc, Bool, true, false, not, ◌&&◌, ◌||◌, Option, none, some, List, [], ◌∷◌, ◌++◌,
  if◌then◌else◌, ◌==◌, ltb, length, any, is_empty, Text, text_eq, codes, ℤ, pos, negsuc,
}
use openmarket.Shared.Types.{Product, ProductListWithPrice, InventoryLevel, Location}
use openmarket.Shared.Socket.{InventoryUpdate}
use openmarket.Shared.Machine.{Machine}
use openmarket.Shared.Numerals.{print}
use openmarket.Admin.Stock.Levels.{Inventory, inventory_of, update_inventory, level_of, has_item}

pub record State : Type 0 where
  pub products : List ProductListWithPrice
  pub loading : Bool
  pub search : Text
  -- `useDebounce(search, 300)`.
  pub debounced : Text
  pub inventory : Inventory
  pub expanded_id : Option ℕ
  pub expanded_product : Option Product
  pub stock_inputs : ℕ → Text
  pub locations : List Location
  pub selected_location_id : ℕ
  pub toasts : List Text

-- What is told when the levels have come: after `adjustStock`, after `setStock`, or nothing.
pub data Next : Type 0 where
  nothing : Next
  adjusted : ℤ → Next
  stock_set : ℕ → Next

pub data Request : Type 0 where
  list_products : Option Text → Request
  levels : ℕ → Next → Request
  list_locations : Request
  get : ℕ → Request
  -- The item, the location, and the number.
  adjust : ℕ → ℕ → ℤ → Request
  set : ℕ → ℕ → ℕ → Request

abbrev pub Answer : Request → Type 0
Answer (list_products q) = Reply (List ProductListWithPrice)
Answer (levels l n) = Reply (List InventoryLevel)
Answer list_locations = Reply (List Location)
Answer (get i) = Reply Product
Answer (adjust i l d) = Reply (Unit {0})
Answer (set i l n) = Reply (Unit {0})

unfoldable pub toast : Text → State → State
toast t s = record s { toasts = s.toasts ++ t ∷ [] }

-- `${delta > 0 ? "+" : ""}${delta}`.
unfoldable pub signed : ℤ → Text
signed (pos zero) = print 0
signed (pos (suc n)) = b'+' ∷ print (suc n)
signed (negsuc n) = b'-' ∷ print (suc n)

-- `loadProducts`.
unfoldable pub load_products : State → State × List Request
load_products s = (
  record s { loading = true },
  list_products (if is_empty s.search then none else some s.search) ∷ [],
)

-- `loadInventory`, with the location of the render that it is called in.
abbrev pub load_inventory : State → Next → List Request
load_inventory s n = levels s.selected_location_id n ∷ []

-- The effect on the debounced search.
unfoldable pub load : State → State × List Request
unfolding load_products
load s =
    let (t, sent) = load_products s in
    (t, sent ++ (load_inventory s nothing ++ list_locations ∷ []))

abbrev pub is_expanded : ℕ → State → Bool
is_expanded i s = elim s.expanded_id [ none ↦ false | some j ↦ j == i ]

unfoldable pub expand : ℕ → State → State × List Request
expand i s =
    if is_expanded i s
    then (record s { expanded_id = none; expanded_product = none }, [])
    else (record s { expanded_id = some i }, get i ∷ [])

abbrev pub write : ℕ → Text → (ℕ → Text) → ℕ → Text
write i t f j = if i == j then t else f j

-- A location is chosen, by the user or because it is the first. The effect on it loads the levels.
unfoldable pub choose_location : ℕ → State → State × List Request
choose_location i s =
    let next = record s { selected_location_id = i } in
    if i == s.selected_location_id then (next, []) else (next, load_inventory next nothing)

unfoldable pub follow : Next → State → State
unfolding toast signed
follow nothing s = s
follow (adjusted d) s = toast (codes "Stock adjusted by " ++ signed d) s
follow (stock_set n) s = toast (codes "Stock set to " ++ print n) s

unfoldable pub fail : Next → State → State
unfolding toast
fail nothing s = s
fail (adjusted d) s = toast (codes "Failed to adjust stock") s
fail (stock_set n) s = toast (codes "Failed to set stock") s

unfoldable pub replied : (r : Request) → Answer r → State → State × List Request
unfolding follow fail choose_location inventory_of
replied (list_products q) (done ps) s = (record s { products = ps; loading = false }, [])
replied (list_products q) (failed m) s = (s, [])
replied (levels l n) (done ls) s = (follow n (record s { inventory = inventory_of ls }), [])
replied (levels l n) (failed m) s = (fail n s, [])
replied list_locations (done []) s = (record s { locations = [] }, [])
replied list_locations (done (l ∷ ls)) s = choose_location l.id (record s { locations = l ∷ ls })
replied list_locations (failed m) s = (s, [])
replied (get i) (done p) s = (record s { expanded_product = some p }, [])
replied (get i) (failed m) s = (s, [])
replied (adjust i l d) (done u) s = (s, levels l (adjusted d) ∷ [])
replied (adjust i l d) (failed m) s = (fail (adjusted d) s, [])
replied (set i l n) (done u) s =
    (record s { stock_inputs = write i [] s.stock_inputs }, levels l (stock_set n) ∷ [])
replied (set i l n) (failed m) s = (fail (stock_set n) s, [])

pub data Event : Type 0 where
  typed : Text → Event
  -- The debounced search takes the value of the search.
  settled : Event
  location_chosen : ℕ → Event
  row_clicked : ℕ → Event
  stock_typed : ℕ → Text → Event
  set_clicked : ℕ → Event
  adjust_clicked : ℕ → ℤ → Event
  -- A message of the web socket.
  stock_changed : InventoryUpdate → Event

-- The expanded row has the fields for the stock of this item, which it takes by the number of a
-- variant.
abbrev pub stock_shown : ℕ → State → Bool
stock_shown i s =
    not s.loading && any (λ p. is_expanded p.id s) s.products && elim s.expanded_product [
      | none ↦ false
      | some p ↦
          any (λ v. elim (level_of v.id s.inventory) [ none ↦ false | some l ↦ has_item i l ])
            p.variants
    ]

abbrev pub is_step : ℤ → Bool
is_step (pos n) = n == 1 || n == 10
is_step (negsuc n) = n == 0

unfoldable pub is_offered : Event → State → Bool
unfolding level_of
is_offered (typed t) s = true
is_offered settled s = not (text_eq s.debounced s.search)
is_offered (location_chosen i) s = ltb 1 (length s.locations) && any (λ l. l.id == i) s.locations
is_offered (row_clicked i) s = not s.loading && any (λ p. p.id == i) s.products
is_offered (stock_typed i t) s = stock_shown i s
is_offered (set_clicked i) s = stock_shown i s
is_offered (adjust_clicked i d) s = stock_shown i s && is_step d
is_offered (stock_changed u) s = true

module _ (parse_int : Text → Option ℤ) where
  -- `setStock`, up to the request.
  unfoldable pub set_stock : ℕ → State → List Request
  set_stock i s = elim (parse_int (s.stock_inputs i)) [
    | none ↦ []
    | some z ↦ elim z [ negsuc n ↦ [] | pos n ↦ set i s.selected_location_id n ∷ [] ]
  ]

  unfoldable pub react : Event → State → State × List Request
  unfolding load choose_location expand update_inventory set_stock
  react (typed t) s = (record s { search = t }, [])
  react settled s = load (record s { debounced = s.search })
  react (location_chosen i) s = choose_location i s
  react (row_clicked i) s = expand i s
  react (stock_typed i t) s = (record s { stock_inputs = write i t s.stock_inputs }, [])
  react (set_clicked i) s = (s, set_stock i s)
  react (adjust_clicked i d) s = (s, adjust i s.selected_location_id d ∷ [])
  react (stock_changed u) s = (record s { inventory = update_inventory u s.inventory }, [])

  abbrev pub page : Machine
  page = record {
    State = State;
    Event = Event;
    Request = Request;
    Answer = Answer;
    is_offered = is_offered;
    react = react;
    replied = replied;
  }

-- The first render, by the text that the address has for the search, and after its two effects.
unfoldable pub start : Text → State × List Request
unfolding load
start search =
    let (s, sent) = load (record {
      products = [];
      loading = true;
      search = search;
      debounced = search;
      inventory = [];
      expanded_id = none;
      expanded_product = none;
      stock_inputs = λ i. [];
      locations = [];
      selected_location_id = 1;
      toasts = [];
    }) in
    (s, sent ++ load_inventory s nothing)
