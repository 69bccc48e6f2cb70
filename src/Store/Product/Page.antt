-- ===== src/Store/Product/Page.antt =====
-- ProductDetailPage.tsx: the state of the page, the effect that loads the product, the updates from
-- the web socket, the choice of a variant and the button for the cart.
pub use openmarket.Shared.Machine.{Reply, done, failed}
use openmarket.Prelude.{
  ℕ, zero, suc, Bool, true, false, not, ◌&&◌, Option, none, some, List, [], ◌∷◌, if◌then◌else◌, ltb,
  ◌==◌, length, find, any, is_empty, is_some, Text, codes,
}
use openmarket.Shared.Types.{Product, ProductVariant, CartItem}
use openmarket.Shared.Machine.{Machine}
use openmarket.Store.Cart.{add_item}

pub record InventoryEvent : Type 0 where
  pub inventory_item_id : ℕ
  pub location_id : ℕ
  pub available : ℕ

-- The page, and the cart that it has from the context.
pub record State : Type 0 where
  -- The number in the address; none stands for one that is not finite.
  pub product_id : Option ℕ
  pub product : Option Product
  pub loading : Bool
  pub error : Text
  pub active_image : ℕ
  pub selected_variant_id : Option ℕ
  pub cart : List CartItem

pub data Request : Type 0 where
  -- `api.products.get`.
  get : ℕ → Request

pub data Event : Type 0 where
  -- Another address of the same page.
  went : Option ℕ → Event
  -- A message of the web socket.
  stock_changed : InventoryEvent → Event
  selected : ℕ → Event
  image_shown : ℕ → Event
  added : Event

-- The effect on `productId`.
unfoldable pub load : State → State × List Request
load s = elim s.product_id [
  | none ↦ (record s { error = codes "Invalid product link."; loading = false }, [])
  | some i ↦ (record s { loading = true; error = [] }, get i ∷ [])
]

unfoldable pub first_variant_id : List ProductVariant → Option ℕ
first_variant_id [] = none
first_variant_id (v ∷ vs) = some v.id

unfoldable pub replied : (r : Request) → Reply Product → State → State
unfolding first_variant_id
replied (get i) (done p) s = record s {
  product = some p;
  selected_variant_id = first_variant_id p.variants;
  active_image = 0;
  loading = false;
}
replied (get i) (failed m) s = record s {
  error = codes "We couldn’t load this product.";
  loading = false;
}

abbrev pub is_id : Option ℕ → ℕ → Bool
is_id none i = false
is_id (some j) i = j == i

unfoldable pub selected_variant : State → Option ProductVariant
selected_variant s = elim s.product [
  | none ↦ none
  | some p ↦ find (λ v. is_id s.selected_variant_id v.id) p.variants
]

-- `v.inventory_item_id != null && v.inventory_item_id === evt.inventory_item_id`.
abbrev pub is_stock_of : InventoryEvent → ProductVariant → Bool
is_stock_of e v = is_id v.inventory_item_id e.inventory_item_id

-- `xs.findIndex(p)`, which none stands for -1 in.
unfoldable pub find_index {ℓ} : {A : Type ℓ} → (A → Bool) → List A → Option ℕ
find_index p [] = none
find_index p (x ∷ xs) =
    let rest = find_index p xs in
    if p x then some 0 else elim rest [ none ↦ none | some i ↦ some (suc i) ]

-- A copy with another value at the index, `{ ...variants[idx], available: evt.available }`.
unfoldable pub set_available : ℕ → ℕ → List ProductVariant → List ProductVariant
set_available i n [] = []
set_available zero n (v ∷ vs) = record v { available = some n } ∷ vs
set_available (suc i) n (v ∷ vs) = v ∷ set_available i n vs

unfoldable pub restock : InventoryEvent → List ProductVariant → List ProductVariant
unfolding find_index set_available
restock e vs = elim (find_index (is_stock_of e) vs) [
  | none ↦ vs
  | some i ↦ set_available i e.available vs
]

-- `handleInventoryUpdate`.
unfoldable pub handle_inventory_update : InventoryEvent → State → State
unfolding restock
handle_inventory_update e s = elim s.product [
  | none ↦ s
  | some p ↦ record s { product = some (record p { variants = restock e p.variants }) }
]

abbrev pub is_zero : Option ℕ → Bool
is_zero none = false
is_zero (some n) = n == 0

abbrev pub available : State → Option ℕ
available s = elim (selected_variant s) [ none ↦ none | some v ↦ v.available ]

unfoldable pub sold_out : State → Bool
unfolding selected_variant
sold_out s = is_zero (available s)

-- `handleAdd`.
unfoldable pub handle_add : State → State
unfolding selected_variant sold_out
handle_add s = elim s.product [
  | none ↦ s
  | some p ↦ elim (selected_variant s) [
    | none ↦ s
    | some v ↦ if sold_out s then s else record s { cart = add_item p v s.cart }
  ]
]

-- The product is on the screen.
abbrev pub is_shown : State → Bool
is_shown s = not s.loading && is_empty s.error && is_some s.product

abbrev pub shown_variants : State → List ProductVariant
shown_variants s = elim s.product [ none ↦ [] | some p ↦ p.variants ]

abbrev pub shown_images : State → ℕ
shown_images s = elim s.product [ none ↦ 0 | some p ↦ length p.images ]

abbrev pub same_id : Option ℕ → Option ℕ → Bool
same_id none none = true
same_id none (some j) = false
same_id (some i) none = false
same_id (some i) (some j) = i == j

unfoldable pub is_offered : Event → State → Bool
unfolding selected_variant sold_out
is_offered (went i) s = not (same_id i s.product_id)
is_offered (stock_changed e) s = true
is_offered (selected i) s =
    is_shown s && ltb 1 (length (shown_variants s)) && any (λ v. i == v.id) (shown_variants s)
is_offered (image_shown i) s = is_shown s && ltb 1 (shown_images s) && ltb i (shown_images s)
is_offered added s = is_shown s && is_some (selected_variant s) && not (sold_out s)

unfoldable pub react : Event → State → State × List Request
unfolding load
react (went i) s = load (record s { product_id = i })
react (stock_changed e) s = (handle_inventory_update e s, [])
react (selected i) s = (record s { selected_variant_id = some i }, [])
react (image_shown i) s = (record s { active_image = i }, [])
react added s = (handle_add s, [])

-- The state of the first render, before its effect.
unfoldable pub initial : Option ℕ → List CartItem → State
initial i cart = record {
  product_id = i;
  product = none;
  loading = true;
  error = [];
  active_image = 0;
  selected_variant_id = none;
  cart = cart;
}

-- The first render at an address, after its effect.
unfoldable pub start : Option ℕ → List CartItem → State × List Request
unfolding initial load
start i cart = load (initial i cart)

abbrev pub page : Machine
page = record {
  State = State;
  Event = Event;
  Request = Request;
  Answer = λ r. Reply Product;
  is_offered = is_offered;
  react = react;
  replied = λ r a s. (replied r a s, []);
}
