-- ===== src/Store/Cart.antt =====
-- frontend/packages/store/src/store/cartStore.tsx: the cart of the storefront and its operations.
-- A setter of the source maps the previous list of items to the next one, and so do these.
pub mod Counts
pub mod Validity
pub mod Quantities
pub mod Storage
use openmarket.Prelude.{
  ℕ, zero, suc, ◌+◌, Bool, not, Option, none, some, List, [], ◌∷◌, ◌++◌, map, foldl, Number, nought,
  ℤ, pos, negsuc, ◌==◌, if◌then◌else◌, find, filter, Text,
}
use openmarket.Shared.Types.{CartItem, Product, ProductVariant}

abbrev pub has_id : ℕ → CartItem → Bool
has_id i item = item.variant.id == i

abbrev pub bump : ℕ → CartItem → CartItem
bump i item = if has_id i item then record item { quantity = item.quantity + 1 } else item

abbrev pub with_quantity : ℕ → ℕ → CartItem → CartItem
with_quantity i q item = if has_id i item then record item { quantity = q } else item

-- A variant that is in the cart already is counted up; a new one goes to the end.
unfoldable pub add_item : Product → ProductVariant → List CartItem → List CartItem
add_item p v items = elim (find (has_id v.id) items) [
  | some existing ↦ map (bump v.id) items
  | none ↦ items ++ (record { variant = v; product = p; quantity = 1 } ∷ [])
]

unfoldable pub remove_item : ℕ → List CartItem → List CartItem
remove_item i = filter (λ item. not (has_id i item))

-- A quantity that is not positive removes the line.
unfoldable pub update_quantity : ℕ → ℤ → List CartItem → List CartItem
unfolding remove_item
update_quantity i (negsuc n) items = remove_item i items
update_quantity i (pos zero) items = remove_item i items
update_quantity i (pos (suc n)) items = map (with_quantity i (suc n)) items

-- What the pages call, through the context.
pub data CartOp : Type 0 where
  add : Product → ProductVariant → CartOp
  remove : ℕ → CartOp
  update : ℕ → ℤ → CartOp
  clear : CartOp

unfoldable pub apply : CartOp → List CartItem → List CartItem
unfolding add_item remove_item update_quantity
apply (add p v) items = add_item p v items
apply (remove i) items = remove_item i items
apply (update i q) items = update_quantity i q items
apply clear items = []

unfoldable pub apply_all : List CartOp → List CartItem → List CartItem
apply_all [] items = items
apply_all (op ∷ ops) items = apply_all ops (apply op items)

module _ {N : Type 0} ⦃n : Number N⦄ where
  abbrev pub add_line : N → CartItem → N
  add_line sum item = n.add sum (n.mul (n.parse_float item.variant.price) (n.of_ℕ item.quantity))

  unfoldable pub total : List CartItem → N
  total = foldl add_line nought
