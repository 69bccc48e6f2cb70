-- ===== src/Store/Cart/Quantities.antt =====
-- cartStore.tsx: the cart as an implementation of a map from variants to quantities.
use mathlib.Core.Path.{fun_ext}
use openmarket.Prelude.{
  ℕ, zero, suc, ◌+◌, ◌<◌, ◌≡◌, refl, inl, inr, List, [], ◌∷◌, arith, pos, negsuc, ◌==◌,
  if◌then◌else◌, find, Option-cases, All, ap, ◌∙◌,
}
use openmarket.Shared.Types.{CartItem, Product, ProductVariant}
use openmarket.Store.Cart.{
  has_id, add_item, remove_item, update_quantity, CartOp, add, remove, update, clear, apply,
  apply_all,
}
use openmarket.Store.Cart.Counts.{
  count_id, quantity_of, quantity_of-append, quantity_of-bump, quantity_of-with_quantity,
  quantity_of-filter, count_id-find-some, quantity_of_absent,
}
use openmarket.Store.Cart.Validity.{IsPositive, IsValid, apply-IsValid}

-- The specification: what an operation does to the number of pieces of each variant.
abbrev pub Pieces : Type 0
Pieces = ℕ → ℕ

abbrev pub spec : CartOp → Pieces → Pieces
spec (add p v) f j = if v.id == j then f j + 1 else f j
spec (remove i) f j = if i == j then 0 else f j
spec (update i (negsuc n)) f j = if i == j then 0 else f j
spec (update i (pos zero)) f j = if i == j then 0 else f j
spec (update i (pos (suc n))) f j = if i == j then (if f j == 0 then 0 else suc n) else f j
spec clear f j = 0

abbrev pub spec_all : List CartOp → Pieces → Pieces
spec_all [] f = f
spec_all (op ∷ ops) f = spec_all ops (spec op f)

-- The number of pieces of each variant.
abbrev pub pieces : List CartItem → Pieces
pieces items j = quantity_of j items

quantity_of_present :
    (j : ℕ) (xs : List CartItem) → All IsPositive xs → 0 < count_id j xs → 0 < quantity_of j xs
unfolding count_id quantity_of
quantity_of_present j [] h c = c
quantity_of_present j (x ∷ xs) h c = ground (arith, quantity_of_present j xs h.1)

add_item-spec :
    (p : Product) (v : ProductVariant) (items : List CartItem) (j : ℕ)
    → IsValid items
    → quantity_of j (add_item p v items) ≡ spec (add p v) (pieces items) j
unfolding add_item quantity_of
add_item-spec p v items j h = elim (Option-cases (find (has_id v.id) items)) [
  | inl e ↦
      let last : List CartItem = record { variant = v; product = p; quantity = 1 } ∷ [] in
      rw (e, add_item) (ground (arith, quantity_of-append 0 j items last))
  | inr (x, e) ↦
      rw (e, add_item, quantity_of-bump v.id j items)
        (ground (arith, h.distinct j, count_id-find-some v.id items x e))
]

-- One operation does to the pieces what the specification says.
pub apply-spec :
    (op : CartOp) (items : List CartItem) (j : ℕ)
    → IsValid items
    → quantity_of j (apply op items) ≡ spec op (pieces items) j
unfolding apply update_quantity remove_item quantity_of
apply-spec (add p v) items j h = add_item-spec p v items j h
apply-spec (remove i) items j h = quantity_of-filter i j items
apply-spec (update i (negsuc n)) items j h = quantity_of-filter i j items
apply-spec (update i (pos zero)) items j h = quantity_of-filter i j items
apply-spec (update i (pos (suc n))) items j h = rw (quantity_of-with_quantity i j (suc n) items) (
    ground
      (arith, h.distinct j, quantity_of_present j items h.positive, quantity_of_absent j items))
apply-spec clear items j h = refl

-- Any sequence of operations on a valid cart does to the number of pieces of every variant what the
-- same sequence does on the specification, a map from variants to numbers.
pub apply_all-spec :
    (ops : List CartOp) (items : List CartItem)
    → IsValid items
    → pieces (apply_all ops items) ≡ spec_all ops (pieces items)
unfolding apply_all
apply_all-spec [] items h = refl
apply_all-spec (op ∷ ops) items h =
    apply_all-spec ops (apply op items) (apply-IsValid op items h)
    ∙ ap (spec_all ops) (fun_ext (λ j. apply-spec op items j h))
