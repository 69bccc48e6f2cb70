-- ===== src/Store/Cart/Validity.antt =====
-- cartStore.tsx: a cart built by its operations holds every variant at most once, and no line is
-- empty.
use openmarket.Prelude.{
  ℕ, zero, suc, ◌≤◌, ◌<◌, inl, inr, not, List, [], ◌∷◌, map, arith, pos, negsuc, find, All,
  All-append, All-filter, Option-cases,
}
use openmarket.Shared.Types.{CartItem, Product, ProductVariant}
use openmarket.Store.Cart.{
  has_id, bump, with_quantity, add_item, remove_item, update_quantity, CartOp, add, remove, update,
  clear, apply, apply_all,
}
use openmarket.Store.Cart.Counts.{
  count_id, count_id-append, count_id-bump, count_id-with_quantity, count_id-filter,
  count_id-find-none,
}

abbrev pub IsPositive : CartItem → Type 0
IsPositive item = 0 < item.quantity

pub record IsValid (items : List CartItem) : Type 0 where
  pub distinct : (j : ℕ) → count_id j items ≤ 1
  pub positive : All IsPositive items

pub nil-IsValid : IsValid []
unfolding count_id
nil-IsValid = record { distinct = λ j. omega arith; positive = tt }

bump-IsPositive :
    (i : ℕ) (xs : List CartItem) → All IsPositive xs → All IsPositive (map (bump i) xs)
bump-IsPositive i [] h = tt
bump-IsPositive i (x ∷ xs) h = (ground arith, bump-IsPositive i xs h.1)

with_quantity-IsPositive :
    (i q : ℕ) (xs : List CartItem)
    → All IsPositive xs
    → All IsPositive (map (with_quantity i (suc q)) xs)
with_quantity-IsPositive i q [] h = tt
with_quantity-IsPositive i q (x ∷ xs) h = (ground arith, with_quantity-IsPositive i q xs h.1)

pub add_item-IsValid :
    (p : Product) (v : ProductVariant) (items : List CartItem)
    → IsValid items
    → IsValid (add_item p v items)
unfolding add_item count_id
add_item-IsValid p v items h = elim (Option-cases (find (has_id v.id) items)) [
  | inl e ↦
      let last : List CartItem = record { variant = v; product = p; quantity = 1 } ∷ [] in
      rw (e, add_item)
        record {
          distinct = λ j. ground (
            arith,
            count_id-append 0 j items last,
            h.distinct j,
            count_id-find-none v.id items e,
          );
          positive = All-append IsPositive items last h.positive (omega arith, tt);
        }
  | inr (x, e) ↦
      rw (e, add_item)
        record {
          distinct = λ j. rw (count_id-bump v.id j items) (h.distinct j);
          positive = bump-IsPositive v.id items h.positive;
        }
]

pub remove_item-IsValid :
    (i : ℕ) (items : List CartItem) → IsValid items → IsValid (remove_item i items)
unfolding remove_item
remove_item-IsValid i items h = record {
  distinct = λ j. ground (arith, count_id-filter i j items, h.distinct j);
  positive = All-filter IsPositive (λ x. not (has_id i x)) items h.positive;
}

pub apply-IsValid : (op : CartOp) (items : List CartItem) → IsValid items → IsValid (apply op items)
unfolding apply update_quantity
apply-IsValid (add p v) items h = add_item-IsValid p v items h
apply-IsValid (remove i) items h = remove_item-IsValid i items h
apply-IsValid (update i (negsuc n)) items h = remove_item-IsValid i items h
apply-IsValid (update i (pos zero)) items h = remove_item-IsValid i items h
apply-IsValid (update i (pos (suc n))) items h = record {
  distinct = λ j. rw (count_id-with_quantity i j (suc n) items) (h.distinct j);
  positive = with_quantity-IsPositive i n items h.positive;
}
apply-IsValid clear items h = nil-IsValid

-- From a valid cart every sequence of additions, removals, changes of quantity and clearings leads
-- to a valid cart: each variant stands on at most one line, and every quantity is positive.
pub apply_all-IsValid :
    (ops : List CartOp) (items : List CartItem) → IsValid items → IsValid (apply_all ops items)
unfolding apply_all
apply_all-IsValid [] items h = h
apply_all-IsValid (op ∷ ops) items h =
    apply_all-IsValid ops (apply op items) (apply-IsValid op items h)
