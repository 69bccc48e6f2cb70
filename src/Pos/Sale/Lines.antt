-- ===== src/Pos/Sale/Lines.antt =====
-- SalePage.tsx: what the operations on the lines of a sale keep. A line is weighed if it has a
-- weight; the others are counted by the piece, one line for each variant.
use openmarket.Prelude.{
  ℕ, zero, suc, ◌+◌, ◌≤◌, ◌<◌, ◌≡◌, refl, inl, inr, Bool, none, some, List, [], ◌∷◌, ◌++◌, map,
  arith, ℤ, pos, negsuc, if◌then◌else◌, find, filter, is_truthy, Text, All, All-append, All-filter,
  Option-cases,
}
use openmarket.Shared.Types.{ProductVariant}
use openmarket.Pos.Sale.Items.{
  SaleItem, is_unit_of, bump, with_quantity, keeps, add_unit, add_weighed, update_qty, remove_at,
}

-- The lines by the piece of variant `j`.
unfoldable pub count_unit : ℕ → List SaleItem → ℕ
count_unit j [] = 0
count_unit j (x ∷ xs) = (if is_unit_of j x then 1 else 0) + count_unit j xs

-- The weighed lines.
abbrev pub is_weighed : SaleItem → Bool
is_weighed i = is_truthy i.quantity_kg

abbrev pub weighed : List SaleItem → List SaleItem
weighed = filter is_weighed

abbrev pub IsPositive : SaleItem → Type 0
IsPositive i = 0 < i.quantity

pub record IsValid (items : List SaleItem) : Type 0 where
  pub distinct : (j : ℕ) → count_unit j items ≤ 1
  pub positive : All IsPositive items

pub nil-IsValid : IsValid []
unfolding count_unit
nil-IsValid = record { distinct = λ j. omega arith; positive = tt }

count_unit-append :
    (j : ℕ) (xs ys : List SaleItem) → count_unit j (xs ++ ys) ≡ count_unit j xs + count_unit j ys
unfolding count_unit
count_unit-append j [] ys = omega arith
count_unit-append j (x ∷ xs) ys = omega (arith, count_unit-append j xs ys)

count_unit-bump : (i j : ℕ) (xs : List SaleItem) → count_unit j (map (bump i) xs) ≡ count_unit j xs
unfolding count_unit
count_unit-bump i j [] = refl
count_unit-bump i j (x ∷ xs) = ground (arith, count_unit-bump i j xs)

count_unit-with_quantity :
    (i j q : ℕ) (xs : List SaleItem) → count_unit j (map (with_quantity i q) xs) ≡ count_unit j xs
unfolding count_unit
count_unit-with_quantity i j q [] = refl
count_unit-with_quantity i j q (x ∷ xs) = ground (arith, count_unit-with_quantity i j q xs)

count_unit-filter :
    (i j : ℕ) (xs : List SaleItem) → count_unit j (filter (keeps i) xs) ≤ count_unit j xs
unfolding count_unit
count_unit-filter i j [] = omega arith
count_unit-filter i j (x ∷ xs) = ground (arith, count_unit-filter i j xs)

count_unit-remove_at :
    (k j : ℕ) (xs : List SaleItem) → count_unit j (remove_at k xs) ≤ count_unit j xs
unfolding count_unit remove_at
count_unit-remove_at k j [] = omega arith
count_unit-remove_at zero j (x ∷ xs) = ground arith
count_unit-remove_at (suc k) j (x ∷ xs) = ground (arith, count_unit-remove_at k j xs)

count_unit-find-none :
    (i : ℕ) (xs : List SaleItem) → find (is_unit_of i) xs ≡ none → count_unit i xs ≡ 0
unfolding count_unit
count_unit-find-none i [] h = refl
count_unit-find-none i (x ∷ xs) h = ground (arith, count_unit-find-none i xs)

bump-IsPositive :
    (i : ℕ) (xs : List SaleItem) → All IsPositive xs → All IsPositive (map (bump i) xs)
bump-IsPositive i [] h = tt
bump-IsPositive i (x ∷ xs) h = (ground arith, bump-IsPositive i xs h.1)

with_quantity-IsPositive :
    (i q : ℕ) (xs : List SaleItem)
    → All IsPositive xs
    → All IsPositive (map (with_quantity i (suc q)) xs)
with_quantity-IsPositive i q [] h = tt
with_quantity-IsPositive i q (x ∷ xs) h = (ground arith, with_quantity-IsPositive i q xs h.1)

remove_at-IsPositive :
    (k : ℕ) (xs : List SaleItem) → All IsPositive xs → All IsPositive (remove_at k xs)
unfolding remove_at
remove_at-IsPositive k [] h = tt
remove_at-IsPositive zero (x ∷ xs) h = h.1
remove_at-IsPositive (suc k) (x ∷ xs) h = (h.0, remove_at-IsPositive k xs h.1)

pub add_unit-IsValid :
    (title : Text) (v : ProductVariant) (items : List SaleItem)
    → IsValid items
    → IsValid (add_unit title v items)
unfolding add_unit count_unit
add_unit-IsValid title v items h = elim (Option-cases (find (is_unit_of v.id) items)) [
  | inl e ↦
      let last : List SaleItem =
        record { variant = v; product_title = title; quantity = 1; quantity_kg = none } ∷ [] in
      rw (e, add_unit)
        record {
          distinct = λ j. ground (
            arith,
            count_unit-append j items last,
            h.distinct j,
            count_unit-find-none v.id items e,
          );
          positive = All-append IsPositive items last h.positive (omega arith, tt);
        }
  | inr (x, e) ↦
      rw (e, add_unit)
        record {
          distinct = λ j. rw (count_unit-bump v.id j items) (h.distinct j);
          positive = bump-IsPositive v.id items h.positive;
        }
]

pub add_weighed-IsValid :
    (title : Text) (v : ProductVariant) (c : ℕ) (kg : Text) (items : List SaleItem)
    → IsValid items
    → IsValid (add_weighed title v (c ∷ kg) items)
unfolding add_weighed count_unit
add_weighed-IsValid title v c kg items h =
    let last : List SaleItem =
      record { variant = v; product_title = title; quantity = 1; quantity_kg = some (c ∷ kg) }
      ∷ [] in
    record {
      distinct = λ j. ground (arith, count_unit-append j items last, h.distinct j);
      positive = All-append IsPositive items last h.positive (omega arith, tt);
    }

filter-IsValid : (i : ℕ) (items : List SaleItem) → IsValid items → IsValid (filter (keeps i) items)
filter-IsValid i items h = record {
  distinct = λ j. omega (arith, count_unit-filter i j items, h.distinct j);
  positive = All-filter IsPositive (keeps i) items h.positive;
}

pub update_qty-IsValid :
    (i : ℕ) (z : ℤ) (items : List SaleItem) → IsValid items → IsValid (update_qty i z items)
unfolding update_qty
update_qty-IsValid i (negsuc n) items h = filter-IsValid i items h
update_qty-IsValid i (pos zero) items h = filter-IsValid i items h
update_qty-IsValid i (pos (suc n)) items h = record {
  distinct = λ j. rw (count_unit-with_quantity i j (suc n) items) (h.distinct j);
  positive = with_quantity-IsPositive i n items h.positive;
}

pub remove_at-IsValid :
    (k : ℕ) (items : List SaleItem) → IsValid items → IsValid (remove_at k items)
remove_at-IsValid k items h = record {
  distinct = λ j. omega (arith, count_unit-remove_at k j items, h.distinct j);
  positive = remove_at-IsPositive k items h.positive;
}
