-- ===== src/Store/Cart/Counts.antt =====
-- How often a variant stands in the cart, and how many pieces of it, under the list operations that
-- the cart is built from.
use openmarket.Prelude.{
  ℕ, ◌+◌, ◌*◌, ◌<◌, ◌≡◌, refl, not, none, some, List, [], ◌∷◌, ◌++◌, map, arith, ◌==◌,
  if◌then◌else◌, find, filter,
}
use openmarket.Shared.Types.{CartItem}
use openmarket.Store.Cart.{has_id, bump, with_quantity}

-- The lines with variant `j`.
unfoldable pub count_id : ℕ → List CartItem → ℕ
count_id j [] = 0
count_id j (x ∷ xs) = (if has_id j x then 1 else 0) + count_id j xs

-- The pieces of variant `j`.
unfoldable pub quantity_of : ℕ → List CartItem → ℕ
quantity_of j [] = 0
quantity_of j (x ∷ xs) = (if has_id j x then x.quantity else 0) + quantity_of j xs

module _ (i j : ℕ) where
  pub count_id-append :
      (xs ys : List CartItem) → count_id j (xs ++ ys) ≡ count_id j xs + count_id j ys
  unfolding count_id
  count_id-append [] ys = omega arith
  count_id-append (x ∷ xs) ys = omega (arith, count_id-append xs ys)

  pub quantity_of-append :
      (xs ys : List CartItem) → quantity_of j (xs ++ ys) ≡ quantity_of j xs + quantity_of j ys
  unfolding quantity_of
  quantity_of-append [] ys = omega arith
  quantity_of-append (x ∷ xs) ys = omega (arith, quantity_of-append xs ys)

  pub count_id-bump : (xs : List CartItem) → count_id j (map (bump i) xs) ≡ count_id j xs
  unfolding count_id
  count_id-bump [] = refl
  count_id-bump (x ∷ xs) = ground (arith, count_id-bump xs)

  -- Counting up adds one for each line of the variant.
  pub quantity_of-bump :
      (xs : List CartItem)
      → quantity_of j (map (bump i) xs)
        ≡ (if i == j then quantity_of j xs + count_id j xs else quantity_of j xs)
  unfolding count_id quantity_of
  quantity_of-bump [] = ground arith
  quantity_of-bump (x ∷ xs) = ground (arith, quantity_of-bump xs)

  pub count_id-with_quantity :
      (q : ℕ) (xs : List CartItem) → count_id j (map (with_quantity i q) xs) ≡ count_id j xs
  unfolding count_id
  count_id-with_quantity q [] = refl
  count_id-with_quantity q (x ∷ xs) = ground (arith, count_id-with_quantity q xs)

  pub quantity_of-with_quantity :
      (q : ℕ) (xs : List CartItem)
      → quantity_of j (map (with_quantity i q) xs)
        ≡ (if i == j then count_id j xs * q else quantity_of j xs)
  unfolding count_id quantity_of
  quantity_of-with_quantity q [] = ground arith
  quantity_of-with_quantity q (x ∷ xs) = ground (arith, quantity_of-with_quantity q xs)

  pub count_id-filter :
      (xs : List CartItem)
      → count_id j (filter (λ x. not (has_id i x)) xs) ≡ (if i == j then 0 else count_id j xs)
  unfolding count_id
  count_id-filter [] = ground arith
  count_id-filter (x ∷ xs) = ground (arith, count_id-filter xs)

  pub quantity_of-filter :
      (xs : List CartItem)
      → quantity_of j (filter (λ x. not (has_id i x)) xs) ≡ (if i == j then 0 else quantity_of j xs)
  unfolding quantity_of
  quantity_of-filter [] = ground arith
  quantity_of-filter (x ∷ xs) = ground (arith, quantity_of-filter xs)

-- `find` looks for a line of the variant, and fails exactly when there is none.
pub count_id-find-some :
    (i : ℕ) (xs : List CartItem) (y : CartItem) → find (has_id i) xs ≡ some y → 0 < count_id i xs
unfolding count_id
count_id-find-some i [] y h = ground arith
count_id-find-some i (x ∷ xs) y h = ground (arith, count_id-find-some i xs y)

pub count_id-find-none :
    (i : ℕ) (xs : List CartItem) → find (has_id i) xs ≡ none → count_id i xs ≡ 0
unfolding count_id
count_id-find-none i [] h = refl
count_id-find-none i (x ∷ xs) h = ground (arith, count_id-find-none i xs)

pub quantity_of_absent : (i : ℕ) (xs : List CartItem) → count_id i xs ≡ 0 → quantity_of i xs ≡ 0
unfolding count_id quantity_of
quantity_of_absent i [] h = refl
quantity_of_absent i (x ∷ xs) h = ground (arith, quantity_of_absent i xs)
