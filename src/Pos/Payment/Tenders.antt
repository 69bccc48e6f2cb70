-- ===== src/Pos/Payment/Tenders.antt =====
-- PaymentCashModal.tsx: the amounts of the quick tender buttons.
use openmarket.Prelude.{
  ℕ, zero, suc, ◌≤◌, ◌≡◌, inl, inr, true, List, [], ◌∷◌, ◌++◌, Number, IsIeee, num_eq,
  if◌then◌else◌, arith, any, filter, take, Bool-cases, length, All, All-take, length-take-le,
}

module _ {N : Type 0} ⦃n : Number N⦄ where
  -- `new Set`: the first of equal numbers is kept.
  distinct_from : List N → List N → List N
  distinct_from seen [] = []
  distinct_from seen (x ∷ xs) =
      if any (num_eq x) seen then distinct_from seen xs else x ∷ distinct_from (seen ++ x ∷ []) xs

  -- `sort((a, b) => a - b)`.
  insert : N → List N → List N
  insert x [] = x ∷ []
  insert x (y ∷ ys) = if n.le x y then x ∷ y ∷ ys else y ∷ insert x ys

  sort : List N → List N
  unfolding insert
  sort [] = []
  sort (x ∷ xs) = insert x (sort xs)

  abbrev banknotes : List N
  banknotes = n.of_ℕ 5 ∷ n.of_ℕ 10 ∷ n.of_ℕ 20 ∷ n.of_ℕ 50 ∷ n.of_ℕ 100 ∷ n.of_ℕ 200 ∷ []

  -- The total, rounded up to a cent.
  abbrev pub exact : N → N
  exact total = n.div (n.ceil (n.mul total (n.of_ℕ 100))) (n.of_ℕ 100)

  unfoldable pub quick_tenders : N → List N
  unfolding distinct_from sort insert
  quick_tenders total =
      take 5 (sort (distinct_from [] (exact total ∷ filter (λ b. n.le total b) banknotes)))

  abbrev pub Covers : N → N → Type 0
  Covers total t = n.le total t ≡ true

  -- In ascending order.
  abbrev pub IsAscending : List N → Type 0
  IsAscending [] = Unit
  IsAscending (x ∷ []) = Unit
  IsAscending (x ∷ y ∷ ys) = (n.le x y ≡ true) × IsAscending (y ∷ ys)

  distinct_from-All : (P : N → Type 0) (seen xs : List N) → All P xs → All P (distinct_from seen xs)
  unfolding distinct_from
  distinct_from-All P seen [] h = tt
  distinct_from-All P seen (x ∷ xs) h = elim (Bool-cases (any (num_eq x) seen)) [
    | inl e ↦ rw e (distinct_from-All P seen xs h.1)
    | inr e ↦ rw e (h.0, distinct_from-All P (seen ++ x ∷ []) xs h.1)
  ]

  insert-All : (P : N → Type 0) (x : N) (ys : List N) → P x → All P ys → All P (insert x ys)
  unfolding insert
  insert-All P x [] p h = (p, tt)
  insert-All P x (y ∷ ys) p h = elim (Bool-cases (n.le x y)) [
    | inl e ↦ rw e (p, h)
    | inr e ↦ rw e (h.0, insert-All P x ys p h.1)
  ]

  sort-All : (P : N → Type 0) (xs : List N) → All P xs → All P (sort xs)
  unfolding sort
  sort-All P [] h = tt
  sort-All P (x ∷ xs) h = insert-All P x (sort xs) h.0 (sort-All P xs h.1)

  abbrev IsNum : N → Type 0
  IsNum x = n.le x x ≡ true

  take-IsAscending : (k : ℕ) (xs : List N) → IsAscending xs → IsAscending (take k xs)
  take-IsAscending zero xs h = tt
  take-IsAscending (suc k) [] h = tt
  take-IsAscending (suc zero) (x ∷ []) h = tt
  take-IsAscending (suc zero) (x ∷ y ∷ ys) h = tt
  take-IsAscending (suc (suc k)) (x ∷ []) h = tt
  take-IsAscending (suc (suc k)) (x ∷ y ∷ ys) h = (h.0, take-IsAscending (suc k) (y ∷ ys) h.1)

  filter-Covers : (total : N) (bs : List N) → All (Covers total) (filter (λ b. n.le total b) bs)
  filter-Covers total [] = tt
  filter-Covers total (b ∷ bs) = elim (Bool-cases (n.le total b)) [
    | inl e ↦ rw e (e, filter-Covers total bs)
    | inr e ↦ rw e (filter-Covers total bs)
  ]

  module _ (laws : IsIeee N) where
    open laws use {refl_of_le, le_total}

    insert-IsAscending :
        (x : N) (ys : List N) → IsNum x → All IsNum ys → IsAscending ys → IsAscending (insert x ys)
    unfolding insert
    insert-IsAscending x [] m k h = tt
    insert-IsAscending x (y ∷ []) m k h = ground (arith, le_total x y)
    insert-IsAscending x (y ∷ z ∷ zs) m k h =
        ground (arith, le_total x y, le_total x z, insert-IsAscending x (z ∷ zs) m k.1 h.1)

    sort-IsAscending : (xs : List N) → All IsNum xs → IsAscending (sort xs)
    unfolding sort
    sort-IsAscending [] k = tt
    sort-IsAscending (x ∷ xs) k =
        insert-IsAscending x (sort xs) k.0 (sort-All IsNum xs k.1) (sort-IsAscending xs k.1)

    Covers-IsNum : (total : N) (xs : List N) → All (Covers total) xs → All IsNum xs
    Covers-IsNum total [] h = tt
    Covers-IsNum total (x ∷ xs) h = (refl_of_le total x h.0, Covers-IsNum total xs h.1)

    -- At most five amounts are offered, in ascending order, and each of them covers the total, under
    -- the laws of IEEE arithmetic and if the total rounded up to a cent covers the total.
    pub quick_tenders_lem :
        (total : N)
        → Covers total (exact total)
        → (length (quick_tenders total) ≤ 5)
          × IsAscending (quick_tenders total)
          × All (Covers total) (quick_tenders total)
    unfolding quick_tenders
    quick_tenders_lem total c =
        let amounts : List N = exact total ∷ filter (λ b. n.le total b) banknotes in
        let offers = distinct_from [] amounts in
        let covered : All (Covers total) offers =
          distinct_from-All (Covers total) [] amounts (c, filter-Covers total banknotes) in
        (
          length-take-le 5 (sort offers),
          take-IsAscending 5 (sort offers)
              (sort-IsAscending offers (Covers-IsNum total offers covered)),
          All-take (Covers total) 5 (sort offers) (sort-All (Covers total) offers covered),
        )
