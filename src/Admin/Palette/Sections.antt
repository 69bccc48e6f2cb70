-- ===== src/Admin/Palette/Sections.antt =====
-- CommandPalette.tsx: the sections of the list (`renderSection`), each with the places of its rows in
-- the flat list, by which the keys move.
use openmarket.Prelude.{
  ℕ, suc, ◌+◌, ◌≡◌, refl, ap, ◌∙◌, Bool, true, false, List, [], ◌∷◌, ◌++◌, map, filter, length, All,
  Bool-cases, inl, inr, arith,
}
use mathlib.Core.List.{append-nil}
use openmarket.Shared.Types.{ProductListWithPrice, OrderListItem, Customer}
use openmarket.Admin.Palette.Rows.{
  Kind, product, order, customer, Row, rows, product_row, order_row, customer_row,
}

abbrev pub same_kind : Kind → Kind → Bool
same_kind product product = true
same_kind order order = true
same_kind customer customer = true
same_kind _ _ = false

-- `results.map((r, index) => ({ r, index }))`.
abbrev pub numbered {ℓ} : {A : Type ℓ} → ℕ → List A → List (ℕ × A)
numbered i [] = []
numbered i (x ∷ xs) = (i, x) ∷ numbered (suc i) xs

unfoldable pub section : Kind → List Row → List (ℕ × Row)
section k rs = filter (λ p. same_kind p.1.kind k) (numbered 0 rs)

-- `SECTIONS.map(renderSection)`: the rows in the order in which they are shown.
unfoldable pub shown : List Row → List (ℕ × Row)
unfolding section
shown rs = section product rs ++ (section order rs ++ section customer rs)

numbered-append {ℓ} :
    {A : Type ℓ} (i : ℕ) (xs ys : List A)
    → numbered i (xs ++ ys) ≡ numbered i xs ++ numbered (i + length xs) ys
numbered-append i [] ys = rw (i_plus i)
  where
    i_plus : (i : ℕ) → i + 0 ≡ i
    i_plus i = omega arith
numbered-append i (x ∷ xs) ys =
    ap (λ r. (i, x) ∷ r)
      (numbered-append (suc i) xs ys ∙ ap (λ k. numbered (suc i) xs ++ numbered k ys) (omega arith))

filter-append {ℓ} :
    {A : Type ℓ} (p : A → Bool) (xs ys : List A) → filter p (xs ++ ys) ≡ filter p xs ++ filter p ys
filter-append p [] ys = refl
filter-append p (x ∷ xs) ys = elim (Bool-cases (p x)) [
  | inl q ↦ rw q (ap (λ r. x ∷ r) (filter-append p xs ys))
  | inr q ↦ rw q (filter-append p xs ys)
]

abbrev Has : Kind → List Row → Type 0
Has k rs = All (λ r. r.kind ≡ k) rs

same_kind_self : (k : Kind) → same_kind k k ≡ true
same_kind_self product = refl
same_kind_self order = refl
same_kind_self customer = refl

filter_own :
    (k : Kind) (i : ℕ) (rs : List Row)
    → Has k rs
    → filter (λ p. same_kind p.1.kind k) (numbered i rs) ≡ numbered i rs
filter_own k i [] h = refl
filter_own k i (r ∷ rs) (e, h) =
    let q : same_kind r.kind k ≡ true = rw e (same_kind_self k) in
    rw q (ap (λ t. (i, r) ∷ t) (filter_own k (suc i) rs h))

filter_other :
    (j k : Kind) (i : ℕ) (rs : List Row)
    → same_kind j k ≡ false
    → Has j rs
    → filter (λ p. same_kind p.1.kind k) (numbered i rs) ≡ []
filter_other j k i [] d h = refl
filter_other j k i (r ∷ rs) d (e, h) = rw (e, d) (filter_other j k (suc i) rs d h)

numbered_blocks :
    (a b c : List Row)
    → numbered 0 (a ++ (b ++ c))
      ≡ numbered 0 a ++ (numbered (length a) b ++ numbered (length a + length b) c)
numbered_blocks a b c =
    numbered-append 0 a (b ++ c)
    ∙ ap (λ r. numbered 0 a ++ r)
        (ap (λ i. numbered i (b ++ c)) (omega arith) ∙ numbered-append (length a) b c)

section_blocks :
    (k : Kind) (a b c : List Row)
    → section k (a ++ (b ++ c))
      ≡ filter (λ p. same_kind p.1.kind k) (numbered 0 a)
        ++ (filter (λ p. same_kind p.1.kind k) (numbered (length a) b)
            ++ filter (λ p. same_kind p.1.kind k) (numbered (length a + length b) c))
unfolding section
section_blocks k a b c = rw (numbered_blocks a b c) (
    filter-append (λ p. same_kind p.1.kind k) (numbered 0 a)
      (numbered (length a) b ++ numbered (length a + length b) c)
    ∙ ap (λ r. filter (λ p. same_kind p.1.kind k) (numbered 0 a) ++ r)
        (filter-append (λ p. same_kind p.1.kind k) (numbered (length a) b)
          (numbered (length a + length b) c)))

shown_blocks :
    (a b c : List Row)
    → Has product a
    → Has order b
    → Has customer c
    → shown (a ++ (b ++ c)) ≡ numbered 0 (a ++ (b ++ c))
unfolding shown
shown_blocks a b c p o q =
    rw
      (
        section_blocks product a b c,
        section_blocks order a b c,
        section_blocks customer a b c,
        numbered_blocks a b c,
        filter_own product 0 a p,
        filter_other order product (length a) b refl o,
        filter_other customer product (length a + length b) c refl q,
        filter_other product order 0 a refl p,
        filter_own order (length a) b o,
        filter_other customer order (length a + length b) c refl q,
        filter_other product customer 0 a refl p,
        filter_other order customer (length a) b refl o,
        filter_own customer (length a + length b) c q,
      )
      (simp (append-nil))

Has-product_rows : (ps : List ProductListWithPrice) → Has product (map product_row ps)
unfolding product_row
Has-product_rows [] = tt
Has-product_rows (p ∷ ps) = (refl, Has-product_rows ps)

Has-order_rows : (os : List OrderListItem) → Has order (map order_row os)
unfolding order_row
Has-order_rows [] = tt
Has-order_rows (o ∷ os) = (refl, Has-order_rows os)

Has-customer_rows : (cs : List Customer) → Has customer (map customer_row cs)
unfolding customer_row
Has-customer_rows [] = tt
Has-customer_rows (c ∷ cs) = (refl, Has-customer_rows cs)

-- The sections show each row of the flat list once, under the number of its place there, and in this
-- order from top to bottom; so the keys for up and down move by one row on the screen.
pub shown-rows :
    (ps : List ProductListWithPrice) (os : List OrderListItem) (cs : List Customer)
    → shown (rows ps os cs) ≡ numbered 0 (rows ps os cs)
unfolding rows
shown-rows ps os cs =
    shown_blocks (map product_row ps) (map order_row os) (map customer_row cs) (Has-product_rows ps)
      (Has-order_rows os) (Has-customer_rows cs)
