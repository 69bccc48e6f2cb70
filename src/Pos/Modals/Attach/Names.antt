-- ===== src/Pos/Modals/Attach/Names.antt =====
-- CustomerAttachModal.tsx: how the name that was typed is divided into a first and a last name.
use mathlib.Core.List.{append_assoc, append-nil}
use openmarket.Prelude.{
  ℕ, ◌≡◌, ◌↔◌, ◌⊎◌, inl, inr, refl, sym, ap, ◌∙◌, Bool, true, false, List, [], ◌∷◌, ◌++◌,
  if◌then◌else◌, is_empty, is_filled, is_space, trim, trim_start, trim_end, any, Text, arith,
  Bool-cases,
}
use openmarket.Shared.Csv.{join}
use openmarket.Pos.Modals.Attach.{
  State, create, split_spaces, first_of, rest_of, body_of, create_customer,
}

-- The text with each run of white space replaced by one space.
unfoldable pub collapse : Bool → Text → Text
collapse gap [] = []
collapse gap (c ∷ s) =
    let in_gap = collapse true s in
    let go_on = collapse false s in
    if is_space c then if gap then in_gap else 32 ∷ in_gap else c ∷ go_on

join-cons :
    (sep : ℕ) (x : Text) (xs : List Text)
    → is_empty xs ≡ false
    → join sep (x ∷ xs) ≡ x ++ sep ∷ join sep xs
unfolding join
join-cons sep x [] h = ground (arith, h)
join-cons sep x (y ∷ ys) h = refl

split_spaces-nonempty : (gap : Bool) (w s : Text) → is_empty (split_spaces gap w s) ≡ false
unfolding split_spaces
split_spaces-nonempty gap w [] = refl
split_spaces-nonempty gap w (c ∷ s) =
    ground (arith, split_spaces-nonempty true w s, split_spaces-nonempty false (w ++ c ∷ []) s)

join-one : (sep : ℕ) (x : Text) → join sep (x ∷ []) ≡ x
unfolding join
join-one sep x = refl

join-split_spaces : (gap : Bool) (w s : Text) → join 32 (split_spaces gap w s) ≡ w ++ collapse gap s
unfolding split_spaces collapse
join-split_spaces gap w [] = join-one 32 w ∙ sym (append-nil w)
join-split_spaces true w (c ∷ s) = elim (Bool-cases (is_space c)) [
  | inl q ↦ rw q (join-split_spaces true w s)
  | inr q ↦
      rw q (join-split_spaces false (w ++ c ∷ []) s ∙ append_assoc w (c ∷ []) (collapse false s))
]
join-split_spaces false w (c ∷ s) = elim (Bool-cases (is_space c)) [
  | inl q ↦ rw q (
      join-cons 32 w (split_spaces true [] s) (split_spaces-nonempty true [] s)
      ∙ ap (λ t. w ++ 32 ∷ t) (join-split_spaces true [] s))
  | inr q ↦
      rw q (join-split_spaces false (w ++ c ∷ []) s ∙ append_assoc w (c ∷ []) (collapse false s))
]

any-append :
    (w : Text) (c : ℕ)
    → any is_space w ≡ false
    → is_space c ≡ false
    → any is_space (w ++ c ∷ []) ≡ false
any-append [] c h k = ground arith
any-append (d ∷ w) c h k = ground (arith, any-append w c)

first_of-split_spaces :
    (gap : Bool) (w s : Text)
    → any is_space w ≡ false
    → any is_space (first_of (split_spaces gap w s)) ≡ false
unfolding split_spaces
first_of-split_spaces gap w [] h = h
first_of-split_spaces gap w (c ∷ s) h = ground (
  arith,
  first_of-split_spaces true w s,
  any-append w c,
  first_of-split_spaces false (w ++ c ∷ []) s,
)

append_nonempty : (w : Text) (c : ℕ) → is_empty (w ++ c ∷ []) ≡ false
append_nonempty [] c = refl
append_nonempty (d ∷ w) c = refl

first_of-nonempty :
    (gap : Bool) (w s : Text)
    → is_empty w ≡ false
    → is_empty (first_of (split_spaces gap w s)) ≡ false
unfolding split_spaces
first_of-nonempty gap w [] h = h
first_of-nonempty gap w (c ∷ s) h = ground (
  arith,
  first_of-nonempty true w s,
  append_nonempty w c,
  first_of-nonempty false (w ++ c ∷ []) s,
)

trim_start-head :
    (s : Text)
    → (trim_start s ≡ []) ⊎ ((c : ℕ) × (r : Text) × (trim_start s ≡ c ∷ r) × (is_space c ≡ false))
unfolding trim_start
trim_start-head [] = inl refl
trim_start-head (c ∷ s) = elim (Bool-cases (is_space c)) [
  | inl q ↦ rw q (trim_start-head s)
  | inr q ↦ rw q (inr (c, s, refl, q))
]

trim_end-cons : (c : ℕ) (s : Text) → is_space c ≡ false → trim_end (c ∷ s) ≡ c ∷ trim_end s
unfolding trim_end
trim_end-cons c s h = ground (arith, h)

trim-head :
    (s : Text) → is_filled s ≡ true → (c : ℕ) × (r : Text) × (trim s ≡ c ∷ r) × (is_space c ≡ false)
unfolding trim is_filled
trim-head s h = elim (trim_start-head s) [
  | inl q ↦ ground (arith, q, h)
  | inr (c, r, q, k) ↦ (c, trim_end r, ap trim_end q ∙ trim_end-cons c r k, k)
]

-- The parts of a name that begins with a character, joined again.
abbrev pub IsDivided : Text → Text → Text → Type 0
IsDivided name first last =
    ((last ≡ []) × (first ≡ collapse false name)) ⊎ (first ++ 32 ∷ last ≡ collapse false name)

divided :
    (parts : List Text) (name : Text)
    → is_empty parts ≡ false
    → join 32 parts ≡ collapse false name
    → IsDivided name (first_of parts) (join 32 (rest_of parts))
unfolding join
divided [] name h k = ground (arith, h)
divided (x ∷ []) name h k = inl (refl, k)
divided (x ∷ y ∷ ys) name h k = inr k

head_kept :
    (c : ℕ) (r : Text)
    → is_space c ≡ false
    → is_empty (first_of (split_spaces false [] (c ∷ r))) ≡ false
unfolding split_spaces
head_kept c r k = rw k (first_of-nonempty false (c ∷ []) r refl)

-- With a name that is not blank a customer is created exactly when a phone is given too, and the body
-- has the trimmed phone. Its first name is not empty and has no white space; and the first and the last
-- name, joined by a space, or the first name alone, where the last is empty, are the name that was
-- typed, trimmed and with each run of white space made one space.
pub create_customer_lem :
    (s : State)
    → is_filled s.name ≡ true
    → let b = body_of s in
      (((create_customer s).1 ≡ create b ∷ []) ↔ (is_filled s.phone ≡ true))
      × (b.phone ≡ trim s.phone)
      × (is_empty b.first_name ≡ false)
      × (any is_space b.first_name ≡ false)
      × IsDivided (trim s.name) b.first_name b.last_name
unfolding create_customer body_of
create_customer_lem s h =
    let (c, r, q, k) = trim-head s.name h in
    let parts = split_spaces false [] (trim s.name) in
    (
      ground arith,
      refl,
      rw q (head_kept c r k),
      first_of-split_spaces false [] (trim s.name) refl,
      divided parts (trim s.name) (split_spaces-nonempty false [] (trim s.name))
          (join-split_spaces false [] (trim s.name)),
    )
