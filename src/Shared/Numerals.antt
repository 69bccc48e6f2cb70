-- ===== src/Shared/Numerals.antt =====
-- `${n}` for a natural number n: its decimal digits.
use Prim.Native.Nat.{◌/◌, ◌%◌}
use openmarket.Prelude.{
  ℕ, zero, suc, ◌+◌, ◌-◌, ◌*◌, ◌<◌, ◌≡◌, ap, ◌∙◌, [], ◌∷◌, if◌then◌else◌, ◌==◌, Bool-cases, inl,
  inr, Text, arith,
}

-- The fuel is more than the number of digits.
unfoldable pub digits_from : ℕ → ℕ → Text → Text
digits_from zero n acc = acc
digits_from (suc fuel) n acc =
    let d = (48 + n % 10) ∷ acc in
    let more = digits_from fuel (n / 10) d in if n / 10 == 0 then d else more

unfoldable pub print : ℕ → Text
unfolding digits_from
print n = digits_from (n + 1) n []

read_onto : ℕ → Text → ℕ
read_onto n [] = n
read_onto n (c ∷ s) = read_onto (n * 10 + (c - 48)) s

-- The number that decimal digits stand for.
unfoldable pub read : Text → ℕ
unfolding read_onto
read s = read_onto 0 s

read_onto-digits_from :
    (fuel n : ℕ) (acc : Text) → n < fuel → read_onto 0 (digits_from fuel n acc) ≡ read_onto n acc
unfolding digits_from read_onto
read_onto-digits_from zero n acc h = absurd (omega (arith, h))
read_onto-digits_from (suc fuel) n acc h = elim (Bool-cases (n / 10 == 0)) [
  | inl q ↦ rw q (ap (λ k. read_onto k acc) (ground (arith, q)))
  | inr q ↦
      let d = (48 + n % 10) ∷ acc in
      rw q (
        read_onto-digits_from fuel (n / 10) d (ground (arith, q))
        ∙ ap (λ k. read_onto k acc) (omega arith))
]

-- The digits that are printed are those of the number: the fuel is enough.
pub read-print : (n : ℕ) → read (print n) ≡ n
unfolding read print
read-print n = read_onto-digits_from (n + 1) n [] (omega arith)
