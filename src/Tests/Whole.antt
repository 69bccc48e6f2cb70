-- ===== src/Tests/Whole.antt =====
-- Whole numbers, with `none` for NaN, as an instance of the host's arithmetic. A decimal text is read
-- by its digits, and printed as a whole number.
use Prim.Native.Nat.{ℕ, zero, suc, ◌+◌, ◌-◌, ◌*◌, ◌/◌, ◌%◌, max, min}
use native.Mathlib.Nat.{le-div_iff_mul-le, div_self, mul-le-mul_right}
use native.Mathlib.Omega.{div_any}
use openmarket.Prelude.{
  ◌≡◌, ◌≤◌, ◌<◌, refl, ap, leb→le, Bool, true, false, Option, none, some, [], ◌∷◌, Text, Number,
  IsIeee, IsScaled, codes, is_digit, is_truthy, leb, ltb, if◌then◌else◌, arith,
}

abbrev pub Whole : Type 0
Whole = Option ℕ

abbrev lift : (ℕ → ℕ → ℕ) → Whole → Whole → Whole
lift f (some a) (some b) = some (f a b)
lift f _ _ = none

abbrev le : Whole → Whole → Bool
le (some a) (some b) = leb a b
le _ _ = false

abbrev is_number : Whole → Bool
is_number (some a) = true
is_number none = false

abbrev read : ℕ → Text → ℕ
read acc [] = acc
read acc (c ∷ t) = read (if is_digit c then acc * 10 + (c - 48) else acc) t

abbrev read_first : Text → Whole
read_first [] = none
read_first (c ∷ t) = if is_digit c then some (read 0 (c ∷ t)) else none

print_from : ℕ → ℕ → Text → Text
print_from zero n acc = (48 + n % 10) ∷ acc
print_from (suc f) n acc =
    let more = print_from f (n / 10) ((48 + n % 10) ∷ acc) in
    if ltb n 10 then (48 + n) ∷ acc else more

unfoldable pub print : Whole → Text
unfolding print_from
print none = codes "NaN"
print (some n) = print_from 20 n []

instance abbrev pub whole : Number Whole
whole = record {
  of_ℕ = some;
  add = lift ◌+◌;
  sub = lift ◌-◌;
  mul = lift ◌*◌;
  div = lift ◌/◌;
  ceil = λ x. x;
  max = lift max;
  min = lift min;
  le = le;
  is_finite = is_number;
  parse_float = read_first;
  to_fixed = λ d x. print x;
}

print_from_truthy : (f n : ℕ) (acc : Text) → is_truthy (some (print_from f n acc)) ≡ true
unfolding print_from
print_from_truthy zero n acc = refl
print_from_truthy (suc f) n acc = ground (arith, print_from_truthy f (n / 10) ((48 + n % 10) ∷ acc))

pub print_truthy : (x : Whole) → is_truthy (some (print x)) ≡ true
unfolding print
print_truthy none = refl
print_truthy (some n) = print_from_truthy 20 n []

pub whole-IsIeee : IsIeee Whole
whole-IsIeee = ground arith

whole_div_mono :
    (a b c : Whole)
    → is_number c ≡ true
    → le (some 1) c ≡ true
    → le a b ≡ true
    → le (lift ◌/◌ a c) (lift ◌/◌ b c) ≡ true
whole_div_mono (some a) (some b) (some c) f h k =
    let q : (a / c) * c ≤ a = omega (arith, div_any a c) in
    let pos : 0 < c = ground (arith, h) in
    let r : a / c ≤ b / c =
      (le-div_iff_mul-le {k = c} {x = a / c} {y = b} pos).1 (ground (arith, q, k)) in
    ground (arith, r)
whole_div_mono _ _ _ f h k = ground (arith, f, h, k)

whole_div_self : (c : Whole) → is_number c ≡ true → le (some 1) c ≡ true → lift ◌/◌ c c ≡ some 1
whole_div_self none f h = cc
whole_div_self (some c) f h = let pos : 0 < c = ground (arith, h) in ap some (div_self {n = c} pos)

whole_mul_mono :
    (a b c : Whole)
    → is_number c ≡ true
    → le (some 1) c ≡ true
    → le a b ≡ true
    → le (lift ◌*◌ a c) (lift ◌*◌ b c) ≡ true
whole_mul_mono (some a) (some b) (some c) f h k =
    let q : a * c ≤ b * c = mul-le-mul_right c (leb→le a b k) in ground (arith, q)
whole_mul_mono _ _ _ f h k = ground (arith, f, h, k)

pub whole-IsScaled : IsScaled Whole
whole-IsScaled = record {
  of_ℕ_mono = λ a b h. ground (arith, h);
  of_ℕ_finite = λ a h. refl;
  max_finite = λ a b h k. ground (arith, h, k);
  refl_of_le_left = λ a b h. ground (arith, h);
  finite_refl = λ a h. ground (arith, h);
  le-max_right = λ a b h k. ground (arith, h, k);
  max-le = λ a b c h k. ground (arith, h, k);
  div_mono = whole_div_mono;
  div_self = whole_div_self;
  mul_mono = whole_mul_mono;
  one_mul = λ c. ground arith;
}
