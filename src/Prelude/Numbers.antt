-- ===== src/Prelude/Numbers.antt =====
-- What the source does with JavaScript numbers that are not counts: prices, weights and sums. The
-- IEEE double arithmetic behind it is the host's, so the operations are an interface.
use Prim.Native.Nat.{ℕ, ◌≤◌}
use mathlib.Core.Path.{◌≡◌}
use mathlib.Core.Bool.{Bool, true, false, not, ◌&&◌}
use openmarket.Prelude.Strings.{Text}

pub record Number (N : Type 0) : Type 0 where
  pub of_ℕ : ℕ → N
  pub add : N → N → N
  pub sub : N → N → N
  pub mul : N → N → N
  pub div : N → N → N
  pub ceil : N → N
  pub max : N → N → N
  pub min : N → N → N
  -- `a <= b`, which is false at NaN.
  pub le : N → N → Bool
  pub is_finite : N → Bool
  pub parse_float : Text → N
  -- `x.toFixed(d)` is `to_fixed d x`.
  pub to_fixed : ℕ → N → Text

module _ {N : Type 0} ⦃n : Number N⦄ where
  abbrev pub nought : N
  nought = n.of_ℕ 0

  -- `a < b`, `a === b` and `Number.isNaN(a)`. IEEE orders them by `<=`: at NaN all are false, and
  -- the two zeros are equal.
  abbrev pub lt : N → N → Bool
  lt a b = n.le a b && not (n.le b a)

  abbrev pub num_eq : N → N → Bool
  num_eq a b = n.le a b && n.le b a

  abbrev pub is_nan : N → Bool
  is_nan a = not (n.le a a)

  -- `if (x)` of a number: NaN and zero are falsy.
  abbrev pub is_nonzero : N → Bool
  is_nonzero x = not (is_nan x) && not (num_eq x nought)

-- What IEEE arithmetic promises of the operations that are used, for some of which the sides must not
-- be NaN: the order is transitive and total, `max` bounds both sides, and adding or multiplying what
-- is not negative gives what is not negative, whatever the rounding.
pub record IsIeee (N : Type 0) ⦃n : Number N⦄ : Type 0 where
  pub nought_refl : n.le nought nought ≡ true
  pub le_trans : (a b c : N) → n.le a b ≡ true → n.le b c ≡ true → n.le a c ≡ true
  pub refl_of_le : (a b : N) → n.le a b ≡ true → n.le b b ≡ true
  pub le_total : (a b : N) → n.le a a ≡ true → n.le b b ≡ true → n.le a b ≡ false → n.le b a ≡ true
  pub le-max : (a b : N) → n.le b b ≡ true → n.le a a ≡ true → n.le a (n.max a b) ≡ true
  pub le-add : (a b : N) → n.le nought a ≡ true → n.le nought b ≡ true → n.le a (n.add a b) ≡ true
  pub mul_nonneg :
      (a b : N)
      → n.is_finite a ≡ true
      → n.is_finite b ≡ true
      → n.le nought a ≡ true
      → n.le nought b ≡ true
      → n.le nought (n.mul a b) ≡ true

-- What it promises of ratios, since rounding is monotone and exact where the result is a number of the
-- type; the natural numbers to 2 ^ 53 are finite; a number that is in order with another is not NaN; a finite number above zero that scales both sides keeps their order, and one divided by itself
-- is 1.
pub record IsScaled (N : Type 0) ⦃n : Number N⦄ : Type 0 where
  pub of_ℕ_mono : (a b : ℕ) → a ≤ b → n.le (n.of_ℕ a) (n.of_ℕ b) ≡ true
  pub of_ℕ_finite : (a : ℕ) → a ≤ 9007199254740992 → n.is_finite (n.of_ℕ a) ≡ true
  pub max_finite :
      (a b : N) → n.is_finite a ≡ true → n.is_finite b ≡ true → n.is_finite (n.max a b) ≡ true
  pub refl_of_le_left : (a b : N) → n.le a b ≡ true → n.le a a ≡ true
  pub finite_refl : (a : N) → n.is_finite a ≡ true → n.le a a ≡ true
  pub le-max_right : (a b : N) → n.le b b ≡ true → n.le a a ≡ true → n.le b (n.max a b) ≡ true
  pub max-le : (a b c : N) → n.le a c ≡ true → n.le b c ≡ true → n.le (n.max a b) c ≡ true
  pub div_mono :
      (a b c : N)
      → n.is_finite c ≡ true
      → n.le (n.of_ℕ 1) c ≡ true
      → n.le a b ≡ true
      → n.le (n.div a c) (n.div b c) ≡ true
  pub div_self : (c : N) → n.is_finite c ≡ true → n.le (n.of_ℕ 1) c ≡ true → n.div c c ≡ n.of_ℕ 1
  pub mul_mono :
      (a b c : N)
      → n.is_finite c ≡ true
      → n.le (n.of_ℕ 1) c ≡ true
      → n.le a b ≡ true
      → n.le (n.mul a c) (n.mul b c) ≡ true
  pub one_mul : (c : N) → n.mul (n.of_ℕ 1) c ≡ c
