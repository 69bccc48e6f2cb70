-- ===== src/Pos/Keypads/Weight.antt =====
-- frontend/packages/pos/src/components/WeighedProductInput.tsx: the weight of a product, typed on a
-- keypad and checked against the range of the product.
use openmarket.Prelude.{
  ℕ, ◌+◌, ◌≤◌, ◌<◌, ◌≡◌, refl, Bool, true, false, not, ◌&&◌, ◌||◌, Option, none, some, List, [],
  ◌∷◌, ◌++◌, Number, IsIeee, All, nought, lt, is_nonzero, if◌then◌else◌, is_digit, Text, arith,
  length, length-append, any, all, leb, ◌==◌,
}

-- The number keys, the point, and the key that takes back.
pub data Key : Type 0 where
  digit : (d : ℕ) → Key
  point : Key
  back : Key

-- The keys that the pad has.
abbrev pub IsOnPad : Key → Type 0
IsOnPad (digit d) = d < 10
IsOnPad k = Unit

abbrev pub is_point : ℕ → Bool
is_point c = c == b'.'

-- `press`.
unfoldable pub press : ℕ → Text → Text
press ch buffer =
    if is_point ch && any is_point buffer
    then buffer
    else if leb 6 (length buffer)
    then buffer
    else buffer ++ ch ∷ []

-- `buffer.slice(0, -1)`.
unfoldable pub drop_last : Text → Text
drop_last [] = []
drop_last (c ∷ []) = []
drop_last (c ∷ d ∷ t) = c ∷ drop_last (d ∷ t)

unfoldable pub on_key : Key → Text → Text
unfolding press drop_last
on_key (digit d) buffer = press (48 + d) buffer
on_key point buffer = press b'.' buffer
on_key back buffer = drop_last buffer

unfoldable pub on_keys : List Key → Text → Text
on_keys [] buffer = buffer
on_keys (k ∷ ks) buffer = on_keys ks (on_key k buffer)

module _ (N : Type 0) ⦃n : Number N⦄ where
  -- `qty`.
  unfoldable pub qty : Text → N
  qty [] = nought
  qty (c ∷ t) = n.parse_float (c ∷ t)

  -- `minNum` and `maxNum`: an empty text is no limit.
  abbrev pub limit : Option Text → Option N
  limit none = none
  limit (some []) = none
  limit (some (c ∷ t)) = some (n.parse_float (c ∷ t))

  abbrev pub is_below : N → Option N → Bool
  is_below x none = false
  is_below x (some low) = lt x low

  abbrev pub is_above : N → Option N → Bool
  is_above x none = false
  is_above x (some high) = lt high x

  -- Whether there is a `validationError`.
  unfoldable pub has_error : Option Text → Option Text → Text → Bool
  has_error low high buffer =
      lt nought (qty buffer)
      && (is_below (qty buffer) (limit low) || is_above (qty buffer) (limit high))

  -- `canConfirm`.
  unfoldable pub can_confirm : Option Text → Option Text → Text → Bool
  unfolding has_error
  can_confirm low high buffer = lt nought (qty buffer) && not (has_error low high buffer)

  -- `confirm`: the weight that is handed on, if one is.
  unfoldable pub confirm : Option Text → Option Text → Text → Option N
  confirm low high buffer =
      if not (is_nonzero (qty buffer))
      then none
      else if is_below (qty buffer) (limit low)
      then none
      else if is_above (qty buffer) (limit high)
      then none
      else some (qty buffer)

-- The points of a text.
abbrev pub points : Text → ℕ
points [] = 0
points (c ∷ t) = (if is_point c then 1 else 0) + points t

abbrev pub is_key_char : ℕ → Bool
is_key_char c = is_digit c || is_point c

pub record IsEntry (buffer : Text) : Type 0 where
  pub short : length buffer ≤ 6
  pub one_point : points buffer ≤ 1
  pub plain : all is_key_char buffer ≡ true

points-append : (s t : Text) → points (s ++ t) ≡ points s + points t
points-append [] t = omega arith
points-append (c ∷ s) t = omega (arith, points-append s t)

points_of_any : (t : Text) → any is_point t ≡ false → points t ≡ 0
points_of_any [] h = refl
points_of_any (c ∷ t) h = ground (arith, points_of_any t)

all-append :
    (s t : Text)
    → all is_key_char s ≡ true
    → all is_key_char t ≡ true
    → all is_key_char (s ++ t) ≡ true
all-append [] t h k = k
all-append (c ∷ s) t h k = ground (arith, all-append s t)

press-IsEntry : (ch : ℕ) (b : Text) → is_key_char ch ≡ true → IsEntry b → IsEntry (press ch b)
unfolding press
press-IsEntry ch b c h = ground (
  arith,
  length-append b (ch ∷ []),
  points-append b (ch ∷ []),
  points_of_any b,
  all-append b (ch ∷ []),
)

drop_last_part :
    (b : Text)
    → (length (drop_last b) ≤ length b)
      × (points (drop_last b) ≤ points b)
      × (all is_key_char b ≡ true → all is_key_char (drop_last b) ≡ true)
unfolding drop_last
drop_last_part [] = (omega arith, omega arith, λ h. h)
drop_last_part (c ∷ []) = (omega arith, omega arith, λ h. refl)
drop_last_part (c ∷ d ∷ t) =
    let (l, p, a) = drop_last_part (d ∷ t) in (omega arith, omega arith, λ h. ground (arith, a))

drop_last-IsEntry : (b : Text) → IsEntry b → IsEntry (drop_last b)
drop_last-IsEntry b h =
    let (l, p, a) = drop_last_part b in
    record { short = omega arith; one_point = omega arith; plain = a h.plain }

digit_is_key : (d : ℕ) → d < 10 → is_key_char (48 + d) ≡ true
digit_is_key d h = ground arith

on_key-IsEntry : (k : Key) (b : Text) → IsOnPad k → IsEntry b → IsEntry (on_key k b)
unfolding on_key
on_key-IsEntry (digit d) b p h = press-IsEntry (48 + d) b (digit_is_key d p) h
on_key-IsEntry point b p h = press-IsEntry b'.' b refl h
on_key-IsEntry back b p h = drop_last-IsEntry b h

on_keys_from : (ks : List Key) (b : Text) → All IsOnPad ks → IsEntry b → IsEntry (on_keys ks b)
unfolding on_keys
on_keys_from [] b p h = h
on_keys_from (k ∷ ks) b p h = on_keys_from ks (on_key k b) p.1 (on_key-IsEntry k b p.0 h)

-- Whatever is typed on the pad of keys, the text that is shown has at most six characters, all digits
-- or points, and at most one point.
pub on_keys-IsEntry : (ks : List Key) → All IsOnPad ks → IsEntry (on_keys ks [])
on_keys-IsEntry ks p =
    on_keys_from ks [] p (record { short = omega arith; one_point = omega arith; plain = refl })

module _ (N : Type 0) ⦃n : Number N⦄ (laws : IsIeee N) where
  open laws use {refl_of_le}

  -- When the button to add is enabled, pressing it hands on the weight that is shown, which is positive
  -- and not outside the range of the product; and no press ever hands on a weight outside the range.
  pub confirm_in_range :
      (low high : Option Text) (b : Text)
      → (can_confirm N low high b ≡ true
          → (confirm N low high b ≡ some (qty N b)) × (lt nought (qty N b) ≡ true))
        × ((x : N)
            → confirm N low high b ≡ some x
            → (is_below N x (limit N low) ≡ false) × (is_above N x (limit N high) ≡ false))
  unfolding can_confirm confirm
  confirm_in_range low high b =
      (λ h. ground (arith, refl_of_le nought (qty N b)), λ x h. ground arith)
