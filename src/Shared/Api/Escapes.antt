-- ===== src/Shared/Api/Escapes.antt =====
-- api.ts: the bytes that a server takes from an escaped text.
use Prim.Native.Nat.{◌/◌, ◌%◌}
use openmarket.Prelude.{
  ℕ, ◌+◌, ◌-◌, ◌*◌, ◌<◌, ◌≡◌, refl, ap, ◌∙◌, inl, inr, true, false, List, [], ◌∷◌, ◌++◌,
  if◌then◌else◌, Bool-cases, any, All, All-append, ltb, ◌==◌, Text, arith,
}
use openmarket.Shared.Uri.{encode, utf8, percent, hex_digit, stays}
use openmarket.Shared.Api.{form_stays, form_encode}

-- Where a decoder stands in an escape: outside, after `%`, or after its first digit.
pub data Place : Type 0 where
  outside after_percent : Place
  after_digit : ℕ → Place

digit_of : ℕ → ℕ
digit_of c = if ltb c 58 then c - 48 else c - 55

-- The bytes that a text in a query stands for.
unfoldable pub decode_at : Place → Text → List ℕ
unfolding digit_of
decode_at p [] = []
decode_at outside (c ∷ s) =
    let rest = decode_at (if c == b'%' then after_percent else outside) s in
    if c == b'%' then rest else (if c == b'+' then 32 else c) ∷ rest
decode_at after_percent (c ∷ s) = decode_at (after_digit (digit_of c)) s
decode_at (after_digit d) (c ∷ s) = (d * 16 + digit_of c) ∷ decode_at outside s

unfoldable pub decode : Text → List ℕ
unfolding decode_at
decode s = decode_at outside s

-- The bytes of a text in UTF-8.
abbrev pub bytes : Text → List ℕ
bytes [] = []
bytes (c ∷ s) = utf8 c ++ bytes s

-- A code point of Unicode.
abbrev pub IsChar : ℕ → Type 0
IsChar c = c < 0x110000

pub utf8_below : (c : ℕ) → IsChar c → All (λ b. b < 256) (utf8 c)
unfolding utf8
utf8_below c h = ground (arith, h)

digit_of-hex_digit : (d : ℕ) → d < 16 → digit_of (hex_digit d) ≡ d
unfolding digit_of hex_digit
digit_of-hex_digit d h = ground (arith, h)

decode-percent :
    (bs : List ℕ) (s : Text) → All (λ b. b < 256) bs → decode (percent bs ++ s) ≡ bs ++ decode s
unfolding decode decode_at percent
decode-percent [] s h = refl
decode-percent (b ∷ bs) s h =
    rw
      (
        digit_of-hex_digit (b / 16) (omega (arith, h.0)),
        digit_of-hex_digit (b % 16) (omega arith),
        decode-percent bs s h.1,
      )
      (ap (λ (x : ℕ). x ∷ (bs ++ decode_at outside s)) (omega arith))

-- A character that stays is one byte, and is no sign of the query.
abbrev pub IsPlain : ℕ → Type 0
IsPlain c =
    (utf8 c ≡ c ∷ [])
    × ((c == b'%') ≡ false)
    × ((c == b'+') ≡ false)
    × ((c == b'&') ≡ false)
    × ((c == b'=') ≡ false)

pub form_stays-IsPlain : (c : ℕ) → form_stays c ≡ true → IsPlain c
unfolding form_stays utf8
form_stays-IsPlain c h = ground (arith, h)

stays-IsPlain : (c : ℕ) → stays c ≡ true → IsPlain c
unfolding stays utf8
stays-IsPlain c h = ground (arith, h)

decode_plain : (c : ℕ) (s : Text) → IsPlain c → decode (c ∷ s) ≡ utf8 c ++ decode s
unfolding decode decode_at
decode_plain c s h = rw (h.0, h.1, h.2) refl

decode_nothing : decode [] ≡ []
unfolding decode decode_at
decode_nothing = refl

decode_blank :
    (c : ℕ) (t : Text)
    → (c == 32) ≡ true
    → decode (form_encode t) ≡ bytes t
    → decode (b'+' ∷ form_encode t) ≡ utf8 c ++ bytes t
unfolding decode decode_at utf8
decode_blank c t h e = let q : c ≡ 32 = ground (arith, h) in rw q (ap (λ bs. 32 ∷ bs) e)

pub decode-form_encode : (t : Text) → All IsChar t → decode (form_encode t) ≡ bytes t
unfolding form_encode
decode-form_encode [] h = decode_nothing
decode-form_encode (c ∷ t) h = elim (Bool-cases (form_stays c)) [
  | inl e ↦ rw e (
      decode_plain c (form_encode t) (form_stays-IsPlain c e)
      ∙ ap (λ bs. utf8 c ++ bs) (decode-form_encode t h.1))
  | inr e ↦ rw e (elim (Bool-cases (c == 32)) [
    | inl sp ↦ rw sp (decode_blank c t sp (decode-form_encode t h.1))
    | inr sp ↦ rw sp (
        decode-percent (utf8 c) (form_encode t) (utf8_below c h.0)
        ∙ ap (λ bs. utf8 c ++ bs) (decode-form_encode t h.1))
  ])
]

pub decode-encode : (t : Text) → All IsChar t → decode (encode t) ≡ bytes t
unfolding encode
decode-encode [] h = decode_nothing
decode-encode (c ∷ t) h = elim (Bool-cases (stays c)) [
  | inl e ↦ rw e (
      decode_plain c (encode t) (stays-IsPlain c e) ∙ ap (λ bs. utf8 c ++ bs) (decode-encode t h.1))
  | inr e ↦ rw e (
      decode-percent (utf8 c) (encode t) (utf8_below c h.0)
      ∙ ap (λ bs. utf8 c ++ bs) (decode-encode t h.1))
]

-- A text without a sign.
abbrev pub Lacks : ℕ → Text → Type 0
Lacks d = All (λ c. (c == d) ≡ false)

pub Lacks_of_any : (d : ℕ) (t : Text) → any (λ c. c == d) t ≡ false → Lacks d t
Lacks_of_any d [] h = tt
Lacks_of_any d (c ∷ t) h = (ground (arith, h), Lacks_of_any d t (ground (arith, h)))

percent_lacks :
    (bs : List ℕ) → All (λ b. b < 256) bs → Lacks b'&' (percent bs) × Lacks b'=' (percent bs)
unfolding percent hex_digit
percent_lacks [] h = (tt, tt)
percent_lacks (b ∷ bs) h = ground (arith, h.0, percent_lacks bs h.1)

pub form_encode_lacks :
    (t : Text) → All IsChar t → Lacks b'&' (form_encode t) × Lacks b'=' (form_encode t)
unfolding form_encode
form_encode_lacks [] h = (tt, tt)
form_encode_lacks (c ∷ t) h =
    let (a, b) = form_encode_lacks t h.1 in
    elim (Bool-cases (form_stays c)) [
      | inl e ↦ let plain = form_stays-IsPlain c e in rw e ((plain.3, a), (plain.4, b))
      | inr e ↦ rw e (elim (Bool-cases (c == 32)) [
        | inl sp ↦ rw sp ((refl, a), (refl, b))
        | inr sp ↦
            let (x, y) = percent_lacks (utf8 c) (utf8_below c h.0) in
            rw sp (
              All-append (λ d. (d == b'&') ≡ false) (percent (utf8 c)) (form_encode t) x a,
              All-append (λ d. (d == b'=') ≡ false) (percent (utf8 c)) (form_encode t) y b,
            )
      ])
    ]

pub encode_lacks : (t : Text) → All IsChar t → Lacks b'&' (encode t) × Lacks b'=' (encode t)
unfolding encode
encode_lacks [] h = (tt, tt)
encode_lacks (c ∷ t) h =
    let (a, b) = encode_lacks t h.1 in
    elim (Bool-cases (stays c)) [
      | inl e ↦ let plain = stays-IsPlain c e in rw e ((plain.3, a), (plain.4, b))
      | inr e ↦
          let (x, y) = percent_lacks (utf8 c) (utf8_below c h.0) in
          rw e (
            All-append (λ d. (d == b'&') ≡ false) (percent (utf8 c)) (encode t) x a,
            All-append (λ d. (d == b'=') ≡ false) (percent (utf8 c)) (encode t) y b,
          )
    ]
