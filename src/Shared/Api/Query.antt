-- ===== src/Shared/Api/Query.antt =====
-- api.ts: what a server reads from the addresses that the calls ask for.

use openmarket.Prelude.{
  ℕ, ◌≡◌, refl, false, Option, none, some, List, [], ◌∷◌, ◌++◌, map, if◌then◌else◌, All, All-append,
  ◌==◌, Text, arith,
}
use openmarket.Shared.Uri.{encode}
use openmarket.Shared.Api.Escapes.{
  decode, bytes, IsChar, decode-form_encode, decode-encode, Lacks, form_encode_lacks, encode_lacks,
}
use openmarket.Shared.Api.{form_encode, pair_of, joined, after_mark, set_entries, Params}

-- Cutting a text at the first occurrence of a sign, and at every one.
cut : ℕ → Text → Text × Text
cut d [] = ([], [])
cut d (c ∷ s) = let (l, r) = cut d s in if c == d then ([], s) else (c ∷ l, r)

onto_first : ℕ → List Text → List Text
onto_first c [] = (c ∷ []) ∷ []
onto_first c (t ∷ ts) = (c ∷ t) ∷ ts

split : ℕ → Text → List Text
unfolding onto_first
split d [] = [] ∷ []
split d (c ∷ s) = let rest = split d s in if c == d then [] ∷ rest else onto_first c rest

read_pair : Text → List ℕ × List ℕ
read_pair t = let (k, v) = cut b'=' t in (decode k, decode v)

-- The keys and values of a query, in bytes.
pub read_query : Text → List (List ℕ × List ℕ)
read_query [] = []
read_query (c ∷ s) = map read_pair (split b'&' s)

cut_at : (d : ℕ) (s t : Text) → Lacks d s → cut d (s ++ d ∷ t) ≡ (s, t)
unfolding cut
cut_at d [] t h = ground arith
cut_at d (c ∷ s) t h = rw (h.0, cut_at d s t h.1) refl

split_whole : (d : ℕ) (s : Text) → Lacks d s → split d s ≡ s ∷ []
unfolding split onto_first
split_whole d [] h = refl
split_whole d (c ∷ s) h = rw (h.0, split_whole d s h.1) refl

split_at : (d : ℕ) (s t : Text) → Lacks d s → split d (s ++ d ∷ t) ≡ s ∷ split d t
unfolding split onto_first
split_at d [] t h = ground arith
split_at d (c ∷ s) t h = rw (h.0, split_at d s t h.1) refl

abbrev pub IsPair : Text × Text → Type 0
IsPair (k, v) = All IsChar k × All IsChar v

abbrev pub in_bytes : Text × Text → List ℕ × List ℕ
in_bytes (k, v) = (bytes k, bytes v)

read_pair-pair_of : (p : Text × Text) → IsPair p → read_pair (pair_of p) ≡ in_bytes p
unfolding read_pair pair_of
read_pair-pair_of (k, v) h =
    rw
      (
        cut_at b'=' (form_encode k) (form_encode v) (form_encode_lacks k h.0).1,
        decode-form_encode k h.0,
        decode-form_encode v h.1,
      )
      refl

pair_of_lacks : (p : Text × Text) → IsPair p → Lacks b'&' (pair_of p)
unfolding pair_of
pair_of_lacks (k, v) h =
    All-append (λ d. (d == b'&') ≡ false) (form_encode k) (b'=' ∷ form_encode v)
      (form_encode_lacks k h.0).0 (refl, (form_encode_lacks v h.1).0)

read_joined :
    (p : Text × Text) (ps : List (Text × Text))
    → All IsPair (p ∷ ps)
    → map read_pair (split b'&' (joined (p ∷ ps))) ≡ map in_bytes (p ∷ ps)
unfolding joined
read_joined p [] h =
    rw (split_whole b'&' (pair_of p) (pair_of_lacks p h.0), read_pair-pair_of p h.0) refl
read_joined p (q ∷ ps) h =
    rw
      (
        split_at b'&' (pair_of p) (joined (q ∷ ps)) (pair_of_lacks p h.0),
        read_pair-pair_of p h.0,
        read_joined q ps h.1,
      )
      refl

abbrev pub IsEntry : Text × Option Text → Type 0
IsEntry (k, none) = All IsChar k
IsEntry (k, some v) = All IsChar k × All IsChar v

pub set_entries-IsPair : (ps : Params) → All IsEntry ps → All IsPair (set_entries ps)
set_entries-IsPair [] h = tt
set_entries-IsPair ((k, none) ∷ ps) h = set_entries-IsPair ps h.1
set_entries-IsPair ((k, some []) ∷ ps) h = set_entries-IsPair ps h.1
set_entries-IsPair ((k, some (c ∷ v)) ∷ ps) h = (h.0, set_entries-IsPair ps h.1)

read_marked :
    (ps : List (Text × Text)) → All IsPair ps → read_query (after_mark ps) ≡ map in_bytes ps
unfolding after_mark read_query
read_marked [] h = refl
read_marked (p ∷ ps) h = read_joined p ps h

-- A key that is written as it is, with a text in `encodeURIComponent`.
read_pair-encode :
    (k t : Text)
    → Lacks b'=' k
    → All IsChar t
    → read_pair (k ++ b'=' ∷ encode t) ≡ (decode k, bytes t)
unfolding read_pair
read_pair-encode k t l h = rw (cut_at b'=' k (encode t) l, decode-encode t h) refl

-- The query of an address: from its first `?` on.
pub query_part : Text → Text
query_part [] = []
query_part (c ∷ t) = if c == b'?' then c ∷ t else query_part t

query_part-append : (base q : Text) → Lacks b'?' base → query_part (base ++ b'?' ∷ q) ≡ b'?' ∷ q
unfolding query_part
query_part-append [] q h = ground arith
query_part-append (c ∷ base) q h = rw h.0 (query_part-append base q h.1)

query_part_none : (base : Text) → Lacks b'?' base → query_part (base ++ []) ≡ []
unfolding query_part
query_part_none [] h = refl
query_part_none (c ∷ base) h = rw h.0 (query_part_none base h.1)

-- What a server reads from an address.
pub read_address : Text → List (List ℕ × List ℕ)
read_address t = read_query (query_part t)

pub read_address-after_mark :
    (base : Text) (ps : List (Text × Text))
    → Lacks b'?' base
    → All IsPair ps
    → read_address (base ++ after_mark ps) ≡ map in_bytes ps
unfolding read_address after_mark
read_address-after_mark base [] l h = rw (query_part_none base l) (read_marked [] h)
read_address-after_mark base (p ∷ ps) l h =
    rw (query_part-append base (joined (p ∷ ps)) l) (read_marked (p ∷ ps) h)

-- A key that is written as it is, and a text in `encodeURIComponent`.
pub read_address-encode :
    (base k t : Text)
    → Lacks b'?' base
    → Lacks b'&' k
    → Lacks b'=' k
    → All IsChar t
    → read_address (base ++ b'?' ∷ (k ++ b'=' ∷ encode t)) ≡ (decode k, bytes t) ∷ []
unfolding read_address read_query
read_address-encode base k t l m o h =
    let whole : Lacks b'&' (k ++ b'=' ∷ encode t) =
      All-append (λ d. (d == b'&') ≡ false) k (b'=' ∷ encode t) m (refl, (encode_lacks t h).0) in
    rw
      (
        query_part-append base (k ++ b'=' ∷ encode t) l,
        split_whole b'&' (k ++ b'=' ∷ encode t) whole,
        read_pair-encode k t o h,
      )
      refl
