-- ===== src/Shared/Api.antt =====
-- frontend/packages/shared/src/api.ts: which request each call sends. A body in JSON is a value of a
-- parameter, and a file is a number that stands for it.
pub mod Escapes
pub mod Query
pub mod Address
pub mod Goods
pub mod Staff
use openmarket.Prelude.{
  ℕ, Bool, true, false, not, ◌&&◌, ◌||◌, Option, none, some, List, [], ◌∷◌, ◌++◌, if◌then◌else◌,
  is_empty, or_else, any, leb, ◌==◌, Text, codes,
}
use Prim.Native.String.{String}
use openmarket.Shared.Numerals.{print}
use openmarket.Shared.Uri.{encode, utf8, percent}

-- The entries of an object, in the order of its keys: a value that is null or undefined is none, a
-- number is its digits.
abbrev pub Params : Type 0
Params = List (Text × Option Text)

-- What `qs` keeps: the entries that are set and not "".
abbrev pub set_entries : Params → List (Text × Text)
set_entries [] = []
set_entries ((k, none) ∷ ps) = set_entries ps
set_entries ((k, some v) ∷ ps) = if is_empty v then set_entries ps else (k, v) ∷ set_entries ps

-- How `URLSearchParams` writes a text.
unfoldable pub form_stays : ℕ → Bool
form_stays c =
    (leb b'a' c && leb c b'z')
    || (leb b'A' c && leb c b'Z')
    || (leb b'0' c && leb c b'9')
    || any (λ d. d == c) (codes "*-._")

unfoldable pub form_encode : Text → Text
unfolding form_stays utf8 percent
form_encode [] = []
form_encode (c ∷ s) =
    let rest = form_encode s in
    if form_stays c then c ∷ rest else if c == 32 then b'+' ∷ rest else percent (utf8 c) ++ rest

unfoldable pub pair_of : Text × Text → Text
unfolding form_encode
pair_of (k, v) = form_encode k ++ b'=' ∷ form_encode v

-- `toString`.
unfoldable pub joined : List (Text × Text) → Text
unfolding pair_of
joined [] = []
joined (p ∷ []) = pair_of p
joined (p ∷ q ∷ ps) = pair_of p ++ b'&' ∷ joined (q ∷ ps)

unfoldable pub after_mark : List (Text × Text) → Text
unfolding joined
after_mark [] = []
after_mark (p ∷ ps) = b'?' ∷ joined (p ∷ ps)

-- `qs`.
unfoldable pub qs : Params → Text
unfolding after_mark
qs ps = after_mark (set_entries ps)

pub data Method : Type 0 where
  get post put patch delete : Method

module _ (B : Type 0) where
  -- What goes with a request: nothing, a body in JSON, or a form with a file and its name.
  pub data Payload : Type 0 where
    nothing : Payload
    json : B → Payload
    file : ℕ → Option Text → Payload

  pub record Sent : Type 0 where
    pub method : Method
    pub path : Text
    pub payload : Payload

abbrev pub numbered : String → ℕ → Text
numbered base n = codes base ++ print n

abbrev pub below : String → ℕ → String → Text
below base n rest = codes base ++ print n ++ codes rest

module _ {B : Type 0} where
  abbrev pub fetched : Text → Sent B
  fetched path = record { method = get; path = path; payload = nothing }

  abbrev pub posted : Text → B → Sent B
  posted path b = record { method = post; path = path; payload = json b }

  abbrev pub replaced : Text → B → Sent B
  replaced path b = record { method = put; path = path; payload = json b }

  abbrev pub bare : Method → Text → Sent B
  bare m path = record { method = m; path = path; payload = nothing }
