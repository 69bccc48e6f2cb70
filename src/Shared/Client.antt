-- ===== src/Shared/Client.antt =====
-- frontend/packages/shared/src/api.ts and auth.ts: what the calls of `fetch` make of a response. The
-- bodies in JSON are a parameter, with the field `detail` of an error.
pub use openmarket.Shared.Machine.{Reply, done, failed}
use openmarket.Prelude.{
  ℕ, ◌≡◌, inl, inr, refl, Bool, true, false, not, ◌&&◌, ◌||◌, Option, none, some, [], ◌++◌,
  if◌then◌else◌, is_empty, is_some, Option-cases, or_else, leb, ltb, ◌==◌, Text, codes, arith,
}
use openmarket.Shared.Numerals.{print}

-- A parsed body, which the source takes as a value of the type that it expects.
pub record Json : Type 1 where
  pub Body : Type 0
  pub detail : Body → Option Text
  -- The body is JSON's null.
  pub is_null : Body → Bool

module _ (j : Json) where
  open j use {Body, detail, is_null}

  -- The body is none if it is not JSON.
  pub record Response : Type 0 where
    pub status : ℕ
    pub body : Option Body

  abbrev pub is_ok : Response → Bool
  is_ok r = leb 200 r.status && ltb r.status 300

  -- `error.detail || "HTTP ..."`, where an error that is not JSON has the detail "Request failed".
  unfoldable pub refusal : Response → Text
  refusal r =
      let told : Text = elim r.body [
        | none ↦ codes "Request failed"
        | some b ↦ or_else (detail b) []
      ] in
      if is_empty told then codes "HTTP " ++ print r.status else told

  -- `request`: `fetch` rejects with a message or gives a response, and `json()` rejects with a
  -- message if the body is not JSON. A status 204 gives undefined.
  unfoldable pub request : Text → Reply Response → Reply (Option Body)
  unfolding refusal
  request bad_json (failed m) = failed m
  request bad_json (done r) =
      if not (is_ok r)
      then failed (refusal r)
      else if r.status == 204
      then done none
      else elim r.body [ none ↦ failed bad_json | some b ↦ done (some b) ]

  -- The body is JSON and not null.
  abbrev pub is_given : Option Body → Bool
  is_given none = false
  is_given (some b) = not (is_null b)

  -- `fetchMe`, which gives null also for the body null.
  unfoldable pub fetch_me : Text → Reply Response → Reply (Option Body)
  fetch_me bad_json (failed m) = failed m
  fetch_me bad_json (done r) =
      if r.status == 401
      then done none
      else if not (is_ok r)
      then failed (codes "auth.me failed: " ++ print r.status)
      else elim r.body [
        | none ↦ failed bad_json
        | some b ↦ if is_null b then done none else done (some b)
      ]

  -- `login`, `setup`, `posLogin`, `mfaEnroll`, `managerOverride` and `mfaVerify`, by the message that
  -- stands for a missing detail.
  unfoldable pub post : Text → Text → Reply Response → Reply Body
  post fallback bad_json (failed m) = failed m
  post fallback bad_json (done r) = elim r.body [
    | none ↦ failed bad_json
    | some b ↦ if not (is_ok r) then failed (or_else (detail b) fallback) else done b
  ]

  -- `error.detail || "HTTP ..."` with another detail for an error that is not JSON.
  abbrev refusal_or : Text → Response → Text
  refusal_or fallback r =
      let told : Text = elim r.body [ none ↦ fallback | some b ↦ or_else (detail b) [] ] in
      if is_empty told then codes "HTTP " ++ print r.status else told

  abbrev sent_file : Text → Text → Reply Response → Reply Body
  sent_file fallback bad_json (failed m) = failed m
  sent_file fallback bad_json (done r) =
      if not (is_ok r)
      then failed (refusal_or fallback r)
      else elim r.body [ none ↦ failed bad_json | some b ↦ done b ]

  -- `products.uploadImage` and `products.importCsv`.
  unfoldable pub upload_image : Text → Reply Response → Reply Body
  upload_image bad_json o = sent_file (codes "Upload failed") bad_json o

  unfoldable pub import_csv : Text → Reply Response → Reply Body
  import_csv bad_json (failed m) = failed m
  import_csv bad_json (done r) = sent_file (codes "HTTP " ++ print r.status) bad_json (done r)

  abbrev pub is_done : {A : Type 0} → Reply A → Bool
  is_done (done a) = true
  is_done (failed m) = false

  -- A message that a failure has is not empty.
  abbrev pub HasMessage : {A : Type 0} → Reply A → Type 0
  HasMessage (done a) = Unit
  HasMessage (failed m) = is_empty m ≡ false

  refusal-nonempty : (r : Response) → is_empty (refusal r) ≡ false
  unfolding refusal
  refusal-nonempty r = ground arith

  -- A request succeeds exactly if there is a response with a status between 200 and 299 that is 204 or
  -- has a body in JSON; and when it fails its message is not empty, if the browser's own are not.
  pub request_lem :
      (bad_json : Text) (o : Reply Response)
      → is_empty bad_json ≡ false
      → HasMessage o
      → (is_done (request bad_json o)
          ≡ elim o [ failed m ↦ false | done r ↦ is_ok r && (r.status == 204 || is_some r.body) ])
        × HasMessage (request bad_json o)
  unfolding request
  request_lem bad_json (failed m) h k = (refl, k)
  request_lem bad_json (done r) h k = elim (Option-cases r.body) [
    | inl n ↦ (ground (arith, n), ground (arith, n, h, refusal-nonempty r))
    | inr (b, n) ↦ (ground (arith, n), ground (arith, n, refusal-nonempty r))
  ]
