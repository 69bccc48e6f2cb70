-- ===== src/Admin/Security.antt =====
-- frontend/packages/admin/src/pages/Security.tsx: the enrolment in two-factor authentication.
pub mod Codes
use openmarket.Prelude.{
  ℕ, ◌≡◌, ◌⊎◌, inl, inr, refl, Bool, true, false, not, ◌&&◌, Option, none, some, List, [], ◌∷◌,
  is_empty, is_some, length, leb, ◌≤◌, All, Text, arith,
}
pub use openmarket.Shared.Machine.{Reply, done, failed}
use openmarket.Shared.Machine.{Machine}

pub data Phase : Type 0 where
  idle enrolled verified : Phase

pub record State : Type 0 where
  pub phase : Phase
  pub secret : Option Text
  pub uri : Option Text
  pub code : Text
  pub error : Option Text

pub data Request : Type 0 where
  -- `mfaEnroll` and `mfaVerify`.
  enroll : Request
  verify : Text → Request

-- The enrolment gives the secret and the address.
abbrev pub Answer : Request → Type 0
Answer enroll = Reply (Text × Text)
Answer (verify c) = Reply (Unit {0})

pub data Event : Type 0 where
  start_enroll : Event
  typed : Text → Event
  submitted : Event

abbrev pub is_idle : State → Bool
is_idle s = elim s.phase [ idle ↦ true | enrolled ↦ false | verified ↦ false ]

abbrev pub is_truthy : Option Text → Bool
is_truthy none = false
is_truthy (some t) = not (is_empty t)

abbrev pub is_confirming : State → Bool
is_confirming s =
    elim s.phase [ idle ↦ false | enrolled ↦ true | verified ↦ false ]
    && is_truthy s.uri
    && is_truthy s.secret

-- The field takes at most six characters and is required.
unfoldable pub is_offered : Event → State → Bool
is_offered start_enroll s = is_idle s
is_offered (typed t) s = is_confirming s && leb (length t) 6
is_offered submitted s = is_confirming s && not (is_empty s.code)

unfoldable pub react : Event → State → State × List Request
react start_enroll s = (record s { error = none }, enroll ∷ [])
react (typed t) s = (record s { code = t }, [])
react submitted s = (record s { error = none }, verify s.code ∷ [])

unfoldable pub replied : (r : Request) → Answer r → State → State
replied enroll (done (secret, uri)) s = record s {
  secret = some secret;
  uri = some uri;
  phase = enrolled;
}
replied enroll (failed m) s = record s { error = some m }
replied (verify c) (done u) s = record s { phase = verified }
replied (verify c) (failed m) s = record s { error = some m }

abbrev pub initial : State
initial = record { phase = idle; secret = none; uri = none; code = []; error = none }

abbrev pub page : Machine
page = record {
  State = State;
  Event = Event;
  Request = Request;
  Answer = Answer;
  is_offered = is_offered;
  react = react;
  replied = λ r a s. (replied r a s, []);
}
