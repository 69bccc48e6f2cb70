-- ===== src/Admin/Entry.antt =====
-- frontend/packages/admin/src/components/RequireAuth.tsx: the administration is shown to a signed-in
-- user, and else the login or, before there is an owner, the setup.
pub mod Login
pub mod Setup
pub mod Opened
use openmarket.Prelude.{
  ◌≡◌, ◌≢◌, ◌⊎◌, inl, inr, refl, Bool, true, false, not, ◌&&◌, ◌||◌, Option, none, some, List, [],
  ◌∷◌, ◌++◌, is_some, if◌then◌else◌, ◌==◌, Text, codes, arith, Option-cases,
}
pub use openmarket.Shared.Machine.{Reply, done, failed}
use openmarket.Shared.Machine.{Machine, Run, Reach, here, more, act, reply}
use openmarket.Shared.Numerals.{print}
use openmarket.Shared.Client.{Json, Response, is_ok, is_given, fetch_me}

pub data State (A : Type 0) : Type 0 where
  loading setup login : State A
  signed_in : A → State A

pub data Request : Type 0 where
  -- `fetchMe` and `fetchBootstrapStatus`.
  me status : Request

-- `onSuccess` and `onComplete` of the forms, which a form that is gone may call too.
pub data Event : Type 0 where
  succeeded completed : Event

abbrev pub is_loading : {A : Type 0} → State A → Bool
is_loading loading = true
is_loading setup = false
is_loading login = false
is_loading (signed_in b) = false

abbrev pub is_setup : {A : Type 0} → State A → Bool
is_setup loading = false
is_setup setup = true
is_setup login = false
is_setup (signed_in b) = false

abbrev pub is_signed_in : {A : Type 0} → State A → Bool
is_signed_in loading = false
is_signed_in setup = false
is_signed_in login = false
is_signed_in (signed_in b) = true

module _ (j : Json) (setup_required : j.Body → Bool) (bad_json : Text) where
  -- `fetchBootstrapStatus`, with its field.
  unfoldable pub fetch_status : Reply (Response j) → Reply Bool
  fetch_status (failed m) = failed m
  fetch_status (done r) =
      if not (is_ok j r)
      then failed (codes "bootstrap-status failed: " ++ print r.status)
      else elim r.body [ none ↦ failed bad_json | some b ↦ done (setup_required b) ]

  unfoldable pub is_offered : Event → State j.Body → Bool
  is_offered e s = not (is_loading s)

  -- `reload`, up to its first request.
  unfoldable pub react : Event → State j.Body → State j.Body × List Request
  react e s = (s, me ∷ [])

  unfoldable pub after_me : Reply (Option j.Body) → State j.Body → State j.Body × List Request
  after_me (done (some b)) s = (signed_in b, [])
  after_me (done none) s = (s, status ∷ [])
  after_me (failed m) s = (login, [])

  unfoldable pub after_status : Reply Bool → State j.Body
  after_status (done b) = if b then setup else login
  after_status (failed m) = login

  unfoldable pub replied :
      (r : Request) → Reply (Response j) → State j.Body → State j.Body × List Request
  unfolding fetch_me fetch_status after_me after_status
  replied me o s = after_me (fetch_me j bad_json o) s
  replied status o s = (after_status (fetch_status o), [])

  abbrev pub gate : Machine
  gate = record {
    State = State j.Body;
    Event = Event;
    Request = Request;
    Answer = λ r. Reply (Response j);
    is_offered = is_offered;
    react = react;
    replied = replied;
  }

  abbrev pub first_render : Run gate
  first_render = record { state = loading; waiting = me ∷ [] }

  -- Which answers name a user, and which say that there is no owner yet.
  abbrev pub names_user : Reply (Response j) → Bool
  names_user (failed m) = false
  names_user (done r) = is_ok j r && is_given j r.body

  abbrev pub lacks_owner : Reply (Response j) → Bool
  lacks_owner (failed m) = false
  lacks_owner (done r) = is_ok j r && elim r.body [ none ↦ false | some b ↦ setup_required b ]

  -- The answer is a 401, or the body null.
  abbrev pub names_nobody : Reply (Response j) → Bool
  names_nobody (failed m) = false
  names_nobody (done r) =
      r.status == 401 || (is_ok j r && is_some r.body && not (is_given j r.body))
