-- ===== src/Admin/Entry/Setup.antt =====
-- frontend/packages/admin/src/pages/Setup.tsx: the account of the owner.
use openmarket.Prelude.{
  Bool, true, not, ◌&&◌, Option, none, some, List, [], ◌∷◌, is_empty, leb, length, Text,
}
pub use openmarket.Shared.Machine.{Reply, done, failed}
use openmarket.Shared.Machine.{Machine}

pub record State : Type 0 where
  pub email : Text
  pub password : Text
  pub full_name : Text
  pub error : Option Text
  -- Whether `onComplete` has been called.
  pub completed : Bool

-- `setup` of auth.ts.
pub data Request : Type 0 where
  setup : Text → Text → Text → Request

pub data Event : Type 0 where
  email_typed password_typed name_typed : Text → Event
  submitted : Event

unfoldable pub react : Event → State → State × List Request
react (email_typed t) s = (record s { email = t }, [])
react (password_typed t) s = (record s { password = t }, [])
react (name_typed t) s = (record s { full_name = t }, [])
react submitted s = (record s { error = none }, setup s.email s.password s.full_name ∷ [])

unfoldable pub replied : Reply (Unit {0}) → State → State
replied (done u) s = record s { completed = true }
replied (failed m) s = record s { error = some m }

-- The fields are required, and the password has at least twelve characters.
unfoldable pub is_offered : (Text → Bool) → Event → State → Bool
is_offered is_email submitted s =
    not (is_empty s.full_name)
    && not (is_empty s.email)
    && is_email s.email
    && leb 12 (length s.password)
is_offered is_email e s = true

abbrev pub form : (Text → Bool) → Machine
form is_email = record {
  State = State;
  Event = Event;
  Request = Request;
  Answer = λ r. Reply (Unit {0});
  is_offered = is_offered is_email;
  react = react;
  replied = λ r a s. (replied a s, []);
}
