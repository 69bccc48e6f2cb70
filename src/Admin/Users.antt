-- ===== src/Admin/Users.antt =====
-- frontend/packages/admin/src/pages/Users.tsx: the users, and the form for a new one. Which texts the
-- browser takes for an email address is a parameter.
pub mod Pins
pub mod Bodies
use openmarket.Prelude.{
  ℕ, ◌+◌, Bool, true, false, not, ◌&&◌, ◌||◌, Option, none, some, List, [], ◌∷◌, if◌then◌else◌,
  is_empty, is_some, any, all, is_digit, leb, length, ◌==◌, Text,
}
pub use openmarket.Shared.Machine.{Reply, done, failed}
use openmarket.Shared.Machine.{Machine}

pub data Role : Type 0 where
  owner manager cashier : Role

pub record User : Type 0 where
  pub id : ℕ
  pub email : Option Text
  pub full_name : Text
  pub role : Role
  pub active : Bool
  pub last_login_at : Option Text

-- The form for a new user; `instance_id` tells one rendering of it from a later one.
pub record Draft : Type 0 where
  pub instance_id : ℕ
  pub role : Role
  pub full_name : Text
  pub email : Text
  pub password : Text
  -- The text of the password's field was last changed by the user, and not by the script when the field
  -- was mounted: only then does the browser check `minLength`.
  pub password_edited : Bool
  pub pin : Text
  pub error : Option Text

pub record State : Type 0 where
  pub users : List User
  pub error : Option Text
  pub new_user : Option Draft
  pub instances : ℕ

-- The body of `api.users.create`; a field that is not sent is none.
pub record UserBody : Type 0 where
  pub role : Role
  pub full_name : Text
  pub email : Option Text
  pub password : Option Text
  pub pin : Option Text

pub data Request : Type 0 where
  list_users : Request
  create : ℕ → UserBody → Request
  deactivate : ℕ → Request

abbrev pub Answer : Request → Type 0
Answer list_users = Reply (List User)
Answer (create i b) = Reply (Unit {0})
Answer (deactivate i) = Reply (Unit {0})

abbrev pub is_cashier : Role → Bool
is_cashier owner = false
is_cashier manager = false
is_cashier cashier = true

-- `submit` of the form, its body.
unfoldable pub body_of : Draft → UserBody
body_of d =
    if is_cashier d.role
    then record {
      role = d.role;
      full_name = d.full_name;
      email = none;
      password = none;
      pin = some d.pin;
    }
    else record {
      role = d.role;
      full_name = d.full_name;
      email = some d.email;
      password = some d.password;
      pin = none;
    }

pub data Event : Type 0 where
  new_clicked : Event
  role_chosen : Role → Event
  name_typed email_typed password_typed pin_typed : Text → Event
  submitted cancelled : Event
  -- The button of a user's row, with the answer to `confirm`.
  deactivate_clicked : ℕ → Bool → Event

abbrev blank : ℕ → Draft
blank i = record {
  instance_id = i;
  role = cashier;
  full_name = [];
  email = [];
  password = [];
  password_edited = false;
  pin = [];
  error = none;
}

abbrev pub edited : (Draft → Draft) → State → State
edited f s = record s { new_user = elim s.new_user [ none ↦ none | some d ↦ some (f d) ] }

-- `setRole`. The fields for the email and the password are mounted anew for a role that is no cashier's
-- after a cashier's.
abbrev pub choose_role : Role → Draft → Draft
choose_role r d = record d {
  role = r;
  password_edited = d.password_edited && not (is_cashier d.role) && not (is_cashier r);
}

abbrev pub open_form : State → State
open_form s = elim s.new_user [
  | none ↦ record s { new_user = some (blank s.instances); instances = s.instances + 1 }
  | some d ↦ s
]

unfoldable pub submit : Option Draft → List Request
unfolding body_of
submit none = []
submit (some d) = create d.instance_id (body_of d) ∷ []

unfoldable pub react : Event → State → State × List Request
unfolding submit
react new_clicked s = (open_form s, [])
react (role_chosen r) s = (edited (choose_role r) s, [])
react (name_typed t) s = (edited (λ d. record d { full_name = t }) s, [])
react (email_typed t) s = (edited (λ d. record d { email = t }) s, [])
react (password_typed t) s = (edited (λ d. record d { password = t; password_edited = true }) s, [])
react (pin_typed t) s = (edited (λ d. record d { pin = t }) s, [])
react submitted s = (edited (λ d. record d { error = none }) s, submit s.new_user)
react cancelled s = (record s { new_user = none }, list_users ∷ [])
react (deactivate_clicked i b) s = (s, if b then deactivate i ∷ [] else [])

-- The error of a form goes to the rendering that sent it, if it is still there.
abbrev pub tell : ℕ → Text → Draft → Draft
tell i m d = if d.instance_id == i then record d { error = some m } else d

unfoldable pub replied : (r : Request) → Answer r → State → State × List Request
replied list_users (done us) s = (record s { users = us }, [])
replied list_users (failed m) s = (record s { error = some m }, [])
replied (create i b) (done u) s = (record s { new_user = none }, list_users ∷ [])
replied (create i b) (failed m) s = (edited (tell i m) s, [])
replied (deactivate i) (done u) s = (s, list_users ∷ [])
replied (deactivate i) (failed m) s = (record s { error = some m }, [])

module _ (is_email : Text → Bool) where
  -- What the browser checks before it submits the form.
  abbrev pub is_complete : Draft → Bool
  is_complete d =
      not (is_empty d.full_name)
      && (if is_cashier d.role
          then not (is_empty d.pin) && all is_digit d.pin
          else not (is_empty d.email)
            && is_email d.email
            && not (is_empty d.password)
            && (not d.password_edited || leb 12 (length d.password)))

  abbrev pub has_form : (Draft → Bool) → State → Bool
  has_form p s = elim s.new_user [ none ↦ false | some d ↦ p d ]

  abbrev pub is_complete_form : Option Draft → Bool
  is_complete_form none = false
  is_complete_form (some d) = is_complete d

  unfoldable pub is_offered : Event → State → Bool
  is_offered new_clicked s = true
  is_offered (email_typed t) s = has_form (λ d. not (is_cashier d.role)) s
  is_offered (password_typed t) s = has_form (λ d. not (is_cashier d.role)) s
  is_offered (pin_typed t) s = has_form (λ d. is_cashier d.role) s && leb (length t) 6
  is_offered submitted s = is_complete_form s.new_user
  is_offered (deactivate_clicked i b) s = any (λ u. u.active && u.id == i) s.users
  is_offered e s = is_some s.new_user

  abbrev pub page : Machine
  page = record {
    State = State;
    Event = Event;
    Request = Request;
    Answer = Answer;
    is_offered = is_offered;
    react = react;
    replied = replied;
  }
