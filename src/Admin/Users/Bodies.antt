-- ===== src/Admin/Users/Bodies.antt =====
-- Users.tsx: what is sent for a new user of each role, in every run.
use openmarket.Prelude.{
  ◌≡◌, ◌≤◌, refl, Bool, true, false, none, some, [], ◌∷◌, is_empty, all, is_digit, length, All,
  Option, Text, arith,
}
use openmarket.Shared.Machine.{Run, Reach}
use openmarket.Shared.Machine.Waiting.{IsKept, Reach-IsHeld}
use openmarket.Admin.Users.{
  Draft, State, UserBody, Request, list_users, create, deactivate, Role, Answer, done, failed,
  is_cashier, body_of, Event, new_clicked, role_chosen, name_typed, email_typed, password_typed,
  pin_typed, submitted, cancelled, deactivate_clicked, submit, react, replied, is_complete_form,
  is_offered, page,
}
use openmarket.Admin.Users.Pins.{IsShort, react-IsShort, replied-IsShort}

module _ (is_email : Text → Bool) where
  -- After the effect of the first render.
  abbrev pub opened : Run (page is_email)
  opened = record {
    state = record { users = []; error = none; new_user = none; instances = 0 };
    waiting = list_users ∷ [];
  }

  -- A cashier has a PIN of one to six digits and no email or password, the others have an email and a
  -- password that are not empty and no PIN; all have a name.
  pub record IsCashierBody (b : UserBody) (pin : Text) : Type 0 where
    pub sent : b.pin ≡ some pin
    pub filled : is_empty pin ≡ false
    pub digits : all is_digit pin ≡ true
    pub short : length pin ≤ 6
    pub no_email : b.email ≡ none
    pub no_password : b.password ≡ none

  pub record IsStaffBody (b : UserBody) (email password : Text) : Type 0 where
    pub sent : b.email ≡ some email
    pub sent_password : b.password ≡ some password
    pub address : is_email email ≡ true
    pub secret : is_empty password ≡ false
    pub no_pin : b.pin ≡ none

  abbrev pub IsTyped : UserBody → Type 0
  IsTyped b =
      (is_empty b.full_name ≡ false)
      × (is_cashier b.role ≡ true → (pin : Text) × IsCashierBody b pin)
      × (is_cashier b.role ≡ false
          → (email : Text) × (password : Text) × IsStaffBody b email password)

  abbrev pub IsTypedRequest : State → Request → Type 0
  IsTypedRequest s list_users = Unit
  IsTypedRequest s (create i b) = IsTyped b
  IsTypedRequest s (deactivate i) = Unit

  abbrev cashier_body : Draft → UserBody
  cashier_body d = record {
    role = d.role;
    full_name = d.full_name;
    email = none;
    password = none;
    pin = some d.pin;
  }

  abbrev staff_body : Draft → UserBody
  staff_body d = record {
    role = d.role;
    full_name = d.full_name;
    email = some d.email;
    password = some d.password;
    pin = none;
  }

  body_fits :
      (d : Draft) (c : Bool)
      → is_cashier d.role ≡ c
      → is_complete_form is_email (some d) ≡ true
      → length d.pin ≤ 6
      → IsTyped (body_of d)
  unfolding body_of
  body_fits d true e o h =
      let q : body_of d ≡ cashier_body d = rw (body_of, e) refl in
      rw q (
        ground (arith, e, o),
        λ k. (
          d.pin,
          record {
            sent = refl;
            filled = ground (arith, e, o);
            digits = ground (arith, e, o);
            short = h;
            no_email = refl;
            no_password = refl;
          },
        ),
        λ k. absurd (ground (arith, e, k)),
      )
  body_fits d false e o h =
      let q : body_of d ≡ staff_body d = rw (body_of, e) refl in
      rw q (
        ground (arith, e, o),
        λ k. absurd (ground (arith, e, k)),
        λ k. (
          d.email,
          d.password,
          record {
            sent = refl;
            sent_password = refl;
            address = ground (arith, e, o);
            secret = ground (arith, e, o);
            no_pin = refl;
          },
        ),
      )

  submit_typed :
      (s : State) (o : Option Draft)
      → is_complete_form is_email o ≡ true
      → IsShort o
      → All (IsTypedRequest s) (submit o)
  unfolding submit
  submit_typed s none e h = tt
  submit_typed s (some d) e h = (body_fits d (is_cashier d.role) refl e h, tt)

  react_typed :
      (e : Event) (s : State)
      → is_offered is_email e s ≡ true
      → IsShort s.new_user
      → All (IsTypedRequest (react e s).0) (react e s).1
  unfolding react is_offered
  react_typed new_clicked s o h = tt
  react_typed (role_chosen r) s o h = tt
  react_typed (name_typed t) s o h = tt
  react_typed (email_typed t) s o h = tt
  react_typed (password_typed t) s o h = tt
  react_typed (pin_typed t) s o h = tt
  react_typed submitted s o h = submit_typed (react submitted s).0 s.new_user o h
  react_typed cancelled s o h = (tt, tt)
  react_typed (deactivate_clicked i true) s o h = (tt, tt)
  react_typed (deactivate_clicked i false) s o h = tt

  replied_typed :
      (r : Request) (a : Answer r) (s : State)
      → All (IsTypedRequest (replied r a s).0) (replied r a s).1
  unfolding replied
  replied_typed list_users (done us) s = tt
  replied_typed list_users (failed m) s = tt
  replied_typed (create i b) (done u) s = (tt, tt)
  replied_typed (create i b) (failed m) s = tt
  replied_typed (deactivate i) (done u) s = (tt, tt)
  replied_typed (deactivate i) (failed m) s = tt

  still_typed : (s t : State) (q : Request) → IsTypedRequest s q → IsTypedRequest t q
  still_typed s t list_users h = tt
  still_typed s t (create i b) h = h
  still_typed s t (deactivate i) h = tt

  page-IsKept : IsKept (page is_email) (λ s. IsShort s.new_user) IsTypedRequest
  page-IsKept = record {
    act_state = react-IsShort is_email;
    act_waiting = λ e s q o u h. still_typed s (react e s).0 q h;
    act_sent = react_typed;
    reply_state = λ r a s u h. replied-IsShort r a s u;
    reply_waiting = λ r a s q u h k. still_typed s (replied r a s).0 q k;
    reply_sent = λ r a s u h. replied_typed r a s;
  }

  -- In every run of the page, each new user that waits to be created has a name, and as a cashier a PIN of
  -- one to six digits with no email and no password, else an email address and a password that is
  -- not empty with no PIN.
  pub bodies_by_role :
      {run : Run (page is_email)}
      → Reach (page is_email) opened run
      → All (IsTypedRequest run.state) run.waiting
  bodies_by_role r =
      (Reach-IsHeld (page is_email) (λ s. IsShort s.new_user) IsTypedRequest page-IsKept
        (record { state = tt; waiting = (tt, tt) }) r).waiting

  -- The bound of twelve characters is not kept: a password of any length that is not empty, which is
  -- refused when it has been typed, is sent after the role was changed to a cashier's and back.
  pub short_password_sent :
      (s : State) (d : Draft) (t : Text)
      → s.new_user ≡ some d
      → is_cashier d.role ≡ false
      → is_complete_form is_email (some (record d { password = t; password_edited = false })) ≡ true
      → let typed = (react (password_typed t) s).0 in
        let back = (react (role_chosen d.role) (react (role_chosen Role.cashier) typed).0).0 in
        (is_offered is_email submitted back ≡ true)
        × ((react submitted back).1
            ≡ create d.instance_id (body_of (record d { password = t })) ∷ [])
  unfolding react is_offered submit body_of
  short_password_sent s d t e c k = rw e (ground (arith, c, k), ground (arith, c))
