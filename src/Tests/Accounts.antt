-- ===== src/Tests/Accounts.antt =====
-- Admin/Entry and Admin/Users at concrete inputs.
use openmarket.Prelude.{
  ◌≡◌, refl, Bool, true, false, not, any, ◌==◌, none, some, [], ◌∷◌, All, is_empty, Text, text_eq,
  codes,
}
use openmarket.Shared.Machine.{Run, Reach, here, more, act, reply, Reply, done}
use openmarket.Admin.Entry as Entry
use openmarket.Admin.Entry.Login as Login
use openmarket.Admin.Entry.Login.{code_on_demand}
use openmarket.Admin.Entry.Opened.{Waits, replied_in, entry_opened}
use openmarket.Admin.Users as Users
use openmarket.Admin.Users.Bodies as Bodies
use openmarket.Admin.Users.Bodies.{IsTypedRequest, bodies_by_role}
use openmarket.Shared.Client as Client

-- Bodies that are the details of errors, and say that there is no owner if they are not empty.
abbrev json : Client.Json
json = record { Body = Text; detail = λ b. some b; is_null = λ b. text_eq b (codes "null") }

abbrev no_owner : Text → Bool
no_owner t = not (is_empty t)

abbrev asking : Run (Entry.gate json no_owner [])
asking = record { state = Entry.loading; waiting = Entry.status ∷ [] }

asking_run : Reach (Entry.gate json no_owner []) (Entry.first_render json no_owner []) asking
unfolding Entry.replied Client.fetch_me Entry.after_me
asking_run =
    more here (reply [] [] Entry.me (done (record { status = 401; body = none })) refl refl)

entry_opened_example :
    Waits json no_owner [] asking
    × ((o : Reply (Client.Response json))
        → (Entry.names_nobody json no_owner [] o ≡ true
            → Entry.replied json no_owner [] Entry.me o asking.state
              ≡ (asking.state, Entry.status ∷ []))
          × (Entry.names_nobody json no_owner [] o ≡ false
              → (Entry.is_signed_in (replied_in json no_owner [] Entry.me o asking.state)
                  ≡ Entry.names_user json no_owner [] o)
                × (Entry.is_loading (replied_in json no_owner [] Entry.me o asking.state) ≡ false))
          × (Entry.is_setup (replied_in json no_owner [] Entry.status o asking.state)
              ≡ Entry.lacks_owner json no_owner [] o)
          × (Entry.is_loading (replied_in json no_owner [] Entry.status o asking.state) ≡ false))
entry_opened_example = entry_opened json no_owner [] asking_run

abbrev is_email : Text → Bool
is_email t = any (λ c. c == b'@') t

-- A login for which the server wants a code, which is then typed and sent.
abbrev with_code : Run (Login.form is_email)
with_code = record {
  state = record Login.initial {
    email = codes "a@b";
    password = codes "secret";
    mfa = codes "123456";
    mfa_required = true;
  };
  waiting = Login.login (codes "a@b") (codes "secret") (some (codes "123456")) ∷ [];
}

with_code_run :
    Reach (Login.form is_email) (record { state = Login.initial; waiting = [] }) with_code
unfolding Login.react Login.replied Login.is_offered
with_code_run =
    more
      (more
        (more
          (more
            (more (more here (act (Login.email_typed (codes "a@b")) refl refl))
              (act (Login.password_typed (codes "secret")) refl refl))
            (act Login.submitted refl refl))
          (reply [] [] (Login.login (codes "a@b") (codes "secret") none) (done true) refl refl))
        (act (Login.mfa_typed (codes "123456")) refl refl))
      (act Login.submitted refl refl)

code_on_demand_example : All (Login.IsAsked is_email with_code.state) with_code.waiting
code_on_demand_example = code_on_demand is_email with_code_run

-- A cashier is created with a PIN.
abbrev creating : Run (Users.page is_email)
creating = record {
  state = record {
    users = [];
    error = none;
    new_user = some (record {
      instance_id = 0;
      role = Users.cashier;
      full_name = codes "Ann";
      email = [];
      password = [];
      password_edited = false;
      pin = codes "1234";
      error = none;
    });
    instances = 1;
  };
  waiting =
      Users.list_users
      ∷ Users.create 0 (record {
        role = Users.cashier;
        full_name = codes "Ann";
        email = none;
        password = none;
        pin = some (codes "1234");
      })
      ∷ [];
}

creating_run : Reach (Users.page is_email) (Bodies.opened is_email) creating
unfolding Users.react Users.is_offered Users.submit Users.body_of
creating_run =
    more
      (more
        (more (more here (act Users.new_clicked refl refl))
          (act (Users.name_typed (codes "Ann")) refl refl))
        (act (Users.pin_typed (codes "1234")) refl refl))
      (act Users.submitted refl refl)

bodies_by_role_example : All (IsTypedRequest is_email creating.state) creating.waiting
bodies_by_role_example = bodies_by_role is_email creating_run
