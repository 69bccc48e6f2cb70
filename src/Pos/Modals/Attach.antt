-- ===== src/Pos/Modals/Attach.antt =====
-- CustomerAttachModal.tsx: looking a customer up by phone, and creating one. The key Enter looks up
-- even while a lookup is under way, and the button to cancel is never disabled.
pub mod Names
pub use openmarket.Shared.Machine.{Reply, done, failed}
use openmarket.Prelude.{
  ℕ, ◌≡◌, ◌≢◌, ◌↔◌, ◌⊎◌, inl, inr, refl, ap, ◌∙◌, Bool, true, false, not, ◌&&◌, ◌||◌, Option, none,
  some, List, [], ◌∷◌, ◌++◌, if◌then◌else◌, is_empty, is_filled, is_space, trim, trim_start,
  trim_end, any, Text, codes, arith, Bool-cases,
}
use openmarket.Shared.Types.{Customer}
use openmarket.Shared.Csv.{join}

-- `s.split(/\s+/)`: the flag says that the character before was white space.
unfoldable pub split_spaces : Bool → Text → Text → List Text
split_spaces gap word [] = word ∷ []
split_spaces gap word (c ∷ s) =
    let in_gap = split_spaces true word s in
    let ends = word ∷ split_spaces true [] s in
    let go_on = split_spaces false (word ++ c ∷ []) s in
    if is_space c then if gap then in_gap else ends else go_on

pub record CustomerBody : Type 0 where
  pub first_name : Text
  pub last_name : Text
  pub phone : Text
  pub email : Option Text

abbrev pub first_of : List Text → Text
first_of [] = []
first_of (x ∷ xs) = x

abbrev pub rest_of : List Text → List Text
rest_of [] = []
rest_of (x ∷ xs) = xs

pub record State : Type 0 where
  pub phone : Text
  pub busy : Bool
  pub error : Text
  pub show_create : Bool
  pub name : Text
  pub email : Text
  -- The calls of `onAttach`, and whether `onClose` was called.
  pub reports : List Customer
  pub closed : Bool

pub data Request : Type 0 where
  lookup : Text → Request
  create : CustomerBody → Request

pub data Event : Type 0 where
  typed_phone : Text → Event
  typed_name : Text → Event
  typed_email : Text → Event
  enter_pressed : Event
  lookup_clicked : Event
  new_clicked : Event
  submitted : Event
  -- The backdrop or Escape, and the button.
  dismissed : Event
  cancel_clicked : Event

unfoldable pub initial : Text → State
initial phone = record {
  phone = phone;
  busy = false;
  error = [];
  show_create = false;
  name = [];
  email = [];
  reports = [];
  closed = false;
}

unfoldable pub is_offered : Event → State → Bool
is_offered enter_pressed s = not s.show_create
is_offered lookup_clicked s = not s.show_create && not s.busy
is_offered new_clicked s = not s.show_create
is_offered (typed_name t) s = s.show_create
is_offered (typed_email t) s = s.show_create
is_offered submitted s = s.show_create && not s.busy
is_offered dismissed s = not s.busy
is_offered e s = true

unfoldable pub look_up : State → State × List Request
look_up s =
    if is_filled s.phone
    then (record s { error = []; busy = true }, lookup (trim s.phone) ∷ [])
    else (record s { error = codes "Enter a phone number" }, [])

unfoldable pub body_of : State → CustomerBody
unfolding split_spaces join
body_of s =
    let parts = split_spaces false [] (trim s.name) in
    record {
      first_name = first_of parts;
      last_name = join 32 (rest_of parts);
      phone = trim s.phone;
      email = if is_filled s.email then some (trim s.email) else none;
    }

unfoldable pub create_customer : State → State × List Request
create_customer s =
    if not (is_filled s.name)
    then (record s { error = codes "Name is required" }, [])
    else if not (is_filled s.phone)
    then (record s { error = codes "Phone is required" }, [])
    else (record s { error = []; busy = true }, create (body_of s) ∷ [])

unfoldable pub react : Event → State → State × List Request
unfolding look_up create_customer
react (typed_phone t) s = (record s { phone = t; show_create = false }, [])
react (typed_name t) s = (record s { name = t }, [])
react (typed_email t) s = (record s { email = t }, [])
react enter_pressed s = look_up s
react lookup_clicked s = look_up s
react new_clicked s = (record s { show_create = true }, [])
react submitted s = create_customer s
react dismissed s = (record s { closed = true }, [])
react cancel_clicked s = (record s { closed = true }, [])

-- `e.message || "Could not create customer"`.
abbrev pub or_message : Text → Text
or_message [] = codes "Could not create customer"
or_message (c ∷ m) = c ∷ m

unfoldable pub replied : Request → Reply Customer → State → State
replied r (done c) s = record s { reports = s.reports ++ c ∷ []; busy = false }
replied (lookup phone) (failed m) s = record s {
  error = codes "No customer found with that phone — create a new one?";
  show_create = true;
  busy = false;
}
replied (create body) (failed m) s = record s { error = or_message m; busy = false }
