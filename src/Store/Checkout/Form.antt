-- ===== src/Store/Checkout/Form.antt =====
-- CartCheckoutPage.tsx: the delivery form and its validation.
use openmarket.Prelude.{
  ◌≤◌, ◌≡◌, refl, ◌↔◌, Bool, true, false, not, ◌&&◌, Option, none, some, [], ◌∷◌, filter, ltb,
  length, if◌then◌else◌, is_empty, is_some, is_digit, is_filled, Text, codes, arith,
}

pub record Form : Type 0 where
  pub name : Text
  pub phone : Text
  pub address : Text
  pub city : Text
  pub zip : Text

pub data Field : Type 0 where
  name phone address city zip : Field

-- The messages of the fields. A field that was edited after a failed validation has an empty one.
pub record FieldErrors : Type 0 where
  pub name : Option Text
  pub phone : Option Text
  pub address : Option Text
  pub city : Option Text
  pub zip : Option Text

abbrev pub digits : Text → Text
digits = filter is_digit

unfoldable pub validate_phone : Text → Option Text
validate_phone t =
    if ltb (length (digits t)) 7
    then some (codes "Phone number must be at least 7 digits")
    else none

unfoldable pub validate_zip : Text → Option Text
validate_zip t = if ltb (length t) 3 then some (codes "ZIP code is too short") else none

abbrev pub required : Text → Text → Option Text
required message t = if is_filled t then none else some message

-- `validateForm`: the messages that it sets.
unfoldable pub validate_form : Form → FieldErrors
unfolding validate_phone validate_zip
validate_form f = record {
  name = required (codes "Name is required") f.name;
  phone = validate_phone f.phone;
  address = required (codes "Address is required") f.address;
  city = required (codes "City is required") f.city;
  zip = validate_zip f.zip;
}

abbrev pub no_errors : FieldErrors
no_errors = record { name = none; phone = none; address = none; city = none; zip = none }

-- `Object.keys(errors).length === 0`.
abbrev pub is_clean : FieldErrors → Bool
is_clean e =
    not (is_some e.name)
    && not (is_some e.phone)
    && not (is_some e.address)
    && not (is_some e.city)
    && not (is_some e.zip)

-- The fields' part of `canSubmit`.
abbrev pub all_given : Form → Bool
all_given f =
    not (is_empty f.name)
    && not (is_empty f.phone)
    && not (is_empty f.address)
    && not (is_empty f.city)
    && not (is_empty f.zip)

-- Typing in a field changes its text and clears its message.
unfoldable pub edit_field : Field → Text → Form → Form
edit_field Field.name t f = record f { name = t }
edit_field Field.phone t f = record f { phone = t }
edit_field Field.address t f = record f { address = t }
edit_field Field.city t f = record f { city = t }
edit_field Field.zip t f = record f { zip = t }

unfoldable pub clear_error : Field → FieldErrors → FieldErrors
clear_error Field.name e = record e { name = some [] }
clear_error Field.phone e = record e { phone = some [] }
clear_error Field.address e = record e { address = some [] }
clear_error Field.city e = record e { city = some [] }
clear_error Field.zip e = record e { zip = some [] }

-- What a delivery needs.
pub record IsDeliverable (f : Form) : Type 0 where
  pub name_filled : is_filled f.name ≡ true
  pub phone_long : 7 ≤ length (digits f.phone)
  pub address_filled : is_filled f.address ≡ true
  pub city_filled : is_filled f.city ≡ true
  pub zip_long : 3 ≤ length f.zip

pub IsDeliverable-iff : (f : Form) → IsDeliverable f ↔ (is_clean (validate_form f) ≡ true)
unfolding validate_form
IsDeliverable-iff f = (λ d. ground arith, λ h. ground arith)

is_filled-nonempty : (t : Text) → is_filled t ≡ true → is_empty t ≡ false
unfolding is_filled
is_filled-nonempty [] h = cc
is_filled-nonempty (c ∷ t) h = refl

digits-nonempty : (t : Text) → 7 ≤ length (digits t) → is_empty t ≡ false
digits-nonempty [] h = absurd (omega arith)
digits-nonempty (c ∷ t) h = refl

long-nonempty : (t : Text) → 3 ≤ length t → is_empty t ≡ false
long-nonempty [] h = absurd (omega arith)
long-nonempty (c ∷ t) h = refl

-- A form that passes has text in every field.
pub all_given_of_clean : (f : Form) → IsDeliverable f → all_given f ≡ true
all_given_of_clean f d = ground (
  arith,
  is_filled-nonempty f.name d.name_filled,
  digits-nonempty f.phone d.phone_long,
  is_filled-nonempty f.address d.address_filled,
  is_filled-nonempty f.city d.city_filled,
  long-nonempty f.zip d.zip_long,
)
