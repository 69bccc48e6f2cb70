-- ===== src/Admin/Users/Pins.antt =====
-- Users.tsx: the PIN of the form has at most six characters, in every run.
use openmarket.Prelude.{
  ◌≡◌, ◌≤◌, refl, Bool, true, none, some, length, Option, Text, arith, &&-eq-true, leb→le, ℕ,
}
use openmarket.Admin.Users.{
  Draft, State, Request, list_users, create, deactivate, Answer, done, failed, Event, new_clicked,
  role_chosen, name_typed, email_typed, password_typed, pin_typed, submitted, cancelled,
  deactivate_clicked, open_form, choose_role, react, replied, tell, is_offered,
}

-- A PIN has at most six characters in the form.
abbrev pub IsShort : Option Draft → Type 0
IsShort none = Unit
IsShort (some d) = length d.pin ≤ 6

edited-IsShort :
    (f : Draft → Draft) (o : Option Draft)
    → ((d : Draft) → length d.pin ≤ 6 → length (f d).pin ≤ 6)
    → IsShort o
    → IsShort (elim o [ none ↦ none | some d ↦ some (f d) ])
edited-IsShort f none g h = tt
edited-IsShort f (some d) g h = g d h

opened-IsShort :
    (s : State) (o : Option Draft) → s.new_user ≡ o → IsShort o → IsShort (open_form s).new_user
opened-IsShort s none e h = rw e (omega arith)
opened-IsShort s (some d) e h = rw e h

tell_pin : (i : ℕ) (m : Text) (d : Draft) → length d.pin ≤ 6 → length (tell i m d).pin ≤ 6
tell_pin i m d h = ground (arith, h)

pub replied-IsShort :
    (r : Request) (a : Answer r) (s : State)
    → IsShort s.new_user
    → IsShort (replied r a s).0.new_user
unfolding replied
replied-IsShort list_users (done us) s h = h
replied-IsShort list_users (failed m) s h = h
replied-IsShort (create i b) (done u) s h = tt
replied-IsShort (create i b) (failed m) s h = edited-IsShort (tell i m) s.new_user (tell_pin i m) h
replied-IsShort (deactivate i) (done u) s h = h
replied-IsShort (deactivate i) (failed m) s h = h

module _ (is_email : Text → Bool) where
  pub react-IsShort :
      (e : Event) (s : State)
      → is_offered is_email e s ≡ true
      → IsShort s.new_user
      → IsShort (react e s).0.new_user
  unfolding react is_offered
  react-IsShort new_clicked s o h = opened-IsShort s s.new_user refl h
  react-IsShort (role_chosen r) s o h = edited-IsShort (choose_role r) s.new_user (λ d k. k) h
  react-IsShort (name_typed t) s o h =
      edited-IsShort (λ d. record d { full_name = t }) s.new_user (λ d k. k) h
  react-IsShort (email_typed t) s o h =
      edited-IsShort (λ d. record d { email = t }) s.new_user (λ d k. k) h
  react-IsShort (password_typed t) s o h =
      edited-IsShort (λ d. record d { password = t; password_edited = true }) s.new_user (λ d k. k)
        h
  react-IsShort (pin_typed t) s o h =
      edited-IsShort (λ d. record d { pin = t }) s.new_user
        (λ d k. leb→le (length t) 6 (&&-eq-true _ _ o).1) h
  react-IsShort submitted s o h =
      edited-IsShort (λ d. record d { error = none }) s.new_user (λ d k. k) h
  react-IsShort cancelled s o h = tt
  react-IsShort (deactivate_clicked i b) s o h = h
