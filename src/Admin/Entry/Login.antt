-- ===== src/Admin/Entry/Login.antt =====
-- frontend/packages/admin/src/pages/Login.tsx: the login with a second factor where the server wants
-- one. Which texts the browser takes for an email address is a parameter.
use openmarket.Prelude.{
  ◌≡◌, refl, Bool, true, false, not, ◌&&◌, ◌||◌, Option, none, some, List, [], ◌∷◌, if◌then◌else◌,
  is_empty, all, is_digit, All, Text, arith,
}
pub use openmarket.Shared.Machine.{Reply, done, failed}
use openmarket.Shared.Machine.{Machine, Run, Reach}
use openmarket.Shared.Machine.Waiting.{IsKept, Reach-IsHeld}

pub record State : Type 0 where
  pub email : Text
  pub password : Text
  pub mfa : Text
  pub mfa_required : Bool
  pub error : Option Text
  -- Whether `onSuccess` has been called.
  pub succeeded : Bool

abbrev pub initial : State
initial = record {
  email = [];
  password = [];
  mfa = [];
  mfa_required = false;
  error = none;
  succeeded = false;
}

-- `login` of auth.ts, with the code if there is one. The reply says whether a code is required.
pub data Request : Type 0 where
  login : Text → Text → Option Text → Request

pub data Event : Type 0 where
  email_typed password_typed mfa_typed : Text → Event
  submitted : Event

unfoldable pub react : Event → State → State × List Request
react (email_typed t) s = (record s { email = t }, [])
react (password_typed t) s = (record s { password = t }, [])
react (mfa_typed t) s = (record s { mfa = t }, [])
react submitted s = (
  record s { error = none },
  login s.email s.password (if s.mfa_required then some s.mfa else none) ∷ [],
)

unfoldable pub replied : Reply Bool → State → State
replied (done b) s = if b then record s { mfa_required = true } else record s { succeeded = true }
replied (failed m) s = record s { error = some m }

module _ (is_email : Text → Bool) where
  -- The fields are required, the first is for an email, and the last, for digits, is there if a code is.
  unfoldable pub is_offered : Event → State → Bool
  is_offered (mfa_typed t) s = s.mfa_required
  is_offered submitted s =
      not (is_empty s.email)
      && is_email s.email
      && not (is_empty s.password)
      && (not s.mfa_required || not (is_empty s.mfa) && all is_digit s.mfa)
  is_offered e s = true

  abbrev pub form : Machine
  form = record {
    State = State;
    Event = Event;
    Request = Request;
    Answer = λ r. Reply Bool;
    is_offered = is_offered;
    react = react;
    replied = λ r a s. (replied a s, []);
  }

  -- What a request has: credentials that are filled in, and a code only if one has been asked for, which
  -- is of digits.
  abbrev pub IsAsked : State → Request → Type 0
  IsAsked s (login e p none) = (is_email e ≡ true) × (is_empty p ≡ false)
  IsAsked s (login e p (some c)) =
      (is_email e ≡ true)
      × (is_empty p ≡ false)
      × (s.mfa_required ≡ true)
      × (is_empty c ≡ false)
      × (all is_digit c ≡ true)

  kept_by_state :
      (s t : State) (q : Request)
      → (s.mfa_required ≡ true → t.mfa_required ≡ true)
      → IsAsked s q
      → IsAsked t q
  kept_by_state s t (login e p none) f h = h
  kept_by_state s t (login e p (some c)) f h = (h.0, h.1, f h.2, h.3, h.4)

  submitted_asks :
      (s : State) (b : Bool)
      → s.mfa_required ≡ b
      → is_offered submitted s ≡ true
      → IsAsked s (login s.email s.password (if b then some s.mfa else none))
  unfolding is_offered
  submitted_asks s true e o = ground (arith, e, o)
  submitted_asks s false e o = ground (arith, e, o)

  form-IsKept : IsKept form (λ s. Unit) IsAsked
  unfolding react replied
  form-IsKept = record {
    act_state = λ e s o u. tt;
    act_waiting = λ e s q o u h. kept_by_state s (react e s).0 q (acted e s) h;
    act_sent = sent;
    reply_state = λ r a s u h. tt;
    reply_waiting = λ r a s q u h k. kept_by_state s (replied a s) q (answered a s) k;
    reply_sent = λ r a s u h. tt;
  }
    where
      acted : (e : Event) (s : State) → s.mfa_required ≡ true → (react e s).0.mfa_required ≡ true
      acted (email_typed t) s h = h
      acted (password_typed t) s h = h
      acted (mfa_typed t) s h = h
      acted submitted s h = h

      answered :
          (a : Reply Bool) (s : State) → s.mfa_required ≡ true → (replied a s).mfa_required ≡ true
      answered (done true) s h = refl
      answered (done false) s h = h
      answered (failed m) s h = h

      sent :
          (e : Event) (s : State)
          → is_offered e s ≡ true
          → Unit {0}
          → All (IsAsked (react e s).0) (react e s).1
      sent (email_typed t) s o u = tt
      sent (password_typed t) s o u = tt
      sent (mfa_typed t) s o u = tt
      sent submitted s o u = (submitted_asks s s.mfa_required refl o, tt)

  -- In every run of the form, what waits to be sent has an email address and a password; it has a code
  -- only after the server has asked for one, and then of one digit or more and of digits only.
  pub code_on_demand :
      {run : Run form}
      → Reach form (record { state = initial; waiting = [] }) run
      → All (IsAsked run.state) run.waiting
  code_on_demand r =
      (Reach-IsHeld form (λ s. Unit) IsAsked form-IsKept (record { state = tt; waiting = tt })
        r).waiting
