-- ===== src/Pos/Keypads/Pin.antt =====
-- frontend/packages/pos/src/pages/CashierLogin.tsx: choosing a cashier and typing the PIN.
pub use openmarket.Shared.Machine.{Reply, done, failed}
use openmarket.Prelude.{
  ℕ, ◌+◌, ◌≤◌, ◌≡◌, Bool, true, false, not, ◌&&◌, Option, none, some, List, [], ◌∷◌, ◌++◌,
  if◌then◌else◌, is_some, is_digit, Text, codes, arith, length, length-append, any, all, leb, ◌==◌,
}
use openmarket.Shared.Machine.{Machine, Run, Reach, Step, act, reply, here, more}

pub record Cashier : Type 0 where
  pub user_id : ℕ
  pub full_name : Text

pub record State : Type 0 where
  pub cashiers : List Cashier
  pub selected : Option Cashier
  pub pin : Text
  pub error : Option Text
  -- The calls of `onSuccess`.
  pub successes : ℕ

pub data Request : Type 0 where
  list_cashiers : Request
  pos_login : ℕ → Text → Request

abbrev pub Answer : Request → Type 0
Answer list_cashiers = Reply (List Cashier)
Answer (pos_login user pin) = Reply (Unit {0})

pub data Event : Type 0 where
  select : Cashier → Event
  digit : ℕ → Event
  cleared : Event
  entered : Event
  deselect : Event

unfoldable pub initial : State
initial = record { cashiers = []; selected = none; pin = []; error = none; successes = 0 }

unfoldable pub is_offered : Event → State → Bool
is_offered (select c) s = not (is_some s.selected) && any (λ d. d.user_id == c.user_id) s.cashiers
is_offered (digit d) s = is_some s.selected && not (leb 10 d)
is_offered e s = is_some s.selected

unfoldable pub react : Event → State → State × List Request
react (select c) s = (record s { selected = some c }, [])
react (digit d) s =
    if leb 6 (length s.pin) then (s, []) else (record s { pin = s.pin ++ (48 + d) ∷ [] }, [])
react cleared s = (record s { pin = [] }, [])
react entered s = elim s.selected [
  | none ↦ (s, [])
  | some c ↦ (record s { error = none }, pos_login c.user_id s.pin ∷ [])
]
react deselect s = (record s { selected = none; pin = [] }, [])

unfoldable pub replied : (r : Request) → Answer r → State → State
replied list_cashiers (done cs) s = record s { cashiers = cs }
replied list_cashiers (failed m) s = record s { error = some (codes "Could not load cashier list") }
replied (pos_login user pin) (done _) s = record s { successes = s.successes + 1 }
replied (pos_login user pin) (failed m) s = record s { error = some m; pin = [] }

abbrev pub login : Machine
login = record {
  State = State;
  Event = Event;
  Request = Request;
  Answer = Answer;
  is_offered = is_offered;
  react = react;
  replied = λ r a s. (replied r a s, []);
}

-- A PIN that may be sent.
pub record IsPin (pin : Text) : Type 0 where
  pub short : length pin ≤ 6
  pub numeric : all is_digit pin ≡ true

-- The PIN of a chosen cashier; without one there is none.
pub record IsSafe (s : State) : Type 0 where
  pub entry : IsPin s.pin
  pub owned : is_some s.selected ≡ false → s.pin ≡ []

all-append :
    (s t : Text) → all is_digit s ≡ true → all is_digit t ≡ true → all is_digit (s ++ t) ≡ true
all-append [] t h k = k
all-append (c ∷ s) t h k = ground (arith, all-append s t)

react-IsSafe : (e : Event) (s : State) → is_offered e s ≡ true → IsSafe s → IsSafe (react e s).0
unfolding react is_offered
react-IsSafe (digit d) s o h =
    ground (arith, length-append s.pin ((48 + d) ∷ []), all-append s.pin ((48 + d) ∷ []))
react-IsSafe e s o h = ground arith

replied-IsSafe : (r : Request) (a : Answer r) (s : State) → IsSafe s → IsSafe (replied r a s)
unfolding replied
replied-IsSafe list_cashiers (done cs) s h = ground arith
replied-IsSafe list_cashiers (failed m) s h = ground arith
replied-IsSafe (pos_login user pin) (done _) s h = ground arith
replied-IsSafe (pos_login user pin) (failed m) s h = ground arith

Step-IsSafe : {run next : Run login} → Step login run next → IsSafe run.state → IsSafe next.state
Step-IsSafe {run} (act e o q) h = rw q (react-IsSafe e run.state o h)
Step-IsSafe {run} (reply before after r a k q) h = rw q (replied-IsSafe r a run.state h)

-- In every state that the login can reach the PIN has at most six characters, all digits, and there
-- is none while no cashier is chosen.
pub Reach-IsSafe :
    {start run : Run login} → IsSafe start.state → Reach login start run → IsSafe run.state
Reach-IsSafe h here = h
Reach-IsSafe h (more r st) = Step-IsSafe st (Reach-IsSafe h r)

-- A login is sent only for the chosen cashier, with the PIN that was typed; and a login that fails
-- clears the PIN and keeps the cashier.
pub login_sent :
    (s : State) (user : ℕ) (pin m : Text)
    → (react entered s).1 ≡ pos_login user pin ∷ []
    → ((c : Cashier) × (s.selected ≡ some c) × (user ≡ c.user_id))
      × (pin ≡ s.pin)
      × ((replied (pos_login user pin) (failed m) s).pin ≡ [])
      × ((replied (pos_login user pin) (failed m) s).selected ≡ s.selected)
unfolding react replied
login_sent s user pin m h = ground arith
