-- ===== src/Pos/Modals/Override.antt =====
-- ManagerOverrideModal.tsx: a manager's email and password, and the one request for an authorization.
-- The modal shell (ModalShell.tsx) closes by its backdrop or by Escape only while it is not busy.
pub use openmarket.Shared.Machine.{Reply, done, failed}
use openmarket.Prelude.{
  ℕ, ◌+◌, ◌≤◌, ◌≡◌, ◌↔◌, refl, Bool, true, false, not, ◌&&◌, Option, List, [], ◌∷◌, ◌++◌,
  if◌then◌else◌, is_empty, is_filled, trim, Text, codes, arith, Bool-cases, inl, inr,
}
use openmarket.Shared.Machine.{Machine, Run, Reach}
use openmarket.Shared.Machine.Flight.{flag, count, Reach-IsBalanced}

-- `ManagerOverrideResult`, without the role.
pub record Authorization : Type 0 where
  pub user_id : ℕ
  pub full_name : Text

pub record State : Type 0 where
  pub email : Text
  pub password : Text
  pub error : Text
  pub busy : Bool
  -- The calls of `onAuthorized`.
  pub reports : List Authorization
  pub cancelled : Bool

-- What `managerOverride` sends; the context is the id of a transaction.
pub record Override : Type 0 where
  pub email : Text
  pub password : Text
  pub action : Text
  pub pos_transaction_id : Option Text

pub data Event : Type 0 where
  typed_email : Text → Event
  typed_password : Text → Event
  submitted : Event
  cancel : Event

unfoldable pub initial : State
initial = record {
  email = [];
  password = [];
  error = [];
  busy = false;
  reports = [];
  cancelled = false;
}

-- `e.message || "Authorization failed"`.
abbrev pub or_message : Text → Text
or_message [] = codes "Authorization failed"
or_message (c ∷ m) = c ∷ m

abbrev pub is_complete : State → Bool
is_complete s = is_filled s.email && not (is_empty s.password)

module _ (action : Text) (context : Option Text) where
  unfoldable pub is_offered : Event → State → Bool
  is_offered submitted s = not s.busy
  is_offered cancel s = not s.busy
  is_offered e s = true

  abbrev pub override_of : State → Override
  override_of s = record {
    email = trim s.email;
    password = s.password;
    action = action;
    pos_transaction_id = context;
  }

  unfoldable pub react : Event → State → State × List Override
  react (typed_email t) s = (record s { email = t }, [])
  react (typed_password t) s = (record s { password = t }, [])
  react submitted s =
      if is_complete s
      then (record s { error = []; busy = true }, override_of s ∷ [])
      else (record s { error = codes "Manager email and password required" }, [])
  react cancel s = (record s { cancelled = true }, [])

  unfoldable pub replied : Override → Reply Authorization → State → State
  replied o (done a) s = record s { reports = s.reports ++ a ∷ []; busy = false }
  replied o (failed m) s = record s { error = or_message m; busy = false }

  abbrev pub modal : Machine
  modal = record {
    State = State;
    Event = Event;
    Request = Override;
    Answer = λ o. Reply Authorization;
    is_offered = is_offered;
    react = react;
    replied = λ o a s. (replied o a s, []);
  }

  react-busy :
      (e : Event) (s : State)
      → is_offered e s ≡ true
      → flag (react e s).0.busy ≡ flag s.busy + count (λ o. true) (react e s).1
  unfolding is_offered react
  react-busy submitted s o = elim (Bool-cases (is_complete s)) [
    | inl q ↦ rw q (ground arith)
    | inr q ↦ rw q (ground arith)
  ]
  react-busy e s o = ground arith

  replied-busy :
      (o : Override) (a : Reply Authorization) (s : State)
      → 1 ≤ flag s.busy
      → flag (replied o a s).busy + 1 ≡ flag s.busy + 0
  unfolding replied
  replied-busy o (done r) s h = ground arith
  replied-busy o (failed m) s h = ground arith

  one_waits :
      {run : Run modal}
      → Reach modal (record { state = initial; waiting = [] }) run
      → count (λ o. true) run.waiting ≡ flag run.state.busy
  unfolding initial
  one_waits r =
      Reach-IsBalanced modal (λ o. true) (λ s. s.busy)
        (record { act_flag = react-busy; reply_flag = replied-busy }) refl r

  -- From the moment the modal opens at most one authorization is outstanding, and while one is, neither
  -- submitting nor cancelling is offered, so the modal does not close before the answer. Submitting
  -- sends an authorization exactly when the email is not blank and there is a password, and what it
  -- sends is the trimmed email and the password of the modal for its action and transaction.
  pub one_override :
      {run : Run modal}
      → Reach modal (record { state = initial; waiting = [] }) run
      → (count (λ o. true) run.waiting ≤ 1)
        × (count (λ o. true) run.waiting ≡ 1
            → (is_offered cancel run.state ≡ false) × (is_offered submitted run.state ≡ false))
        × (((react submitted run.state).1 ≡ override_of run.state ∷ [])
            ↔ (is_complete run.state ≡ true))
  unfolding is_offered react
  one_override {run} r =
      let balanced = one_waits r in
      (ground arith, λ one. (ground arith, ground arith), ground arith)
