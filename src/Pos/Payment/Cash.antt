-- ===== src/Pos/Payment/Cash.antt =====
-- PaymentCashModal.tsx: the tendered amount, and the one request for a cash payment.
pub use openmarket.Shared.Machine.{Reply, done, failed}
use openmarket.Prelude.{
  ℕ, ◌+◌, ◌≤◌, ◌≡◌, refl, Bool, true, false, not, ◌&&◌, Option, none, some, List, [], ◌∷◌, ◌++◌,
  Number, nought, lt, is_nonzero, if◌then◌else◌, Text, codes, arith,
}
use openmarket.Shared.Types.{CashPaymentResult}
use openmarket.Shared.Machine.{Machine, Run, Reach}
use openmarket.Shared.Machine.Flight.{flag, count, Reach-IsBalanced}

pub record State : Type 0 where
  pub tendered : Text
  pub busy : Bool
  pub error : Option Text
  pub reports : List CashPaymentResult
  pub cancelled : Bool

pub record Charge : Type 0 where
  pub client_id : Text
  pub order_id : ℕ
  pub tendered : Text

pub data Event : Type 0 where
  -- A quick tender, by its amount in the text of the button.
  quick : Text → Event
  typed : Text → Event
  -- With a fresh client id.
  submitted : Text → Event
  cancel : Event

-- `useState(total)`.
unfoldable pub initial : Text → State
initial total = record {
  tendered = total;
  busy = false;
  error = none;
  reports = [];
  cancelled = false;
}

-- `tendered || "0"`.
abbrev pub or_zero : Text → Text
or_zero [] = codes "0"
or_zero (c ∷ t) = c ∷ t

module _ (N : Type 0) ⦃n : Number N⦄ where
  -- `parseFloat(total) || 0`.
  unfoldable pub total_num : Text → N
  total_num total = let x : N = n.parse_float total in if is_nonzero x then x else nought

  unfoldable pub change : Text → State → N
  unfolding total_num
  change total s = n.max nought (n.sub (n.parse_float (or_zero s.tendered)) (total_num total))

  -- The tendered amount is less than the total.
  unfoldable pub is_short : Text → Text → Bool
  unfolding total_num
  is_short total tendered = lt (n.parse_float (or_zero tendered)) (total_num total)

module _ (N : Type 0) ⦃n : Number N⦄ (order_id : ℕ) (total : Text) where
  unfoldable pub is_offered : Event → State → Bool
  is_offered (submitted id) s = not s.busy && not (is_short N total s.tendered)
  is_offered cancel s = not s.busy
  is_offered e s = true

  unfoldable pub react : Event → State → State × List Charge
  react (quick t) s = (record s { tendered = t }, [])
  react (typed t) s = (record s { tendered = t }, [])
  react (submitted id) s = (
    record s { busy = true; error = none },
    record { client_id = id; order_id = order_id; tendered = s.tendered } ∷ [],
  )
  react cancel s = (record s { cancelled = true }, [])

  unfoldable pub replied : Charge → Reply CashPaymentResult → State → State
  replied c (done r) s = record s { reports = s.reports ++ r ∷ []; busy = false }
  replied c (failed m) s = record s { error = some m; busy = false }

  abbrev pub modal : Machine
  modal = record {
    State = State;
    Event = Event;
    Request = Charge;
    Answer = λ c. Reply CashPaymentResult;
    is_offered = is_offered;
    react = react;
    replied = λ c a s. (replied c a s, []);
  }

  react-busy :
      (e : Event) (s : State)
      → is_offered e s ≡ true
      → flag (react e s).0.busy ≡ flag s.busy + count (λ c. true) (react e s).1
  unfolding is_offered react
  react-busy cancel s o = ground arith
  react-busy e s o = ground arith

  replied-busy :
      (c : Charge) (a : Reply CashPaymentResult) (s : State)
      → 1 ≤ flag s.busy
      → flag (replied c a s).busy + 1 ≡ flag s.busy + 0
  unfolding replied
  replied-busy c (done r) s h = ground arith
  replied-busy c (failed m) s h = ground arith

  one_cash_waits :
      {run : Run modal}
      → Reach modal (record { state = initial total; waiting = [] }) run
      → count (λ c. true) run.waiting ≡ flag run.state.busy
  unfolding initial
  one_cash_waits r =
      Reach-IsBalanced modal (λ c. true) (λ s. s.busy)
        (record { act_flag = react-busy; reply_flag = replied-busy }) refl r

  -- From the moment the modal opens at most one charge is outstanding, whatever is clicked and whenever
  -- the reply arrives; and while one is, neither confirming nor cancelling is offered.
  pub one_cash_charge :
      {run : Run modal} (id : Text)
      → Reach modal (record { state = initial total; waiting = [] }) run
      → (count (λ c. true) run.waiting ≤ 1)
        × (count (λ c. true) run.waiting ≡ 1
            → (is_offered cancel run.state ≡ false) × (is_offered (submitted id) run.state ≡ false))
  unfolding is_offered
  one_cash_charge {run} id r =
      let balanced = one_cash_waits r in (ground arith, λ one. (ground arith, ground arith))

  -- A charge is sent only for an amount that is not short of the total, and it carries the order and
  -- the amount that the modal shows.
  pub charge_covered :
      (e : Event) (s : State) {c : Charge}
      → is_offered e s ≡ true
      → (react e s).1 ≡ c ∷ []
      → (c.order_id ≡ order_id) × (c.tendered ≡ s.tendered) × (is_short N total c.tendered ≡ false)
  unfolding is_offered react
  charge_covered cancel s o h = ground arith
  charge_covered e s o h = ground arith
