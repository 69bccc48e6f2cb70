-- ===== src/Pos/Payment/Split.antt =====
-- PaymentSplitModal.tsx: one part in cash, the rest by card.
pub use openmarket.Shared.Machine.{Reply, done, failed}
use openmarket.Prelude.{
  ℕ, ◌+◌, ◌≤◌, ◌≡◌, refl, Bool, true, false, not, ◌&&◌, List, [], ◌∷◌, ◌++◌, Number, ◌==◌, nought,
  lt, num_eq, is_nan, if◌then◌else◌, is_empty, Text, codes, arith, any,
}
use openmarket.Shared.Machine.{Machine, Run, Reach}
use openmarket.Shared.Machine.Flight.{flag, count, IsGuarded, Reach-IsBalanced}

pub record State : Type 0 where
  pub cash_str : Text
  pub busy : Bool
  pub error : Text
  pub reports : List (Text × Text × Text)

pub record Charge : Type 0 where
  pub client_id : Text
  pub order_id : ℕ
  pub cash_amount : Text
  pub card_amount : Text

pub data Event : Type 0 where
  typed : Text → Event
  quick : ℕ → Event
  all_cash : Event
  all_card : Event
  submitted : Text → Event
  cancel : Event

unfoldable pub initial : State
initial = record { cash_str = []; busy = false; error = []; reports = [] }

abbrev pub or_zero : Text → Text
or_zero [] = codes "0"
or_zero (c ∷ t) = c ∷ t

module _ (N : Type 0) ⦃n : Number N⦄ where
  -- `cashNum`: what is no number counts as 0.
  unfoldable pub cash_num : Text → N
  cash_num cash_str =
      let x : N = n.parse_float (or_zero cash_str) in if is_nan x then nought else n.max nought x

  -- `cardNum`: the rest, rounded to cents.
  unfoldable pub card_num : N → Text → N
  unfolding cash_num
  card_num total cash_str =
      n.max nought (n.parse_float (n.to_fixed 2 (n.sub total (cash_num cash_str))))

  unfoldable pub is_valid : N → Text → Bool
  is_valid total cash_str =
      not (is_empty cash_str)
      && n.le nought (cash_num cash_str)
      && n.le (cash_num cash_str) total
      && num_eq (n.add (cash_num cash_str) (card_num total cash_str)) total

  -- `QUICK_TENDERS`, and the amount that such a button puts in.
  abbrev pub is_quick : N → ℕ → Bool
  is_quick total k = any (λ b. b == k) (10 ∷ 20 ∷ 50 ∷ 100 ∷ []) && n.le (n.of_ℕ k) total

module _ (N : Type 0) ⦃n : Number N⦄ (order_id : ℕ) (total : N) where
  -- `showingCardPrompt`: the form is replaced by the prompt.
  unfoldable pub shows_prompt : State → Bool
  shows_prompt s = s.busy && lt nought (card_num N total s.cash_str)

  unfoldable pub is_offered : Event → State → Bool
  unfolding shows_prompt
  is_offered (submitted id) s = is_valid N total s.cash_str && not s.busy
  is_offered cancel s = not s.busy
  is_offered (quick k) s = not (shows_prompt s) && is_quick N total k
  is_offered e s = not (shows_prompt s)

  abbrev pub charge_of : Text → State → Charge
  charge_of id s = record {
    client_id = id;
    order_id = order_id;
    cash_amount = n.to_fixed 2 (cash_num N s.cash_str);
    card_amount = n.to_fixed 2 (card_num N total s.cash_str);
  }

  unfoldable pub react : Event → State → State × List Charge
  react (typed t) s = (record s { cash_str = t; error = [] }, [])
  react (quick k) s = (record s { cash_str = n.to_fixed 2 (n.min (n.of_ℕ k) total) }, [])
  react all_cash s = (record s { cash_str = n.to_fixed 2 total }, [])
  react all_card s = (record s { cash_str = codes "0.00" }, [])
  react (submitted id) s =
      if is_valid N total s.cash_str
      then (record s { error = []; busy = true }, charge_of id s ∷ [])
      else (record s { error = codes "Cash must be 0 – " ++ n.to_fixed 2 total }, [])
  react cancel s = (s, [])

  abbrev pub or_message : Text → Text
  or_message [] = codes "Split payment failed"
  or_message (c ∷ t) = c ∷ t

  -- The report repeats the amounts of the charge.
  unfoldable pub replied : Charge → Reply Text → State → State
  replied c (done tx) s = record s {
    reports = s.reports ++ (tx, c.cash_amount, c.card_amount) ∷ [];
    busy = false;
  }
  replied c (failed m) s = record s { error = or_message m; busy = false }

  abbrev pub modal : Machine
  modal = record {
    State = State;
    Event = Event;
    Request = Charge;
    Answer = λ c. Reply Text;
    is_offered = is_offered;
    react = react;
    replied = λ c a s. (replied c a s, []);
  }

  react-busy :
      (e : Event) (s : State)
      → is_offered e s ≡ true
      → flag (react e s).0.busy ≡ flag s.busy + count (λ c. true) (react e s).1
  unfolding is_offered react
  react-busy (submitted id) s o = ground arith
  react-busy e s o = ground arith

  replied-busy :
      (c : Charge) (a : Reply Text) (s : State)
      → 1 ≤ flag s.busy
      → flag (replied c a s).busy + 1 ≡ flag s.busy + 0
  unfolding replied
  replied-busy c (done tx) s h = ground arith
  replied-busy c (failed m) s h = ground arith

  modal-IsGuarded : IsGuarded modal (λ c. true) (λ s. s.busy)
  modal-IsGuarded = record { act_flag = react-busy; reply_flag = replied-busy }

  -- From the moment the modal opens at most one split charge is outstanding, and while one is neither
  -- submitting nor cancelling is offered.
  pub one_split_charge :
      {run : Run modal} (id : Text)
      → Reach modal (record { state = initial; waiting = [] }) run
      → (count (λ c. true) run.waiting ≤ 1)
        × (count (λ c. true) run.waiting ≡ 1
            → (is_offered cancel run.state ≡ false) × (is_offered (submitted id) run.state ≡ false))
  unfolding is_offered initial
  one_split_charge {run} id r =
      let balanced = Reach-IsBalanced modal (λ c. true) (λ s. s.busy) modal-IsGuarded refl r in
      (ground arith, λ one. (ground arith, ground arith))

  -- A split charge carries two parts that add up to the total, the one in cash between 0 and the total,
  -- in the arithmetic of the host; and the report of its success repeats the amounts of the charge.
  pub charge_adds_up :
      (id tx : Text) (s : State) {c : Charge}
      → (react (submitted id) s).1 ≡ c ∷ []
      → let cash = cash_num N s.cash_str in
        let card = card_num N total s.cash_str in
        (num_eq (n.add cash card) total ≡ true)
        × (n.le nought cash ≡ true)
        × (n.le cash total ≡ true)
        × (c ≡ charge_of id s)
        × ((replied c (done tx) s).reports
            ≡ s.reports ++ (tx, n.to_fixed 2 cash, n.to_fixed 2 card) ∷ [])
  unfolding react is_valid replied
  charge_adds_up id tx s h = ground arith
