-- ===== src/Pos/Shift/Closing.antt =====
-- ShiftOpen.tsx and ShiftClose.tsx: the amounts that can be counted and sent.
use mathlib.Core.Path.{subst}
use openmarket.Prelude.{
  ℕ, ◌+◌, ◌-◌, ◌*◌, ◌≡◌, inl, inr, refl, true, none, List, [], ◌∷◌, Number, Bool-cases, &&-eq-true,
  All, any, if◌then◌else◌, ◌==◌, text_eq, text_eq_iff, Text, arith,
}
use openmarket.Shared.Types.{CloseSummary}
use openmarket.Shared.Machine.{Machine, Run, Reach}
use openmarket.Shared.Machine.Waiting.{IsKept, Reach-IsHeld, All-weaken}
use openmarket.Pos.Shift.{
  denominations, put, Event, typed, submitted, CloseState, Request, kassenbuch, Reply, done, failed,
  count_typed, react, replied, is_offered, closing,
}

-- The cents that a decimal text stands for, with two places after the point.
read_places : ℕ → ℕ → Text → ℕ
read_places places acc [] = acc * (if places == 2 then 100 else if places == 1 then 10 else 1)
read_places places acc (c ∷ t) = read_places (places - 1) (acc * 10 + (c - 48)) t

read_whole : ℕ → Text → ℕ
unfolding read_places
read_whole acc [] = acc * 100
read_whole acc (c ∷ t) =
    if c == b'.' then read_places 2 acc t else read_whole (acc * 10 + (c - 48)) t

pub cents : Text → ℕ
unfolding read_whole
cents t = read_whole 0 t

abbrev pub IsTens : ℕ → Type 0
IsTens n = (k : ℕ) × (n ≡ k * 10)

denominations-IsTens : All (λ d. IsTens (cents d)) denominations
unfolding cents
denominations-IsTens = (
  (1000, refl),
  (
    (500, refl),
    (
      (200, refl),
      (
        (100, refl),
        ((50, refl), ((20, refl), ((10, refl), ((5, refl), ((2, refl), ((1, refl), tt)))))),
      ),
    ),
  ),
)

-- A text for which a list has an equal one has what all of the list have.
of_any :
    (ds : List Text) (d : Text)
    → All (λ e. IsTens (cents e)) ds
    → any (λ k. text_eq k d) ds ≡ true
    → IsTens (cents d)
of_any [] d h e = cc
of_any (k ∷ ds) d h e = elim (Bool-cases (text_eq k d)) [
  | inl q ↦ subst (λ x. IsTens (cents x)) ((text_eq_iff k d).0 q) h.0
  | inr q ↦ of_any ds d h.1 (rw q at e)
]

module _ {N : Type 0} where
  -- What is counted, in cents, if a count stands for `val` of it.
  abbrev pub amount : (N → ℕ) → List (Text × N) → ℕ
  amount val [] = 0
  amount val ((d, c) ∷ cs) = cents d * val c + amount val cs

  abbrev IsListed : Text × N → Type 0
  IsListed (d, c) = IsTens (cents d)

  put-IsListed :
      (d : Text) (c : N) (cs : List (Text × N))
      → IsTens (cents d)
      → All IsListed cs
      → All IsListed (put d c cs)
  unfolding put
  put-IsListed d c [] t h = (t, tt)
  put-IsListed d c ((k, x) ∷ cs) t h = elim (Bool-cases (text_eq k d)) [
    | inl q ↦ rw q (h.0, h.1)
    | inr q ↦ rw q (h.0, put-IsListed d c cs t h.1)
  ]

  amount-IsTens : (val : N → ℕ) (cs : List (Text × N)) → All IsListed cs → IsTens (amount val cs)
  amount-IsTens val [] h = (0, refl)
  amount-IsTens val ((d, c) ∷ cs) h =
      let (k, e) = h.0 in
      let (m, f) = amount-IsTens val cs h.1 in (k * val c + m, rw (e, f) (grind arith))

module _ (N : Type 0) ⦃n : Number N⦄ (parse_int : Text → N) where
  abbrev page : Machine
  page = closing N parse_int

  abbrev Counted : List (Text × N) → Type 0
  Counted = All IsListed

  abbrev IsListedRequest : CloseState N → Request N → Type 0
  IsListedRequest s (kassenbuch cs) = Counted cs

  react-Counted :
      (e : Event) (s : CloseState N)
      → is_offered N parse_int e s ≡ true
      → Counted s.counts
      → Counted (react N parse_int e s).0.counts
  unfolding react is_offered
  react-Counted (typed d t) s o h =
      put-IsListed d (count_typed N parse_int t) s.counts
        (of_any denominations d denominations-IsTens (&&-eq-true _ _ o).1) h
  react-Counted submitted s o h = h

  sent-Counted :
      (e : Event) (s : CloseState N)
      → is_offered N parse_int e s ≡ true
      → Counted s.counts
      → All (IsListedRequest (react N parse_int e s).0) (react N parse_int e s).1
  unfolding react
  sent-Counted (typed d t) s o h = tt
  sent-Counted submitted s o h = (h, tt)

  replied-Counted :
      (a : Reply CloseSummary) (s : CloseState N)
      → Counted s.counts
      → Counted (replied N parse_int a s).counts
  unfolding replied
  replied-Counted (done x) s h = h
  replied-Counted (failed m) s h = h

  closing-IsKept : IsKept page (λ s. Counted s.counts) IsListedRequest
  closing-IsKept = record {
    act_state = react-Counted;
    act_waiting = λ e s q o u h. still e s q h;
    act_sent = sent-Counted;
    reply_state = λ r a s u h. replied-Counted a s u;
    reply_waiting = λ r a s q u h k. later r a s q k;
    reply_sent = λ r a s u h. tt;
  }
    where
      still :
          (e : Event) (s : CloseState N) (q : Request N)
          → IsListedRequest s q
          → IsListedRequest (react N parse_int e s).0 q
      still e s (kassenbuch cs) h = h

      later :
          (r : Request N) (a : Reply CloseSummary) (s : CloseState N) (q : Request N)
          → IsListedRequest s q
          → IsListedRequest (replied N parse_int a s) q
      later r a s (kassenbuch cs) h = h

  abbrev pub opened : Run page
  opened = record { state = record { counts = []; summary = none; error = none }; waiting = [] }

  abbrev pub IsTensSent : (N → ℕ) → Request N → Type 0
  IsTensSent val (kassenbuch cs) = IsTens (amount val cs)

  sent_tens :
      (val : N → ℕ) (s : CloseState N) (q : Request N) → IsListedRequest s q → IsTensSent val q
  sent_tens val s (kassenbuch cs) h = amount-IsTens val cs h

  -- Since the form has no coins below ten cents, in every run of the page that closes a shift the cash
  -- that is counted, and the cash that any request which waits reports, is a whole number of ten-cent
  -- pieces, whatever numbers are typed.
  pub no_small_coins :
      (val : N → ℕ) {run : Run page}
      → Reach page opened run
      → IsTens (amount val run.state.counts) × All (IsTensSent val) run.waiting
  no_small_coins val {run} r =
      let held =
        Reach-IsHeld page (λ s. Counted s.counts) IsListedRequest closing-IsKept
          (record { state = tt; waiting = tt }) r in
      (
        amount-IsTens val run.state.counts held.state,
        All-weaken (IsListedRequest run.state) (IsTensSent val) run.waiting
            (sent_tens val run.state) held.waiting,
      )
