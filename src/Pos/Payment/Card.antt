-- ===== src/Pos/Payment/Card.antt =====
-- PaymentCardModal.tsx: the phases of a card payment. The first charge starts as the modal opens.
pub use openmarket.Shared.Machine.{Reply, done, failed}
use openmarket.Prelude.{
  ℕ, ◌+◌, ◌≤◌, ◌≡◌, refl, Bool, true, false, not, ◌&&◌, ◌||◌, Option, none, some, List, [], ◌∷◌,
  ◌++◌, map, if◌then◌else◌, leb, ◌==◌, Text, codes, arith,
}
use openmarket.Shared.Types.{CardPaymentResult}
use openmarket.Shared.Machine.{Machine, Run, Reach}
use openmarket.Shared.Machine.Flight.{flag, count, IsGuarded, Reach-IsBalanced}

pub data Phase : Type 0 where
  idle authorizing approved declined error : Phase

pub record State : Type 0 where
  pub phase : Phase
  pub message : Option Text
  pub reports : List CardPaymentResult
  pub cancelled : Bool

pub record Charge : Type 0 where
  pub client_id : Text
  pub order_id : ℕ

pub data Event : Type 0 where
  retry : Text → Event
  cancel : Event

abbrev pub is_authorizing : Phase → Bool
is_authorizing Phase.authorizing = true
is_authorizing p = false

abbrev pub is_declined : Phase → Bool
is_declined Phase.declined = true
is_declined p = false

-- `toLowerCase` on the letters of ASCII; no other letter becomes one of "declined".
abbrev pub to_lower : ℕ → ℕ
to_lower c = if leb b'A' c && leb c b'Z' then c + 32 else c

abbrev pub starts_with : Text → Text → Bool
starts_with [] t = true
starts_with (c ∷ s) [] = false
starts_with (c ∷ s) (d ∷ t) = c == d && starts_with s t

-- `t.includes(s)`.
abbrev pub includes : Text → Text → Bool
includes s [] = starts_with s []
includes s (d ∷ t) = starts_with s (d ∷ t) || includes s t

unfoldable pub says_declined : Text → Bool
says_declined t = includes (codes "declined") (map to_lower t)

module _ (order_id : ℕ) where
  -- `start`.
  unfoldable pub start : Text → State → State × List Charge
  start id s = (
    record s { phase = Phase.authorizing; message = none },
    record { client_id = id; order_id = order_id } ∷ [],
  )

  -- The state when the modal has opened and its effect has run.
  unfoldable pub opened : Text → State × List Charge
  unfolding start
  opened id =
      start id (record { phase = Phase.idle; message = none; reports = []; cancelled = false })

  unfoldable pub is_offered : Event → State → Bool
  is_offered (retry id) s = is_declined s.phase
  is_offered cancel s = not (is_authorizing s.phase)

  unfoldable pub react : Event → State → State × List Charge
  unfolding start
  react (retry id) s = start id s
  react cancel s = (record s { cancelled = true }, [])

  unfoldable pub replied : Charge → Reply CardPaymentResult → State → State
  replied c (done r) s = record s { phase = Phase.approved; reports = s.reports ++ r ∷ [] }
  replied c (failed m) s = record s {
    phase = if says_declined m then Phase.declined else Phase.error;
    message = some m;
  }

  abbrev pub modal : Machine
  modal = record {
    State = State;
    Event = Event;
    Request = Charge;
    Answer = λ c. Reply CardPaymentResult;
    is_offered = is_offered;
    react = react;
    replied = λ c a s. (replied c a s, []);
  }

  react-authorizing :
      (e : Event) (s : State)
      → is_offered e s ≡ true
      → flag (is_authorizing (react e s).0.phase)
        ≡ flag (is_authorizing s.phase) + count (λ c. true) (react e s).1
  unfolding is_offered react
  react-authorizing (retry id) s o = ground arith
  react-authorizing cancel s o = ground arith

  replied-authorizing :
      (c : Charge) (a : Reply CardPaymentResult) (s : State)
      → 1 ≤ flag (is_authorizing s.phase)
      → flag (is_authorizing (replied c a s).phase) + 1 ≡ flag (is_authorizing s.phase) + 0
  unfolding replied
  replied-authorizing c (done r) s h = ground arith
  replied-authorizing c (failed m) s h = ground arith

  modal-IsGuarded : IsGuarded modal (λ c. true) (λ s. is_authorizing s.phase)
  modal-IsGuarded = record { act_flag = react-authorizing; reply_flag = replied-authorizing }

  -- From the moment the modal opens at most one charge is outstanding on the terminal, and the phase is
  -- "authorizing" exactly while one is; so neither cancelling nor retrying is offered while one is.
  pub one_card_charge :
      {run : Run modal} (first id : Text)
      → Reach modal (record { state = (opened first).0; waiting = (opened first).1 }) run
      → (count (λ c. true) run.waiting ≡ flag (is_authorizing run.state.phase))
        × (count (λ c. true) run.waiting ≡ 1
            → (is_offered cancel run.state ≡ false) × (is_offered (retry id) run.state ≡ false))
  unfolding is_offered opened
  one_card_charge {run} first id r =
      let balanced =
        Reach-IsBalanced modal (λ c. true) (λ s. is_authorizing s.phase) modal-IsGuarded refl r in
      (balanced, λ one. (ground arith, ground arith))

  -- A charge is sent again only after the terminal declined, which the modal tells from other errors by
  -- the word in the message, in any case.
  pub retried_after_decline :
      (c : Charge) (m id : Text) (s : State)
      → (is_offered (retry id) (replied c (failed m) s) ≡ says_declined m)
        × ((r : CardPaymentResult) → is_offered (retry id) (replied c (done r) s) ≡ false)
  unfolding replied is_offered
  retried_after_decline c m id s = (ground arith, λ r. refl)
