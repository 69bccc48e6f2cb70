-- ===== src/Pos/Modals/Parked.antt =====
-- ParkedSalesPicker.tsx: the list of parked sales, recalling one, and discarding one behind a
-- confirmation. The labels of ages are not modelled.
pub use openmarket.Shared.Machine.{Reply, done, failed}
use openmarket.Prelude.{
  ℕ, ◌≡◌, Bool, true, false, not, ◌&&◌, Option, none, some, List, [], ◌∷◌, ◌++◌, if◌then◌else◌,
  is_some, any, ◌==◌, Text, codes, arith,
}
use openmarket.Shared.Types.{ParkedSale}
use openmarket.Shared.Machine.{Machine}

pub record State : Type 0 where
  pub sales : Option (List ParkedSale)
  pub error : Text
  pub busy_id : Option ℕ
  pub confirm_cancel : Option ParkedSale
  -- The calls of `onRecall`, and whether `onClose` was called.
  pub recalls : List ParkedSale
  pub closed : Bool

pub data Request : Type 0 where
  list_sales : Request
  discard : ℕ → Request

abbrev pub Answer : Request → Type 0
Answer list_sales = Reply (List ParkedSale)
Answer (discard id) = Reply (Unit {0})

pub data Event : Type 0 where
  recalled : ParkedSale → Event
  discard_clicked : ParkedSale → Event
  confirmed : Event
  dismissed : Event
  escape : Event
  close : Event

-- The first render, and the request of its effect.
unfoldable pub opened : State × List Request
opened = (
  record {
    sales = none;
    error = [];
    busy_id = none;
    confirm_cancel = none;
    recalls = [];
    closed = false;
  },
  list_sales ∷ [],
)

-- `busyId === id`.
abbrev pub is_busy : ℕ → State → Bool
is_busy id s = elim s.busy_id [ none ↦ false | some b ↦ b == id ]

abbrev pub is_listed : ParkedSale → State → Bool
is_listed p s = elim s.sales [ none ↦ false | some ps ↦ any (λ q. q.id == p.id) ps ]

-- The dialog is shown and its buttons are not disabled.
abbrev pub is_asking : State → Bool
is_asking s = elim s.confirm_cancel [ none ↦ false | some p ↦ not (is_busy p.id s) ]

unfoldable pub is_offered : Event → State → Bool
is_offered (recalled p) s = is_listed p s
is_offered (discard_clicked p) s = is_listed p s && not (is_busy p.id s)
is_offered confirmed s = is_asking s
is_offered dismissed s = is_asking s
is_offered e s = true

unfoldable pub react : Event → State → State × List Request
react (recalled p) s = (record s { recalls = s.recalls ++ p ∷ [] }, [])
react (discard_clicked p) s = (record s { confirm_cancel = some p }, [])
react confirmed s = elim s.confirm_cancel [
  | none ↦ (s, [])
  | some p ↦ (record s { busy_id = some p.id }, discard p.id ∷ [])
]
react dismissed s = (record s { confirm_cancel = none }, [])
react escape s =
    if is_some s.confirm_cancel
    then (record s { confirm_cancel = none }, [])
    else (record s { closed = true }, [])
react close s = (record s { closed = true }, [])

-- A sale that was discarded lets the list be loaded again.
unfoldable pub replied : (r : Request) → Answer r → State → State × List Request
replied list_sales (done ps) s = (record s { sales = some ps }, [])
replied list_sales (failed m) s = (record s { error = codes "Could not load parked sales." }, [])
replied (discard id) (done _) s =
    (record s { error = []; busy_id = none; confirm_cancel = none }, list_sales ∷ [])
replied (discard id) (failed m) s =
    (record s { error = codes "Cancel failed."; busy_id = none; confirm_cancel = none }, [])

abbrev pub picker : Machine
picker = record {
  State = State;
  Event = Event;
  Request = Request;
  Answer = Answer;
  is_offered = is_offered;
  react = react;
  replied = replied;
}

-- The parked sales that requests discard.
abbrev pub discards : List Request → List ℕ
discards [] = []
discards (list_sales ∷ rs) = discards rs
discards (discard id ∷ rs) = id ∷ discards rs

-- A parked sale is discarded only by the confirmation in the dialog, whose sale it is, and not while
-- the same sale is being discarded already; replies discard none. Escape closes the dialog, if it is
-- open, and leaves the picker open.
pub discard_confirmed :
    (e : Event) (s : State) (id : ℕ) (r : Request) (a : Answer r)
    → is_offered e s ≡ true
    → discards (react e s).1 ≡ id ∷ []
    → (e ≡ confirmed)
      × ((p : ParkedSale) × (s.confirm_cancel ≡ some p) × (p.id ≡ id))
      × (is_busy id s ≡ false)
      × (discards (replied r a s).1 ≡ [])
      × ((react escape s).0.closed ≡ s.closed)
      × ((react escape s).0.confirm_cancel ≡ none)
unfolding is_offered react replied
discard_confirmed confirmed s id list_sales a o h = ground arith
discard_confirmed confirmed s id (discard i) a o h = ground arith
discard_confirmed e s id r a o h = ground arith
