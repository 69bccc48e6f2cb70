-- ===== src/Pos/Shift.antt =====
-- frontend/packages/pos/src/pages/ShiftOpen.tsx and ShiftClose.tsx: the cash in the drawer, counted by
-- denomination. `parseInt` is a parameter.
pub mod Closing
use openmarket.Prelude.{
  Bool, true, false, not, ◌&&◌, ◌||◌, Option, none, some, List, [], ◌∷◌, Number, nought, is_nan,
  is_nonzero, foldl, all, any, or_else, is_some, is_empty, if◌then◌else◌, text_eq, Text, codes,
}
pub use openmarket.Shared.Machine.{Reply, done, failed}
use openmarket.Shared.Types.{CloseSummary}
use openmarket.Shared.Machine.{Machine}

-- `DENOMS`, the same in both pages.
abbrev pub denominations : List Text
denominations =
    codes "100"
    ∷ codes "50"
    ∷ codes "20"
    ∷ codes "10"
    ∷ codes "5"
    ∷ codes "2"
    ∷ codes "1"
    ∷ codes "0.5"
    ∷ codes "0.2"
    ∷ codes "0.1"
    ∷ []

module _ {N : Type 0} where
  -- `counts[d]`, which may be missing.
  unfoldable pub count_of : Text → List (Text × N) → Option N
  count_of d [] = none
  count_of d ((k, c) ∷ cs) = if text_eq k d then some c else count_of d cs

  -- `{ ...counts, [d]: c }`.
  unfoldable pub put : Text → N → List (Text × N) → List (Text × N)
  put d c [] = (d, c) ∷ []
  put d c ((k, x) ∷ cs) = if text_eq k d then (k, c) ∷ cs else (k, x) ∷ put d c cs

pub data Event : Type 0 where
  -- The text of the field of a denomination, and the button below the form.
  typed : Text → Text → Event
  submitted : Event

module _ (N : Type 0) ⦃n : Number N⦄ where
  -- `s + parseFloat(d) * (counts[d] || 0)`.
  abbrev add_count : List (Text × N) → N → Text → N
  add_count counts s d =
      let c = or_else (count_of d counts) nought in
      n.add s (n.mul (n.parse_float d) (if is_nonzero c then c else nought))

  -- `total`.
  unfoldable pub total : List (Text × N) → N
  unfolding count_of
  total counts = foldl (add_count counts) nought denominations

  -- What the browser checks before it submits: no number below 0. NaN is an empty field.
  unfoldable pub is_valid : List (Text × N) → Bool
  unfolding count_of
  is_valid counts =
      all (λ d. let c = or_else (count_of d counts) nought in is_nan c || n.le nought c)
        denominations

  pub record OpenState : Type 0 where
    pub counts : List (Text × N)
    pub error : Option Text
    -- Whether `onOpened` has been called.
    pub opened : Bool

  pub record CloseState : Type 0 where
    pub counts : List (Text × N)
    pub summary : Option CloseSummary
    pub error : Option Text

  -- `api.kassenbuch.open` and `api.kassenbuch.close`.
  pub data Request : Type 0 where
    kassenbuch : List (Text × N) → Request

  module _ (parse_int : Text → N) where
    -- `parseInt(value || "0")`.
    abbrev pub count_typed : Text → N
    count_typed t = parse_int (if is_empty t then codes "0" else t)

    abbrev pub has_field : Text → Bool
    has_field d = any (λ k. text_eq k d) denominations

    unfoldable pub react_open : Event → OpenState → OpenState × List Request
    unfolding put
    react_open (typed d t) s = (record s { counts = put d (count_typed t) s.counts }, [])
    react_open submitted s = (s, kassenbuch s.counts ∷ [])

    unfoldable pub replied_open : Reply (Unit {0}) → OpenState → OpenState
    replied_open (done u) s = record s { opened = true }
    replied_open (failed m) s = record s { error = some m }

    unfoldable pub react : Event → CloseState → CloseState × List Request
    unfolding put
    react (typed d t) s = (record s { counts = put d (count_typed t) s.counts }, [])
    react submitted s = (s, kassenbuch s.counts ∷ [])

    unfoldable pub replied : Reply CloseSummary → CloseState → CloseState
    replied (done x) s = record s { summary = some x }
    replied (failed m) s = record s { error = some m }

    -- With a summary the page shows that, and no form.
    unfoldable pub is_offered : Event → CloseState → Bool
    unfolding is_valid
    is_offered (typed d t) s = not (is_some s.summary) && has_field d
    is_offered submitted s = not (is_some s.summary) && is_valid s.counts

    abbrev pub opening : Machine
    opening = record {
      State = OpenState;
      Event = Event;
      Request = Request;
      Answer = λ r. Reply (Unit {0});
      is_offered = λ e s. elim e [ typed d t ↦ has_field d | submitted ↦ is_valid s.counts ];
      react = react_open;
      replied = λ r a s. (replied_open a s, []);
    }

    abbrev pub closing : Machine
    closing = record {
      State = CloseState;
      Event = Event;
      Request = Request;
      Answer = λ r. Reply CloseSummary;
      is_offered = is_offered;
      react = react;
      replied = λ r a s. (replied a s, []);
    }
