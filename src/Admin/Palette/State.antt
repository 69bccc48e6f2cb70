-- ===== src/Admin/Palette/State.antt =====
-- CommandPalette.tsx: the state and the effects, which run after a render whose inputs have changed.
pub use openmarket.Shared.Machine.{Reply, done, failed}
use openmarket.Prelude.{
  ℕ, ◌+◌, ◌-◌, Bool, true, false, not, Option, none, some, List, [], ◌∷◌, min, if◌then◌else◌,
  is_filled, trim, length, Text,
}
use openmarket.Shared.Types.{ProductListWithPrice, OrderListItem, Customer}
use openmarket.Admin.Palette.Rows.{Row, rows}

pub record State : Type 0 where
  pub open_now : Bool
  pub query : Text
  -- `useDebounce(query, 200)`.
  pub debounced : Text
  pub products : List ProductListWithPrice
  pub orders : List OrderListItem
  pub customers : List Customer
  pub loading : Bool
  pub active_index : ℕ
  -- The search whose `cancelled` is false, and how many there have been.
  pub current : Option ℕ
  pub searches : ℕ
  -- The addresses that were navigated to.
  pub visited : List Text

unfoldable pub initial : State
initial = record {
  open_now = false;
  query = [];
  debounced = [];
  products = [];
  orders = [];
  customers = [];
  loading = false;
  active_index = 0;
  current = none;
  searches = 0;
  visited = [];
}

pub data Request : Type 0 where
  -- The three searches for a term, by the number of the effect that made them.
  search : ℕ → Text → Request

-- What `Promise.allSettled` gives.
pub record Found : Type 0 where
  pub products : Reply (List ProductListWithPrice)
  pub orders : Reply (List OrderListItem)
  pub customers : Reply (List Customer)

abbrev pub results : State → List Row
results s = rows s.products s.orders s.customers

-- The effect on `open`: everything is reset when the palette opens.
unfoldable pub reset : State → State
reset s =
    if s.open_now
    then record s { query = []; products = []; orders = []; customers = []; active_index = 0 }
    else s

-- The effect on `open` and the debounced query. The one before it is cancelled first.
unfoldable pub start_search : State → State × List Request
start_search s =
    if not s.open_now
    then (record s { current = none }, [])
    else if is_filled s.debounced
    then (
      record s { loading = true; current = some s.searches; searches = s.searches + 1 },
      search s.searches (trim s.debounced) ∷ [],
    )
    else (
      record s { products = []; orders = []; customers = []; loading = false; current = none },
      [],
    )

-- The effect on the number of results.
unfoldable pub clamp : State → State
clamp s = record s { active_index = min s.active_index (length (results s) - 1) }

-- A change of `open`, with its effects.
unfoldable pub set_open : Bool → State → State × List Request
unfolding reset start_search clamp
set_open now s =
    if (if now then s.open_now else not s.open_now)
    then (s, [])
    else let (t, sent) = start_search (reset (record s { open_now = now })) in (clamp t, sent)
