-- ===== src/Store/Status.antt =====
-- frontend/packages/store/src/pages/OrderStatusPage.tsx: the lookup of an order by its number.
pub mod Found
use openmarket.Prelude.{
  Bool, true, false, not, Option, none, some, List, [], ◌∷◌, if◌then◌else◌, is_filled, trim, Number,
  Text, codes,
}
pub use openmarket.Shared.Machine.{Reply, done, failed}
use openmarket.Shared.Types.{Order, LineItem}
use openmarket.Shared.Machine.{Machine}

pub record State : Type 0 where
  pub order_number : Text
  pub order : Option Order
  pub loading : Bool
  pub error : Text

abbrev pub initial : State
initial = record { order_number = []; order = none; loading = false; error = [] }

-- `api.orders.lookup`.
pub data Request : Type 0 where
  look_up : Text → Request

-- `lookup`, up to its request.
unfoldable pub lookup : State → State × List Request
lookup s =
    if is_filled s.order_number
    then (record s { loading = true; error = []; order = none }, look_up (trim s.order_number) ∷ [])
    else (s, [])

abbrev pub not_found : Text
not_found = codes "Order not found. Please check the order number and try again."

unfoldable pub replied : Reply Order → State → State
replied (done o) s = record s { order = some o; loading = false }
replied (failed m) s = record s { error = not_found; loading = false }

pub data Event : Type 0 where
  typed : Text → Event
  -- The key Enter in the field, and the button, which is disabled while it is loading.
  entered clicked : Event

unfoldable pub is_offered : Event → State → Bool
is_offered (typed t) s = true
is_offered entered s = true
is_offered clicked s = not s.loading

unfoldable pub react : Event → State → State × List Request
unfolding lookup
react (typed t) s = (record s { order_number = t }, [])
react entered s = lookup s
react clicked s = lookup s

abbrev pub page : Machine
page = record {
  State = State;
  Event = Event;
  Request = Request;
  Answer = λ r. Reply Order;
  is_offered = is_offered;
  react = react;
  replied = λ r a s. (replied a s, []);
}

module _ (N : Type 0) ⦃n : Number N⦄ where
  -- What a line of the order is shown to cost.
  unfoldable pub line_cost : LineItem → Text
  line_cost li = n.to_fixed 2 (n.mul (n.parse_float li.price) (n.of_ℕ li.quantity))
