-- ===== src/Store/Account.antt =====
-- frontend/packages/store/src/pages/AccountPage.tsx: the lookup of a customer by phone, with the orders.
pub mod Mixed
pub use openmarket.Shared.Machine.{Reply, done, failed}
use openmarket.Prelude.{
  ℕ, Bool, true, false, not, ◌&&◌, Option, none, some, List, [], ◌∷◌, if◌then◌else◌, is_some,
  is_filled, trim, Text, codes,
}
use openmarket.Shared.Types.{Customer, OrderListItem}
use openmarket.Shared.Machine.{Machine}

pub record State : Type 0 where
  pub phone : Text
  pub customer : Option Customer
  pub orders : List OrderListItem
  pub loading : Bool
  pub error : Text

abbrev pub initial : State
initial = record { phone = []; customer = none; orders = []; loading = false; error = [] }

pub data Request : Type 0 where
  -- `api.customers.lookup` and `api.customers.orders`.
  find_customer : Text → Request
  orders_of : ℕ → Request

abbrev pub Answer : Request → Type 0
Answer (find_customer t) = Reply Customer
Answer (orders_of i) = Reply (List OrderListItem)

-- `lookup`, up to the first request.
unfoldable pub lookup : State → State × List Request
lookup s =
    if is_filled s.phone
    then (
      record s { loading = true; error = []; customer = none; orders = [] },
      find_customer (trim s.phone) ∷ [],
    )
    else (s, [])

unfoldable pub sign_out : State → State
sign_out s = record s { customer = none; orders = []; phone = []; error = [] }

abbrev pub not_found : Text
not_found = codes "No account found for that phone number. Please check and try again."

unfoldable pub replied : (r : Request) → Answer r → State → State × List Request
replied (find_customer t) (done c) s = (record s { customer = some c }, orders_of c.id ∷ [])
replied (find_customer t) (failed m) s = (record s { error = not_found; loading = false }, [])
replied (orders_of i) (done os) s = (record s { orders = os; loading = false }, [])
replied (orders_of i) (failed m) s = (record s { error = not_found; loading = false }, [])

pub data Event : Type 0 where
  typed : Text → Event
  -- The key Enter in the field, and the button, which is disabled while it is loading.
  entered : Event
  clicked : Event
  signed_out : Event

unfoldable pub is_offered : Event → State → Bool
is_offered (typed t) s = not (is_some s.customer)
is_offered entered s = not (is_some s.customer)
is_offered clicked s = not (is_some s.customer) && not s.loading
is_offered signed_out s = is_some s.customer

unfoldable pub react : Event → State → State × List Request
unfolding lookup sign_out
react (typed t) s = (record s { phone = t }, [])
react entered s = lookup s
react clicked s = lookup s
react signed_out s = (sign_out s, [])

abbrev pub page : Machine
page = record {
  State = State;
  Event = Event;
  Request = Request;
  Answer = Answer;
  is_offered = is_offered;
  react = react;
  replied = replied;
}
