-- ===== src/Admin/Customers.antt =====
-- frontend/packages/admin/src/pages/CustomersPage.tsx: the list of customers, one of which is expanded
-- with its orders. The event `search_settled` is the end of the delay of `useDebounce`.
pub mod Orders
use openmarket.Prelude.{
  ℕ, Bool, true, false, not, ◌&&◌, Option, none, some, List, [], ◌∷◌, if◌then◌else◌, is_empty, any,
  ◌==◌, Text,
}
pub use openmarket.Shared.Machine.{Reply, done, failed}
use openmarket.Shared.Types.{Customer, OrderListItem}
use openmarket.Shared.Machine.{Machine, Run}

pub record State : Type 0 where
  pub customers : List Customer
  pub loading : Bool
  pub expanded_id : Option ℕ
  pub expanded_orders : List OrderListItem

pub data Request : Type 0 where
  -- `api.customers.list`, without a search if there is none, and `api.customers.orders`.
  list_customers : Option Text → Request
  orders_of : ℕ → Request

abbrev pub Answer : Request → Type 0
Answer (list_customers t) = Reply (List Customer)
Answer (orders_of i) = Reply (List OrderListItem)

pub data Event : Type 0 where
  search_settled : Text → Event
  clicked : ℕ → Event

unfoldable pub is_offered : Event → State → Bool
is_offered (search_settled t) s = true
is_offered (clicked i) s = not s.loading && any (λ c. c.id == i) s.customers

abbrev pub is_expanded : ℕ → Option ℕ → Bool
is_expanded i none = false
is_expanded i (some k) = k == i

-- `expand`, up to its request.
unfoldable pub expand : ℕ → State → State × List Request
expand i s =
    if is_expanded i s.expanded_id
    then (record s { expanded_id = none }, [])
    else (record s { expanded_id = some i }, orders_of i ∷ [])

unfoldable pub react : Event → State → State × List Request
unfolding expand
react (search_settled t) s =
    (record s { loading = true }, list_customers (if is_empty t then none else some t) ∷ [])
react (clicked i) s = expand i s

-- A failure is not caught, but `finally` ends the loading.
unfoldable pub replied : (r : Request) → Answer r → State → State
replied (list_customers t) (done cs) s = record s { customers = cs; loading = false }
replied (list_customers t) (failed m) s = record s { loading = false }
replied (orders_of i) (done os) s = record s { expanded_orders = os }
replied (orders_of i) (failed m) s = s

abbrev pub page : Machine
page = record {
  State = State;
  Event = Event;
  Request = Request;
  Answer = Answer;
  is_offered = is_offered;
  react = react;
  replied = λ r a s. (replied r a s, []);
}
