-- ===== src/Admin/Shell.antt =====
-- frontend/packages/admin/src/App.tsx: the links that a role sees, and the number of orders that are not
-- fulfilled, which is asked for every minute.
pub mod Roles
use openmarket.Prelude.{
  ℕ, Bool, true, false, ◌||◌, Option, none, some, List, [], ◌∷◌, ◌++◌, if◌then◌else◌, ltb,
}
pub use openmarket.Shared.Machine.{Reply, done, failed}
use openmarket.Shared.Machine.{Machine, Run}
use openmarket.Admin.Users.{Role, owner, manager, cashier}

pub record State : Type 0 where
  pub unfulfilled : Option ℕ
  pub cancelled : Bool

-- `api.orders.unfulfilledCount`.
pub data Request : Type 0 where
  count : Request

pub data Event : Type 0 where
  elapsed unmounted : Event

unfoldable pub is_offered : Event → State → Bool
is_offered e s = if s.cancelled then false else true

unfoldable pub react : Event → State → State × List Request
react elapsed s = (s, count ∷ [])
react unmounted s = (record s { cancelled = true }, [])

abbrev pub told : Reply ℕ → Option ℕ
told (done n) = some n
told (failed m) = none

unfoldable pub replied : Reply ℕ → State → State
replied a s = if s.cancelled then s else record s { unfulfilled = told a }

-- The number beside the link to the orders.
unfoldable pub badge : State → Option ℕ
badge s = elim s.unfulfilled [ none ↦ none | some n ↦ if ltb 0 n then some n else none ]

abbrev pub shell : Machine
shell = record {
  State = State;
  Event = Event;
  Request = Request;
  Answer = λ r. Reply ℕ;
  is_offered = is_offered;
  react = react;
  replied = λ r a s. (replied a s, []);
}

pub data Page : Type 0 where
  analytics products orders customers settings security users sales z_report dsfinvk : Page

abbrev is_owner : Role → Bool
is_owner owner = true
is_owner manager = false
is_owner cashier = false

abbrev is_manager : Role → Bool
is_manager owner = false
is_manager manager = true
is_manager cashier = false

-- Whether a role sees the link to a page.
unfoldable pub sees : Role → Page → Bool
sees r security = is_owner r || is_manager r
sees r users = is_owner r
sees r sales = is_owner r || is_manager r
sees r z_report = is_owner r || is_manager r
sees r dsfinvk = is_owner r
sees r p = true
