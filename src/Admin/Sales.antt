-- ===== src/Admin/Sales.antt =====
-- frontend/packages/admin/src/pages/RecentSales.tsx: the transactions of the till, and voiding one.
pub mod Voiding
use openmarket.Prelude.{
  Bool, true, false, not, ◌&&◌, Option, none, some, List, [], ◌∷◌, if◌then◌else◌, any, is_truthy,
  text_eq, Text, codes, ◌++◌,
}
pub use openmarket.Shared.Machine.{Reply, done, failed}
use openmarket.Shared.Types.{PosTransactionListItem}
use openmarket.Shared.Machine.{Machine, Run}

pub record State : Type 0 where
  pub items : List PosTransactionListItem
  pub error : Option Text
  pub busy : Option Text
  -- The messages of `alert`.
  pub alerts : List Text

-- The reload after a void is awaited by it; the one of the first render is not.
pub data Request : Type 0 where
  -- `api.posTransactions.list`, for the first render or for a void.
  first_list list_after_void : Request
  -- `api.storno.void`.
  void_sale : Text → Request

abbrev pub Answer : Request → Type 0
Answer first_list = Reply (List PosTransactionListItem)
Answer list_after_void = Reply (List PosTransactionListItem)
Answer (void_sale i) = Reply (Unit {0})

-- The button of a row, with the answer to `confirm`.
pub data Event : Type 0 where
  storno_clicked : Text → Bool → Event

-- A row that is not voided has the button, which is disabled while its own void is under way.
abbrev pub is_busy : Text → Option Text → Bool
is_busy i none = false
is_busy i (some k) = text_eq k i

unfoldable pub is_offered : Event → State → Bool
is_offered (storno_clicked i b) s =
    any (λ it. text_eq it.id i && not (is_truthy it.voids_transaction_id)) s.items
    && not (is_busy i s.busy)

-- `handleVoid`, up to its request.
unfoldable pub react : Event → State → State × List Request
react (storno_clicked i b) s = if b then (record s { busy = some i }, void_sale i ∷ []) else (s, [])

-- `reload` catches its own failure.
abbrev reloaded : Reply (List PosTransactionListItem) → State → State
reloaded (done is) s = record s { items = is }
reloaded (failed m) s = record s { error = some m }

unfoldable pub replied : (r : Request) → Answer r → State → State × List Request
replied first_list a s = (reloaded a s, [])
replied list_after_void a s = (record (reloaded a s) { busy = none }, [])
replied (void_sale i) (done u) s = (s, list_after_void ∷ [])
replied (void_sale i) (failed m) s =
    (record s { alerts = s.alerts ++ (codes "Void failed: " ++ m) ∷ []; busy = none }, [])

abbrev pub page : Machine
page = record {
  State = State;
  Event = Event;
  Request = Request;
  Answer = Answer;
  is_offered = is_offered;
  react = react;
  replied = replied;
}

-- After the effect of the first render.
abbrev pub opened : Run page
opened = record {
  state = record { items = []; error = none; busy = none; alerts = [] };
  waiting = first_list ∷ [];
}
