-- ===== src/Shared/Machine.antt =====
-- A component with requests to the server, as the pages and modals are: events that it offers change
-- its state and send requests, and each reply is handled when it arrives, in any order.
pub mod Flight
pub mod Waiting
use openmarket.Prelude.{Bool, true, ◌≡◌, List, [], ◌∷◌, ◌++◌, Text}

-- What comes back for a request: a value, or an exception with its message.
pub data Reply (A : Type 0) : Type 0 where
  done : A → Reply A
  failed : Text → Reply A

pub record Machine : Type 1 where
  pub State : Type 0
  pub Event : Type 0
  pub Request : Type 0
  pub Answer : Request → Type 0
  pub is_offered : Event → State → Bool
  pub react : Event → State → State × List Request
  pub replied : (r : Request) → Answer r → State → State × List Request

module _ (m : Machine) where
  open m use {State, Event, Request, Answer, is_offered, react, replied}

  -- The state, and the requests whose replies are outstanding.
  pub record Run : Type 0 where
    pub state : State
    pub waiting : List Request

  abbrev pub commit : List Request → State × List Request → Run
  commit waiting (s, sent) = record { state = s; waiting = waiting ++ sent }

  pub data Step (run : Run) (next : Run) : Type 0 where
    act :
        (e : Event)
        → is_offered e run.state ≡ true
        → next ≡ commit run.waiting (react e run.state)
        → Step run next
    reply :
        (before after : List Request) (r : Request) (a : Answer r)
        → run.waiting ≡ before ++ (r ∷ after)
        → next ≡ commit (before ++ after) (replied r a run.state)
        → Step run next

  pub data Reach (start : Run) : Run → Type 0 where
    here : Reach start start
    more : {run next : Run} → Reach start run → Step run next → Reach start next
