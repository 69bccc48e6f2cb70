-- ===== src/Pos/Health.antt =====
-- frontend/packages/pos/src/components/HealthDots.tsx: the dots for four services, which a poll asks one
-- after the other. The component's timer starts a poll whether the last one has ended or not.
pub mod Polls
use openmarket.Prelude.{
  Bool, true, false, not, ◌&&◌, Option, none, some, List, [], ◌∷◌, if◌then◌else◌, or_else,
}
pub use openmarket.Shared.Machine.{Reply, done, failed}
use openmarket.Shared.Types.{HealthStatus}
use openmarket.Shared.Machine.{Machine, Run}

pub data Dot : Type 0 where
  unknown ok fail : Dot

pub record State : Type 0 where
  pub db : Dot
  pub fk : Dot
  pub pr : Dot
  pub tm : Dot
  pub alive : Bool

-- The probes, in the order of a poll.
pub data Probe : Type 0 where
  health_db health_fiskaly health_printer health_terminal : Probe

abbrev pub dot_of : Probe → State → Dot
dot_of health_db s = s.db
dot_of health_fiskaly s = s.fk
dot_of health_printer s = s.pr
dot_of health_terminal s = s.tm

unfoldable pub set_dot : Probe → Dot → State → State
set_dot health_db d s = record s { db = d }
set_dot health_fiskaly d s = record s { fk = d }
set_dot health_printer d s = record s { pr = d }
set_dot health_terminal d s = record s { tm = d }

-- The probe after the one that has been answered, which is asked even if the component is gone.
unfoldable pub next : Probe → List Probe
next health_db = health_fiskaly ∷ []
next health_fiskaly = health_printer ∷ []
next health_printer = health_terminal ∷ []
next health_terminal = []

unfoldable pub result : Reply HealthStatus → Dot
result (failed m) = fail
result (done r) = if or_else r.online true && or_else r.paper_ok true then ok else fail

unfoldable pub replied : Probe → Reply HealthStatus → State → State × List Probe
unfolding set_dot next result
replied p a s = (if s.alive then set_dot p (result a) s else s, next p)

pub data Event : Type 0 where
  -- The timer of thirty seconds, and the end of the component, which clears it.
  elapsed unmounted : Event

unfoldable pub is_offered : Event → State → Bool
is_offered e s = s.alive

unfoldable pub react : Event → State → State × List Probe
react elapsed s = (s, health_db ∷ [])
react unmounted s = (record s { alive = false }, [])

abbrev pub dots : Machine
dots = record {
  State = State;
  Event = Event;
  Request = Probe;
  Answer = λ p. Reply HealthStatus;
  is_offered = is_offered;
  react = react;
  replied = replied;
}

-- After the effect of the first render.
abbrev pub mounted : Run dots
mounted = record {
  state = record { db = unknown; fk = unknown; pr = unknown; tm = unknown; alive = true };
  waiting = health_db ∷ [];
}
