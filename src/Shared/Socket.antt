-- ===== src/Shared/Socket.antt =====
-- frontend/packages/shared/src/useWebSocket.ts: the connection for inventory updates, which comes back
-- after it is lost and ends with the component. The browser's part is what it may do and when:
-- a socket opens, brings a message and closes only while it lives, a timer fires only while it is set.
use openmarket.Prelude.{
  ℕ, ◌+◌, ◌-◌, ◌≤◌, ◌≡◌, refl, ◌∙◌, Bool, true, false, not, Option, none, some, List, [], ◌∷◌, ◌++◌,
  if◌then◌else◌, Text, text_eq, codes, ltb, arith,
}
use openmarket.Shared.Machine.Flight.{flag}

pub record InventoryUpdate : Type 0 where
  pub type : Text
  pub inventory_item_id : ℕ
  pub location_id : ℕ
  pub available : ℕ

pub record State : Type 0 where
  pub cancelled : Bool
  pub connected : Bool
  -- `reconnectTimer`, while it is set.
  pub timer : Bool
  -- The sockets that have been made, and those of them that have not been closed.
  pub made : ℕ
  pub live : ℕ
  -- What the callback was given.
  pub updates : List InventoryUpdate

-- `connect`.
unfoldable pub connect : State → State
connect s = if s.cancelled then s else record s { made = s.made + 1; live = s.live + 1 }

-- The effect of the first render.
unfoldable pub mounted : State
unfolding connect
mounted = connect (record {
  cancelled = false;
  connected = false;
  timer = false;
  made = 0;
  live = 0;
  updates = [];
})

pub data Event : Type 0 where
  opened : Event
  closed : Event
  -- None is a message that does not parse.
  message : Option InventoryUpdate → Event
  fired : Event
  unmounted : Event

unfoldable pub is_possible : Event → State → Bool
is_possible fired s = s.timer
is_possible unmounted s = not s.cancelled
is_possible e s = ltb 0 s.live

unfoldable pub react : Event → State → State
unfolding connect
react opened s = if s.cancelled then s else record s { connected = true }
react closed s =
    let lost = record s { live = s.live - 1 } in
    if s.cancelled then lost else record lost { connected = false; timer = true }
react (message none) s = s
react (message (some u)) s =
    if text_eq u.type (codes "inventory_updated")
    then record s { updates = s.updates ++ u ∷ [] }
    else s
react fired s = connect (record s { timer = false })
react unmounted s = record s { cancelled = true; timer = false }

pub data Reach (start : State) : State → Type 0 where
  here : Reach start start
  more :
      {s : State} → Reach start s → (e : Event) → is_possible e s ≡ true → Reach start (react e s)

-- One socket or one timer while the component is shown, and no timer afterwards.
pub record IsSingle (s : State) : Type 0 where
  pub shown : s.cancelled ≡ false → s.live + flag s.timer ≡ 1
  pub online : s.cancelled ≡ false → flag s.connected ≤ s.live
  pub ended : s.cancelled ≡ true → (s.timer ≡ false) × (s.live ≤ 1)

react-IsSingle :
    (e : Event) (s : State) → is_possible e s ≡ true → IsSingle s → IsSingle (react e s)
unfolding is_possible react connect
react-IsSingle opened s p h = ground arith
react-IsSingle closed s p h = ground arith
react-IsSingle (message none) s p h = ground arith
react-IsSingle (message (some u)) s p h = ground arith
react-IsSingle fired s p h = ground arith
react-IsSingle unmounted s p h = ground arith

-- From the first render on, in whatever order the browser's events arrive, there is exactly one
-- socket or one timer to make the next while the component is shown; it says that it is connected
-- only with a socket; and after it is gone no timer is left.
pub Reach-IsSingle : {s : State} → Reach mounted s → IsSingle s
unfolding mounted connect
Reach-IsSingle here = ground arith
Reach-IsSingle (more {s} r e p) = react-IsSingle e s p (Reach-IsSingle r)

react-made :
    (e : Event) (s : State)
    → s.cancelled ≡ true
    → ((react e s).made ≡ s.made) × ((react e s).cancelled ≡ true)
unfolding react connect
react-made opened s h = ground arith
react-made closed s h = ground arith
react-made (message none) s h = ground arith
react-made (message (some u)) s h = ground arith
react-made fired s h = ground arith
react-made unmounted s h = ground arith

-- After the component is gone no socket is made any more.
pub made_when_gone :
    {start s : State}
    → start.cancelled ≡ true
    → Reach start s
    → (s.made ≡ start.made) × (s.cancelled ≡ true)
made_when_gone h here = (refl, h)
made_when_gone h (more {s} r e p) =
    let (same, gone) = made_when_gone h r in
    let step = react-made e s gone in (step.0 ∙ same, step.1)
