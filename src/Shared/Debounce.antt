-- ===== src/Shared/Debounce.antt =====
-- frontend/packages/shared/src/useDebounce.ts: a value that follows another after a delay.
pub mod Settled
use openmarket.Prelude.{ℕ, ◌-◌, Bool, true, false, Option, none, some, List, [], leb, ◌==◌}
use openmarket.Shared.Machine.{Machine}

module _ (A : Type 0) where
  -- `timer` is the time that is left, while a timer is set.
  pub record State : Type 0 where
    pub value : A
    pub debounced : A
    pub timer : Option ℕ

  -- A render with another value, whose effect clears the timer and sets one; time; the timer.
  pub data Event : Type 0 where
    changed : A → Event
    passed : ℕ → Event
    fired : Event

  module _ (delay : ℕ) where
    unfoldable pub react : Event → State → State
    react (changed v) s = record s { value = v; timer = some delay }
    react (passed n) s = record s { timer = elim s.timer [ none ↦ none | some t ↦ some (t - n) ] }
    react fired s = record s { debounced = s.value; timer = none }

    -- Time does not pass a timer.
    unfoldable pub is_offered : Event → State → Bool
    is_offered (changed v) s = true
    is_offered (passed n) s = elim s.timer [ none ↦ true | some t ↦ leb n t ]
    is_offered fired s = elim s.timer [ none ↦ false | some t ↦ t == 0 ]

    abbrev pub hook : Machine
    hook = record {
      State = State;
      Event = Event;
      Request = ⊥;
      Answer = λ r. Unit {0};
      is_offered = is_offered;
      react = λ e s. (react e s, []);
      replied = λ r a s. (s, []);
    }
