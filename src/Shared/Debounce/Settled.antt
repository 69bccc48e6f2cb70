-- ===== src/Shared/Debounce/Settled.antt =====
-- useDebounce.ts: values that change faster than the delay.
use openmarket.Prelude.{ℕ, ◌<◌, refl, none, some, List, [], ◌∷◌, All, arith}
use openmarket.Shared.Machine.{Run, Reach, here, more, act}
use openmarket.Shared.Debounce.{changed, passed, fired, react, is_offered, hook}

module _ {A : Type 0} (delay : ℕ) where
  -- Changes, each with the time before it.
  abbrev pub after : List (ℕ × A) → A → A
  after [] v = v
  after ((n, w) ∷ ts) v = after ts w

  -- A value that has just changed.
  abbrev pub pending : A → A → Run (hook A delay)
  pending v d = record {
    state = record { value = v; debounced = d; timer = some delay };
    waiting = [];
  }

  abbrev pub IsFast : ℕ × A → Type 0
  IsFast (n, w) = n < delay

  typed_on :
      (start : Run (hook A delay)) (ts : List (ℕ × A)) (v d : A)
      → All IsFast ts
      → Reach (hook A delay) start (pending v d)
      → Reach (hook A delay) start (pending (after ts v) d)
  unfolding react is_offered
  typed_on start [] v d h r = r
  typed_on start ((n, w) ∷ ts) v d h r =
      typed_on start ts w d h.1
        (more (more r (act (passed n) (ground (arith, h.0)) refl)) (act (changed w) refl refl))

  -- While the changes come faster than the delay, the value that is handed on stays the one from before;
  -- when the delay has passed after the last change, it is the last value, and no timer is set.
  pub settled_last :
      (ts : List (ℕ × A)) (v d : A)
      → All IsFast ts
      → Reach (hook A delay) (pending v d) (pending (after ts v) d)
        × Reach (hook A delay) (pending v d) (record {
          state = record { value = after ts v; debounced = after ts v; timer = none };
          waiting = [];
        })
  unfolding react is_offered
  settled_last ts v d h =
      let typed = typed_on (pending v d) ts v d h here in
      (
        typed,
        more (more typed (act (passed delay) (ground arith) refl)) (act fired (ground arith) refl),
      )
