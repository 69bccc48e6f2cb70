-- ===== src/Shared/Toasts/Kept.antt =====
-- Toast.tsx: the keys of the toasts are distinct.
use openmarket.Prelude.{
  ℕ, ◌≤◌, ◌≡◌, refl, Bool, not, List, [], ◌∷◌, filter, ◌==◌, Bool-cases, inl, inr, arith,
}
use openmarket.Shared.Machine.{Run, Reach}
use openmarket.Shared.Machine.Waiting.{Reach-state}
use openmarket.Shared.Machine.Flight.{count, count-append}
use openmarket.Shared.Toasts.{
  Toast, State, initial, add_toast, remove_toast, Event, added, rendered, passed, fired, clicked,
  react, provider,
}

abbrev pub with_id : ℕ → Toast → Bool
with_id j t = t.id == j

-- Each number is that of one toast at most, and the next one is that of none.
pub record IsKeyed (s : State) : Type 0 where
  pub distinct : (j : ℕ) → count (with_id j) s.toasts ≤ 1
  pub fresh : (j : ℕ) → s.next_id ≤ j → count (with_id j) s.toasts ≡ 0

count-filter-le : {A : Type 0} (p q : A → Bool) (xs : List A) → count p (filter q xs) ≤ count p xs
count-filter-le p q [] = omega arith
count-filter-le p q (x ∷ xs) = elim (Bool-cases (q x)) [
  | inl e ↦ rw e (omega (arith, count-filter-le p q xs))
  | inr e ↦ rw e (omega (arith, count-filter-le p q xs))
]

react-IsKeyed : (e : Event) (s : State) → IsKeyed s → IsKeyed (react e s)
unfolding react add_toast remove_toast
react-IsKeyed (added m t) s h =
    let last : List Toast = record { id = s.next_id; message = m; type = t } ∷ [] in
    record {
      distinct =
          λ j. ground (arith, count-append (with_id j) s.toasts last, h.distinct j, h.fresh j);
      fresh = λ j k. ground (arith, count-append (with_id j) s.toasts last, h.fresh j, k);
    }
react-IsKeyed rendered s h = record { distinct = h.distinct; fresh = h.fresh }
react-IsKeyed (passed n) s h = record { distinct = h.distinct; fresh = h.fresh }
react-IsKeyed (fired i) s h =
    let keep : Toast → Bool = λ t. not (t.id == i) in
    record {
      distinct = λ j. omega (arith, count-filter-le (with_id j) keep s.toasts, h.distinct j);
      fresh = λ j k. omega (arith, count-filter-le (with_id j) keep s.toasts, h.fresh j k);
    }
react-IsKeyed (clicked i) s h =
    let keep : Toast → Bool = λ t. not (t.id == i) in
    record {
      distinct = λ j. omega (arith, count-filter-le (with_id j) keep s.toasts, h.distinct j);
      fresh = λ j k. omega (arith, count-filter-le (with_id j) keep s.toasts, h.fresh j k);
    }

abbrev pub opened : Run provider
opened = record { state = initial; waiting = [] }

-- In every run, whatever messages come, timers fire and toasts are clicked, no two toasts that are shown have the same
-- number, and the next number has not been given to any of them.
pub Reach-IsKeyed : {run : Run provider} → Reach provider opened run → IsKeyed run.state
Reach-IsKeyed r =
    Reach-state provider IsKeyed (λ e s o h. react-IsKeyed e s h) (λ q a s h. h)
      (record { distinct = λ j. omega arith; fresh = λ j k. refl }) r
