-- ===== src/Shared/Toasts.antt =====
-- frontend/packages/shared/src/components/Toast.tsx: the messages that are shown for a while.
pub mod Kept
use openmarket.Prelude.{
  ℕ, ◌+◌, Bool, true, false, not, ◌&&◌, ◌||◌, List, [], ◌∷◌, ◌++◌, filter, any, is_empty, leb, ltb,
  ◌==◌, Text,
}
use openmarket.Shared.Machine.{Machine}

pub data ToastType : Type 0 where
  success error info : ToastType

pub record Toast : Type 0 where
  pub id : ℕ
  pub message : Text
  pub type : ToastType

-- Each render of the provider gives every toast a new `onDone`, on which the effect of its timer depends:
-- so all timers start again with each render, and one number tells how far they are.
pub record State : Type 0 where
  -- `nextId.current`.
  pub next_id : ℕ
  pub toasts : List Toast
  -- The milliseconds since the last render.
  pub elapsed : ℕ
  -- The toasts have changed, and the provider has not been rendered since.
  pub changed : Bool

abbrev pub initial : State
initial = record { next_id = 0; toasts = []; elapsed = 0; changed = false }

-- `addToast`.
unfoldable pub add_toast : Text → ToastType → State → State
add_toast m t s = record s {
  next_id = s.next_id + 1;
  toasts = s.toasts ++ record { id = s.next_id; message = m; type = t } ∷ [];
  changed = true;
}

-- `removeToast`.
unfoldable pub remove_toast : ℕ → State → State
remove_toast i s = record s { toasts = filter (λ t. not (t.id == i)) s.toasts; changed = true }

pub data Event : Type 0 where
  added : Text → ToastType → Event
  rendered : Event
  -- Some milliseconds pass, until a timer fires at the latest.
  passed : ℕ → Event
  -- The timer of a toast fires.
  fired : ℕ → Event
  -- A click on a toast, which removes it at once.
  clicked : ℕ → Event

unfoldable pub is_offered : Event → State → Bool
is_offered (added m t) s = true
is_offered rendered s = s.changed
is_offered (passed n) s = not s.changed && (is_empty s.toasts || leb (s.elapsed + n) 3000)
is_offered (fired i) s = leb 3000 s.elapsed && any (λ t. t.id == i) s.toasts
is_offered (clicked i) s = any (λ t. t.id == i) s.toasts

unfoldable pub react : Event → State → State
unfolding add_toast remove_toast
react (added m t) s = add_toast m t s
react rendered s = record s { elapsed = 0; changed = false }
react (passed n) s = record s { elapsed = s.elapsed + n }
react (fired i) s = remove_toast i s
react (clicked i) s = remove_toast i s

-- There are no requests.
abbrev pub provider : Machine
provider = record {
  State = State;
  Event = Event;
  Request = ⊥;
  Answer = λ r. Unit;
  is_offered = is_offered;
  react = λ e s. (react e s, []);
  replied = λ r a s. (s, []);
}
