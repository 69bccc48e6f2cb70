-- ===== src/Shared/Barcode/Once.antt =====
-- BarcodeScanner.tsx: what is reported, in every run.
use openmarket.Prelude.{
  ◌≤◌, ◌≡◌, refl, ap, sym, ◌∙◌, length-append, true, false, List, none, some, [], ◌∷◌, length,
  Bool-cases, inl, inr, Text, Bool, arith,
}
use openmarket.Shared.Machine.{Run, Reach}
use openmarket.Shared.Machine.Waiting.{Reach-state}
use openmarket.Shared.Barcode.{
  State, Request, Answer, get_cameras, start, done, failed, Event, fired, decoded, unmounted,
  on_success, clean_up, begin, react, started, fall_back, replied, scanner, opened,
}

-- At most one barcode has been reported, and none before the scanner is stopped.
pub record IsOnce (s : State) : Type 0 where
  pub before : s.stopped ≡ false → s.detected ≡ []
  pub once : length s.detected ≤ 1

-- What is reported once the scanner is stopped.
pub record IsOver (ts : List Text) (s : State) : Type 0 where
  pub over : s.stopped ≡ true
  pub same : s.detected ≡ ts

on_success-IsOnce : (t : Text) (s : State) → IsOnce s → IsOnce (on_success t s)
unfolding on_success
on_success-IsOnce t s h = record {
  before = λ k. absurd (ground (arith, k));
  once = elim (Bool-cases s.stopped) [
    | inl e ↦ ground (arith, e, h.once)
    | inr e ↦
        ground (arith, e, ap (length {A = Text}) (h.before e), length-append s.detected (t ∷ []))
  ];
}

react-IsOnce : (e : Event) (s : State) → IsOnce s → IsOnce (react e s).0
unfolding react begin clean_up
react-IsOnce (fired found made) s h = record {
  before = λ k. ground (arith, h.before, k);
  once = ground (arith, h.once);
}
react-IsOnce (decoded t) s h = on_success-IsOnce t s h
react-IsOnce unmounted s h = record { before = λ k. cc; once = h.once }

react-IsOver : (ts : List Text) (e : Event) (s : State) → IsOver ts s → IsOver ts (react e s).0
unfolding react begin clean_up on_success
react-IsOver ts (fired found made) s h = ground (arith, h.over, h.same)
react-IsOver ts (decoded t) s h = ground (arith, h.over, h.same)
react-IsOver ts unmounted s h = record { over = refl; same = h.same }

module _ (is_back : Text → Bool) where
  -- Only a decoded barcode is reported.
  replied_same :
      (r : Request) (a : Answer r) (s : State)
      → ((replied is_back r a s).0.detected ≡ s.detected)
        × ((replied is_back r a s).0.stopped ≡ s.stopped)
  unfolding replied started fall_back
  replied_same get_cameras (done []) s = ground arith
  replied_same get_cameras (done (c ∷ cs)) s = ground arith
  replied_same get_cameras (failed m) s = ground arith
  replied_same (start c) (done u) s = ground arith
  replied_same (start (some c)) (failed m) s = ground arith
  replied_same (start none) (failed m) s = ground arith

  replied-IsOnce :
      (r : Request) (a : Answer r) (s : State) → IsOnce s → IsOnce (replied is_back r a s).0
  replied-IsOnce r a s h =
      let (same, stop) = replied_same r a s in
      record { before = λ k. same ∙ h.before (sym stop ∙ k); once = rw same h.once }

  replied-IsOver :
      (ts : List Text) (r : Request) (a : Answer r) (s : State)
      → IsOver ts s
      → IsOver ts (replied is_back r a s).0
  replied-IsOver ts r a s h =
      let (same, stop) = replied_same r a s in record { over = stop ∙ h.over; same = same ∙ h.same }

  -- In every run at most one barcode is reported; and once the scanner is stopped, by a barcode or by the
  -- end of the component, no run reports another.
  pub reported_once :
      {run : Run (scanner is_back)}
      → Reach (scanner is_back) (opened is_back) run
      → (length run.state.detected ≤ 1)
        × (run.state.stopped ≡ true
            → (later : Run (scanner is_back)) → Reach (scanner is_back) run later
            → later.state.detected ≡ run.state.detected)
  reported_once {run} r = (
    (Reach-state (scanner is_back) IsOnce (λ e s o h. react-IsOnce e s h) replied-IsOnce
        (record { before = λ k. refl; once = omega arith }) r).once,
    λ over later r'.
        (Reach-state (scanner is_back) (IsOver run.state.detected)
          (λ e s o h. react-IsOver run.state.detected e s h) (replied-IsOver run.state.detected)
          (record { over = over; same = refl }) r').same,
  )
