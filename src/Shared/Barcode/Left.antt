-- ===== src/Shared/Barcode/Left.antt =====
-- BarcodeScanner.tsx: a camera that starts after the component's end.
use openmarket.Prelude.{◌≡◌, refl, Bool, true, false, some, [], ◌∷◌, Text}
use openmarket.Shared.Machine.{Run, Reach, here, more, act, reply}
use openmarket.Shared.Barcode.{
  get_cameras, start, done, fired, unmounted, is_offered, clean_up, begin, react, started, replied,
  chosen, scanner, opened,
}

module _ (is_back : Text → Bool) where
  -- If the component ends while the camera is being started, the camera is on when it has started, nothing
  -- waits that would stop it, and the component is gone.
  pub camera_left_on :
      (i l : Text)
      → (run : Run (scanner is_back)) × Reach (scanner is_back) (opened is_back) run
        × (run.state.mounted ≡ false)
        × (run.state.camera_on ≡ true)
        × (run.waiting ≡ [])
  unfolding react replied is_offered begin clean_up started
  camera_left_on i l = (
    _,
    more
        (more
          (more (more here (act (fired true true) refl refl))
            (reply [] [] get_cameras (done ((i, l) ∷ [])) refl refl))
          (act unmounted refl refl))
        (reply [] [] (start (some (chosen is_back (i, l) ((i, l) ∷ [])))) (done tt) refl refl),
    refl,
    refl,
    refl,
  )
