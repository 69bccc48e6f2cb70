-- ===== src/Shared/Camera.antt =====
-- frontend/packages/shared/src/components/OCRScanner.tsx and CameraCapture.tsx: the streams of a camera.
-- A stream, an image and a file are numbers; the browser gives each stream another one.
pub mod Reader
pub mod Photo
pub mod Ends
use openmarket.Prelude.{ℕ, Option, none, some, List, [], ◌∷◌, not, filter, ◌==◌, Text, codes}

-- The stream that the component refers to, and the streams whose tracks run.
pub record Streams : Type 0 where
  pub current : Option ℕ
  pub live : List ℕ

abbrev pub no_streams : Streams
no_streams = record { current = none; live = [] }

-- A stream has come and is kept; the one before is forgotten.
abbrev pub keep : ℕ → Streams → Streams
keep i s = record { current = some i; live = i ∷ s.live }

-- `streamRef.current?.getTracks().forEach((t) => t.stop())`.
abbrev pub stop_tracks : Streams → Streams
stop_tracks s = elim s.current [
  | none ↦ s
  | some i ↦ record s { live = filter (λ k. not (k == i)) s.live }
]

abbrev pub no_access : Text
no_access =
    codes
      "Could not access camera. Check browser permissions and System Settings > Privacy > Camera."
