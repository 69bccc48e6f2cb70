-- ===== src/Shared/Camera/Ends.antt =====
-- OCRScanner.tsx and CameraCapture.tsx: which streams run in the end.
use openmarket.Prelude.{ℕ, ◌≡◌, refl, false, some, [], ◌∷◌, Text, arith}
use openmarket.Shared.Machine.{Run, Reach, here, more, act, reply, done}
use openmarket.Shared.Camera.Reader as Reader
use openmarket.Shared.Camera.Photo as Photo

-- From the opening of the reader, if the camera comes, an image is captured and a text is recognized, the
-- lines of the text are shown, no stream runs, and nothing waits.
pub read_to_end :
    (i image : ℕ) (t : Text)
    → (run : Run Reader.reader) × Reach Reader.reader Reader.opened run
      × (run.state.results ≡ Reader.lines_of t)
      × (run.state.processing ≡ false)
      × (run.state.streams.live ≡ [])
      × (run.waiting ≡ [])
unfolding Reader.react Reader.replied Reader.is_offered Reader.read_image Reader.stop_camera
    Reader.camera_came
read_to_end i image t = (
  _,
  more
      (more (more here (reply [] [] Reader.open_back (done i) refl refl))
        (act (Reader.captured image) refl refl))
      (reply [] [] (Reader.recognize image _) (done t) refl refl),
  refl,
  refl,
  ground arith,
  refl,
)

-- The photo likewise: when the camera has come and its video is loaded, the capture leaves a photo that
-- can be confirmed, with no stream running, and the confirmation hands it on.
pub photo_to_end :
    (i b : ℕ)
    → (run : Run Photo.capture) × Reach Photo.capture Photo.opened run
      × (run.state.taken ≡ b ∷ [])
      × (run.state.streams.live ≡ [])
      × (run.waiting ≡ [])
unfolding Photo.react Photo.replied Photo.is_offered Photo.confirm
photo_to_end i b = (
  _,
  more
      (more
        (more
          (more (more here (reply [] [] Photo.open_back (done i) refl refl))
            (act Photo.loaded refl refl))
          (act Photo.capture_clicked refl refl))
        (reply [] [] Photo.to_blob (some b) refl refl))
      (act Photo.confirm_clicked refl refl),
  refl,
  ground arith,
  refl,
)

-- If either component ends before the browser has given it the stream, the stream comes to run with the
-- component gone and nothing waiting that would stop it.
pub stream_left_on :
    (i : ℕ)
    → ((run : Run Reader.reader) × Reach Reader.reader Reader.opened run
        × (run.state.mounted ≡ false)
        × (run.state.streams.live ≡ i ∷ [])
        × (run.waiting ≡ []))
      × ((run : Run Photo.capture) × Reach Photo.capture Photo.opened run
          × (run.state.mounted ≡ false)
          × (run.state.streams.live ≡ i ∷ [])
          × (run.waiting ≡ []))
unfolding Reader.react Reader.replied Reader.is_offered Reader.camera_came Photo.react Photo.replied
    Photo.is_offered
stream_left_on i = (
  (
    _,
    more (more here (act Reader.unmounted refl refl))
        (reply [] [] Reader.open_back (done i) refl refl),
    refl,
    refl,
    refl,
  ),
  (
    _,
    more (more here (act Photo.unmounted refl refl))
        (reply [] [] Photo.open_back (done i) refl refl),
    refl,
    refl,
    refl,
  ),
)
