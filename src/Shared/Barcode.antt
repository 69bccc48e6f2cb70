-- ===== src/Shared/Barcode.antt =====
-- frontend/packages/shared/src/components/BarcodeScanner.tsx: the camera that reads a barcode. What
-- html5-qrcode does is given by its replies and by the barcodes that it decodes while the camera is on;
-- which label of a camera names the one at the back is a parameter.
pub mod Once
pub mod Left
use openmarket.Prelude.{
  ℕ, Bool, true, false, not, ◌&&◌, Option, none, some, List, [], ◌∷◌, ◌++◌, if◌then◌else◌, find,
  length, is_empty, Text, codes,
}
pub use openmarket.Shared.Machine.{Reply, done, failed}
use openmarket.Shared.Machine.{Machine, Run}
use openmarket.Shared.Numerals.{print}

pub record State : Type 0 where
  pub error : Text
  pub status : Text
  -- The timer of 150 milliseconds that the effect sets.
  pub timer : Bool
  pub stopped : Bool
  pub running : Bool
  pub mounted : Bool
  -- Whether the library has the camera, and what `onDetected` has been called with.
  pub camera_on : Bool
  pub detected : List Text

abbrev pub initial : State
initial = record {
  error = [];
  status = codes "Requesting camera access...";
  timer = true;
  stopped = false;
  running = false;
  mounted = true;
  camera_on = false;
  detected = [];
}

-- `Html5Qrcode.getCameras`, and `scanner.start` with the id of a camera or with the one in front.
pub data Request : Type 0 where
  get_cameras : Request
  start : Option Text → Request

-- The id and the label of each camera.
abbrev pub Answer : Request → Type 0
Answer get_cameras = Reply (List (Text × Text))
Answer (start c) = Reply (Unit {0})

pub data Event : Type 0 where
  -- The timer, with whether the container is found and whether the scanner can be made.
  fired : Bool → Bool → Event
  decoded : Text → Event
  unmounted : Event

unfoldable pub is_offered : Event → State → Bool
is_offered (fired b c) s = s.timer
is_offered (decoded t) s = s.camera_on
is_offered unmounted s = s.mounted

-- `onSuccess`.
unfoldable pub on_success : Text → State → State
on_success t s = if s.stopped then s else record s {
  stopped = true;
  camera_on = s.camera_on && not s.running;
  running = false;
  detected = s.detected ++ t ∷ [];
}

-- The cleanup of the effect.
unfoldable pub clean_up : State → State
clean_up s = record s {
  stopped = true;
  timer = false;
  camera_on = s.camera_on && not s.running;
  running = false;
  mounted = false;
}

-- The callback of the timer, up to its first `await`.
unfoldable pub begin : Bool → Bool → State → State × List Request
begin found made s =
    if s.stopped
    then (record s { timer = false }, [])
    else if not found
    then (record s { timer = false; error = codes "Scanner container not found." }, [])
    else if not made
    then (record s { timer = false; error = codes "Failed to initialize scanner." }, [])
    else (record s { timer = false }, get_cameras ∷ [])

unfoldable pub react : Event → State → State × List Request
unfolding on_success clean_up begin
react (fired found made) s = begin found made s
react (decoded t) s = (on_success t s, [])
react unmounted s = (clean_up s, [])

-- A camera that has started.
unfoldable pub started : State → State
started s = record s {
  running = true;
  camera_on = true;
  status = if s.stopped then s.status else [];
}

-- The outer `catch`: the camera in front is tried.
unfoldable pub fall_back : State → State × List Request
fall_back s = (s, if s.stopped then [] else start none ∷ [])

abbrev pub camera_error : Text → Text
camera_error m =
    codes "Camera error: "
    ++ (if is_empty m then codes "Unknown" else m)
    ++ codes ". Check browser permissions."

module _ (is_back : Text → Bool) where
  abbrev pub chosen : Text × Text → List (Text × Text) → Text
  chosen (i, l) cs = elim (find (λ c. is_back c.1) cs) [ none ↦ i | some b ↦ b.0 ]

  abbrev pub cameras_found : List (Text × Text) → State → State × List Request
  cameras_found [] s = (record s { error = codes "No camera found." }, [])
  cameras_found (c ∷ cs) s = (
    record s {
      status = codes "Found " ++ print (length (c ∷ cs)) ++ codes " camera(s). Starting...";
    },
    start (some (chosen c (c ∷ cs))) ∷ [],
  )

  unfoldable pub replied : (r : Request) → Answer r → State → State × List Request
  unfolding started fall_back
  replied get_cameras (done cs) s = if s.stopped then (s, []) else cameras_found cs s
  replied get_cameras (failed m) s = fall_back s
  replied (start c) (done u) s = (started s, [])
  replied (start (some c)) (failed m) s = fall_back s
  replied (start none) (failed m) s =
      (if s.stopped then s else record s { error = camera_error m; status = [] }, [])

  abbrev pub scanner : Machine
  scanner = record {
    State = State;
    Event = Event;
    Request = Request;
    Answer = Answer;
    is_offered = is_offered;
    react = react;
    replied = replied;
  }

  -- After the effect of the first render.
  abbrev pub opened : Run scanner
  opened = record { state = initial; waiting = [] }
