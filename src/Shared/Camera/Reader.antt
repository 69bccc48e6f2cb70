-- ===== src/Shared/Camera/Reader.antt =====
-- OCRScanner.tsx: a text is read from the camera's image or from a file. What tesseract.js recognizes is
-- the reply to a request.
use openmarket.Prelude.{
  ℕ, Bool, true, false, not, ◌&&◌, Option, none, some, List, [], ◌∷◌, filter, map, ltb, ◌==◌,
  length, is_some, any, text_eq, if◌then◌else◌, trim, Text, codes,
}
pub use openmarket.Shared.Machine.{Reply, done, failed}
use openmarket.Shared.Machine.{Machine, Run}
use openmarket.Shared.Camera.{Streams, no_streams, keep, stop_tracks, no_access}

pub record State : Type 0 where
  pub processing : Bool
  pub preview : Option ℕ
  pub results : List Text
  pub error : Text
  pub streams : Streams
  pub camera_active : Bool
  pub mounted : Bool
  -- What `onDetected` has been called with, and whether `onClose` has been.
  pub detected : List Text
  pub closed : Bool

pub data Request : Type 0 where
  -- `getUserMedia` for the camera at the back, and for any.
  open_back open_any : Request
  -- `Tesseract.recognize`, and the message for its failure.
  recognize : ℕ → Text → Request

abbrev pub Answer : Request → Type 0
Answer open_back = Reply ℕ
Answer open_any = Reply ℕ
Answer (recognize i m) = Reply Text

pub data Event : Type 0 where
  -- Capturing takes the image that the video shows.
  captured : ℕ → Event
  uploaded : Option ℕ → Event
  try_again retried close_clicked unmounted : Event
  line_clicked : Text → Event

-- `text.split("\n")`.
unfoldable pub split_lines : Text → List Text
split_lines [] = [] ∷ []
split_lines (c ∷ t) =
    let rest = split_lines t in
    if c == 10 then [] ∷ rest else elim rest [ [] ↦ (c ∷ []) ∷ [] | l ∷ ls ↦ (c ∷ l) ∷ ls ]

-- The lines of the text that have more than two characters.
unfoldable pub lines_of : Text → List Text
unfolding split_lines trim
lines_of t = filter (λ l. ltb 2 (length l)) (map trim (split_lines t))

-- `startCamera`, up to its request.
unfoldable pub start_camera : State → State × List Request
start_camera s = (record s { error = [] }, open_back ∷ [])

unfoldable pub stop_camera : State → State
stop_camera s = record s {
  streams = record (stop_tracks s.streams) { current = none };
  camera_active = false;
}

unfoldable pub read_image : ℕ → Text → State → State × List Request
unfolding stop_camera
read_image i m s =
    (record (stop_camera s) { preview = some i; processing = true }, recognize i m ∷ [])

unfoldable pub react : Event → State → State × List Request
unfolding read_image start_camera stop_camera
react (captured i) s =
    if s.camera_active
    then read_image i (codes "OCR failed. Try again with better lighting.") s
    else (s, [])
react (uploaded none) s = (s, [])
react (uploaded (some f)) s = read_image f (codes "OCR failed. Try again.") s
react try_again s = start_camera s
react retried s = start_camera (record s { preview = none; results = [] })
react close_clicked s = (record (stop_camera s) { closed = true }, [])
react (line_clicked l) s = (record (stop_camera s) { detected = l ∷ s.detected; closed = true }, [])
react unmounted s = (record s { streams = stop_tracks s.streams; mounted = false }, [])

unfoldable pub camera_came : ℕ → State → State
camera_came i s = record s { streams = keep i s.streams; camera_active = true }

unfoldable pub replied : (r : Request) → Answer r → State → State × List Request
unfolding camera_came lines_of
replied open_back (done i) s = (camera_came i s, [])
replied open_back (failed m) s = (s, open_any ∷ [])
replied open_any (done i) s = (camera_came i s, [])
replied open_any (failed m) s = (record s { error = no_access }, [])
replied (recognize i e) (done t) s = (record s { results = lines_of t; processing = false }, [])
replied (recognize i e) (failed m) s = (record s { error = e; processing = false }, [])

abbrev pub is_empty_list : List Text → Bool
is_empty_list [] = true
is_empty_list (l ∷ ls) = false

unfoldable pub is_offered : Event → State → Bool
is_offered (captured i) s = s.mounted && s.camera_active && not (is_some s.preview)
is_offered (uploaded f) s =
    s.mounted && not (is_some s.preview) && (if s.camera_active then true else not s.processing)
is_offered try_again s =
    s.mounted && not s.camera_active && not (is_some s.preview) && not s.processing
is_offered retried s = s.mounted && is_some s.preview && not s.processing && is_empty_list s.results
is_offered (line_clicked l) s =
    s.mounted && is_some s.preview && not s.processing && any (λ k. text_eq k l) s.results
is_offered close_clicked s = s.mounted
is_offered unmounted s = s.mounted

abbrev pub reader : Machine
reader = record {
  State = State;
  Event = Event;
  Request = Request;
  Answer = Answer;
  is_offered = is_offered;
  react = react;
  replied = replied;
}

-- After the effect of the first render.
abbrev pub opened : Run reader
opened = record {
  state = record {
    processing = false;
    preview = none;
    results = [];
    error = [];
    streams = no_streams;
    camera_active = false;
    mounted = true;
    detected = [];
    closed = false;
  };
  waiting = open_back ∷ [];
}
