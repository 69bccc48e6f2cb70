-- ===== src/Shared/Camera/Photo.antt =====
-- CameraCapture.tsx: a photo is taken with the camera.
use openmarket.Prelude.{
  ℕ, Bool, true, false, not, ◌&&◌, Option, none, some, List, [], ◌∷◌, is_some, is_empty, Text,
}
pub use openmarket.Shared.Machine.{Reply, done, failed}
use openmarket.Shared.Machine.{Machine, Run}
use openmarket.Shared.Camera.{Streams, no_streams, keep, stop_tracks, no_access}

-- The photo stands for the blob and its preview, which are set together.
pub record State : Type 0 where
  pub streams : Streams
  pub error : Text
  pub ready : Bool
  pub photo : Option ℕ
  pub mounted : Bool
  -- What `onCapture` has been called with.
  pub taken : List ℕ

pub data Request : Type 0 where
  -- `getCamera`, in its two tries, and `toBlob`.
  open_back open_any to_blob : Request

abbrev pub Answer : Request → Type 0
Answer open_back = Reply ℕ
Answer open_any = Reply ℕ
Answer to_blob = Option ℕ

pub data Event : Type 0 where
  -- The video knows its size.
  loaded : Event
  capture_clicked confirm_clicked retake_clicked unmounted : Event

-- `startCamera`, up to its request.
unfoldable pub start_camera : State → State × List Request
start_camera s = (record s { error = []; ready = false }, open_back ∷ [])

unfoldable pub confirm : Option ℕ → State → State
confirm none s = s
confirm (some b) s = record s { taken = b ∷ s.taken }

unfoldable pub react : Event → State → State × List Request
unfolding start_camera confirm
react loaded s = (record s { ready = true }, [])
react capture_clicked s = (s, to_blob ∷ [])
react confirm_clicked s = (confirm s.photo s, [])
react retake_clicked s = start_camera (record s { photo = none })
react unmounted s = (record s { streams = stop_tracks s.streams; mounted = false }, [])

unfoldable pub replied : (r : Request) → Answer r → State → State × List Request
replied open_back (done i) s = (record s { streams = keep i s.streams }, [])
replied open_back (failed m) s = (s, open_any ∷ [])
replied open_any (done i) s = (record s { streams = keep i s.streams }, [])
replied open_any (failed m) s = (record s { error = no_access }, [])
replied to_blob none s = (s, [])
replied to_blob (some b) s = (record s { photo = some b; streams = stop_tracks s.streams }, [])

unfoldable pub is_offered : Event → State → Bool
is_offered loaded s = s.mounted && is_some s.streams.current
is_offered capture_clicked s = s.mounted && is_empty s.error && not (is_some s.photo) && s.ready
is_offered confirm_clicked s = s.mounted && is_empty s.error && is_some s.photo
is_offered retake_clicked s = s.mounted && is_empty s.error && is_some s.photo
is_offered unmounted s = s.mounted

abbrev pub capture : Machine
capture = record {
  State = State;
  Event = Event;
  Request = Request;
  Answer = Answer;
  is_offered = is_offered;
  react = react;
  replied = replied;
}

-- After the effect of the first render.
abbrev pub opened : Run capture
opened = record {
  state = record {
    streams = no_streams;
    error = [];
    ready = false;
    photo = none;
    mounted = true;
    taken = [];
  };
  waiting = open_back ∷ [];
}
