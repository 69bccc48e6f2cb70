-- ===== src/Pos/Gate.antt =====
-- frontend/packages/pos/src/components/RequireCashier.tsx: the till is shown to a signed-in cashier only.
use openmarket.Prelude.{
  ◌≡◌, refl, Bool, true, false, ◌&&◌, Option, none, some, List, [], ◌∷◌, Text, arith, Option-cases,
  inl, inr,
}
use openmarket.Shared.Machine.{Machine, Run, Reach, here, more, act, reply, Reply, done, failed}
use openmarket.Shared.Client.{Json, Response, is_ok, is_given, fetch_me}

-- `me`: "loading", null, or who is signed in.
pub data Me (A : Type 0) : Type 0 where
  loading : Me A
  nobody : Me A
  signed_in : A → Me A

pub data Request : Type 0 where
  me : Request

-- `onSuccess` of the login, which is shown to nobody.
pub data Event : Type 0 where
  logged_in : Event

module _ (j : Json) (bad_json : Text) where
  unfoldable pub is_offered : Event → Me j.Body → Bool
  is_offered logged_in loading = false
  is_offered logged_in nobody = true
  is_offered logged_in (signed_in b) = false

  -- `reload`, up to the request.
  unfoldable pub react : Event → Me j.Body → Me j.Body × List Request
  react logged_in s = (s, me ∷ [])

  -- `setMe` of what `fetchMe` gives, or of null if it fails.
  unfoldable pub shown_for : Reply (Option j.Body) → Me j.Body
  shown_for (done none) = nobody
  shown_for (done (some b)) = signed_in b
  shown_for (failed m) = nobody

  unfoldable pub replied : Reply (Response j) → Me j.Body → Me j.Body
  unfolding shown_for fetch_me
  replied o s = shown_for (fetch_me j bad_json o)

  abbrev pub gate : Machine
  gate = record {
    State = Me j.Body;
    Event = Event;
    Request = Request;
    Answer = λ r. Reply (Response j);
    is_offered = is_offered;
    react = react;
    replied = λ r a s. (replied a s, []);
  }

  abbrev pub is_signed_in : Me j.Body → Bool
  is_signed_in loading = false
  is_signed_in nobody = false
  is_signed_in (signed_in b) = true

  abbrev pub is_loading : Me j.Body → Bool
  is_loading loading = true
  is_loading nobody = false
  is_loading (signed_in b) = false

  replied_lem :
      (o : Reply (Response j)) (s : Me j.Body)
      → (is_signed_in (replied o s)
          ≡ elim o [ failed m ↦ false | done r ↦ is_ok j r && is_given j r.body ])
        × (is_loading (replied o s) ≡ false)
  unfolding replied shown_for fetch_me
  replied_lem (failed m) s = (refl, refl)
  replied_lem (done r) s = elim (Option-cases r.body) [
    | inl n ↦ (ground (arith, n), ground (arith, n))
    | inr (b, n) ↦ (ground (arith, n), ground (arith, n))
  ]

  -- The first render, after its effect.
  abbrev pub first_render : Run gate
  first_render = record { state = loading; waiting = me ∷ [] }

  waits :
      {run : Run gate}
      → Reach gate first_render run
      → is_loading run.state ≡ true
      → run.waiting ≡ me ∷ []
  unfolding is_offered react
  waits here h = refl
  waits (more {run} r (act logged_in o q)) h = absurd (offered_late run.state o (rw q at h))
    where
      offered_late : (s : Me j.Body) → is_offered logged_in s ≡ true → is_loading s ≡ true → ⊥
      offered_late loading o h = ground (arith, o)
      offered_late nobody o h = ground (arith, h)
      offered_late (signed_in b) o h = ground (arith, h)
  waits (more {run} r (reply before after p a w q)) h =
      absurd (ground (arith, (replied_lem a run.state).1, rw q at h))

  -- In every run, while the page is loading the first request for who is signed in still waits. Whatever
  -- is shown, after a reply it is no longer loading, and it shows the till exactly if the server has
  -- answered with a status between 200 and 299 and a body in JSON that is not null.
  pub gate_opened :
      {run : Run gate}
      → Reach gate first_render run
      → (is_loading run.state ≡ true → run.waiting ≡ me ∷ [])
        × ((o : Reply (Response j))
            → (is_signed_in (replied o run.state)
                ≡ elim o [ failed m ↦ false | done r ↦ is_ok j r && is_given j r.body ])
              × (is_loading (replied o run.state) ≡ false))
  gate_opened {run} r = (waits r, λ o. replied_lem o run.state)
