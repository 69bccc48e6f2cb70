-- ===== src/Admin/Security/Codes.antt =====
-- Security.tsx: the order of the enrolment and the verification, in every run.
use openmarket.Prelude.{
  ◌≡◌, refl, true, false, none, some, [], ◌∷◌, is_empty, is_some, length, leb, ◌≤◌, All, Text,
  arith,
}
use openmarket.Shared.Machine.{Run, Reach, here, more, act, reply}
use openmarket.Shared.Machine.Waiting.{IsKept, IsHeld, Reach-IsHeld}
use openmarket.Admin.Security.{
  enrolled, verified, State, Request, enroll, verify, Answer, done, failed, Event, start_enroll,
  typed, submitted, is_idle, is_offered, react, replied, initial, page,
}

-- There is a secret exactly after the enrolment, and the code has at most six characters.
pub record IsEnrolling (s : State) : Type 0 where
  pub before : is_idle s ≡ true → s.secret ≡ none
  pub after : is_idle s ≡ false → is_some s.secret ≡ true
  pub short : length s.code ≤ 6

abbrev pub IsConfirmed : State → Request → Type 0
IsConfirmed s enroll = Unit
IsConfirmed s (verify c) = (is_idle s ≡ false) × (is_empty c ≡ false) × (length c ≤ 6)

react-IsEnrolling :
    (e : Event) (s : State) → is_offered e s ≡ true → IsEnrolling s → IsEnrolling (react e s).0
unfolding react is_offered
react-IsEnrolling start_enroll s o h = record {
  before = h.before;
  after = h.after;
  short = h.short;
}
react-IsEnrolling (typed t) s o h = record {
  before = h.before;
  after = h.after;
  short = ground (arith, o);
}
react-IsEnrolling submitted s o h = record { before = h.before; after = h.after; short = h.short }

react-IsConfirmed :
    (e : Event) (s : State) (q : Request) → IsConfirmed s q → IsConfirmed (react e s).0 q
unfolding react
react-IsConfirmed e s enroll k = tt
react-IsConfirmed start_enroll s (verify c) k = k
react-IsConfirmed (typed t) s (verify c) k = k
react-IsConfirmed submitted s (verify c) k = k

react-sent :
    (e : Event) (s : State)
    → is_offered e s ≡ true
    → IsEnrolling s
    → All (IsConfirmed (react e s).0) (react e s).1
unfolding react is_offered
react-sent start_enroll s o h = (tt, tt)
react-sent (typed t) s o h = tt
react-sent submitted s o h = ground (arith, o, h.short)

replied-IsEnrolling :
    (r : Request) (a : Answer r) (s : State)
    → IsEnrolling s
    → IsConfirmed s r
    → IsEnrolling (replied r a s)
unfolding replied
replied-IsEnrolling enroll (done (secret, uri)) s h k = record {
  before = λ e. cc;
  after = λ e. refl;
  short = h.short;
}
replied-IsEnrolling enroll (failed m) s h k = record {
  before = h.before;
  after = h.after;
  short = h.short;
}
replied-IsEnrolling (verify c) (done u) s h k = record {
  before = λ e. cc;
  after = λ e. h.after k.0;
  short = h.short;
}
replied-IsEnrolling (verify c) (failed m) s h k = record {
  before = h.before;
  after = h.after;
  short = h.short;
}

replied-IsConfirmed :
    (r : Request) (a : Answer r) (s : State) (q : Request)
    → IsConfirmed s q
    → IsConfirmed (replied r a s) q
unfolding replied
replied-IsConfirmed r a s enroll k = tt
replied-IsConfirmed enroll (done (secret, uri)) s (verify c) k = (refl, k.1, k.2)
replied-IsConfirmed enroll (failed m) s (verify c) k = k
replied-IsConfirmed (verify d) (done u) s (verify c) k = (refl, k.1, k.2)
replied-IsConfirmed (verify d) (failed m) s (verify c) k = k

page-IsKept : IsKept page IsEnrolling IsConfirmed
page-IsKept = record {
  act_state = react-IsEnrolling;
  act_waiting = λ e s q o h k. react-IsConfirmed e s q k;
  act_sent = react-sent;
  reply_state = replied-IsEnrolling;
  reply_waiting = λ r a s q h k l. replied-IsConfirmed r a s q l;
  reply_sent = λ r a s h k. tt;
}

abbrev pub opened : Run page
opened = record { state = initial; waiting = [] }

-- In every run there is a secret from the enrolment on and not before, the field has at most six
-- characters, and a code waits to be verified only after the enrolment and has between one and six.
pub verified_after_enrolment :
    {run : Run page} → Reach page opened run → IsHeld page IsEnrolling IsConfirmed run
verified_after_enrolment r =
    Reach-IsHeld page IsEnrolling IsConfirmed page-IsKept
      (record {
        state = record { before = λ e. refl; after = λ e. cc; short = omega arith };
        waiting = tt;
      })
      r

-- The button for the enrolment is not disabled while one is under way: if it is clicked twice, the second
-- reply can come after the code has been verified, and leads back to the entry of a code, with another
-- secret than the one that was verified.
pub enrolled_again :
    (a b c d : Text) (code : Text)
    → is_empty a ≡ false
    → is_empty b ≡ false
    → is_empty code ≡ false
    → leb (length code) 6 ≡ true
    → (run : Run page) × Reach page opened run
      × (run.state.phase ≡ verified)
      × (run.waiting ≡ enroll ∷ [])
      × ((replied enroll (done (c, d)) run.state).phase ≡ enrolled)
      × ((replied enroll (done (c, d)) run.state).secret ≡ some c)
unfolding react replied is_offered
enrolled_again a b c d code x y z n = (
  _,
  more
      (more
        (more
          (more (more (more here (act start_enroll refl refl)) (act start_enroll refl refl))
            (reply [] (enroll ∷ []) enroll (done (a, b)) refl refl))
          (act (typed code) (ground (arith, x, y, n)) refl))
        (act submitted (ground (arith, x, y, z)) refl))
      (reply (enroll ∷ []) [] (verify code) (done tt) refl refl),
  refl,
  refl,
  refl,
  refl,
)
