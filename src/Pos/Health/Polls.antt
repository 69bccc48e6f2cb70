-- ===== src/Pos/Health/Polls.antt =====
-- HealthDots.tsx: what an answer shows, that a poll ends, and what happens after the component's end.
use openmarket.Prelude.{
  ℕ, ◌+◌, ◌<◌, ◌≡◌, ◌≢◌, ◌⊎◌, inl, inr, refl, ap, ◌∙◌, true, false, Option, some, List, [], ◌∷◌,
  arith,
}
use openmarket.Shared.Types.{HealthStatus}
use openmarket.Shared.Machine.{Run, Reach, Step, here, more, act, reply}
use openmarket.Pos.Health.{
  Reply, done, failed, State, Dot, ok, fail, Probe, health_db, health_fiskaly, health_printer,
  health_terminal, dot_of, set_dot, next, result, replied, unmounted, is_offered, react, dots,
}

-- The service has answered, and its answer denies neither that it is online nor that it has paper.
abbrev pub IsWell : Reply HealthStatus → Type 0
IsWell (failed m) = ⊥
IsWell (done r) = (r.online ≢ some false) × (r.paper_ok ≢ some false)

-- How many services are asked from this one to the end of a poll.
abbrev pub rank : Probe → ℕ
rank health_db = 4
rank health_fiskaly = 3
rank health_printer = 2
rank health_terminal = 1

abbrev pub ranks : List Probe → ℕ
ranks [] = 0
ranks (p ∷ ps) = rank p + ranks ps

-- What an answer shows on its service's dot.
abbrev pub IsVerdict : Reply HealthStatus → Dot → Type 0
IsVerdict a d = ((d ≡ ok) × IsWell a) ⊎ ((d ≡ fail) × (IsWell a → ⊥))

well_result : (a : Reply HealthStatus) → IsVerdict a (result a)
unfolding result
well_result (failed m) = inr (refl, λ h. h)
well_result (done r) = go r.online r.paper_ok refl refl
  where
    go : (o p : Option _) → r.online ≡ o → r.paper_ok ≡ p → IsVerdict (done r) (result (done r))
    go (some false) p e f = inr (rw (result, e) refl, λ h. h.0 e)
    go o (some false) e f = inr (ground (arith, e, f), λ h. h.1 f)
    go o p e f =
        inl (ground (arith, e, f), ((λ k. ground (arith, e, k)), (λ k. ground (arith, f, k))))

other_dot :
    (p q : Probe) (a : Reply HealthStatus) (s : State)
    → q ≢ p
    → dot_of q (replied p a s).0 ≡ dot_of q s
unfolding replied set_dot
other_dot p q a s n = ground (arith, n)

own_dot :
    (p : Probe) (a : Reply HealthStatus) (s : State)
    → s.alive ≡ true
    → dot_of p (replied p a s).0 ≡ result a
unfolding replied set_dot
own_dot p a s h = ground (arith, h)

ranks-next : (p : Probe) (a : Reply HealthStatus) (s : State) → ranks (replied p a s).1 < rank p
unfolding replied next
ranks-next p a s = ground arith

Step-frozen :
    {run after : Run dots} → run.state.alive ≡ false → Step dots run after → after.state ≡ run.state
unfolding is_offered replied
Step-frozen {run} h (act e o q) = absurd (ground (arith, h, o))
Step-frozen {run} h (reply before rest p a w q) =
    ap (λ (t : Run dots). t.state) q ∙ rw (h, replied) refl

Reach-frozen :
    {run after : Run dots}
    → run.state.alive ≡ false
    → Reach dots run after
    → after.state ≡ run.state
Reach-frozen h here = refl
Reach-frozen h (more r st) = let same = Reach-frozen h r in Step-frozen (rw same h) st ∙ same

-- While the component is there, the answer of a service shows on its own dot: ok if it came and denies
-- neither that the service is online nor that it has paper, else a failure; the other three dots stay.
-- Whatever the answer, what is asked next needs fewer answers than before, so a poll ends after four.
-- Once the component is gone no reply changes a dot, in whichever order the outstanding ones come.
pub poll_shown :
    (s : State) (p : Probe) (a : Reply HealthStatus)
    → s.alive ≡ true
    → IsVerdict a (dot_of p (replied p a s).0)
      × ((q : Probe) → q ≢ p → dot_of q (replied p a s).0 ≡ dot_of q s)
      × (ranks (replied p a s).1 < rank p)
      × ((waiting : List Probe) (after : Run dots)
          → Reach dots (record { state = (react unmounted s).0; waiting = waiting }) after
          → after.state ≡ record s { alive = false })
unfolding react
poll_shown s p a h = (
  rw (own_dot p a s h) (well_result a),
  λ q n. other_dot p q a s n,
  ranks-next p a s,
  λ waiting after r. Reach-frozen refl r,
)
