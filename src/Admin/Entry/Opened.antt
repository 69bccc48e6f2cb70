-- ===== src/Admin/Entry/Opened.antt =====
-- RequireAuth.tsx: what is shown after each reply, in every run.
use openmarket.Prelude.{
  ◌≡◌, ◌⊎◌, inl, inr, refl, ap, ◌∙◌, Bool, true, false, List, [], ◌∷◌, ◌++◌, Bool-cases, Text,
  arith, Option-cases,
}
use openmarket.Shared.Machine.{Run, Reach, here, more, act, reply}
use openmarket.Shared.Client.{Json, Response, fetch_me}
use openmarket.Admin.Entry.{
  State, Request, me, status, Reply, done, failed, is_loading, is_setup, is_signed_in, fetch_status,
  is_offered, react, after_me, after_status, replied, gate, first_render, names_user, lacks_owner,
  names_nobody,
}

module _ (j : Json) (setup_required : j.Body → Bool) (bad_json : Text) where
  -- While the page is loading, exactly one of the two requests of the first reload waits.
  abbrev pub Waits : Run (gate j setup_required bad_json) → Type 0
  Waits run = is_loading run.state ≡ true → (run.waiting ≡ me ∷ []) ⊎ (run.waiting ≡ status ∷ [])

  abbrev pub replied_in : Request → Reply (Response j) → State j.Body → State j.Body
  replied_in r o s = (replied j setup_required bad_json r o s).0

  asked_on :
      (o : Reply (Response j)) (s : State j.Body)
      → names_nobody j setup_required bad_json o ≡ true
      → replied j setup_required bad_json me o s ≡ (s, status ∷ [])
  unfolding replied after_me fetch_me
  asked_on (failed m) s e = cc
  asked_on (done r) s e = elim (Option-cases r.body) [
    | inl k ↦ ground (arith, e, k)
    | inr (b, k) ↦ ground (arith, e, k)
  ]

  told_who :
      (o : Reply (Response j)) (s : State j.Body)
      → names_nobody j setup_required bad_json o ≡ false
      → (is_signed_in (replied_in me o s) ≡ names_user j setup_required bad_json o)
        × (is_loading (replied_in me o s) ≡ false)
  unfolding replied after_me fetch_me
  told_who (failed m) s e = (refl, refl)
  told_who (done r) s e = elim (Option-cases r.body) [
    | inl k ↦ (ground (arith, e, k), ground (arith, e, k))
    | inr (b, k) ↦ (ground (arith, e, k), ground (arith, e, k))
  ]

  told_setup :
      (o : Reply (Response j)) (s : State j.Body)
      → (is_setup (replied_in status o s) ≡ lacks_owner j setup_required bad_json o)
        × (is_loading (replied_in status o s) ≡ false)
  unfolding replied after_status fetch_status
  told_setup (failed m) s = (refl, refl)
  told_setup (done r) s = elim (Option-cases r.body) [
    | inl k ↦ (ground (arith, k), ground (arith, k))
    | inr (b, k) ↦ (ground (arith, k), ground (arith, k))
  ]

  alone :
      (before after : List Request)
      → (before ++ (me ∷ after) ≡ me ∷ []) ⊎ (before ++ (me ∷ after) ≡ status ∷ [])
      → before ++ after ≡ []
  alone [] after (inl e) = cc
  alone [] after (inr e) = cc
  alone (p ∷ []) after (inl e) = cc
  alone (p ∷ []) after (inr e) = cc
  alone (p ∷ q ∷ before) after (inl e) = cc
  alone (p ∷ q ∷ before) after (inr e) = cc

  waits :
      {run : Run (gate j setup_required bad_json)}
      → Reach (gate j setup_required bad_json) (first_render j setup_required bad_json) run
      → Waits run
  unfolding is_offered react
  waits here h = inl refl
  waits (more {run} r (act e o q)) h = absurd (ground (arith, o, rw q at h))
  waits (more {run} r (reply before after status o w q)) h =
      absurd (ground (arith, (told_setup o run.state).1, rw q at h))
  waits (more {run} r (reply before after me o w q)) h =
      elim (Bool-cases (names_nobody j setup_required bad_json o)) [
        | inr e ↦ absurd (ground (arith, (told_who o run.state e).1, rw q at h))
        | inl e ↦
            let asked = asked_on o run.state e in
            let left = alone before after (rw w at (waits r (rw (q, asked) at h))) in
            inr (
              ap (λ (t : Run (gate j setup_required bad_json)). t.waiting) q
              ∙ rw (asked, left) refl)
      ]

  -- In every run, while the page is loading one of the two requests of the first reload waits and no
  -- other. After an answer to who is signed in that is neither a 401 nor null, the page shows the
  -- administration exactly if it names a user; after one of these it asks whether there is an owner, and
  -- the reply to that shows the setup exactly if it says that there is none. No other reply leaves it
  -- loading.
  pub entry_opened :
      {run : Run (gate j setup_required bad_json)}
      → Reach (gate j setup_required bad_json) (first_render j setup_required bad_json) run
      → Waits run
        × ((o : Reply (Response j))
            → (names_nobody j setup_required bad_json o ≡ true
                → replied j setup_required bad_json me o run.state ≡ (run.state, status ∷ []))
              × (names_nobody j setup_required bad_json o ≡ false
                  → (is_signed_in (replied_in me o run.state)
                      ≡ names_user j setup_required bad_json o)
                    × (is_loading (replied_in me o run.state) ≡ false))
              × (is_setup (replied_in status o run.state) ≡ lacks_owner j setup_required bad_json o)
              × (is_loading (replied_in status o run.state) ≡ false))
  entry_opened {run} r =
      let s = run.state in
      (waits r, λ o. (asked_on o s, told_who o s, (told_setup o s).0, (told_setup o s).1))
