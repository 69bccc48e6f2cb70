-- ===== src/Shared/Machine/Waiting.antt =====
-- Invariants of a component and of the requests that wait for replies: what is to be shown of events
-- and replies, and that it then holds in every run.
use openmarket.Prelude.{true, ◌≡◌, List, [], ◌∷◌, ◌++◌, All, All-append}
use openmarket.Shared.Machine.{Machine, Run, Step, act, reply, Reach, here, more}

module _ {ℓ κ μ} {A : Type ℓ} where
  pub All-weaken :
      (P : A → Type κ) (Q : A → Type μ) (xs : List A) → ((x : A) → P x → Q x) → All P xs → All Q xs
  All-weaken P Q [] f h = tt
  All-weaken P Q (x ∷ xs) f h = (f x h.0, All-weaken P Q xs f h.1)

module _ {ℓ κ} {A : Type ℓ} where
  pub All-without :
      (P : A → Type κ) (before after : List A) (x : A)
      → All P (before ++ (x ∷ after))
      → All P (before ++ after)
  All-without P [] after x h = h.1
  All-without P (y ∷ before) after x h = (h.0, All-without P before after x h.1)

  pub All-at :
      (P : A → Type κ) (before after : List A) (x : A) → All P (before ++ (x ∷ after)) → P x
  All-at P [] after x h = h.0
  All-at P (y ∷ before) after x h = All-at P before after x h.1

module _ (m : Machine) (P : m.State → Type 0) (Q : m.State → m.Request → Type 0) where
  -- Each event and each reply keeps P, keeps Q of the requests that wait, and sends what has Q.
  pub record IsKept : Type 0 where
    pub act_state : (e : m.Event) (s : m.State) → m.is_offered e s ≡ true → P s → P (m.react e s).0
    pub act_waiting :
        (e : m.Event) (s : m.State) (q : m.Request)
        → m.is_offered e s ≡ true
        → P s
        → Q s q
        → Q (m.react e s).0 q
    pub act_sent :
        (e : m.Event) (s : m.State)
        → m.is_offered e s ≡ true
        → P s
        → All (Q (m.react e s).0) (m.react e s).1
    pub reply_state :
        (r : m.Request) (a : m.Answer r) (s : m.State) → P s → Q s r → P (m.replied r a s).0
    pub reply_waiting :
        (r : m.Request) (a : m.Answer r) (s : m.State) (q : m.Request)
        → P s
        → Q s r
        → Q s q
        → Q (m.replied r a s).0 q
    pub reply_sent :
        (r : m.Request) (a : m.Answer r) (s : m.State)
        → P s
        → Q s r
        → All (Q (m.replied r a s).0) (m.replied r a s).1

  pub record IsHeld (run : Run m) : Type 0 where
    pub state : P run.state
    pub waiting : All (Q run.state) run.waiting

  Step-IsHeld : IsKept → {run next : Run m} → Step m run next → IsHeld run → IsHeld next
  Step-IsHeld k {run} (act e o q) h =
      let s = run.state in
      rw q record {
        state = k.act_state e s o h.state;
        waiting =
            All-append (Q (m.react e s).0) run.waiting (m.react e s).1
              (All-weaken (Q s) (Q (m.react e s).0) run.waiting (λ r. k.act_waiting e s r o h.state)
                h.waiting)
              (k.act_sent e s o h.state);
      }
  Step-IsHeld k {run} (reply before after r a w q) h =
      let s = run.state in
      let all = rw w at h.waiting in
      let own = All-at (Q s) before after r all in
      rw q record {
        state = k.reply_state r a s h.state own;
        waiting =
            All-append (Q (m.replied r a s).0) (before ++ after) (m.replied r a s).1
              (All-weaken (Q s) (Q (m.replied r a s).0) (before ++ after)
                (λ p. k.reply_waiting r a s p h.state own) (All-without (Q s) before after r all))
              (k.reply_sent r a s h.state own);
      }

  pub Reach-IsHeld : IsKept → {start run : Run m} → IsHeld start → Reach m start run → IsHeld run
  Reach-IsHeld k h here = h
  Reach-IsHeld k h (more r st) = Step-IsHeld k st (Reach-IsHeld k h r)

module _ (m : Machine) (P : m.State → Type 0) where
  -- An invariant of the state alone.
  pub Reach-state :
      ((e : m.Event) (s : m.State) → m.is_offered e s ≡ true → P s → P (m.react e s).0)
      → ((r : m.Request) (a : m.Answer r) (s : m.State) → P s → P (m.replied r a s).0)
      → {start run : Run m} → P start.state
      → Reach m start run
      → P run.state
  Reach-state f g h here = h
  Reach-state f g h (more {run} r (act e o q)) = rw q (f e run.state o (Reach-state f g h r))
  Reach-state f g h (more {run} r (reply before after p a w q)) =
      rw q (g p a run.state (Reach-state f g h r))
