-- ===== src/Shared/Machine/Flight.antt =====
-- A component that guards a kind of request by a busy flag has at most one of them outstanding.
use openmarket.Prelude.{ℕ, ◌+◌, ◌≤◌, ◌≡◌, Bool, true, List, [], ◌∷◌, ◌++◌, if◌then◌else◌, arith}
use openmarket.Shared.Machine.{Machine, Run, Step, act, reply, Reach, here, more}

abbrev pub flag : Bool → ℕ
flag b = if b then 1 else 0

-- How many requests are of the kind.
abbrev pub count {ℓ} : {A : Type ℓ} → (A → Bool) → List A → ℕ
count p [] = 0
count p (x ∷ xs) = flag (p x) + count p xs

pub count-append {ℓ} :
    {A : Type ℓ} (p : A → Bool) (xs ys : List A) → count p (xs ++ ys) ≡ count p xs + count p ys
count-append p [] ys = omega arith
count-append p (x ∷ xs) ys = omega (arith, count-append p xs ys)

module _ (m : Machine) (p : m.Request → Bool) (busy : m.State → Bool) where
  -- The flag is raised by the event that sends the request, which is not offered while it is up, and
  -- lowered by the reply.
  pub record IsGuarded : Type 0 where
    pub act_flag :
        (e : m.Event) (s : m.State)
        → m.is_offered e s ≡ true
        → flag (busy (m.react e s).0) ≡ flag (busy s) + count p (m.react e s).1
    pub reply_flag :
        (r : m.Request) (a : m.Answer r) (s : m.State)
        → flag (p r) ≤ flag (busy s)
        → flag (busy (m.replied r a s).0) + flag (p r) ≡ flag (busy s) + count p (m.replied r a s).1

  abbrev pub IsBalanced : Run m → Type 0
  IsBalanced run = count p run.waiting ≡ flag (busy run.state)

  -- The same with an invariant of the state, which may have a part in that an event is not offered.
  pub record IsGuardedIn (P : m.State → Type 0) : Type 0 where
    pub act_state : (e : m.Event) (s : m.State) → m.is_offered e s ≡ true → P s → P (m.react e s).0
    pub reply_state : (r : m.Request) (a : m.Answer r) (s : m.State) → P s → P (m.replied r a s).0
    pub act_flag :
        (e : m.Event) (s : m.State)
        → m.is_offered e s ≡ true
        → P s
        → flag (busy (m.react e s).0) ≡ flag (busy s) + count p (m.react e s).1
    pub reply_flag :
        (r : m.Request) (a : m.Answer r) (s : m.State)
        → flag (p r) ≤ flag (busy s)
        → P s
        → flag (busy (m.replied r a s).0) + flag (p r) ≡ flag (busy s) + count p (m.replied r a s).1

  pub record IsBalancedIn (P : m.State → Type 0) (run : Run m) : Type 0 where
    pub state : P run.state
    pub balanced : IsBalanced run

  Step-IsBalancedIn :
      {P : m.State → Type 0}
      → IsGuardedIn P
      → {run next : Run m} → Step m run next
      → IsBalancedIn P run
      → IsBalancedIn P next
  Step-IsBalancedIn g {run} {next} (act e o q) h =
      let sent = (m.react e run.state).1 in
      rw q record {
        state = g.act_state e run.state o h.state;
        balanced =
            omega (
              arith,
              h.balanced,
              g.act_flag e run.state o h.state,
              count-append p run.waiting sent,
            );
      }
  Step-IsBalancedIn g {run} {next} (reply before after r a k q) h =
      let sent = (m.replied r a run.state).1 in
      let total : count p run.waiting ≡ count p before + (flag (p r) + count p after) =
        rw k (count-append p before (r ∷ after)) in
      let own : flag (p r) ≤ flag (busy run.state) = omega (arith, h.balanced) in
      rw q record {
        state = g.reply_state r a run.state h.state;
        balanced = omega (
          arith,
          h.balanced,
          g.reply_flag r a run.state own h.state,
          count-append p (before ++ after) sent,
          count-append p before after,
        );
      }

  pub Reach-IsBalancedIn :
      {P : m.State → Type 0}
      → IsGuardedIn P
      → {start run : Run m} → IsBalancedIn P start
      → Reach m start run
      → IsBalancedIn P run
  Reach-IsBalancedIn g h here = h
  Reach-IsBalancedIn g h (more r st) = Step-IsBalancedIn g st (Reach-IsBalancedIn g h r)

  pub Reach-IsBalanced :
      IsGuarded → {start run : Run m} → IsBalanced start → Reach m start run → IsBalanced run
  Reach-IsBalanced g h r =
      let guarded : IsGuardedIn (λ s. Unit) = record {
        act_state = λ e s o u. tt;
        reply_state = λ q a s u. tt;
        act_flag = λ e s o u. g.act_flag e s o;
        reply_flag = λ q a s l u. g.reply_flag q a s l;
      } in
      (Reach-IsBalancedIn guarded (record { state = tt; balanced = h }) r).balanced
