-- ===== src/Pos/Sale/Storno.antt =====
-- SalePage.tsx: the voided transactions of a whole run of the till, and the authorizations for them.
use openmarket.Prelude.{ℕ, ◌+◌, ◌≤◌, ◌≡◌, ◌⊎◌, inl, inr, refl, List, [], ◌∷◌, Number, length, arith}
use openmarket.Shared.Machine.Flight.{flag}
use openmarket.Pos.Sale.State.{Page, Request}
use openmarket.Pos.Sale.Events.{react}
use openmarket.Pos.Sale.Replies.{replied, Answer}
use openmarket.Pos.Sale.Run.{System, Step, act, reply, Reach, here, more}
use openmarket.Pos.Sale.Safety.{voids, is_authorization, react-voids, replied-voids}

empty_or_not {ℓ} : {A : Type ℓ} (xs : List A) → (xs ≡ []) ⊎ ((xs ≡ []) → ⊥)
empty_or_not [] = inl refl
empty_or_not (x ∷ xs) = inr (λ e. ground (arith, e))

module _ {N : Type 0} ⦃n : Number N⦄ where
  -- How often a manager authorized in the run, and how many requests to void a transaction were sent.
  abbrev pub authorized : {sys next : System N} → Step sys next → ℕ
  authorized (act e o q) = 0
  authorized (reply before after r a k q) = flag (is_authorization r a)

  abbrev pub voided : {sys next : System N} → Step sys next → ℕ
  voided {sys} (act e o q) = length (voids (react e sys.shortcuts sys.page).1)
  voided {sys} (reply before after r a k q) = length (voids (replied r a sys.page).1)

  abbrev pub authorizations : {sys : System N} → Reach sys → ℕ
  authorizations here = 0
  authorizations (more r st) = authorizations r + authorized st

  abbrev pub voids_sent : {sys : System N} → Reach sys → ℕ
  voids_sent here = 0
  voids_sent (more r st) = voids_sent r + voided st

  replied-authorized :
      (r : Request) (a : Answer r) (s : Page N)
      → length (voids (replied r a s).1) ≤ flag (is_authorization r a)
  replied-authorized r a s = elim (empty_or_not (voids (replied r a s).1)) [
    | inl q ↦ rw q (omega arith)
    | inr k ↦
        let (authorization, (t, last, once)) = replied-voids r a s k in
        rw (once, authorization) (omega arith)
  ]

  Step-authorized : {sys next : System N} (st : Step sys next) → voided st ≤ authorized st
  Step-authorized {sys} (act e o q) = rw (react-voids e sys.shortcuts sys.page) (omega arith)
  Step-authorized {sys} (reply before after r a k q) = replied-authorized r a sys.page

  -- In every run of the till, whatever the user does and in whatever order the server answers, at most
  -- as many requests to void a transaction are sent as a manager gave authorizations.
  pub voids_authorized : {sys : System N} (r : Reach sys) → voids_sent r ≤ authorizations r
  voids_authorized here = omega arith
  voids_authorized (more r st) = omega (arith, voids_authorized r, Step-authorized st)
