-- ===== src/Pos/Returns/Bounds.antt =====
-- ReturnModal.tsx: no return asks for more than was ordered.
use mathlib.Core.Path.{subst}
use openmarket.Prelude.{
  ℕ, ◌≤◌, ◌<◌, ◌≡◌, sym, ◌⊎◌, inl, inr, Option, none, some, List, [], ◌∷◌, Number, ℤ, find, ltb,
  if◌then◌else◌, Text, ◌==◌, arith, All, Bool-cases, Option-cases,
}
use openmarket.Shared.Types.{Order, LineItem}
use openmarket.Shared.Machine.{Machine, Run, Reach, act, reply, here, more}
use openmarket.Pos.Returns.{
  State, Quantities, Request, lookup_order, post_return, Answer, done, failed, Event, quantity_set,
  processed, ReturnItem, has_id, returned, zeros, update_qty, return_items, initial, is_offered,
  react, replied,
}

-- What was ordered on the line with this id.
unfoldable pub ordered : List LineItem → ℕ → ℕ
ordered [] i = 0
ordered (l ∷ ls) i = if l.id == i then l.quantity else ordered ls i

abbrev pub IsWithin : List LineItem → Quantities → Type 0
IsWithin lines q = (i : ℕ) → returned q i ≤ ordered lines i

zeros-IsWithin : (lines : List LineItem) → IsWithin lines (zeros lines)
unfolding zeros ordered
zeros-IsWithin [] i = omega arith
zeros-IsWithin (l ∷ ls) i = ground (arith, zeros-IsWithin ls i)

ordered_of_find :
    (lines : List LineItem) (i : ℕ) (l : LineItem)
    → find (has_id i) lines ≡ some l
    → ordered lines i ≡ l.quantity
unfolding ordered
ordered_of_find [] i l h = cc
ordered_of_find (k ∷ ks) i l h = ground (arith, ordered_of_find ks i l)

update_qty-IsWithin :
    (o : Order) (i : ℕ) (z : ℤ) (q : Quantities)
    → IsWithin o.line_items q
    → IsWithin o.line_items (update_qty o i z q)
unfolding update_qty
update_qty-IsWithin o i z q h j = elim (Option-cases (find (has_id i) o.line_items)) [
  | inl e ↦ rw (e, update_qty) (h j)
  | inr (l, e) ↦ rw (e, update_qty) (ground (arith, h j, ordered_of_find o.line_items i l e))
]

-- A returned item is a positive part of what was ordered on its line.
abbrev pub IsPart : List LineItem → ReturnItem → Type 0
IsPart lines item = (0 < item.quantity) × (item.quantity ≤ ordered lines item.line_item_id)

return_items-IsPart :
    (lines : List LineItem) (q : Quantities) (ls : List LineItem)
    → IsWithin lines q
    → All (IsPart lines) (return_items q ls)
unfolding return_items
return_items-IsPart lines q [] h = tt
return_items-IsPart lines q (l ∷ ls) h = elim (Bool-cases (ltb 0 (returned q l.id))) [
  | inl e ↦ rw e ((ground arith, h l.id), return_items-IsPart lines q ls h)
  | inr e ↦ rw e (return_items-IsPart lines q ls h)
]

-- The quantities fit the order that is shown.
abbrev pub IsFitting : Option Order → Quantities → Type 0
IsFitting none q = Unit
IsFitting (some o) q = IsWithin o.line_items q

IsFitting-equal :
    {o o' : Option Order} {q q' : Quantities} → o ≡ o' → q ≡ q' → IsFitting o' q' → IsFitting o q
IsFitting-equal {o} {o'} {q} {q'} e f h =
    subst (λ x. IsFitting x q) (sym e) (subst (IsFitting o') (sym f) h)

-- A quantity was set on the order that is shown, if there is one.
set_qty : Option Order → ℕ → ℤ → Quantities → Quantities
set_qty none i z q = q
set_qty (some o) i z q = update_qty o i z q

set_qty-IsFitting :
    (o : Option Order) (i : ℕ) (z : ℤ) (q : Quantities)
    → IsFitting o q
    → IsFitting o (set_qty o i z q)
unfolding set_qty
set_qty-IsFitting none i z q h = tt
set_qty-IsFitting (some o) i z q h = update_qty-IsWithin o i z q h

module _ (N : Type 0) ⦃n : Number N⦄ where
  abbrev pub modal : Machine
  modal = record {
    State = State N;
    Event = Event;
    Request = Request;
    Answer = Answer;
    is_offered = is_offered N;
    react = react N;
    replied = λ r a s. (replied N r a s, []);
  }

  react-kept :
      (e : Event) (s : State N)
      → ((i : ℕ) × (z : ℤ) × ((react N e s).0.order ≡ s.order)
          × ((react N e s).0.return_qty ≡ set_qty s.order i z s.return_qty))
        ⊎ (((react N e s).0.order ≡ s.order) × ((react N e s).0.return_qty ≡ s.return_qty))
  unfolding react set_qty
  react-kept (quantity_set i z) s = inl (i, z, ground arith, ground arith)
  react-kept e s = inr (ground arith, ground arith)

  react-IsFitting :
      (e : Event) (s : State N)
      → IsFitting s.order s.return_qty
      → IsFitting (react N e s).0.order (react N e s).0.return_qty
  react-IsFitting e s h = elim (react-kept e s) [
    | inl (i, z, o, q) ↦ IsFitting-equal o q (set_qty-IsFitting s.order i z s.return_qty h)
    | inr (o, q) ↦ IsFitting-equal o q h
  ]

  replied-IsFitting :
      (r : Request) (a : Answer r) (s : State N)
      → IsFitting s.order s.return_qty
      → IsFitting (replied N r a s).order (replied N r a s).return_qty
  unfolding replied
  replied-IsFitting (lookup_order number) (done o) s h = zeros-IsWithin o.line_items
  replied-IsFitting (lookup_order number) (failed m) s h = h
  replied-IsFitting (post_return i reason items) (done refund) s h = h
  replied-IsFitting (post_return i reason items) (failed m) s h = h

  Reach-IsFitting :
      {run : Run modal}
      → Reach modal (record { state = initial N; waiting = [] }) run
      → IsFitting run.state.order run.state.return_qty
  unfolding initial
  Reach-IsFitting here = tt
  Reach-IsFitting (more {run} r (act e o q)) =
      rw q (react-IsFitting e run.state (Reach-IsFitting r))
  Reach-IsFitting (more {run} r (reply before after k a w q)) =
      rw q (replied-IsFitting k a run.state (Reach-IsFitting r))

  -- In every state that the modal can reach, whatever was typed and in whatever order the server
  -- answered, the return that it would send is for the order that is shown, and each of its items
  -- takes back at least one piece and at most what was ordered on that line.
  pub return_within_order :
      {run : Run modal} (o : Order)
      → Reach modal (record { state = initial N; waiting = [] }) run
      → run.state.order ≡ some o
      → (items : List ReturnItem) (id : ℕ) (reason : Text)
      → (react N processed run.state).1 ≡ post_return id reason items ∷ []
      → (id ≡ o.id) × All (IsPart o.line_items) items
  unfolding react
  return_within_order {run} o r k items id reason e =
      let s = run.state in
      let fits : IsWithin o.line_items s.return_qty =
        subst (λ x. IsFitting x s.return_qty) k (Reach-IsFitting r) in
      let parts = return_items-IsPart o.line_items s.return_qty o.line_items fits in
      let sent : (id ≡ o.id) × (return_items s.return_qty o.line_items ≡ items) = ground arith in
      (sent.0, subst (All (IsPart o.line_items)) sent.1 parts)
