-- ===== src/Admin/Palette/Sound.antt =====
-- CommandPalette.tsx: in every run the active row is one of the rows, and no search that is out of
-- date changes what is shown.
use openmarket.Prelude.{
  ℕ, zero, suc, ◌-◌, ◌≤◌, ◌<◌, ◌≡◌, ◌⊎◌, inl, inr, refl, Bool, true, false, not, Option, none, some,
  List, [], ◌∷◌, ◌++◌, is_empty, trim, length, get_elem?, All, Bool-cases, Text, arith,
}
use openmarket.Shared.Machine.{Run, Reach}
use openmarket.Shared.Machine.Waiting.{IsKept, IsHeld, Reach-IsHeld, All-at}
use openmarket.Admin.Palette.Rows.{Row}
use openmarket.Admin.Palette.State.{
  State, Request, search, Found, results, initial, start_search, clamp, set_open,
}
use openmarket.Admin.Palette.Effects.{
  Event, toggled, escape, settled, entered, clicked, backdrop, is_offered, go, react, replied,
  is_current, palette,
}

-- The search may still be shown only if the palette is open and would search for the same.
abbrev IsFresh : State → Request → Type 0
IsFresh s (search i term) =
    (i < s.searches) × (is_current i s ≡ true → (s.open_now ≡ true) × (term ≡ trim s.debounced))

abbrev IsWithin : State → Type 0
IsWithin s = s.active_index ≤ length (results s) - 1

set_open-IsWithin : (b : Bool) (s : State) → IsWithin s → IsWithin (set_open b s).0
unfolding set_open
set_open-IsWithin true s h = ground arith
set_open-IsWithin false s h = ground arith

set_open-IsFresh : (b : Bool) (s : State) (r : Request) → IsFresh s r → IsFresh (set_open b s).0 r
unfolding set_open
set_open-IsFresh true s (search i term) h = ground arith
set_open-IsFresh false s (search i term) h = ground arith

go-IsWithin : (o : Option Row) (s : State) → IsWithin s → IsWithin (go o s).0
unfolding go set_open
go-IsWithin none s h = h
go-IsWithin (some r) s h = ground arith

go-IsFresh : (o : Option Row) (s : State) (r : Request) → IsFresh s r → IsFresh (go o s).0 r
unfolding go set_open
go-IsFresh none s r h = h
go-IsFresh (some row) s (search i term) h = ground arith

react-IsWithin :
    (e : Event) (s : State) → is_offered e s ≡ true → IsWithin s → IsWithin (react e s).0
unfolding react is_offered clamp
react-IsWithin toggled s o h = set_open-IsWithin (not s.open_now) s h
react-IsWithin escape s o h = set_open-IsWithin false s h
react-IsWithin backdrop s o h = set_open-IsWithin false s h
react-IsWithin entered s o h = go-IsWithin (get_elem? (results s) s.active_index) s h
react-IsWithin (clicked i) s o h = go-IsWithin (get_elem? (results s) i) s h
react-IsWithin e s o h = ground arith

react-IsFresh : (e : Event) (s : State) (r : Request) → IsFresh s r → IsFresh (react e s).0 r
unfolding react start_search clamp
react-IsFresh toggled s r h = set_open-IsFresh (not s.open_now) s r h
react-IsFresh escape s r h = set_open-IsFresh false s r h
react-IsFresh backdrop s r h = set_open-IsFresh false s r h
react-IsFresh entered s r h = go-IsFresh (get_elem? (results s) s.active_index) s r h
react-IsFresh (clicked i) s r h = go-IsFresh (get_elem? (results s) i) s r h
react-IsFresh settled s (search i term) h = ground arith
react-IsFresh e s (search i term) h = ground arith

set_open-sent : (b : Bool) (s : State) → All (IsFresh (set_open b s).0) (set_open b s).1
unfolding set_open
set_open-sent true s = ground arith
set_open-sent false s = ground arith

go-sent : (o : Option Row) (s : State) → All (IsFresh (go o s).0) (go o s).1
unfolding go
go-sent none s = tt
go-sent (some r) s = set_open-sent false (record s { visited = s.visited ++ r.href ∷ [] })

react-sent : (e : Event) (s : State) → All (IsFresh (react e s).0) (react e s).1
unfolding react start_search clamp
react-sent toggled s = set_open-sent (not s.open_now) s
react-sent escape s = set_open-sent false s
react-sent backdrop s = set_open-sent false s
react-sent entered s = go-sent (get_elem? (results s) s.active_index) s
react-sent (clicked i) s = go-sent (get_elem? (results s) i) s
react-sent settled s = ground arith
react-sent e s = ground arith

replied-IsFresh :
    (r : Request) (found : Found) (s : State) (q : Request)
    → IsFresh s q
    → IsFresh (replied r found s) q
unfolding replied
replied-IsFresh (search i term) found s (search j other) h = ground arith

replied-IsWithin :
    (r : Request) (found : Found) (s : State) → IsWithin s → IsWithin (replied r found s)
unfolding replied clamp
replied-IsWithin (search i term) found s h = ground arith

get_elem?-inside :
    (rows : List Row) (i : ℕ)
    → is_empty rows ≡ false
    → i ≤ length rows - 1
    → (row : Row) × (get_elem? rows i ≡ some row)
get_elem?-inside [] i h k = ground (arith, h)
get_elem?-inside (x ∷ rows) zero h k = (x, refl)
get_elem?-inside (x ∷ []) (suc i) h k = absurd (omega arith)
get_elem?-inside (x ∷ y ∷ rows) (suc i) h k = get_elem?-inside (y ∷ rows) i refl (omega arith)

palette-IsKept : IsKept palette IsWithin IsFresh
palette-IsKept = record {
  act_state = react-IsWithin;
  act_waiting = λ e s r o h. react-IsFresh e s r;
  act_sent = λ e s o h. react-sent e s;
  reply_state = λ r a s h q. replied-IsWithin r a s h;
  reply_waiting = λ r a s p h q. replied-IsFresh r a s p;
  reply_sent = λ r a s h q. tt;
}

abbrev pub closed : Run palette
closed = record { state = initial; waiting = [] }

closed-IsHeld : {run : Run palette} → Reach palette closed run → IsHeld palette IsWithin IsFresh run
unfolding initial
closed-IsHeld r =
    Reach-IsHeld palette IsWithin IsFresh palette-IsKept
      (record { state = omega arith; waiting = tt }) r

-- In every run, from the closed palette on, a reply to a search that still waits changes nothing, or
-- the palette is open and the search is for the text that it shows results for.
pub replied_if_fresh :
    {run : Run palette}
    → Reach palette closed run
    → (before after : List Request) (i : ℕ) (term : Text) (found : Found)
    → run.waiting ≡ before ++ (search i term ∷ after)
    → (replied (search i term) found run.state ≡ run.state)
      ⊎ ((run.state.open_now ≡ true) × (term ≡ trim run.state.debounced))
unfolding replied
replied_if_fresh {run} r before after i term found k =
    let held = closed-IsHeld r in
    let fresh = All-at (IsFresh run.state) before after (search i term) (rw k at held.waiting) in
    elim (Bool-cases (is_current i run.state)) [ inl q ↦ inr (fresh.1 q) | inr q ↦ inl (rw q refl) ]

-- In every run, if there are rows, the key Enter goes to the address of the active row and closes the
-- palette.
pub entered_lem :
    {run : Run palette}
    → Reach palette closed run
    → run.state.open_now ≡ true
    → is_empty (results run.state) ≡ false
    → (row : Row) × (get_elem? (results run.state) run.state.active_index ≡ some row)
      × ((react entered run.state).0.visited ≡ run.state.visited ++ row.href ∷ [])
      × ((react entered run.state).0.open_now ≡ false)
unfolding react go set_open
entered_lem {run} r o h =
    let held = closed-IsHeld r in
    let (row, e) = get_elem?-inside (results run.state) run.state.active_index h held.state in
    (row, e, ground arith, ground arith)
