-- ===== src/Admin/Palette/Effects.antt =====
-- CommandPalette.tsx: what the user does, and what the searches bring.
use openmarket.Prelude.{
  ℕ, ◌+◌, ◌-◌, Bool, true, false, not, ◌&&◌, Option, none, some, List, [], ◌∷◌, ◌++◌, min,
  if◌then◌else◌, length, get_elem?, ltb, ◌==◌, text_eq, Text,
}
use openmarket.Shared.Machine.{Machine, Reply, done, failed}
use openmarket.Admin.Palette.Rows.{Row}
use openmarket.Admin.Palette.State.{
  State, Request, search, Found, results, start_search, clamp, set_open,
}

pub data Event : Type 0 where
  -- The shortcut, from anywhere, and the key Escape.
  toggled : Event
  escape : Event
  typed : Text → Event
  -- The debounced query takes the value of the query.
  settled : Event
  arrow_down : Event
  arrow_up : Event
  entered : Event
  hovered : ℕ → Event
  clicked : ℕ → Event
  backdrop : Event

unfoldable pub is_offered : Event → State → Bool
is_offered toggled s = true
is_offered escape s = true
is_offered settled s = not (text_eq s.debounced s.query)
is_offered (hovered i) s = s.open_now && ltb i (length (results s))
is_offered (clicked i) s = s.open_now && ltb i (length (results s))
is_offered e s = s.open_now

-- `go`.
unfoldable pub go : Option Row → State → State × List Request
unfolding set_open
go none s = (s, [])
go (some r) s = set_open false (record s { visited = s.visited ++ r.href ∷ [] })

unfoldable pub react : Event → State → State × List Request
react toggled s = set_open (not s.open_now) s
react escape s = set_open false s
react (typed q) s = (record s { query = q }, [])
react settled s = let (t, sent) = start_search (record s { debounced = s.query }) in (clamp t, sent)
react arrow_down s =
    (record s { active_index = min (s.active_index + 1) (length (results s) - 1) }, [])
react arrow_up s = (record s { active_index = s.active_index - 1 }, [])
react entered s = go (get_elem? (results s) s.active_index) s
react (hovered i) s = (record s { active_index = i }, [])
react (clicked i) s = go (get_elem? (results s) i) s
react backdrop s = set_open false s

-- `settled.status === "fulfilled" ? settled.value : []`.
abbrev pub or_none : {A : Type 0} → Reply (List A) → List A
or_none (done xs) = xs
or_none (failed m) = []

-- `cancelled` of the effect is still false.
abbrev pub is_current : ℕ → State → Bool
is_current i s = elim s.current [ none ↦ false | some j ↦ j == i ]

unfoldable pub replied : Request → Found → State → State
unfolding clamp
replied (search i term) found s =
    if is_current i s
    then clamp (record s {
      products = or_none found.products;
      orders = or_none found.orders;
      customers = or_none found.customers;
      loading = false;
    })
    else s

abbrev pub palette : Machine
palette = record {
  State = State;
  Event = Event;
  Request = Request;
  Answer = λ r. Found;
  is_offered = is_offered;
  react = react;
  replied = λ r a s. (replied r a s, []);
}
