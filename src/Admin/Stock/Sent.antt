-- ===== src/Admin/Stock/Sent.antt =====
-- ProductsInventoryPage.tsx: which items the changes of stock are for, in every run, and when the
-- location is reset.
use mathlib.Core.Path.{subst}
use mathlib.Core.Option.{some-injective}
use openmarket.Prelude.{
  ℕ, ◌≡◌, refl, sym, Bool, true, false, Option, none, some, List, [], ◌∷◌, ◌==◌, ==_refl, map, any,
  find, is_some, Text, ℤ, pos, negsuc, Option-cases, Bool-cases, inl, inr, arith,
}
use openmarket.Shared.Types.{Product, ProductVariant, Location}
use openmarket.Shared.Machine.{Run, Reach}
use openmarket.Shared.Machine.Waiting.{Reach-state}
use openmarket.Admin.Stock.Levels.{Level, Inventory, lookup, inventory_of, has_item, level_of}
use openmarket.Admin.Stock.Keys.{
  IsOrdered, level_of-lookup, inventory_of-IsOrdered, update_inventory-IsOrdered,
}
use openmarket.Admin.Stock.Page.{
  State, Request, Answer, done, failed, Next, nothing, adjusted, stock_set, list_products, levels,
  list_locations, get, adjust, set, Event, typed, settled, location_chosen, row_clicked,
  stock_typed, set_clicked, adjust_clicked, stock_changed, toast, load, load_products, expand,
  choose_location, follow, fail, replied, stock_shown, set_stock, react, page, start,
}

abbrev pub HasLevels : State → Type 0
HasLevels s = IsOrdered s.inventory

follow-inventory : (n : Next) (s : State) → (follow n s).inventory ≡ s.inventory
unfolding follow toast
follow-inventory nothing s = refl
follow-inventory (adjusted d) s = refl
follow-inventory (stock_set n) s = refl

fail-inventory : (n : Next) (s : State) → (fail n s).inventory ≡ s.inventory
unfolding fail toast
fail-inventory nothing s = refl
fail-inventory (adjusted d) s = refl
fail-inventory (stock_set n) s = refl

replied-HasLevels :
    (r : Request) (a : Answer r) (s : State) → HasLevels s → HasLevels (replied r a s).0
unfolding replied choose_location
replied-HasLevels (list_products q) (done ps) s h = h
replied-HasLevels (list_products q) (failed m) s h = h
replied-HasLevels (levels l n) (done ls) s h =
    rw (follow-inventory n (record s { inventory = inventory_of ls })) (inventory_of-IsOrdered ls)
replied-HasLevels (levels l n) (failed m) s h = rw (fail-inventory n s) h
replied-HasLevels list_locations (done []) s h = h
replied-HasLevels list_locations (done (l ∷ ls)) s h = ground (arith, h)
replied-HasLevels list_locations (failed m) s h = h
replied-HasLevels (get i) (done p) s h = h
replied-HasLevels (get i) (failed m) s h = h
replied-HasLevels (adjust i l d) (done u) s h = h
replied-HasLevels (adjust i l d) (failed m) s h = rw (fail-inventory (adjusted d) s) h
replied-HasLevels (set i l n) (done u) s h = h
replied-HasLevels (set i l n) (failed m) s h = rw (fail-inventory (stock_set n) s) h

find-holds : {A : Type 0} (p : A → Bool) (xs : List A) (x : A) → find p xs ≡ some x → p x ≡ true
find-holds p [] x e = absurd (ground (arith, e))
find-holds p (y ∷ xs) x e = elim (Bool-cases (p y)) [
  | inl q ↦ subst (λ z. p z ≡ true) (some-injective _ _ (rw q at e)) q
  | inr q ↦ find-holds p xs x (rw q at e)
]

abbrev shows : ℕ → Inventory → ℕ → Bool
shows i m k = elim (level_of k m) [ none ↦ false | some l ↦ has_item i l ]

shows-item :
    (i k : ℕ) (m : Inventory)
    → shows i m k ≡ true
    → ((k == i) ≡ true) × (is_some (level_of i m) ≡ true)
unfolding level_of
shows-item i k m o = elim (Option-cases (level_of k m)) [
  | inl n ↦ absurd (ground (arith, o, n))
  | inr (l, n) ↦
      let own : has_item k l ≡ true = find-holds (has_item k) (map (λ e. e.1) m) l n in
      let same : k ≡ i = ground (arith, o, n, own) in (rw same (==_refl i), rw (sym same, n) refl)
]

shown_variant :
    (i : ℕ) (m : Inventory) (vs : List ProductVariant)
    → any (λ v. shows i m v.id) vs ≡ true
    → (v : ProductVariant) × (find (λ w. w.id == i) vs ≡ some v) × (is_some (level_of i m) ≡ true)
shown_variant i m [] o = absurd (ground (arith, o))
shown_variant i m (w ∷ vs) o = elim (Bool-cases (shows i m w.id)) [
  | inl q ↦ let (e, g) = shows-item i w.id m q in (w, rw e refl, g)
  | inr q ↦
      let (v, f, g) = shown_variant i m vs (rw q at o) in
      elim (Bool-cases (w.id == i)) [ inl e ↦ (w, rw e refl, g) | inr e ↦ (v, rw e f, g) ]
]

-- What `stock_shown` says of the variant.
stock_of_variant :
    (i : ℕ) (s : State)
    → stock_shown i s ≡ true
    → (p : Product) × (v : ProductVariant) × (s.expanded_product ≡ some p)
      × (find (λ w. w.id == i) p.variants ≡ some v)
      × (is_some (level_of i s.inventory) ≡ true)
stock_of_variant i s o = elim (Option-cases s.expanded_product) [
  | inl n ↦ absurd (ground (arith, o, n))
  | inr (p, n) ↦
      let (v, f, g) = shown_variant i s.inventory p.variants (ground (arith, o, n)) in
      (p, v, n, f, g)
]

lookup_of :
    (i : ℕ) (m : Inventory)
    → IsOrdered m
    → is_some (level_of i m) ≡ true
    → (l : Level) × (lookup i m ≡ some l)
lookup_of i m h o = elim (Option-cases (lookup i m)) [
  | inl n ↦ absurd (ground (arith, o, n, level_of-lookup i m h))
  | inr (l, n) ↦ (l, n)
]

abbrev is_locations : Request → Bool
is_locations list_locations = true
is_locations r = false

module _ (parse_int : Text → Option ℤ) where
  react-HasLevels : (e : Event) (s : State) → HasLevels s → HasLevels (react parse_int e s).0
  unfolding react load load_products expand choose_location
  react-HasLevels (typed t) s h = h
  react-HasLevels settled s h = h
  react-HasLevels (location_chosen i) s h = ground (arith, h)
  react-HasLevels (row_clicked i) s h = ground (arith, h)
  react-HasLevels (stock_typed i t) s h = h
  react-HasLevels (set_clicked i) s h = h
  react-HasLevels (adjust_clicked i d) s h = h
  react-HasLevels (stock_changed u) s h = update_inventory-IsOrdered u s.inventory h

  abbrev pub first_render : Text → Run (page parse_int)
  first_render search = record { state = (start search).0; waiting = (start search).1 }

  Reach-HasLevels :
      (search : Text) {run : Run (page parse_int)}
      → Reach (page parse_int) (first_render search) run
      → HasLevels run.state
  unfolding start load load_products
  Reach-HasLevels search r =
      Reach-state (page parse_int) HasLevels (λ e s o h. react-HasLevels e s h) replied-HasLevels tt
        r

  -- In every run, where the page offers to change a stock, the product of an expanded row is there, the
  -- item is the number of one of its variants, whatever that variant's own inventory item is, and has
  -- a level; what is sent is for this item and the location that is chosen: by the buttons that count up
  -- or down their step, also a negative one, and by the button that sets the stock the number in the
  -- field, if it is not negative, and nothing otherwise.
  pub stock_sent :
      (search : Text) {run : Run (page parse_int)}
      → Reach (page parse_int) (first_render search) run
      → (i : ℕ) → stock_shown i run.state ≡ true
      → (p : Product) × (v : ProductVariant) × (l : Level) × (run.state.expanded_product ≡ some p)
        × (find (λ w. w.id == i) p.variants ≡ some v)
        × (lookup i run.state.inventory ≡ some l)
        × ((d : ℤ)
            → (react parse_int (adjust_clicked i d) run.state).1
              ≡ adjust i run.state.selected_location_id d ∷ [])
        × ((n : ℕ)
            → parse_int (run.state.stock_inputs i) ≡ some (pos n)
            → (react parse_int (set_clicked i) run.state).1
              ≡ set i run.state.selected_location_id n ∷ [])
        × ((n : ℕ)
            → parse_int (run.state.stock_inputs i) ≡ some (negsuc n)
            → (react parse_int (set_clicked i) run.state).1 ≡ [])
        × (parse_int (run.state.stock_inputs i) ≡ none
            → (react parse_int (set_clicked i) run.state).1 ≡ [])
  unfolding react set_stock
  stock_sent search {run} r i o =
      let s = run.state in
      let h = Reach-HasLevels search r in
      let (p, v, e, f, g) = stock_of_variant i s o in
      let (l, k) = lookup_of i s.inventory h g in
      (
        p,
        v,
        l,
        e,
        f,
        k,
        λ d. refl,
        λ n q. rw (set_stock, q) refl,
        λ n q. rw (set_stock, q) refl,
        λ q. rw (set_stock, q) refl,
      )

-- Whenever the list has come again for another search, the location is the first one, whichever was
-- chosen before, and if it was another one the levels of the first are asked for.
pub search_resets_location :
    (parse_int : Text → Option ℤ) (s : State) (l : Location) (ls : List Location)
    → let searched = (react parse_int settled s).0 in
      let end = replied list_locations (done (l ∷ ls)) searched in
      (any is_locations (react parse_int settled s).1 ≡ true)
      × (end.0.selected_location_id ≡ l.id)
      × ((l.id == s.selected_location_id) ≡ false → end.1 ≡ levels l.id nothing ∷ [])
unfolding react load load_products replied choose_location
search_resets_location parse_int s l ls = (refl, ground arith, ground arith)
