-- ===== src/Store/Shop/Pending.antt =====
-- ShopPage.tsx: a burst of inventory updates asks for the list once, and what it then asks for.
use openmarket.Prelude.{
  ◌≡◌, inl, inr, refl, Bool, true, false, ◌||◌, any, Option, none, some, List, [], ◌∷◌, ◌++◌, Text,
  arith, Option-cases,
}
use openmarket.Shared.Types.{ProductVariant, ProductListWithPrice}
use openmarket.Store.Shop.Page.{
  Query, State, Request, list, refetch, get, Answer, done, failed, Event, chosen, inventory_updated,
  fired, left, query_of, load, handle_inventory_update, start_quick_add, finish_quick_add, toast,
  replied, is_enabled, is_offered, react, same_type,
}

abbrev ends : Event → Bool
ends fired = true
ends left = true
ends e = false

-- Steps of the page, of which none is the timer or leaving the page. `sent` is what they ask for.
pub data Quiet (from : State) : State → List Request → Type 0 where
  still : Quiet from from []
  act :
      {s : State} {sent : List Request}
      → Quiet from s sent
      → (e : Event) → ends e ≡ false
      → is_offered e s ≡ true
      → Quiet from (react e s).0 (sent ++ (react e s).1)
  reply :
      {s : State} {sent : List Request}
      → Quiet from s sent
      → (r : Request) (a : Answer r) → Quiet from (replied r a s) sent

abbrev is_set : State → Bool
is_set s = elim s.timer [ none ↦ false | some q ↦ true ]

abbrev pub is_refetch : Request → Bool
is_refetch (refetch q) = true
is_refetch r = false

-- The timer is set, and the page is shown.
record IsPending (s : State) : Type 0 where
  set : is_set s ≡ true
  shown : s.gone ≡ false

react-IsPending : (e : Event) (s : State) → ends e ≡ false → IsPending s → IsPending (react e s).0
unfolding react load handle_inventory_update start_quick_add toast
react-IsPending e s n h = ground arith

replied-IsPending :
    (r : Request) (a : Answer r) (s : State) → IsPending s → IsPending (replied r a s)
unfolding replied finish_quick_add toast
replied-IsPending (list q) (done ps) s h = ground arith
replied-IsPending (list q) (failed m) s h = ground arith
replied-IsPending (refetch q) (done ps) s h = ground arith
replied-IsPending (refetch q) (failed m) s h = ground arith
replied-IsPending (get i) (done p) s h = finish-IsPending p.variants
  where
    finish-IsPending :
        (vs : List ProductVariant)
        → IsPending (record (finish_quick_add p vs s) { quick_add_busy_id = none })
    finish-IsPending [] = ground arith
    finish-IsPending (v ∷ vs) = ground arith
replied-IsPending (get i) (failed m) s h = ground arith

Quiet-IsPending :
    {from s : State} {sent : List Request} → IsPending from → Quiet from s sent → IsPending s
Quiet-IsPending h still = h
Quiet-IsPending h (act {s} w e n o) = react-IsPending e s n (Quiet-IsPending h w)
Quiet-IsPending h (reply {s} w r a) = replied-IsPending r a s (Quiet-IsPending h w)

react-sent : (e : Event) (s : State) → ends e ≡ false → any is_refetch (react e s).1 ≡ false
unfolding react load start_quick_add
react-sent e s n = ground arith

any-append {ℓ} :
    {A : Type ℓ} (p : A → Bool) (xs ys : List A) → any p (xs ++ ys) ≡ (any p xs || any p ys)
any-append p [] ys = refl
any-append p (x ∷ xs) ys = ground (arith, any-append p xs ys)

Quiet-sent :
    {from s : State} {sent : List Request} → Quiet from s sent → any is_refetch sent ≡ false
Quiet-sent still = refl
Quiet-sent (act {s} {sent} w e n o) =
    rw (any-append is_refetch sent (react e s).1, Quiet-sent w) (react-sent e s n)
Quiet-sent (reply w r a) = Quiet-sent w

-- Once an inventory update has come, whatever the user does, whatever other updates come and whatever
-- requests are answered, as long as the timer has not fired and the page is not left, the timer stays
-- set and no update asks for the list; when it then fires, that is one request for the list, and the
-- timer is no longer set.
pub updates_refetched :
    (from s : State) (sent : List Request)
    → from.gone ≡ false
    → Quiet (react inventory_updated from).0 s sent
    → (any is_refetch sent ≡ false)
      × (is_offered fired s ≡ true)
      × (q : Query) × ((react fired s).1 ≡ refetch q ∷ [])
      × ((react fired s).0 ≡ record s { timer = none })
unfolding react handle_inventory_update is_offered is_enabled
updates_refetched from s sent g w =
    let p = Quiet-IsPending (record { set = refl; shown = g }) w in
    elim (Option-cases s.timer) [
      | inl n ↦ absurd (ground (arith, p.set, n))
      | inr (q, n) ↦ (
        Quiet-sent w,
        rw (is_offered, p.shown, n) refl,
        q,
        rw (react, n) refl,
        rw (react, n) refl,
      )
    ]

-- The timer asks for the list as it was chosen when the update came: whatever type is chosen then and
-- whatever its reply is, after the timer and the reply to what it asks for the page shows the products
-- of the type before, under the new one.
pub outdated_refetch :
    (s : State) (t : Option Text) (new old : List ProductListWithPrice)
    → same_type t s.selected_type ≡ false
    → let u = (react inventory_updated s).0 in
      let v = (react (chosen t) u).0 in
      let w = replied (list (query_of v)) (done new) v in
      let x = (react fired w).0 in
      let end = replied (refetch (query_of s)) (done old) x in
      ((react (chosen t) u).1 ≡ list (query_of v) ∷ [])
      × ((react fired w).1 ≡ refetch (query_of s) ∷ [])
      × (end.selected_type ≡ t)
      × (end.loading ≡ false)
      × (end.products ≡ old)
unfolding react handle_inventory_update load replied query_of
outdated_refetch s t new old d = (rw d refl, rw d refl, rw d refl, rw d refl, refl)
