-- ===== src/Admin/Orders/Bulk.antt =====
-- OrdersPage.tsx: fulfilling all the orders that are shown.
use openmarket.Prelude.{
  ℕ, ◌+◌, ◌≤◌, ◌≡◌, refl, ap, Bool, true, false, List, [], ◌∷◌, ◌++◌, map, length, filter,
  length-map, arith, Text, All, ◌∙◌, ◌↔◌,
}
use openmarket.Shared.Types.{OrderListItem}
use openmarket.Shared.Machine.{Run, Reach, Reply, done, failed}
use openmarket.Shared.Machine.Flight.{flag, count, IsGuardedIn, Reach-IsBalancedIn}
use openmarket.Admin.Orders.Page.{
  State, Request, Next, nothing, close, tell, list, get, create, create_all, Answer, query_of,
  load_orders, expand_order, ids, fulfill_all_visible, is_rejected, told, follow, replied, Event,
  bulk_confirmed, is_offered, react, start, page,
}

abbrev pub is_bulk : Request → Bool
is_bulk (create_all is q) = true
is_bulk (list q n) = false
is_bulk (get i) = false
is_bulk (create i q) = false

-- The dialog is open only while no orders are being fulfilled.
abbrev IsSettled : State → Type 0
IsSettled s = flag s.confirm_bulk + flag s.bulk_busy ≤ 1

react-IsSettled :
    (e : Event) (s : State) → is_offered e s ≡ true → IsSettled s → IsSettled (react e s).0
unfolding react is_offered load_orders expand_order fulfill_all_visible
react-IsSettled e s o h = ground arith

react-flag :
    (e : Event) (s : State)
    → is_offered e s ≡ true
    → IsSettled s
    → flag (react e s).0.bulk_busy ≡ flag s.bulk_busy + count is_bulk (react e s).1
unfolding react is_offered load_orders expand_order fulfill_all_visible
react-flag e s o h = ground arith

follow-flags :
    (n : Next) (s : State)
    → ((follow n s).bulk_busy ≡ s.bulk_busy) × ((follow n s).confirm_bulk ≡ s.confirm_bulk)
unfolding follow
follow-flags nothing s = (refl, refl)
follow-flags close s = (refl, refl)
follow-flags (tell total bad) s = (refl, refl)

replied-IsSettled :
    (r : Request) (a : Answer r) (s : State) → IsSettled s → IsSettled (replied r a s).0
unfolding replied load_orders follow
replied-IsSettled (list q n) (done os) s h =
    ground (arith, follow-flags n (record s { orders = os; loading = false }))
replied-IsSettled (list q n) (failed m) s h = h
replied-IsSettled (get i) (done o) s h = h
replied-IsSettled (get i) (failed m) s h = h
replied-IsSettled (create i q) (done u) s h = h
replied-IsSettled (create i q) (failed m) s h = h
replied-IsSettled (create_all is q) outcome s h = ground arith

replied-flag :
    (r : Request) (a : Answer r) (s : State)
    → flag (is_bulk r) ≤ flag s.bulk_busy
    → IsSettled s
    → flag (replied r a s).0.bulk_busy + flag (is_bulk r)
      ≡ flag s.bulk_busy + count is_bulk (replied r a s).1
unfolding replied load_orders follow
replied-flag (list q n) (done os) s l h =
    ground (arith, follow-flags n (record s { orders = os; loading = false }))
replied-flag (list q n) (failed m) s l h = ground arith
replied-flag (get i) (done o) s l h = ground arith
replied-flag (get i) (failed m) s l h = ground arith
replied-flag (create i q) (done u) s l h = ground arith
replied-flag (create i q) (failed m) s l h = ground arith
replied-flag (create_all is q) outcome s l h = ground arith

page-IsGuardedIn : IsGuardedIn page is_bulk (λ s. s.bulk_busy) IsSettled
page-IsGuardedIn = record {
  act_state = react-IsSettled;
  reply_state = replied-IsSettled;
  act_flag = react-flag;
  reply_flag = replied-flag;
}

abbrev pub first_render : Text → Run page
first_render search = record { state = (start search).0; waiting = (start search).1 }

-- In every run, from whatever search the address has, the orders are being fulfilled together at most
-- once at a time, the page is busy exactly meanwhile, and the dialog for it is closed then.
pub one_bulk :
    (search : Text) {run : Run page}
    → Reach page (first_render search) run
    → (count is_bulk run.waiting ≡ flag run.state.bulk_busy)
      × (flag run.state.confirm_bulk + count is_bulk run.waiting ≤ 1)
unfolding start load_orders query_of
one_bulk search {run} r =
    let held =
      Reach-IsBalancedIn page is_bulk (λ s. s.bulk_busy) page-IsGuardedIn
        (record { state = omega arith; balanced = refl }) r in
    (held.balanced, omega (arith, held.balanced, held.state))

-- How many of the requests for these orders were rejected.
abbrev pub rejected : (ℕ → Reply (Unit {0})) → List OrderListItem → ℕ
rejected outcome os = length (filter is_rejected (map outcome (ids os)))

rejected_none :
    (outcome : ℕ → Reply (Unit {0})) (os : List OrderListItem)
    → (rejected outcome os ≡ 0) ↔ All (λ o. is_rejected (outcome o.id) ≡ false) os
rejected_none outcome [] = ground arith
rejected_none outcome (o ∷ os) = ground (arith, rejected_none outcome os)

-- Confirming sends one request for each order on the screen and no other. When all of them have ended,
-- whatever the page is by then, it is no longer busy and asks for the list that was shown; and when
-- that comes it tells how many orders there were and how many requests failed, which is none exactly
-- if the request for every order succeeded.
pub bulk_told :
    (s t u : State) (outcome : ℕ → Reply (Unit {0})) (os : List OrderListItem)
    → let total = length s.orders in
      let bad = rejected outcome s.orders in
      ((react bulk_confirmed s).1 ≡ create_all (ids s.orders) (query_of s) ∷ [])
      × (let after = replied (create_all (ids s.orders) (query_of s)) outcome t in
          (after.1 ≡ list (query_of s) (tell total bad) ∷ []) × (after.0.bulk_busy ≡ false))
      × (let end = (replied (list (query_of s) (tell total bad)) (done os) u).0 in
          (end.orders ≡ os) × (end.toasts ≡ u.toasts ++ told total bad ∷ []))
      × ((bad ≡ 0) ↔ All (λ o. is_rejected (outcome o.id) ≡ false) s.orders)
unfolding react fulfill_all_visible replied load_orders follow
bulk_told s t u outcome os =
    let n : length (map outcome (ids s.orders)) ≡ length s.orders =
      length-map outcome (ids s.orders) ∙ length-map (λ o. o.id) s.orders in
    (
      refl,
      (ap (λ k. list (query_of s) (tell k (rejected outcome s.orders)) ∷ []) n, refl),
      (refl, refl),
      rejected_none outcome s.orders,
    )
