-- ===== src/Admin/Customers/Orders.antt =====
-- CustomersPage.tsx: whose orders are shown.
use openmarket.Prelude.{ℕ, ◌≡◌, ◌≢◌, refl, ap, sym, true, false, some, List, [], ◌∷◌, arith}
use openmarket.Shared.Types.{OrderListItem}
use openmarket.Shared.Machine.{Run, Reach, commit, here, more, act, reply}
use openmarket.Admin.Customers.{
  State, orders_of, done, clicked, is_expanded, is_offered, expand, react, replied, page,
}

abbrev pub quiet : State → Run page
quiet s = record { state = s; waiting = [] }

expanded_now :
    (i : ℕ) (s : State)
    → is_expanded i s.expanded_id ≡ false
    → expand i s ≡ (record s { expanded_id = some i }, orders_of i ∷ [])
unfolding expand
expanded_now i s h = rw (expand, h) refl

-- If nothing waits and a customer in the list is clicked who is not expanded, the reply shows that
-- customer expanded with the orders that came.
pub orders_shown :
    (s : State) (i : ℕ) (os : List OrderListItem)
    → is_offered (clicked i) s ≡ true
    → is_expanded i s.expanded_id ≡ false
    → Reach page (quiet s) (quiet (record s { expanded_id = some i; expanded_orders = os }))
unfolding react replied
orders_shown s i os o h =
    more (more here (act (clicked i) o (ap (commit page []) (sym (expanded_now i s h)))))
      (reply [] [] (orders_of i) (done os) refl refl)

-- If two customers are clicked and the replies come in the other order, the orders of the first are
-- shown under the second, and nothing waits that would change it.
pub orders_of_other :
    (s : State) (i k : ℕ) (os ks : List OrderListItem)
    → is_offered (clicked i) s ≡ true
    → is_offered (clicked k) s ≡ true
    → is_expanded i s.expanded_id ≡ false
    → i ≢ k
    → Reach page (quiet s) (quiet (record s { expanded_id = some k; expanded_orders = os }))
unfolding react replied is_offered
orders_of_other s i k os ks o p h ne =
    let t = record s { expanded_id = some i } in
    let apart : is_expanded k t.expanded_id ≡ false = ground (arith, ne) in
    more
      (more
        (more (more here (act (clicked i) o (ap (commit page []) (sym (expanded_now i s h)))))
          (act (clicked k) p (ap (commit page (orders_of i ∷ [])) (sym (expanded_now k t apart)))))
        (reply (orders_of i ∷ []) [] (orders_of k) (done ks) refl refl))
      (reply [] [] (orders_of i) (done os) refl refl)
