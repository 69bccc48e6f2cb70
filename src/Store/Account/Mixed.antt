-- ===== src/Store/Account/Mixed.antt =====
-- AccountPage.tsx: a lookup that ends, and two that overlap.
use openmarket.Prelude.{◌≡◌, refl, ap, sym, true, false, some, List, [], ◌∷◌, is_filled, trim, Text}
use openmarket.Shared.Types.{Customer, OrderListItem}
use openmarket.Shared.Machine.{Run, Reach, commit, here, more, act, reply, done, failed}
use openmarket.Store.Account.{
  State, initial, Request, find_customer, orders_of, lookup, not_found, replied, entered, clicked,
  is_offered, react, page,
}

-- A page on which a phone number has been typed and nothing else has happened.
abbrev pub ready : Text → State
ready t = record initial { phone = t }

abbrev pub first : Text → Run page
first t = record { state = ready t; waiting = [] }

-- While lookups are under way.
abbrev searching : Text → List Request → Run page
searching t waiting = record { state = record (ready t) { loading = true }; waiting = waiting }

looked_up :
    (t : Text)
    → is_filled t ≡ true
    → lookup (ready t) ≡ (record (ready t) { loading = true }, find_customer (trim t) ∷ [])
unfolding lookup
looked_up t f = rw (lookup, f) refl

looked_up_again :
    (t : Text)
    → is_filled t ≡ true
    → lookup (record (ready t) { loading = true })
      ≡ (record (ready t) { loading = true }, find_customer (trim t) ∷ [])
unfolding lookup
looked_up_again t f = rw (lookup, f) refl

clicked_run :
    (t : Text)
    → is_filled t ≡ true
    → Reach page (first t) (searching t (find_customer (trim t) ∷ []))
unfolding react is_offered
clicked_run t f = more here (act clicked refl (ap (commit page []) (sym (looked_up t f))))

abbrev pub found : Text → Customer → List OrderListItem → Text → Run page
found t c os error = record {
  state = record { phone = t; customer = some c; orders = os; loading = false; error = error };
  waiting = [];
}

-- The button, for any phone number that is not blank: if the customer is found, the orders are asked for
-- by the customer's own number, and when they come the page shows the customer with them; if there is no
-- customer it shows none, and if the orders fail it shows the customer without orders, both with the
-- error. In each case it is no longer loading and nothing waits.
pub lookup_ends :
    (t : Text) (c : Customer) (os : List OrderListItem)
    → is_filled t ≡ true
    → Reach page (first t) (found t c os [])
      × Reach page
          (first t)
          (record { state = record (ready t) { error = not_found }; waiting = [] })
      × Reach page (first t) (found t c [] not_found)
unfolding replied
lookup_ends t c os f =
    let asked = clicked_run t f in
    let came = more asked (reply [] [] (find_customer (trim t)) (done c) refl refl) in
    (
      more came (reply [] [] (orders_of c.id) (done os) refl refl),
      more asked (reply [] [] (find_customer (trim t)) (failed []) refl refl),
      more came (reply [] [] (orders_of c.id) (failed []) refl refl),
    )

-- The key Enter is not disabled while a lookup is under way. If it is pressed twice and the lookups
-- find two customers, the page can come to show the second customer, no longer loading, while the orders
-- of the first are still to come; when they come it shows them as those of the second.
pub orders_of_another :
    (t : Text) (c d : Customer) (os own : List OrderListItem)
    → is_filled t ≡ true
    → Reach page (first t) (record (found t d own []) { waiting = orders_of c.id ∷ [] })
      × (replied (orders_of c.id) (done os) (found t d own []).state
          ≡ ((found t d os []).state, []))
unfolding react replied is_offered
orders_of_another t c d os own f =
    let q = find_customer (trim t) in
    let twice : Reach page (first t) (searching t (q ∷ q ∷ [])) =
      more (more here (act entered refl (ap (commit page []) (sym (looked_up t f)))))
        (act entered refl (ap (commit page (q ∷ [])) (sym (looked_up_again t f)))) in
    let both =
      more (more twice (reply [] (q ∷ []) q (done c) refl refl))
        (reply [] (orders_of c.id ∷ []) q (done d) refl refl) in
    (more both (reply (orders_of c.id ∷ []) [] (orders_of d.id) (done own) refl refl), refl)
