-- ===== src/Store/Status/Found.antt =====
-- OrderStatusPage.tsx: a lookup that ends, and two that overlap.
use openmarket.Prelude.{◌≡◌, refl, ap, sym, true, false, none, some, [], ◌∷◌, is_filled, trim, Text}
use openmarket.Shared.Types.{Order}
use openmarket.Shared.Machine.{Run, Reach, commit, here, more, act, reply}
use openmarket.Store.Status.{
  State, look_up, lookup, not_found, done, failed, typed, entered, clicked, is_offered, replied,
  react, page,
}

abbrev pub quiet : State → Run page
quiet s = record { state = s; waiting = [] }

looked_up :
    (s : State)
    → is_filled s.order_number ≡ true
    → lookup s
      ≡ (record s { loading = true; error = []; order = none }, look_up (trim s.order_number) ∷ [])
unfolding lookup
looked_up s f = rw (lookup, f) refl

-- A number that is not blank, on a page that is not loading and waits for nothing: the button asks for it
-- without the blanks around it, and the page comes to show the order that is found, without an error,
-- or no order with the error, and is not loading and waits for nothing then.
pub lookup_answered :
    (s : State) (o : Order) (m : Text)
    → s.loading ≡ false
    → is_filled s.order_number ≡ true
    → Reach page (quiet s) (record {
      state = record s { loading = true; error = []; order = none };
      waiting = look_up (trim s.order_number) ∷ [];
    })
      × Reach page (quiet s) (quiet (record s { order = some o; error = []; loading = false }))
      × Reach page (quiet s) (quiet (record s { order = none; error = not_found; loading = false }))
unfolding react replied is_offered
lookup_answered s o m idle f =
    let q = look_up (trim s.order_number) in
    let asked : Reach page (quiet s) (record {
      state = record s { loading = true; error = []; order = none };
      waiting = q ∷ [];
    }) =
      more here (act clicked (rw idle refl) (ap (commit page []) (sym (looked_up s f)))) in
    (
      asked,
      more asked (reply [] [] q (done o) refl refl),
      more asked (reply [] [] q (failed m) refl refl),
    )

-- The key Enter is not disabled while a lookup is under way: if another number is typed and looked up by
-- it and the replies come in the other order, the page shows the order of the first number under the
-- second.
pub order_of_another :
    (s : State) (t : Text) (o p : Order)
    → s.loading ≡ false
    → is_filled s.order_number ≡ true
    → is_filled t ≡ true
    → Reach page
        (quiet s)
        (quiet (record s { order_number = t; order = some o; error = []; loading = false }))
unfolding react replied is_offered
order_of_another s t o p idle f g =
    let q = look_up (trim s.order_number) in
    let u = record s { order_number = t; loading = true; error = []; order = none } in
    let asked = (lookup_answered s o [] idle f).0 in
    let again =
      more (more asked (act (typed t) refl refl))
        (act entered refl (ap (commit page (q ∷ [])) (sym (looked_up u g)))) in
    more (more again (reply (q ∷ []) [] (look_up (trim t)) (done p) refl refl))
      (reply [] [] q (done o) refl refl)
