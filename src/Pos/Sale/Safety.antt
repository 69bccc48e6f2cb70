-- ===== src/Pos/Sale/Safety.antt =====
-- SalePage.tsx: which events may void a transaction, and which may empty the sale.
use openmarket.Prelude.{
  ◌≡◌, ◌≢◌, Bool, true, false, Option, none, some, List, [], ◌∷◌, Number, is_empty, Text, arith,
}
use openmarket.Pos.Sale.Items.{add_unit, add_weighed}
use openmarket.Pos.Sale.State.{
  Page, Request, lookup_variant, list_products, get_products, create_order, list_parked,
  create_parked, get_customer, cancel_parked, reprint, void_tx, charge, authorize, done, Effect,
  send, toast,
}
use openmarket.Pos.Sale.Handlers.{
  Snapshot, add_to_sale, add_by_barcode, variant_replied, search_products, products_replied,
  details_replied, weighed_confirmed, void_sale, park_sale, park_replied, recall_sale,
  customer_replied, recall_replied, parked_replied, do_reprint, do_storno, storno_replied,
  authorization_replied,
}
use openmarket.Pos.Sale.Payments.{
  pay, order_replied, cash_paid, card_paid, split_paid, payment_replied,
}
use openmarket.Pos.Sale.Events.{
  Event, react, is_offered, void_confirmed, line_removed, quantity_set,
}
use openmarket.Pos.Sale.Keyboard.{on_key, on_escape}
use openmarket.Pos.Sale.Replies.{replied, Answer, reprint_replied}

-- The requests among some effects that void a transaction.
abbrev pub voids : List Effect → List Text
voids [] = []
voids (send (void_tx t) ∷ es) = t ∷ voids es
voids (send (lookup_variant c b) ∷ es) = voids es
voids (send (list_products q) ∷ es) = voids es
voids (send (get_products ids) ∷ es) = voids es
voids (send (create_order b m d) ∷ es) = voids es
voids (send list_parked ∷ es) = voids es
voids (send (create_parked b) ∷ es) = voids es
voids (send (get_customer c p) ∷ es) = voids es
voids (send (cancel_parked i) ∷ es) = voids es
voids (send (reprint t) ∷ es) = voids es
voids (send (charge m shown) ∷ es) = voids es
voids (send (authorize last) ∷ es) = voids es
voids (toast t b ∷ es) = voids es

-- A manager has authorized: the reply to the override modal's request.
abbrev pub is_authorization : (r : Request) → Answer r → Bool
is_authorization (authorize last) (done name) = true
is_authorization r a = false

-- The transaction that an authorization was asked for.
abbrev pub asked_for : Request → Option Text
asked_for (authorize last) = last
asked_for r = none

-- What may empty a sale that has lines: removing lines and a confirmed void, among the events.
abbrev pub MayEmpty : {N : Type 0} → Event N → Page N → Type 0
MayEmpty (line_removed i) s = Unit
MayEmpty (quantity_set id z) s = Unit
MayEmpty void_confirmed s = s.confirm_void ≡ true
MayEmpty e s = ⊥

-- Among the replies: that a sale is parked, and that a payment is made.
abbrev pub MayEmptyReply : (r : Request) → Answer r → Type 0
MayEmptyReply (create_parked body) (done u) = Unit
MayEmptyReply (charge m shown) (done u) = Unit
MayEmptyReply r a = ⊥

module _ {N : Type 0} ⦃n : Number N⦄ where
  -- No event makes the page void a transaction at once.
  pub react-voids : (e : Event N) (snap : Snapshot) (s : Page N) → voids (react e snap s).1 ≡ []
  unfolding react add_by_barcode search_products weighed_confirmed void_sale park_sale recall_sale
      do_reprint pay on_key
  react-voids e snap s = ground arith

  -- A reply does only if it is an authorization, once, and for the transaction that it was asked for.
  pub replied-voids :
      (r : Request) (a : Answer r) (s : Page N)
      → voids (replied r a s).1 ≢ []
      → (is_authorization r a ≡ true)
        × ((t : Text) × (asked_for r ≡ some t) × (voids (replied r a s).1 ≡ t ∷ []))
  unfolding replied variant_replied products_replied details_replied park_replied customer_replied
      recall_replied parked_replied storno_replied order_replied reprint_replied
      authorization_replied do_storno payment_replied cash_paid card_paid split_paid
  replied-voids (authorize last) (done name) s h = ground arith
  replied-voids r a s h = ground arith

  -- The override modal opens only when the confirmation that was shown before it is accepted.
  pub override_opens :
      (e : Event N) (snap : Snapshot) (s : Page N)
      → is_offered e s ≡ true
      → s.storno_override_open ≡ false
      → (react e snap s).0.storno_override_open ≡ true
      → s.confirm_storno ≡ true
  unfolding react add_to_sale add_by_barcode search_products weighed_confirmed void_sale park_sale
      recall_sale do_reprint pay on_key on_escape is_offered
  override_opens e snap s o h k = ground arith

  -- A sale that has lines is emptied by no event that the page offers, but by removing lines or
  -- setting quantities and by the confirmed void.
  pub react_kept :
      (e : Event N) (snap : Snapshot) (s : Page N)
      → is_offered e s ≡ true
      → is_empty s.sale_items ≡ false
      → is_empty (react e snap s).0.sale_items ≡ true
      → MayEmpty e s
  unfolding react add_to_sale add_by_barcode search_products weighed_confirmed void_sale park_sale
      recall_sale do_reprint pay on_key on_escape is_offered add_unit add_weighed
  react_kept (line_removed i) snap s o h k = tt
  react_kept (quantity_set id z) snap s o h k = tt
  react_kept void_confirmed snap s o h k = o
  react_kept e snap s o h k = ground arith

  -- A reply empties a sale that has lines only if the sale is parked or paid.
  pub replied_kept :
      (r : Request) (a : Answer r) (s : Page N)
      → is_empty s.sale_items ≡ false
      → is_empty (replied r a s).0.sale_items ≡ true
      → MayEmptyReply r a
  unfolding replied variant_replied add_to_sale add_unit products_replied details_replied
      park_replied customer_replied recall_replied parked_replied storno_replied order_replied
      reprint_replied authorization_replied do_storno payment_replied
  replied_kept (create_parked body) (done u) s h k = tt
  replied_kept (charge m shown) (done u) s h k = tt
  replied_kept r a s h k = ground arith
