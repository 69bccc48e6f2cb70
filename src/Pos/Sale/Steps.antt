-- ===== src/Pos/Sale/Steps.antt =====
-- SalePage.tsx: what one event or one reply keeps of the page.
use openmarket.Prelude.{◌≡◌, Number, is_some, arith}
use openmarket.Pos.Sale.State.{Page, Request, lookup_variant}
use openmarket.Pos.Sale.Handlers.{
  Snapshot, add_to_sale, add_by_barcode, variant_replied, search_products, products_replied,
  details_replied, weighed_confirmed, void_sale, park_sale, park_replied, recall_sale,
  customer_replied, recall_replied, parked_replied, do_reprint, do_storno, storno_replied,
  authorization_replied,
}
use openmarket.Pos.Sale.Payments.{
  pay, order_replied, paid, cash_paid, card_paid, split_paid, payment_replied,
}
use openmarket.Pos.Sale.Events.{Event, key, react}
use openmarket.Pos.Sale.Keyboard.{Key, on_key, on_escape}
use openmarket.Pos.Sale.Replies.{replied, Answer, reprint_replied}

-- A payment modal has an order to pay for, and an order that waits has its modal.
abbrev pub IsPaired : {N : Type 0} → Page N → Type 0
IsPaired s = is_some s.pay_method ≡ is_some s.pending_order

module _ {N : Type 0} ⦃n : Number N⦄ where
  pub react-IsPaired :
      (e : Event N) (snap : Snapshot) (s : Page N) → IsPaired s → IsPaired (react e snap s).0
  unfolding react add_to_sale add_by_barcode search_products weighed_confirmed void_sale park_sale
      recall_sale do_reprint pay on_key on_escape
  react-IsPaired (key Key.escape) snap s h = ground arith
  react-IsPaired e snap s h = ground arith

  pub replied-IsPaired :
      (r : Request) (a : Answer r) (s : Page N) → IsPaired s → IsPaired (replied r a s).0
  unfolding replied variant_replied add_to_sale products_replied details_replied park_replied
      customer_replied recall_replied parked_replied storno_replied order_replied reprint_replied
      authorization_replied do_storno payment_replied cash_paid card_paid split_paid paid
  replied-IsPaired (lookup_variant code had_last) a s h = ground arith
  replied-IsPaired _ a s h = ground arith
