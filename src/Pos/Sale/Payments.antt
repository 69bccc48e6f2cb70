-- ===== src/Pos/Sale/Payments.antt =====
-- SalePage.tsx: paying. The order that is created first, the modal that it opens, and what the modal's
-- report does to the page.
use openmarket.Prelude.{◌+◌, true, false, none, some, [], ◌∷◌, ◌++◌, List, Number, Text, codes}
use openmarket.Pos.Sale.Handlers.{Handler, Snapshot}
use openmarket.Shared.Types.{Order, CashPaymentResult, CardPaymentResult}
use openmarket.Pos.Sale.Items.{SaleItem, total}
use openmarket.Pos.Sale.Bodies.{order_body, receipt_items}
use openmarket.Pos.Sale.State.{
  Page, PayMethod, cash, card, split, SaleMethod, by_cash, by_card, LastSale, Render, SplitResult,
  create_order, Reply, done, failed, send, toast,
}

-- What the modal of each method reports; it shows its errors itself.
abbrev pub Receipted : PayMethod → Type 0
Receipted cash = CashPaymentResult
Receipted card = CardPaymentResult
Receipted split = SplitResult

abbrev pub last_sale_of : SaleMethod → Text → Order → Render → LastSale
last_sale_of m change order shown = record {
  order_number = order.order_number;
  total = shown.pending_total;
  change = change;
  method = m;
}

module _ {N : Type 0} ⦃n : Number N⦄ where
  -- `handlePayCash`, `handlePayCard` and `handlePaySplit` with `createOrderForPayment`: the body and
  -- the total are those of the handler's render.
  unfoldable pub pay : PayMethod → Snapshot → Handler N
  pay m snap s = (
    record s { error = [] },
    send (create_order (order_body snap.items snap.customer) m (n.to_fixed 2 (total snap.items)))
        ∷ [],
  )

  unfoldable pub order_replied : PayMethod → Text → Reply Order → Handler N
  order_replied m due (done order) s =
      (record s { pending_order = some order; pending_total = due; pay_method = some m }, [])
  order_replied m due (failed e) s =
      (record s { error = e }, toast (codes "Order creation failed") true ∷ [])

  abbrev pub render_of : Page N → Render
  render_of s = record {
    pending_order = s.pending_order;
    pending_total = s.pending_total;
    items = s.sale_items;
  }

  -- `handlePaymentSuccess`, after the last sale is noted, with the lines of the render that was
  -- submitted. `handleSplitPaid` does the same.
  unfoldable pub paid : LastSale → Text → Order → List SaleItem → Page N → Page N
  paid last tx order items s = record s {
    last_sale = some last;
    sale_items = [];
    attached_customer = none;
    pay_method = none;
    pending_order = none;
    last_tx_id = some tx;
    object_count = s.object_count + 1;
    receipt_data = some (record {
      order_number = order.order_number;
      items = receipt_items items order.line_items;
      total = total items;
    });
  }

  -- `handleCashPaid` of the render `shown`.
  unfoldable pub cash_paid : Render → CashPaymentResult → Handler N
  unfolding paid
  cash_paid shown r s = elim shown.pending_order [
    | none ↦ (s, [])
    | some order ↦ (
      paid (last_sale_of by_cash r.change order shown) r.transaction.id order shown.items s,
      toast (codes "Sale completed") false ∷ [],
    )
  ]

  -- `handleCardPaid`.
  unfoldable pub card_paid : Render → CardPaymentResult → Handler N
  unfolding paid
  card_paid shown r s = elim shown.pending_order [
    | none ↦ (s, [])
    | some order ↦ (
      paid (last_sale_of by_card (codes "0.00") order shown) r.transaction.id order shown.items s,
      toast (codes "Sale completed") false ∷ [],
    )
  ]

  -- `handleSplitPaid`.
  unfoldable pub split_paid : Render → SplitResult → Handler N
  unfolding paid
  split_paid shown r s = elim shown.pending_order [
    | none ↦ (s, [])
    | some order ↦ (
      paid (last_sale_of by_cash (codes "0.00") order shown) r.transaction_id order shown.items s,
      toast
            (codes "Sale completed (cash €"
              ++ (r.cash_amount ++ (codes " + card €" ++ (r.card_amount ++ codes ")"))))
            false
          ∷ [],
    )
  ]

  unfoldable pub payment_replied : (m : PayMethod) → Render → Reply (Receipted m) → Handler N
  unfolding cash_paid card_paid split_paid
  payment_replied cash shown (done r) s = cash_paid shown r s
  payment_replied card shown (done r) s = card_paid shown r s
  payment_replied split shown (done r) s = split_paid shown r s
  payment_replied m shown (failed e) s = (s, [])
