-- ===== src/Pos/Sale/Paying.antt =====
-- SalePage.tsx: what is ordered, charged and printed when a sale is paid.
use openmarket.Prelude.{◌≡◌, refl, true, none, some, [], ◌∷◌, Number, Text}
use mathlib.Core.Option
use openmarket.Shared.Types.{Order}
use openmarket.Pos.Sale.Items.{total}
use openmarket.Pos.Sale.Bodies.{order_body, receipt_items}
use openmarket.Pos.Sale.State.{Page, PayMethod, cash, card, split, create_order, charge, done, send}
use openmarket.Pos.Sale.Handlers.{Snapshot}
use openmarket.Pos.Sale.Payments.{
  pay, order_replied, render_of, paid, cash_paid, card_paid, split_paid, payment_replied, Receipted,
}
use openmarket.Pos.Sale.Events.{react, is_offered, pay_clicked, payment_submitted}
use openmarket.Pos.Sale.Replies.{replied}

abbrev pub transaction : (m : PayMethod) → Receipted m → Text
transaction cash r = r.transaction.id
transaction card r = r.transaction.id
transaction split r = r.transaction_id

module _ {N : Type 0} ⦃n : Number N⦄ where
  -- What a completed payment leaves behind: an empty page with the order's receipt.
  pub record IsSettled (s t : Page N) (order : Order) (tx : Text) (due : Text) : Type 0 where
    pub emptied : t.sale_items ≡ []
    pub detached : t.attached_customer ≡ none
    pub closed : (t.pay_method ≡ none) × (t.pending_order ≡ none)
    pub noted : t.last_tx_id ≡ some tx
    pub noted_sale :
        Option.map {B = Text × Text} (λ l. (l.order_number, l.total)) t.last_sale
        ≡ some (order.order_number, due)
    pub printed :
        t.receipt_data
        ≡ some (record {
          order_number = order.order_number;
          items = receipt_items s.sale_items order.line_items;
          total = total s.sale_items;
        })

  -- A sale is paid in four steps: the button sends an order with exactly the lines and the customer
  -- of the page; if the server accepts it, the modal of that method opens with the total of the lines;
  -- when it is submitted, a charge is sent with the order; and when the payment is reported, the page,
  -- whatever it has become meanwhile, is settled: the cart, the customer and the modal are gone, the
  -- transaction and the order's number and amount are kept, and the receipt shows the lines that were
  -- sold. It holds for each of the three ways to pay.
  pub pay_round :
      (m : PayMethod) (s later : Page N) (snap : Snapshot) (order : Order) (r : Receipted m)
      → let due = n.to_fixed 2 (total s.sale_items) in
        let request = create_order (order_body s.sale_items s.attached_customer) m due in
        let clicked = react (pay_clicked m) snap s in
        let opened = (replied request (done order) clicked.0).0 in
        let charged = charge m (render_of opened) in
        (clicked.1 ≡ send request ∷ [])
        × (is_offered payment_submitted opened ≡ true)
        × (react payment_submitted snap opened ≡ (opened, send charged ∷ []))
        × IsSettled s (replied charged (done r) later).0 order (transaction m r) due
  unfolding react replied pay order_replied payment_replied cash_paid card_paid split_paid paid
      is_offered
  pay_round cash s later snap order r = (
    refl,
    refl,
    refl,
    record {
      emptied = refl;
      detached = refl;
      closed = (refl, refl);
      noted = refl;
      noted_sale = refl;
      printed = refl;
    },
  )
  pay_round m s later snap order r = (
    refl,
    refl,
    refl,
    record {
      emptied = refl;
      detached = refl;
      closed = (refl, refl);
      noted = refl;
      noted_sale = refl;
      printed = refl;
    },
  )
