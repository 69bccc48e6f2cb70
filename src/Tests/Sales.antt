-- ===== src/Tests/Sales.antt =====
-- Pos/Sale at concrete lines and pages.
use openmarket.Prelude.{◌≡◌, refl, true, none, some, [], ◌∷◌, ◌++◌, codes, pos}
use openmarket.Pos.Sale.Items.{line_total, total, add_unit, add_weighed, update_qty}
use openmarket.Pos.Sale.Bodies.{order_body, park_body, recall_items, receipt_items}
use openmarket.Pos.Sale.Parking.{recall-park_lem}
use openmarket.Pos.Sale.State.{
  Page, initial, cash, split, create_order, charge, SplitResult, done, send,
}
use openmarket.Pos.Sale.Handlers.{snapshot}
use openmarket.Pos.Sale.Events.{
  react, is_offered, pay_clicked, payment_submitted, quantity_set, key,
}
use openmarket.Pos.Sale.Keyboard.{f8, modal_open}
use openmarket.Pos.Sale.Shortcuts.{f8_outdated, cash_order}
use openmarket.Pos.Sale.Lines.{weighed}
use openmarket.Pos.Sale.Weighed.{weighed_kept}
use openmarket.Pos.Sale.Run.{System, perform}
use openmarket.Pos.Sale.Replies.{replied}
use openmarket.Pos.Sale.Paying.{pay_round, IsSettled}
use openmarket.Pos.Sale.Payments.{render_of}
use openmarket.Tests.Samples.{bread, milk, sale, unit, cheese, order}
use openmarket.Tests.Whole.{Whole, whole}

abbrev page : Page Whole
page = record (initial Whole) { sale_items = sale; last_tx_id = some (codes "tx") }

-- Two pieces at 3, and 5 kilograms at 2.
total_run : total {N = Whole} sale ≡ some 16
unfolding total line_total
total_run = refl

add_run : add_unit (codes "Food") bread sale ≡ unit bread 3 ∷ cheese ∷ []
unfolding add_unit
add_run = refl

-- A piece of the variant that was weighed is a line of its own.
add_beside_run : add_unit (codes "Food") milk sale ≡ unit bread 2 ∷ cheese ∷ unit milk 1 ∷ []
unfolding add_unit
add_beside_run = refl

recall-park_lem_example :
    let back = recall_items (park_body sale none).items in
    (◌≡◌ {A = Whole} (total back) (total sale))
    × (order_body back none ≡ order_body sale none)
    × (receipt_items back order.line_items ≡ receipt_items sale order.line_items)
recall-park_lem_example = recall-park_lem sale none order.line_items

-- The page when the payment is reported: it has been emptied meanwhile.
abbrev later : Page Whole
later = initial Whole

abbrev reported : SplitResult
reported = record {
  transaction_id = codes "t";
  cash_amount = codes "10.00";
  card_amount = codes "6.00";
}

pay_round_example :
    let due = whole.to_fixed 2 (total sale) in
    let request = create_order (order_body sale none) split due in
    let clicked = react (pay_clicked split) (snapshot page) page in
    let opened = (replied request (done order) clicked.0).0 in
    let charged = charge split (render_of opened) in
    (clicked.1 ≡ send request ∷ [])
    × (is_offered payment_submitted opened ≡ true)
    × (react payment_submitted (snapshot page) opened ≡ (opened, send charged ∷ []))
    × IsSettled page (replied charged (done reported) later).0 order (codes "t") due
pay_round_example = pay_round split page later (snapshot page) order reported

abbrev system : System Whole
system = record { page = page; waiting = []; shortcuts = snapshot page }

-- The quantity of the bread is set to 4.
f8_outdated_example :
    let next = perform (quantity_set bread.id (pos 4)) system in
    (next.page.sale_items ≡ update_qty bread.id (pos 4) sale)
    × ((react (pay_clicked cash) next.shortcuts next.page).1
        ≡ cash_order Whole (update_qty bread.id (pos 4) sale) none ∷ [])
    × ((react (key f8) next.shortcuts next.page).1 ≡ cash_order Whole sale none ∷ [])
unfolding modal_open
f8_outdated_example = f8_outdated system bread.id 3 refl refl refl

weighed_kept_example :
    (weighed (add_unit (codes "Food") milk sale) ≡ weighed sale)
    × (weighed (update_qty milk.id (pos 0) sale) ≡ weighed sale)
    × (weighed (add_weighed (codes "Food") milk (codes "0.250") sale)
        ≡ weighed sale
          ++ (record {
            variant = milk;
            product_title = codes "Food";
            quantity = 1;
            quantity_kg = some (codes "0.250");
          }
              ∷ []))
weighed_kept_example = weighed_kept (codes "Food") milk milk.id (pos 0) b'0' (codes ".250") sale
