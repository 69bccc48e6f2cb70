-- ===== src/Pos/Sale/Parking.antt =====
-- SalePage.tsx: parking a sale and recalling it. The parked body keeps of a variant only its id,
-- title and price, and this is all that the sale computes with.
use openmarket.Prelude.{◌≡◌, refl, Option, List, [], ◌∷◌, map, foldl, Number, ap, nought}
use openmarket.Shared.Types.{Customer, LineItem}
use openmarket.Pos.Sale.Items.{SaleItem, line_total, total}
use openmarket.Pos.Sale.Bodies.{
  order_line, order_body, park_item, park_body, recall_item, recall_items, receipt_items, rest,
}

-- A line after parking and recalling.
abbrev pub reloaded : SaleItem → SaleItem
reloaded i = recall_item (park_item i)

pub recall-park : (items : List SaleItem) → recall_items (map park_item items) ≡ map reloaded items
unfolding recall_items
recall-park [] = refl
recall-park (i ∷ items) = ap (◌∷◌ (reloaded i)) (recall-park items)

order_lines-reloaded :
    (items : List SaleItem) → map order_line (map reloaded items) ≡ map order_line items
order_lines-reloaded [] = refl
order_lines-reloaded (i ∷ items) = ap (◌∷◌ (order_line i)) (order_lines-reloaded items)

receipt_items-reloaded :
    (items : List SaleItem) (lines : List LineItem)
    → receipt_items (map reloaded items) lines ≡ receipt_items items lines
unfolding receipt_items
receipt_items-reloaded [] lines = refl
receipt_items-reloaded (i ∷ items) lines = rw (receipt_items-reloaded items (rest lines))

module _ {N : Type 0} ⦃n : Number N⦄ where
  foldl-reloaded :
      (items : List SaleItem) (s : N)
      → foldl (λ sum i. n.add sum (line_total i)) s (map reloaded items)
        ≡ foldl (λ sum i. n.add sum (line_total i)) s items
  unfolding line_total
  foldl-reloaded [] s = refl
  foldl-reloaded (i ∷ items) s = foldl-reloaded items (n.add s (line_total i))

  -- A sale that is parked and recalled has the same total, is ordered by the same lines for every
  -- customer, and prints the same receipt lines for every answer of the server.
  pub recall-park_lem :
      (items : List SaleItem) (customer : Option Customer) (lines : List LineItem)
      → let back = recall_items (park_body items customer).items in
        (◌≡◌ {A = N} (total back) (total items))
        × (order_body back customer ≡ order_body items customer)
        × (receipt_items back lines ≡ receipt_items items lines)
  unfolding park_body order_body total
  recall-park_lem items customer lines = rw (recall-park items) (
    foldl-reloaded items nought,
    rw (order_lines-reloaded items),
    receipt_items-reloaded items lines,
  )
