-- ===== src/Pos/Sale/Bodies.antt =====
-- SalePage.tsx: the bodies that are sent for an order and for a parked sale, what a parked sale
-- brings back, and the lines of a receipt. Receipt.tsx: the totals of a receipt.
use openmarket.Prelude.{
  ℕ, ◌&&◌, Option, none, some, List, [], ◌∷◌, ◌++◌, map, foldl, Number, nought, lt, if◌then◌else◌,
  is_truthy, Text, codes, trim,
}
use openmarket.Pos.Sale.Items.{SaleItem}
use openmarket.Shared.Types.{Customer, LineItem, ParkedSaleItem}
use mathlib.Core.Option

-- The lines of an order's body.
pub record OrderLine : Type 0 where
  pub variant_id : ℕ
  pub quantity : ℕ
  pub quantity_kg : Option Text

abbrev pub when_truthy : Option Text → Option Text
when_truthy o = if is_truthy o then o else none

abbrev pub order_line : SaleItem → OrderLine
order_line i = record {
  variant_id = i.variant.id;
  quantity = i.quantity;
  quantity_kg = when_truthy i.quantity_kg;
}

pub record OrderBody : Type 0 where
  pub source : Text
  pub line_items : List OrderLine
  pub customer_id : Option ℕ
  pub customer_name : Option Text
  pub customer_phone : Option Text

abbrev pub full_name : Customer → Text
full_name c = trim (c.first_name ++ (codes " " ++ c.last_name))

-- The body of `createOrderForPayment`.
unfoldable pub order_body : List SaleItem → Option Customer → OrderBody
order_body items customer = record {
  source = codes "pos";
  line_items = map order_line items;
  customer_id = Option.map (λ c. c.id) customer;
  customer_name = Option.map full_name customer;
  customer_phone = Option.map (λ c. c.phone) customer;
}

-- The items of `parkSale`.
abbrev pub park_item : SaleItem → ParkedSaleItem
park_item i = record {
  variant_id = i.variant.id;
  product_title = i.product_title;
  variant_title = i.variant.title;
  price = i.variant.price;
  quantity = i.quantity;
  quantity_kg = i.quantity_kg;
}

pub record ParkBody : Type 0 where
  pub items : List ParkedSaleItem
  pub customer_id : Option ℕ
  pub note : Text

unfoldable pub park_body : List SaleItem → Option Customer → ParkBody
park_body items customer = record {
  items = map park_item items;
  customer_id = Option.map (λ c. c.id) customer;
  note = [];
}

-- The items of `recallSale`: of the variant only what was parked comes back.
abbrev pub recall_item : ParkedSaleItem → SaleItem
recall_item p = record {
  variant = record {
    id = p.variant_id;
    product_id = 0;
    title = p.variant_title;
    sku = [];
    barcode = [];
    price = p.price;
    compare_at_price = none;
    position = 0;
    pricing_type = none;
    weight_unit = none;
    min_weight_kg = none;
    max_weight_kg = none;
    tare_kg = none;
    barcode_format = none;
    inventory_item_id = none;
    available = none;
    low_stock_threshold = none;
  };
  product_title = p.product_title;
  quantity = p.quantity;
  quantity_kg = p.quantity_kg;
}

unfoldable pub recall_items : List ParkedSaleItem → List SaleItem
recall_items = map recall_item

-- Receipt.tsx.
pub record ReceiptItem : Type 0 where
  pub product_title : Text
  pub variant_title : Text
  pub quantity : ℕ
  pub price : Text
  pub quantity_kg : Option Text
  pub line_total : Option Text

-- One line of `buildReceiptItems`: the server's total of the line at the same place is shown, where
-- there is one.
abbrev pub receipt_item : SaleItem → Option LineItem → ReceiptItem
receipt_item i server = record {
  product_title = i.product_title;
  variant_title = elim i.quantity_kg [
    | none ↦ i.variant.title
    | some kg ↦
        if is_truthy i.quantity_kg
        then i.variant.title ++ (codes " (" ++ (kg ++ codes " kg)"))
        else i.variant.title
  ];
  quantity = i.quantity;
  price = i.variant.price;
  quantity_kg = i.quantity_kg;
  line_total = Option.bind server (λ l. l.line_total);
}

abbrev pub head : List LineItem → Option LineItem
head [] = none
head (l ∷ ls) = some l

abbrev pub rest : List LineItem → List LineItem
rest [] = []
rest (l ∷ ls) = ls

unfoldable pub receipt_items : List SaleItem → List LineItem → List ReceiptItem
receipt_items [] lines = []
receipt_items (i ∷ items) lines = receipt_item i (head lines) ∷ receipt_items items (rest lines)

module _ (N : Type 0) ⦃n : Number N⦄ where
  -- Receipt.tsx, `lineTotal`: the text that is printed beside the line.
  unfoldable pub receipt_line_total : ReceiptItem → Text
  receipt_line_total i = elim i.line_total [
    | some t ↦ t
    | none ↦ elim i.quantity_kg [
      | some kg ↦ n.to_fixed 2 (n.mul (n.parse_float kg) (n.parse_float i.price))
      | none ↦ n.to_fixed 2 (n.mul (n.of_ℕ i.quantity) (n.parse_float i.price))
    ]
  ]

  -- `displayTotal`: the given total, if it is finite and positive, or else the sum of the lines.
  unfoldable pub display_total : List ReceiptItem → N → N
  unfolding receipt_line_total
  display_total items given =
      if n.is_finite given && lt nought given
      then given
      else foldl (λ sum i. n.add sum (n.parse_float (receipt_line_total i))) nought items
