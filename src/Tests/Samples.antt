-- ===== src/Tests/Samples.antt =====
-- Records that the tests share.
use openmarket.Prelude.{ℕ, none, some, List, [], ◌∷◌, Text, codes, false}
use openmarket.Shared.Types.{
  ProductVariant, Product, Order, LineItem, CartItem, CashPaymentResult, CardPaymentResult,
  PosTransactionRef, ReceiptStatus, ProductListWithPrice,
}
use openmarket.Pos.Sale.Items.{SaleItem}

abbrev pub variant : ℕ → Text → ProductVariant
variant i price = record {
  id = i;
  product_id = 1;
  title = codes "Variant";
  sku = codes "S";
  barcode = codes "400";
  price = price;
  compare_at_price = none;
  position = 0;
  pricing_type = some (codes "fixed");
  weight_unit = none;
  min_weight_kg = none;
  max_weight_kg = none;
  tare_kg = none;
  barcode_format = none;
  inventory_item_id = none;
  available = none;
  low_stock_threshold = none;
}

abbrev pub bread : ProductVariant
bread = variant 7 (codes "3")

abbrev pub milk : ProductVariant
milk = variant 9 (codes "2")

abbrev pub product : Product
product = record {
  id = 1;
  title = codes "Food";
  handle = codes "food";
  description = [];
  product_type = [];
  status = codes "active";
  tags = [];
  variants = bread ∷ milk ∷ [];
  images = [];
}

abbrev pub cart : List CartItem
cart =
    record { variant = bread; product = product; quantity = 2 }
    ∷ record { variant = milk; product = product; quantity = 1 }
    ∷ []

abbrev pub unit : ProductVariant → ℕ → SaleItem
unit v q = record { variant = v; product_title = codes "Food"; quantity = q; quantity_kg = none }

abbrev pub cheese : SaleItem
cheese = record {
  variant = milk;
  product_title = codes "Cheese";
  quantity = 1;
  quantity_kg = some (codes "5");
}

abbrev pub sale : List SaleItem
sale = unit bread 2 ∷ cheese ∷ []

abbrev pub line : ℕ → ℕ → LineItem
line i q = record {
  id = i;
  variant_id = 7;
  title = codes "Bread";
  quantity = q;
  quantity_kg = none;
  price = codes "3";
  line_total = none;
}

abbrev pub order : Order
order = record {
  id = 40;
  order_number = codes "ORD-40";
  customer_id = none;
  source = codes "pos";
  fulfillment_status = codes "unfulfilled";
  total_price = codes "16";
  shipping_address = none;
  created_at = [];
  line_items = line 1 2 ∷ line 2 1 ∷ [];
}

abbrev pub reference : PosTransactionRef
reference = record {
  id = codes "tx";
  client_id = codes "c";
  receipt_number = 1;
  tse_signature = none;
  tse_pending = false;
  total_gross = codes "16";
}

abbrev pub cash_result : CashPaymentResult
cash_result = record {
  transaction = reference;
  change = codes "4";
  receipt_status = ReceiptStatus.printed;
}

abbrev pub card_result : CardPaymentResult
card_result = record { transaction = reference; receipt_status = ReceiptStatus.printed }

abbrev pub row : ProductListWithPrice
row = record {
  id = 1;
  title = codes "Food";
  handle = codes "food";
  product_type = codes "dairy";
  status = codes "active";
  tags = [];
  min_price = none;
  image_url = none;
  total_stock = some 4;
}
