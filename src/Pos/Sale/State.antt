-- ===== src/Pos/Sale/State.antt =====
-- SalePage.tsx: the state of the page, the requests that it sends, and what waits for their replies.
-- A request carries the continuation of the handler that sent it, with the values which that handler
-- had read from the page when it started.
pub use openmarket.Shared.Machine.{Reply, done, failed}
use openmarket.Prelude.{ℕ, Bool, false, none, Option, List, [], Text, codes}
use openmarket.Shared.Types.{ProductVariant, Customer, Order, ParkedSale}
use openmarket.Pos.Sale.Items.{SaleItem}
use openmarket.Pos.Sale.Bodies.{ReceiptItem, OrderBody, ParkBody}

pub record ReceiptData (N : Type 0) : Type 0 where
  pub order_number : Text
  pub items : List ReceiptItem
  pub total : N

pub record WeighedPrompt : Type 0 where
  pub variant : ProductVariant
  pub product_title : Text

pub record SearchResult : Type 0 where
  pub title : Text
  pub variants : List ProductVariant

-- `"cash" | "card" | "split"`; `"none"` is `none`.
pub data PayMethod : Type 0 where
  cash card split : PayMethod

-- `"cash" | "card"`.
pub data SaleMethod : Type 0 where
  by_cash by_card : SaleMethod

pub record LastSale : Type 0 where
  pub order_number : Text
  pub total : Text
  pub change : Text
  pub method : SaleMethod

pub record Page (N : Type 0) : Type 0 where
  pub barcode_input : Text
  pub search_input : Text
  pub search_results : List SearchResult
  pub sale_items : List SaleItem
  pub error : Text
  pub receipt_data : Option (ReceiptData N)
  pub show_camera_scanner : Bool
  pub show_return : Bool
  pub confirm_void : Bool
  pub weighed_prompt : Option WeighedPrompt
  pub pay_method : Option PayMethod
  pub pending_order : Option Order
  pub pending_total : Text
  pub last_tx_id : Option Text
  pub last_sale : Option LastSale
  pub confirm_storno : Bool
  pub attached_customer : Option Customer
  pub show_customer_modal : Bool
  pub show_parked_picker : Bool
  pub parked_count : ℕ
  pub parking : Bool
  pub confirm_park : Bool
  pub storno_override_open : Bool
  -- How many objects were put into `receipt_data` and `weighed_prompt`: React tells an object from
  -- its successor by identity.
  pub object_count : ℕ

abbrev pub initial : (N : Type 0) → Page N
initial N = record {
  barcode_input = [];
  search_input = [];
  search_results = [];
  sale_items = [];
  error = [];
  receipt_data = none;
  show_camera_scanner = false;
  show_return = false;
  confirm_void = false;
  weighed_prompt = none;
  pay_method = none;
  pending_order = none;
  pending_total = codes "0.00";
  last_tx_id = none;
  last_sale = none;
  confirm_storno = false;
  attached_customer = none;
  show_customer_modal = false;
  show_parked_picker = false;
  parked_count = 0;
  parking = false;
  confirm_park = false;
  storno_override_open = false;
  object_count = 0;
}

-- What the render in which a payment modal is submitted has read: its `onPaid` reads this and not the
-- page that is shown when the payment is reported.
pub record Render : Type 0 where
  pub pending_order : Option Order
  pub pending_total : Text
  pub items : List SaleItem

-- What the split payment's modal reports.
pub record SplitResult : Type 0 where
  pub transaction_id : Text
  pub cash_amount : Text
  pub card_amount : Text

-- The calls of the server, each with what its reply needs.
pub data Request : Type 0 where
  -- `api.variants.lookup`; whether a last sale was shown when the code was scanned.
  lookup_variant : Text → Bool → Request
  list_products : Text → Request
  get_products : List ℕ → Request
  -- `api.orders.create`, with the way to pay and the total to settle.
  create_order : OrderBody → PayMethod → Text → Request
  list_parked : Request
  create_parked : ParkBody → Request
  -- `api.customers.get`, on the way to a recall of the parked sale.
  get_customer : ℕ → ParkedSale → Request
  cancel_parked : ℕ → Request
  reprint : Text → Request
  void_tx : Text → Request
  -- The calls of the payment modals, with the render whose `onPaid` they report to.
  charge : PayMethod → Render → Request
  -- The call of the override modal, with the `lastTxId` of the render whose `onAuthorized` it calls.
  authorize : Option Text → Request

pub data Effect : Type 0 where
  send : Request → Effect
  -- A message, and whether it reports an error.
  toast : Text → Bool → Effect
