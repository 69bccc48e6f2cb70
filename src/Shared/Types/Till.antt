-- ===== src/Shared/Types/Till.antt =====
-- The same file, types.ts: the records of the till, which are payments, closings, parked sales, the
-- health of the devices and the recent transactions.
use openmarket.Prelude.{ℕ, Bool, Option, List, Text}

pub record PosTransactionRef : Type 0 where
  pub id : Text
  pub client_id : Text
  pub receipt_number : ℕ
  pub tse_signature : Option Text
  pub tse_pending : Bool
  pub total_gross : Text

-- `"printed" | "buffered" | "failed"`.
pub data ReceiptStatus : Type 0 where
  printed buffered failed : ReceiptStatus

pub record CashPaymentResult : Type 0 where
  pub transaction : PosTransactionRef
  pub change : Text
  pub receipt_status : ReceiptStatus

pub record CardPaymentResult : Type 0 where
  pub transaction : PosTransactionRef
  pub receipt_status : ReceiptStatus

pub record CloseSummary : Type 0 where
  pub id : Text
  pub expected : Text
  pub counted : Text
  pub difference : Text

pub record ParkedSaleItem : Type 0 where
  pub variant_id : ℕ
  pub product_title : Text
  pub variant_title : Text
  pub price : Text
  pub quantity : ℕ
  pub quantity_kg : Option Text

pub record ParkedSale : Type 0 where
  pub id : ℕ
  pub cashier_user_id : ℕ
  pub customer_id : Option ℕ
  pub customer_name : Option Text
  pub items : List ParkedSaleItem
  pub note : Text
  pub created_at : Text
  pub item_count : ℕ

pub record HealthStatus : Type 0 where
  pub online : Option Bool
  pub paper_ok : Option Bool

pub record PosTransactionListItem : Type 0 where
  pub id : Text
  pub receipt_number : ℕ
  pub started_at : Text
  pub finished_at : Option Text
  pub total_gross : Text
  pub payment_breakdown : List (Text × Text)
  pub tse_pending : Bool
  pub voids_transaction_id : Option Text
