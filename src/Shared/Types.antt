-- ===== src/Shared/Types.antt =====
-- frontend/packages/shared/src/types.ts: the records that the server and the pages exchange. Money
-- and weights travel as decimal strings; a field that may be missing or null is an option.
pub mod Till
pub use openmarket.Shared.Types.Till.{
  PosTransactionRef, ReceiptStatus, CashPaymentResult, printed, buffered, failed, CardPaymentResult,
  CloseSummary, ParkedSaleItem, ParkedSale, HealthStatus, PosTransactionListItem,
}
use openmarket.Prelude.{ℕ, Bool, Option, List, Text}

pub record ProductVariant : Type 0 where
  pub id : ℕ
  pub product_id : ℕ
  pub title : Text
  pub sku : Text
  pub barcode : Text
  pub price : Text
  pub compare_at_price : Option Text
  pub position : ℕ
  pub pricing_type : Option Text
  pub weight_unit : Option Text
  pub min_weight_kg : Option Text
  pub max_weight_kg : Option Text
  pub tare_kg : Option Text
  pub barcode_format : Option Text
  pub inventory_item_id : Option ℕ
  pub available : Option ℕ
  pub low_stock_threshold : Option ℕ

pub record ProductImage : Type 0 where
  pub id : ℕ
  pub src : Text
  pub position : ℕ

pub record Product : Type 0 where
  pub id : ℕ
  pub title : Text
  pub handle : Text
  pub description : Text
  pub product_type : Text
  pub status : Text
  pub tags : List Text
  pub variants : List ProductVariant
  pub images : List ProductImage

pub record CustomerAddress : Type 0 where
  pub id : ℕ
  pub address1 : Text
  pub city : Text
  pub zip : Text
  pub is_default : Bool

pub record Customer : Type 0 where
  pub id : ℕ
  pub email : Option Text
  pub first_name : Text
  pub last_name : Text
  pub phone : Text
  pub addresses : List CustomerAddress

pub record LineItem : Type 0 where
  pub id : ℕ
  pub variant_id : ℕ
  pub title : Text
  pub quantity : ℕ
  pub quantity_kg : Option Text
  pub price : Text
  pub line_total : Option Text

pub record Order : Type 0 where
  pub id : ℕ
  pub order_number : Text
  pub customer_id : Option ℕ
  pub source : Text
  pub fulfillment_status : Text
  pub total_price : Text
  pub shipping_address : Option (List Text)
  pub created_at : Text
  pub line_items : List LineItem

pub record Discount : Type 0 where
  pub id : ℕ
  pub code : Text
  pub discount_type : Text
  pub value : Text
  pub starts_at : Text
  pub ends_at : Text

pub record CartItem : Type 0 where
  pub variant : ProductVariant
  pub product : Product
  pub quantity : ℕ

pub record TaxRate : Type 0 where
  pub id : ℕ
  pub name : Text
  pub rate : Text
  pub region : Text
  pub is_default : Bool

pub record ShippingMethod : Type 0 where
  pub id : ℕ
  pub name : Text
  pub price : Text
  pub min_order_amount : Text
  pub is_active : Bool

pub record VariantDetail : Type 0 where
  pub id : ℕ
  pub product_id : ℕ
  pub title : Text
  pub sku : Option Text
  pub barcode : Option Text
  pub price : Text
  pub pricing_type : Text
  pub vat_rate : Text
  pub min_weight_kg : Option Text
  pub max_weight_kg : Option Text
  pub tare_kg : Option Text

pub record ProductListWithPrice : Type 0 where
  pub id : ℕ
  pub title : Text
  pub handle : Text
  pub product_type : Text
  pub status : Text
  pub tags : List Text
  pub min_price : Option Text
  pub image_url : Option Text
  pub total_stock : Option ℕ

pub record OrderListItem : Type 0 where
  pub id : ℕ
  pub order_number : Text
  pub source : Text
  pub fulfillment_status : Text
  pub total_price : Text
  pub created_at : Text
  pub customer_name : Option Text
  pub customer_email : Option Text

pub record InventoryLevel : Type 0 where
  pub id : ℕ
  pub inventory_item_id : ℕ
  pub location_id : ℕ
  pub available : ℕ
  pub low_stock_threshold : ℕ

pub record Location : Type 0 where
  pub id : ℕ
  pub name : Text
  pub address : Text

pub record DailySales : Type 0 where
  pub date : Text
  pub order_count : ℕ
  pub revenue : Text

pub record TopProduct : Type 0 where
  pub title : Text
  pub quantity_sold : ℕ
  pub revenue : Text

pub record AnalyticsSummary : Type 0 where
  pub total_revenue : Text
  pub total_orders : ℕ
  pub average_order_value : Text
  pub daily_sales : List DailySales
  pub top_products : List TopProduct
  pub orders_by_source : List (Text × ℕ)

pub record DiscountCreate : Type 0 where
  pub code : Text
  pub discount_type : Text
  pub value : Text
  pub starts_at : Text
  pub ends_at : Text

-- `api.storeInfo`.
pub record StoreInfo : Type 0 where
  pub merchant_name : Text
  pub merchant_address : Text
  pub merchant_tax_id : Text
  pub merchant_vat_id : Text
  pub merchant_register_id : Text
  pub fiskaly_configured : Bool
  pub terminal_configured : Bool
