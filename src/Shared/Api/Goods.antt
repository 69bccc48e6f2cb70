-- ===== src/Shared/Api/Goods.antt =====
-- api.ts: the calls for products, stock, orders and discounts.
use openmarket.Prelude.{
  ℕ, Option, none, some, ◌++◌, if◌then◌else◌, is_empty, or_else, [], Text, codes,
}
use openmarket.Shared.Uri.{encode}
use openmarket.Shared.Api.{
  Params, qs, post, delete, file, Sent, numbered, below, fetched, posted, replaced, bare,
  after_mark,
}

pub data Call (B : Type 0) : Type 0 where
  products_list orders_list : Params → Call B
  products_get products_archive collections_products inventory_levels low_stock_count : ℕ → Call B
  products_create inventory_set inventory_adjust orders_create discounts_create : B → Call B
  products_update variants_update fulfillments_create : ℕ → B → Call B
  fulfillments_update discounts_update : ℕ → B → Call B
  upload_image : ℕ → ℕ → Option Text → Call B
  import_csv : ℕ → Call B
  variants_lookup orders_lookup discounts_lookup : Text → Call B
  collections_list locations_list unfulfilled_count discounts_list : Call B
  orders_get discounts_delete : ℕ → Call B

module _ {B : Type 0} where
  -- The method, the path below /api and the body of each call.
  unfoldable pub send : Call B → Sent B
  unfolding qs after_mark
  send (products_list ps) = fetched (codes "/products" ++ qs ps)
  send (products_get i) = fetched (numbered "/products/" i)
  send (products_create b) = posted (codes "/products") b
  send (products_update i b) = replaced (numbered "/products/" i) b
  send (products_archive i) = bare delete (numbered "/products/" i)
  send (upload_image i f name) = record {
    method = post;
    path = below "/products/" i "/images";
    payload =
        file f (some (if is_empty (or_else name []) then codes "photo.jpg" else or_else name []));
  }
  send (import_csv f) = record {
    method = post;
    path = codes "/products/import-csv";
    payload = file f none;
  }
  send (variants_lookup t) = fetched (codes "/variants/lookup?barcode=" ++ encode t)
  send (variants_update i b) = replaced (numbered "/variants/" i) b
  send collections_list = fetched (codes "/collections")
  send (collections_products i) = fetched (below "/collections/" i "/products")
  send (inventory_levels i) = fetched (numbered "/inventory-levels?location_id=" i)
  send (inventory_set b) = posted (codes "/inventory-levels/set") b
  send (inventory_adjust b) = posted (codes "/inventory-levels/adjust") b
  send (low_stock_count i) = fetched (numbered "/inventory-levels/low-stock-count?location_id=" i)
  send locations_list = fetched (codes "/locations")
  send (orders_list ps) = fetched (codes "/orders" ++ qs ps)
  send unfulfilled_count = fetched (codes "/orders/unfulfilled-count")
  send (orders_get i) = fetched (numbered "/orders/" i)
  send (orders_lookup t) = fetched (codes "/orders/lookup?order_number=" ++ encode t)
  send (orders_create b) = posted (codes "/orders") b
  send (fulfillments_create i b) = posted (below "/orders/" i "/fulfillments") b
  send (fulfillments_update i b) = replaced (numbered "/fulfillments/" i) b
  send (discounts_lookup t) = bare post (codes "/discounts/lookup?code=" ++ encode t)
  send discounts_list = fetched (codes "/discounts")
  send (discounts_create b) = posted (codes "/discounts") b
  send (discounts_update i b) = replaced (numbered "/discounts/" i) b
  send (discounts_delete i) = bare delete (numbered "/discounts/" i)
