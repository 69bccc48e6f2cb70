-- ===== src/Tests/Stocks.antt =====
-- Admin/Stock, Admin/Edit and Admin/Create at concrete inputs.
use openmarket.Prelude.{
  ℕ, ◌≡◌, refl, true, false, Option, none, some, [], ◌∷◌, codes, Text, find, ◌==◌, is_empty,
  if◌then◌else◌, ℤ, pos, negsuc,
}
use openmarket.Shared.Socket.{InventoryUpdate}
use openmarket.Admin.Edit as Edit
use openmarket.Admin.Edit.{saved_unchanged}
use openmarket.Admin.Create as Create
use openmarket.Shared.Types.{Product, ProductVariant, InventoryLevel}
use openmarket.Shared.Machine.{Run, Reach, here, more, act, reply, done}
use openmarket.Admin.Stock.Levels.{Level, put, lookup, level_of, inventory_of}
use openmarket.Admin.Stock.Page as Stock
use openmarket.Admin.Stock.Sent as Sent
use openmarket.Admin.Stock.Sent.{stock_sent}
use openmarket.Admin.Editing as Editing
use openmarket.Tests.Samples.{product, bread, row}

abbrev stock : ℕ → ℕ → InventoryLevel
stock i n = record {
  id = i;
  inventory_item_id = i;
  location_id = 1;
  available = n;
  low_stock_threshold = 5;
}

abbrev parse_int : Text → Option ℤ
parse_int t = if is_empty t then none else some (pos 12)

abbrev stocks : Run (Stock.page parse_int)
stocks = record {
  state = record (Stock.start []).0 {
    products = row ∷ [];
    loading = false;
    inventory = inventory_of (stock 7 2 ∷ []);
    expanded_id = some 1;
    expanded_product = some product;
  };
  waiting = Stock.list_locations ∷ Stock.levels 1 Stock.nothing ∷ [];
}

-- The list and the levels come, and the row is clicked.
stocks_run : Reach (Stock.page parse_int) (Sent.first_render parse_int []) stocks
unfolding Stock.start Stock.load Stock.load_products Stock.replied Stock.follow Stock.react
    Stock.is_offered Stock.expand
stocks_run =
    more
      (more
        (more
          (more here (
            reply []
              (Stock.levels 1 Stock.nothing
                ∷ Stock.list_locations
                ∷ Stock.levels 1 Stock.nothing
                ∷ [])
              (Stock.list_products none) (done (row ∷ [])) refl refl))
          (reply [] (Stock.list_locations ∷ Stock.levels 1 Stock.nothing ∷ [])
            (Stock.levels 1 Stock.nothing) (done (stock 7 2 ∷ [])) refl refl))
        (act (Stock.row_clicked 1) refl refl))
      (reply (Stock.list_locations ∷ Stock.levels 1 Stock.nothing ∷ []) [] (Stock.get 1)
        (done product) refl refl)

stock_sent_example :
    (p : Product) × (v : ProductVariant) × (l : Level) × (stocks.state.expanded_product ≡ some p)
    × (find (λ w. w.id == 7) p.variants ≡ some v)
    × (lookup 7 stocks.state.inventory ≡ some l)
    × ((d : ℤ)
        → (Stock.react parse_int (Stock.adjust_clicked 7 d) stocks.state).1
          ≡ Stock.adjust 7 stocks.state.selected_location_id d ∷ [])
    × ((n : ℕ)
        → parse_int (stocks.state.stock_inputs 7) ≡ some (pos n)
        → (Stock.react parse_int (Stock.set_clicked 7) stocks.state).1
          ≡ Stock.set 7 stocks.state.selected_location_id n ∷ [])
    × ((n : ℕ)
        → parse_int (stocks.state.stock_inputs 7) ≡ some (negsuc n)
        → (Stock.react parse_int (Stock.set_clicked 7) stocks.state).1 ≡ [])
    × (parse_int (stocks.state.stock_inputs 7) ≡ none
        → (Stock.react parse_int (Stock.set_clicked 7) stocks.state).1 ≡ [])
unfolding Stock.start Stock.load Stock.load_products inventory_of level_of put
stock_sent_example = stock_sent parse_int [] stocks_run 7 refl

abbrev update : ℕ → ℕ → InventoryUpdate
update i n = record {
  type = codes "inventory_updated";
  inventory_item_id = i;
  location_id = 2;
  available = n;
}

saved_unchanged_example :
    (Edit.react Edit.submitted (Edit.initial (Edit.detail_of bread))).1
    ≡ Edit.update 7 (record {
      title = codes "Variant";
      sku = some (codes "S");
      barcode = some (codes "400");
      price = codes "3";
      vat_rate = codes "19.00";
      pricing_type = codes "fixed";
    })
      ∷ []
saved_unchanged_example = saved_unchanged bread

abbrev filled : Create.State
filled = record {
  show_create = true;
  draft = record Create.blank { title = codes "Milk"; handle = codes "milk"; price = codes "2" };
  captured_image = some 3;
  toasts = [];
}

abbrev table_state : Editing.State
table_state = record { page = stocks.state; editing_variant_id = none; variant_draft = none }
