-- ===== src/Tests/Pages.antt =====
-- Admin/Settings, Store/Shop, Shared/Api, Shared/Barcode and Pos/Health at concrete inputs.
use openmarket.Prelude.{
  ◌≤◌, ◌<◌, ◌≡◌, ◌≢◌, arith, refl, Bool, true, false, length, none, some, List, [], ◌∷◌, ◌++◌, map,
  Text, codes,
}
use openmarket.Shared.Machine.{Run, Reach, here, more, act, reply, Reply, done}
use openmarket.Shared.Types.{HealthStatus, TaxRate, ShippingMethod, Discount}
use openmarket.Shared.Api.{Params, set_entries}
use openmarket.Shared.Api.Query.{in_bytes, read_address}
use openmarket.Shared.Api.Goods as Goods
use openmarket.Shared.Api.Staff as Staff
use openmarket.Shared.Api.Address.{goods_path, staff_path, only, addresses_read}
use openmarket.Shared.Barcode as Barcode
use openmarket.Shared.Barcode.Once.{reported_once}
use openmarket.Store.Shop.Page as Shop
use openmarket.Store.Shop.Address.{params_of, entry, shop_asks}
use openmarket.Admin.Settings as Settings
use openmarket.Admin.Settings.Ends as Ends
use openmarket.Admin.Settings.Ends.{created_to_end}
use openmarket.Pos.Health as Health
use openmarket.Pos.Health.Polls.{IsVerdict, ranks, poll_shown}

-- A search with a blank and an ampersand, and one that is not set.
abbrev params : Params
params = (codes "search", some (codes "a & b")) ∷ (codes "status", none) ∷ []

addresses_read_example :
    (read_address (goods_path ⊥ (Goods.products_list params)) ≡ map in_bytes (set_entries params))
    × (read_address (goods_path ⊥ (Goods.orders_list params)) ≡ map in_bytes (set_entries params))
    × (read_address (staff_path ⊥ (Staff.customers_list params))
        ≡ map in_bytes (set_entries params))
    × (read_address (staff_path ⊥ (Staff.customers_lookup params))
        ≡ map in_bytes (set_entries params))
    × (read_address (goods_path ⊥ (Goods.variants_lookup (codes "é+1")))
        ≡ only ⊥ "barcode" (codes "é+1"))
    × (read_address (goods_path ⊥ (Goods.orders_lookup (codes "é+1")))
        ≡ only ⊥ "order_number" (codes "é+1"))
    × (read_address (goods_path ⊥ (Goods.discounts_lookup (codes "é+1")))
        ≡ only ⊥ "code" (codes "é+1"))
addresses_read_example =
    addresses_read ⊥ params (codes "é+1") ((omega arith, omega arith), (omega arith, tt))
      (omega arith)

abbrev searching : Shop.State
searching = record (Shop.initial []) {
  debounced = codes "tea pot";
  selected_type = some (codes "Tee");
}

shop_asks_example :
    read_address (goods_path ⊥ (Goods.products_list (params_of (Shop.query_of searching))))
    ≡ (codes "status", codes "active")
      ∷ (entry "search" (codes "tea pot")
          ++ (entry "product_type" (codes "Tee") ++ entry "sort_by" []))
unfolding Shop.initial
shop_asks_example = shop_asks searching (omega arith) (omega arith) tt

-- A page on which all three forms are filled.
abbrev filled : Settings.State
filled = record Settings.initial {
  loading = false;
  tax = record { name = codes "USt"; rate = codes "0.19"; region = []; is_default = true };
  ship = record { name = codes "DHL"; price = codes "4.90"; min_order = [] };
  discount = record {
    code = codes "TEN";
    type = codes "fixed";
    value = codes "10";
    start = codes "2026-01-01";
    end = codes "2026-02-01";
  };
}

abbrev iso : Text → Text
iso t = t ++ codes "T00:00:00.000Z"

abbrev tax_rate : TaxRate
tax_rate = record { id = 1; name = []; rate = []; region = []; is_default = false }

abbrev shipping : ShippingMethod
shipping = record { id = 1; name = []; price = []; min_order_amount = []; is_active = true }

abbrev discount : Discount
discount = record {
  id = 1;
  code = [];
  discount_type = [];
  value = [];
  starts_at = [];
  ends_at = [];
}

created_to_end_example :
    (Ends.IsFilledTax filled.tax
      → Ends.EndsIn iso Settings.tax_clicked
          (Settings.create_tax filled.tax)
          (done tax_rate)
          Settings.nothing_yet
          Ends.after_tax
          filled)
    × (Ends.IsFilledShip filled.ship
        → Ends.EndsIn iso Settings.ship_clicked
            (Settings.create_shipping (Ends.ship_sent filled.ship))
            (done shipping)
            Settings.nothing_yet
            Ends.after_ship
            filled)
    × (Ends.IsFilledDiscount filled.discount
        → Ends.EndsIn iso Settings.discount_clicked
            (Settings.create_discount (Ends.discount_sent iso filled.discount))
            (done discount)
            Settings.nothing_yet
            Ends.after_discount
            filled)
created_to_end_example =
    created_to_end iso filled Settings.nothing_yet tax_rate shipping discount refl

-- The printer is out of paper.
abbrev fresh : Health.State
fresh = record {
  db = Health.unknown;
  fk = Health.unknown;
  pr = Health.unknown;
  tm = Health.unknown;
  alive = true;
}

abbrev out_of_paper : Reply HealthStatus
out_of_paper = done (record { online = some true; paper_ok = some false })

poll_shown_example :
    IsVerdict out_of_paper (
      Health.dot_of Health.health_printer
        (Health.replied Health.health_printer out_of_paper fresh).0)
    × ((q : Health.Probe)
        → q ≢ Health.health_printer
        → Health.dot_of q (Health.replied Health.health_printer out_of_paper fresh).0
          ≡ Health.dot_of q fresh)
    × (ranks (Health.replied Health.health_printer out_of_paper fresh).1 < 2)
    × ((waiting : List Health.Probe) (after : Run Health.dots)
        → Reach Health.dots
            (record { state = (Health.react Health.unmounted fresh).0; waiting = waiting })
            after
        → after.state ≡ record fresh { alive = false })
poll_shown_example = poll_shown fresh Health.health_printer out_of_paper refl

-- A barcode is read with the only camera.
abbrev nobody_back : Text → Bool
nobody_back t = false

abbrev read_one : Run (Barcode.scanner nobody_back)
read_one = record {
  state = record Barcode.initial {
    status = [];
    timer = false;
    stopped = true;
    detected = codes "4006381333931" ∷ [];
  };
  waiting = [];
}

read_one_run : Reach (Barcode.scanner nobody_back) (Barcode.opened nobody_back) read_one
unfolding Barcode.react Barcode.replied Barcode.is_offered Barcode.begin Barcode.started
    Barcode.on_success
read_one_run =
    more
      (more
        (more (more here (act (Barcode.fired true true) refl refl))
          (reply [] [] Barcode.get_cameras (done ((codes "0", codes "cam") ∷ [])) refl refl))
        (reply [] [] (Barcode.start (some (codes "0"))) (done tt) refl refl))
      (act (Barcode.decoded (codes "4006381333931")) refl refl)

reported_once_example :
    (length read_one.state.detected ≤ 1)
    × (read_one.state.stopped ≡ true
        → (later : Run (Barcode.scanner nobody_back))
        → Reach (Barcode.scanner nobody_back) read_one later
        → later.state.detected ≡ read_one.state.detected)
reported_once_example = reported_once nobody_back read_one_run
