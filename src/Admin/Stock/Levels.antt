-- ===== src/Admin/Stock/Levels.antt =====
-- ProductsInventoryPage.tsx: the stock levels by inventory item (`inventory`), an object whose keys are
-- natural numbers and therefore in ascending order.
use openmarket.Prelude.{
  ℕ, Bool, false, Option, none, some, List, [], ◌∷◌, map, foldl, if◌then◌else◌, find, ltb, ◌==◌,
}
use openmarket.Shared.Types.{InventoryLevel}
use openmarket.Shared.Socket.{InventoryUpdate}

-- A level. An update for an item that is not in the object leaves all but `available` undefined.
pub record Level : Type 0 where
  pub id : Option ℕ
  pub inventory_item_id : Option ℕ
  pub location_id : Option ℕ
  pub available : ℕ
  pub low_stock_threshold : Option ℕ

abbrev pub Inventory : Type 0
Inventory = List (ℕ × Level)

-- `map[key] = level`.
unfoldable pub put : ℕ → Level → Inventory → Inventory
put k l [] = (k, l) ∷ []
put k l (e ∷ m) =
    let rest = put k l m in
    if k == e.0 then (k, l) ∷ m else if ltb k e.0 then (k, l) ∷ e ∷ m else e ∷ rest

-- `map[key]`.
unfoldable pub lookup : ℕ → Inventory → Option Level
lookup k [] = none
lookup k (e ∷ m) = if k == e.0 then some e.1 else lookup k m

abbrev pub level : InventoryLevel → Level
level l = record {
  id = some l.id;
  inventory_item_id = some l.inventory_item_id;
  location_id = some l.location_id;
  available = l.available;
  low_stock_threshold = some l.low_stock_threshold;
}

-- The loop of `loadInventory`.
unfoldable pub inventory_of : List InventoryLevel → Inventory
unfolding put
inventory_of = foldl (λ m l. put l.inventory_item_id (level l) m) []

-- `{ ...prev, available }`.
unfoldable pub with_available : Option Level → ℕ → Level
with_available none n = record {
  id = none;
  inventory_item_id = none;
  location_id = none;
  available = n;
  low_stock_threshold = none;
}
with_available (some l) n = record l { available = n }

-- `handleInventoryUpdate`.
unfoldable pub update_inventory : InventoryUpdate → Inventory → Inventory
unfolding put lookup with_available
update_inventory u m =
    let l = with_available (lookup u.inventory_item_id m) u.available in put u.inventory_item_id l m

abbrev pub has_item : ℕ → Level → Bool
has_item i l = elim l.inventory_item_id [ none ↦ false | some j ↦ j == i ]

-- `Object.values(inventory).find(...)`.
unfoldable pub level_of : ℕ → Inventory → Option Level
level_of i m = find (has_item i) (map (λ e. e.1) m)
