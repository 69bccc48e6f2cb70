-- ===== src/Admin/Stock/Updates.antt =====
-- ProductsInventoryPage.tsx: what the updates from the web socket do to the levels.

use openmarket.Prelude.{
  ℕ, ◌≡◌, refl, ap, sym, ◌∙◌, Option, none, some, List, [], ◌∷◌, if◌then◌else◌, ◌==◌, ==_iff, foldl,
  Bool-cases, inl, inr, arith,
}
use openmarket.Shared.Socket.{InventoryUpdate}
use openmarket.Admin.Stock.Levels.{
  Level, Inventory, lookup, with_available, update_inventory, level_of,
}
use openmarket.Admin.Stock.Keys.{
  IsOrdered, defined, lookup-put, level_of-lookup, update_inventory-IsOrdered,
}

-- The level with another number, if there is one.
abbrev pub renewed : ℕ → Option Level → Option Level
renewed n none = none
renewed n (some l) = some (record l { available = n })

defined-with_available :
    (o : Option Level) (n : ℕ) → defined (some (with_available o n)) ≡ renewed n (defined o)
unfolding with_available
defined-with_available none n = refl
defined-with_available (some l) n = ground arith

-- An update from the web socket, whatever location it is for, gives the level of its item the number
-- that it brings, if the level is there, and leaves the levels of the other items as they are.
pub level_of-update_inventory :
    (u : InventoryUpdate) (m : Inventory) (j : ℕ)
    → IsOrdered m
    → level_of j (update_inventory u m)
      ≡ (if j == u.inventory_item_id then renewed u.available (level_of j m) else level_of j m)
unfolding update_inventory
level_of-update_inventory u m j h =
    let i = u.inventory_item_id in
    let n = u.available in
    let put_there =
      level_of-lookup j (update_inventory u m) (update_inventory-IsOrdered u m h)
      ∙ ap defined (lookup-put j i (with_available (lookup i m) n) m) in
    elim (Bool-cases (j == i)) [
      | inl q ↦
          put_there
          ∙ rw (q, (==_iff j i).0 q)
              (defined-with_available (lookup i m) n ∙ ap (renewed n) (sym (level_of-lookup i m h)))
      | inr q ↦ put_there ∙ rw q (sym (level_of-lookup j m h))
    ]

-- The level after updates have come, by what they say of its item alone.
abbrev pub after_updates : ℕ → List InventoryUpdate → Option Level → Option Level
after_updates j [] o = o
after_updates j (u ∷ us) o =
    after_updates j us (if j == u.inventory_item_id then renewed u.available o else o)

-- Whatever updates come from the web socket, and in whatever order, to levels that stand under the keys
-- of their items, the level that the page finds for an item is the one that it found before, with the
-- number of the last update for that item, if there was one.
pub updates_shown :
    (us : List InventoryUpdate) (m : Inventory) (j : ℕ)
    → IsOrdered m
    → level_of j (foldl (λ n u. update_inventory u n) m us) ≡ after_updates j us (level_of j m)
updates_shown [] m j h = refl
updates_shown (u ∷ us) m j h =
    updates_shown us (update_inventory u m) j (update_inventory-IsOrdered u m h)
    ∙ ap (after_updates j us) (level_of-update_inventory u m j h)
