-- ===== src/Admin/Stock/Keys.antt =====
-- ProductsInventoryPage.tsx: the levels stand under the keys of their items, so that the search through
-- the values finds what stands under the key.
use openmarket.Prelude.{
  ℕ, ◌≡◌, ◌<◌, ◌⊎◌, inl, inr, refl, false, Option, none, some, List, [], ◌∷◌, foldl, if◌then◌else◌,
  ltb, ◌==◌, All, Bool-cases, Option-cases, arith, ◌∙◌, ap,
}
use openmarket.Shared.Types.{InventoryLevel}
use openmarket.Shared.Socket.{InventoryUpdate}
use openmarket.Admin.Stock.Levels.{
  Level, Inventory, put, lookup, level, inventory_of, with_available, update_inventory, level_of,
}

pub lookup-put :
    (j k : ℕ) (l : Level) (m : Inventory)
    → lookup j (put k l m) ≡ (if j == k then some l else lookup j m)
unfolding lookup put
lookup-put j k l [] = ground arith
lookup-put j k l (e ∷ m) = ground (arith, lookup-put j k l m)

-- The item of the level is that of its key, if it is defined.
abbrev pub IsOwn : ℕ → Level → Type 0
IsOwn k l = (l.inventory_item_id ≡ none) ⊎ (l.inventory_item_id ≡ some k)

abbrev pub IsOrdered : Inventory → Type 0
IsOrdered [] = Unit
IsOrdered (e ∷ m) = All (λ d. e.0 < d.0) m × IsOwn e.0 e.1 × IsOrdered m

put-above :
    (i k : ℕ) (l : Level) (m : Inventory)
    → i < k
    → All (λ d. i < d.0) m
    → All (λ d. i < d.0) (put k l m)
unfolding put
put-above i k l [] q h = (q, tt)
put-above i k l (e ∷ m) q h = ground (arith, put-above i k l m)

lift-above : (i k : ℕ) (m : Inventory) → i < k → All (λ d. k < d.0) m → All (λ d. i < d.0) m
lift-above i k [] q h = tt
lift-above i k (e ∷ m) q h = (omega (arith, h.0), lift-above i k m q h.1)

put-IsOrdered :
    (k : ℕ) (l : Level) (m : Inventory) → IsOwn k l → IsOrdered m → IsOrdered (put k l m)
unfolding put
put-IsOrdered k l [] o h = (tt, o, tt)
put-IsOrdered k l (e ∷ m) o h =
    ground (arith, put-IsOrdered k l m, put-above e.0 k l m, lift-above k e.0 m)

pub lookup-IsOwn :
    (k : ℕ) (m : Inventory) (l : Level) → IsOrdered m → lookup k m ≡ some l → IsOwn k l
unfolding lookup
lookup-IsOwn k [] l h e = absurd (ground (arith, e))
lookup-IsOwn k (d ∷ m) l h e = ground (arith, e, h, lookup-IsOwn k m l)

pub update_inventory-IsOrdered :
    (u : InventoryUpdate) (m : Inventory) → IsOrdered m → IsOrdered (update_inventory u m)
unfolding update_inventory with_available
update_inventory-IsOrdered u m h = elim (Option-cases (lookup u.inventory_item_id m)) [
  | inl n ↦
      rw (update_inventory, n)
        (put-IsOrdered u.inventory_item_id (with_available none u.available) m (inl refl) h)
  | inr (l, n) ↦
      rw (update_inventory, n)
        (put-IsOrdered u.inventory_item_id (with_available (some l) u.available) m
          (lookup-IsOwn u.inventory_item_id m l h n) h)
]

put_all-IsOrdered :
    (ls : List InventoryLevel) (m : Inventory)
    → IsOrdered m
    → IsOrdered (foldl (λ n l. put l.inventory_item_id (level l) n) m ls)
put_all-IsOrdered [] m h = h
put_all-IsOrdered (l ∷ ls) m h =
    put_all-IsOrdered ls (put l.inventory_item_id (level l) m)
      (put-IsOrdered l.inventory_item_id (level l) m (inr refl) h)

pub inventory_of-IsOrdered : (ls : List InventoryLevel) → IsOrdered (inventory_of ls)
unfolding inventory_of
inventory_of-IsOrdered ls = put_all-IsOrdered ls [] tt

level_of_above :
    (i k : ℕ) (m : Inventory)
    → ltb k i ≡ false
    → All (λ d. k < d.0) m
    → IsOrdered m
    → level_of i m ≡ none
unfolding level_of
level_of_above i k [] q a h = refl
level_of_above i k (e ∷ m) q a h = ground (arith, a, h, level_of_above i k m)

-- The entry under the key, if its item is defined.
abbrev pub defined : Option Level → Option Level
defined none = none
defined (some l) = elim l.inventory_item_id [ none ↦ none | some j ↦ some l ]

pub level_of-lookup : (i : ℕ) (m : Inventory) → IsOrdered m → level_of i m ≡ defined (lookup i m)
unfolding level_of lookup
level_of-lookup i [] h = refl
level_of-lookup i (e ∷ m) h = ground (arith, h, level_of-lookup i m, level_of_above i e.0 m)

-- The last of the levels for an item.
abbrev pub last_level : ℕ → List InventoryLevel → Option Level → Option Level
last_level i [] found = found
last_level i (l ∷ ls) found =
    last_level i ls (if i == l.inventory_item_id then some (level l) else found)

put_all-lookup :
    (i : ℕ) (ls : List InventoryLevel) (m : Inventory)
    → lookup i (foldl (λ n l. put l.inventory_item_id (level l) n) m ls)
      ≡ last_level i ls (lookup i m)
put_all-lookup i [] m = refl
put_all-lookup i (l ∷ ls) m =
    put_all-lookup i ls (put l.inventory_item_id (level l) m)
    ∙ ap (last_level i ls) (lookup-put i l.inventory_item_id (level l) m)

defined-last_level :
    (i : ℕ) (ls : List InventoryLevel) (found : Option Level)
    → defined found ≡ found
    → defined (last_level i ls found) ≡ last_level i ls found
defined-last_level i [] found h = h
defined-last_level i (l ∷ ls) found h = elim (Bool-cases (i == l.inventory_item_id)) [
  | inl q ↦ rw q (defined-last_level i ls (some (level l)) refl)
  | inr q ↦ rw q (defined-last_level i ls found h)
]

-- What is loaded has, for every inventory item, the last level that came for it, and the search through
-- the values finds just this.
pub inventory_of-lookup :
    (i : ℕ) (ls : List InventoryLevel)
    → (lookup i (inventory_of ls) ≡ last_level i ls none)
      × (level_of i (inventory_of ls) ≡ last_level i ls none)
unfolding inventory_of lookup
inventory_of-lookup i ls =
    let found = put_all-lookup i ls [] in
    (
      found,
      level_of-lookup i (inventory_of ls) (inventory_of-IsOrdered ls)
          ∙ (ap defined found ∙ defined-last_level i ls none refl),
    )
