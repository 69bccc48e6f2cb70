-- ===== src/Pos/Sale/Items.antt =====
-- SalePage.tsx: the lines of the current sale, what is computed from them, and the bodies that are
-- sent for an order and for a parked sale. Receipt.tsx: the total of a receipt's line.
use openmarket.Prelude.{
  ℕ, zero, suc, ◌+◌, Bool, not, ◌&&◌, ◌||◌, Option, none, some, List, [], ◌∷◌, ◌++◌, map, foldl,
  Number, nought, ℤ, pos, negsuc, ◌==◌, if◌then◌else◌, find, filter, is_truthy, Text,
}
use openmarket.Shared.Types.{ProductVariant}

pub record SaleItem : Type 0 where
  pub variant : ProductVariant
  pub product_title : Text
  pub quantity : ℕ
  pub quantity_kg : Option Text

-- `i.variant.id === id && !i.quantityKg`.
abbrev pub is_unit_of : ℕ → SaleItem → Bool
is_unit_of id i = i.variant.id == id && not (is_truthy i.quantity_kg)

abbrev pub bump : ℕ → SaleItem → SaleItem
bump id i = if is_unit_of id i then record i { quantity = i.quantity + 1 } else i

abbrev pub with_quantity : ℕ → ℕ → SaleItem → SaleItem
with_quantity id q i = if is_unit_of id i then record i { quantity = q } else i

-- The setter of `addToSale`: a variant sold by the piece is counted up, or goes to the end.
unfoldable pub add_unit : Text → ProductVariant → List SaleItem → List SaleItem
add_unit title v items = elim (find (is_unit_of v.id) items) [
  | some existing ↦ map (bump v.id) items
  | none ↦
      items
      ++ (record { variant = v; product_title = title; quantity = 1; quantity_kg = none } ∷ [])
]

-- The setter of `addWeighedToSale`: every weighing is a line of its own.
unfoldable pub add_weighed : Text → ProductVariant → Text → List SaleItem → List SaleItem
add_weighed title v kg items =
    items
    ++ (record { variant = v; product_title = title; quantity = 1; quantity_kg = some kg } ∷ [])

-- `updateQty`: a quantity that is not positive removes the line; weighed lines stay.
abbrev pub keeps : ℕ → SaleItem → Bool
keeps id i = not (i.variant.id == id) || is_truthy i.quantity_kg

unfoldable pub update_qty : ℕ → ℤ → List SaleItem → List SaleItem
update_qty id (negsuc n) items = filter (keeps id) items
update_qty id (pos zero) items = filter (keeps id) items
update_qty id (pos (suc n)) items = map (with_quantity id (suc n)) items

-- `removeItemAt`.
unfoldable pub remove_at : ℕ → List SaleItem → List SaleItem
remove_at i [] = []
remove_at zero (x ∷ xs) = xs
remove_at (suc i) (x ∷ xs) = x ∷ remove_at i xs

module _ {N : Type 0} ⦃n : Number N⦄ where
  -- `liveLineTotal`.
  unfoldable pub line_total : SaleItem → N
  line_total i = elim i.quantity_kg [
    | some kg ↦ n.mul (n.parse_float kg) (n.parse_float i.variant.price)
    | none ↦ n.mul (n.of_ℕ i.quantity) (n.parse_float i.variant.price)
  ]

  unfoldable pub total : List SaleItem → N
  total = foldl (λ sum i. n.add sum (line_total i)) nought
