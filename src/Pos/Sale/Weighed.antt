-- ===== src/Pos/Sale/Weighed.antt =====
-- SalePage.tsx: weighed lines are never merged or changed by the operations on counted lines.
use mathlib.Core.List.{append-nil}
use openmarket.Prelude.{
  ◌∙◌, ℕ, zero, suc, ◌≡◌, refl, inl, inr, none, some, List, [], ◌∷◌, ◌++◌, map, arith, ℤ, pos,
  negsuc, find, filter, Text, Option-cases,
}
use openmarket.Shared.Types.{ProductVariant}
use openmarket.Pos.Sale.Items.{
  SaleItem, is_unit_of, bump, with_quantity, keeps, add_unit, add_weighed, update_qty,
}
use openmarket.Pos.Sale.Lines.{weighed}

weighed-append : (xs ys : List SaleItem) → weighed (xs ++ ys) ≡ weighed xs ++ weighed ys
weighed-append [] ys = refl
weighed-append (x ∷ xs) ys = ground (arith, weighed-append xs ys)

weighed-bump : (i : ℕ) (xs : List SaleItem) → weighed (map (bump i) xs) ≡ weighed xs
weighed-bump i [] = refl
weighed-bump i (x ∷ xs) = ground (arith, weighed-bump i xs)

weighed-with_quantity :
    (i q : ℕ) (xs : List SaleItem) → weighed (map (with_quantity i q) xs) ≡ weighed xs
weighed-with_quantity i q [] = refl
weighed-with_quantity i q (x ∷ xs) = ground (arith, weighed-with_quantity i q xs)

weighed-filter : (i : ℕ) (xs : List SaleItem) → weighed (filter (keeps i) xs) ≡ weighed xs
weighed-filter i [] = refl
weighed-filter i (x ∷ xs) = ground (arith, weighed-filter i xs)

weighed-add_unit :
    (title : Text) (v : ProductVariant) (items : List SaleItem)
    → weighed (add_unit title v items) ≡ weighed items
unfolding add_unit
weighed-add_unit title v items = elim (Option-cases (find (is_unit_of v.id) items)) [
  | inl e ↦
      rw (e, add_unit)
        (weighed-append items
            (record { variant = v; product_title = title; quantity = 1; quantity_kg = none } ∷ [])
          ∙ append-nil (weighed items))
  | inr (x, e) ↦ rw (e, add_unit) (weighed-bump v.id items)
]

weighed-update_qty :
    (id : ℕ) (z : ℤ) (items : List SaleItem) → weighed (update_qty id z items) ≡ weighed items
unfolding update_qty
weighed-update_qty id (negsuc n) items = weighed-filter id items
weighed-update_qty id (pos zero) items = weighed-filter id items
weighed-update_qty id (pos (suc n)) items = weighed-with_quantity id (suc n) items

-- Adding a piece and changing a quantity, a removal by quantity 0 included, leave the weighed lines
-- of the sale as they are and in their order, also those of the same variant. A weighing with a
-- weight text that is not empty adds exactly one weighed line, at the end.
pub weighed_kept :
    (title : Text) (v : ProductVariant) (id : ℕ) (z : ℤ) (c : ℕ) (kg : Text) (items : List SaleItem)
    → (weighed (add_unit title v items) ≡ weighed items)
      × (weighed (update_qty id z items) ≡ weighed items)
      × (weighed (add_weighed title v (c ∷ kg) items)
          ≡ weighed items
            ++ (record {
              variant = v;
              product_title = title;
              quantity = 1;
              quantity_kg = some (c ∷ kg);
            }
                ∷ []))
unfolding add_weighed
weighed_kept title v id z c kg items =
    (weighed-add_unit title v items, weighed-update_qty id z items, weighed-append items _)
