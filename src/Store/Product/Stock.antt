-- ===== src/Store/Product/Stock.antt =====
-- ProductDetailPage.tsx: an inventory update changes the variant of the inventory item and no other.
use openmarket.Prelude.{
  ◌≤◌, ◌≡◌, refl, ap, true, false, some, List, [], ◌∷◌, ◌∙◌, sym, map, if◌then◌else◌, Bool-cases,
  Option-cases, inl, inr, arith,
}
use openmarket.Shared.Types.{ProductVariant}
use openmarket.Shared.Machine.Flight.{count}
use openmarket.Store.Product.Page.{InventoryEvent, is_stock_of, find_index, set_available, restock}

-- The update without an index.
abbrev pub renew : InventoryEvent → ProductVariant → ProductVariant
renew e v = if is_stock_of e v then record v { available = some e.available } else v

map-renew_absent :
    (e : InventoryEvent) (vs : List ProductVariant)
    → count (is_stock_of e) vs ≡ 0
    → map (renew e) vs ≡ vs
map-renew_absent e [] h = refl
map-renew_absent e (v ∷ vs) h = elim (Bool-cases (is_stock_of e v)) [
  | inl q ↦ absurd (omega (arith, rw q at h))
  | inr q ↦
      let none_left : count (is_stock_of e) vs ≡ 0 = omega (arith, rw q at h) in
      ◌∙◌ {b = v ∷ map (renew e) vs} (rw q refl) (ap (λ r. v ∷ r) (map-renew_absent e vs none_left))
]

restock_other :
    (e : InventoryEvent) (v : ProductVariant) (vs : List ProductVariant)
    → is_stock_of e v ≡ false
    → restock e (v ∷ vs) ≡ v ∷ restock e vs
unfolding restock find_index set_available
restock_other e v vs q = elim (Option-cases (find_index (is_stock_of e) vs)) [
  | inl n ↦ rw (restock, find_index, q, n) refl
  | inr (i, n) ↦ rw (restock, find_index, q, n) refl
]

restock_first :
    (e : InventoryEvent) (v : ProductVariant) (vs : List ProductVariant)
    → is_stock_of e v ≡ true
    → restock e (v ∷ vs) ≡ renew e v ∷ vs
unfolding restock find_index set_available
restock_first e v vs q = rw (restock, find_index, q) refl

-- If no two variants have the same inventory item, the search for the first one, with the change at
-- its index, gives what a change of every variant of that item gives.
pub restock-map :
    (e : InventoryEvent) (vs : List ProductVariant)
    → count (is_stock_of e) vs ≤ 1
    → restock e vs ≡ map (renew e) vs
unfolding restock find_index
restock-map e [] h = refl
restock-map e (v ∷ vs) h = elim (Bool-cases (is_stock_of e v)) [
  | inl q ↦
      let none_left : count (is_stock_of e) vs ≡ 0 = omega (arith, rw q at h) in
      restock_first e v vs q ∙ sym (ap (λ r. renew e v ∷ r) (map-renew_absent e vs none_left))
  | inr q ↦
      let rest : count (is_stock_of e) vs ≤ 1 = omega (arith, rw q at h) in
      restock_other e v vs q
      ∙ (ap (λ r. v ∷ r) (restock-map e vs rest) ∙ ap (λ r. r ∷ map (renew e) vs) (rw q refl))
]
