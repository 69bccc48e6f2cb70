-- ===== src/Store/Shop/Types.antt =====
-- ShopPage.tsx: the types of the products, which the filter offers.
use openmarket.Prelude.{
  Bool, true, false, not, ◌&&◌, ◌||◌, List, [], ◌∷◌, map, if◌then◌else◌, ltb, ◌==◌, filter,
  is_empty, Text, text_eq,
}
use openmarket.Shared.Types.{ProductListWithPrice}

-- `new Set(...)`, `filter(Boolean)`: each type once, in the order of the products.
unfoldable pub distinct : List Text → List Text
distinct [] = []
distinct (t ∷ ts) = t ∷ filter (λ u. not (text_eq t u)) (distinct ts)

-- The order of strings by their units.
unfoldable pub text_le : Text → Text → Bool
text_le [] t = true
text_le (c ∷ s) [] = false
text_le (c ∷ s) (d ∷ t) = ltb c d || (c == d && text_le s t)

unfoldable pub insert : Text → List Text → List Text
unfolding text_le
insert t [] = t ∷ []
insert t (u ∷ us) = if text_le t u then t ∷ u ∷ us else u ∷ insert t us

-- `xs.sort()`, of distinct strings.
unfoldable pub sort : List Text → List Text
unfolding insert
sort [] = []
sort (t ∷ ts) = insert t (sort ts)

unfoldable pub product_types : List ProductListWithPrice → List Text
unfolding distinct sort
product_types ps = sort (filter (λ t. not (is_empty t)) (distinct (map (λ p. p.product_type) ps)))
