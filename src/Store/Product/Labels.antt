-- ===== src/Store/Product/Labels.antt =====
-- ProductDetailPage.tsx and ShopPage.tsx: what is said of the stock and the price of a product.
use openmarket.Prelude.{
  ℕ, ◌≤◌, ◌<◌, ◌≡◌, Bool, false, ◌&&◌, Option, none, some, if◌then◌else◌, ltb, leb, ◌==◌, or_else,
  arith,
}
use openmarket.Shared.Types.{ProductVariant, ProductListWithPrice}

pub data Label : Type 0 where
  sold_out in_stock unlabelled : Label
  only_left : ℕ → Label

-- `soldOut`, `lowStock` and the rest, of the selected variant if there is one.
abbrev pub available : Option ProductVariant → Option ℕ
available none = none
available (some v) = v.available

abbrev pub low_threshold : Option ProductVariant → ℕ
low_threshold none = 5
low_threshold (some v) = or_else v.low_stock_threshold 5

abbrev pub low_stock : Option ProductVariant → Bool
low_stock v = elim (available v) [ none ↦ false | some n ↦ ltb 0 n && leb n (low_threshold v) ]

unfoldable pub product_label : Option ProductVariant → Label
product_label v = elim (available v) [
  | none ↦ unlabelled
  | some n ↦ if n == 0 then sold_out else if low_stock v then only_left n else in_stock
]

-- The label on a product's card in the shop.
unfoldable pub card_label : ProductListWithPrice → Label
card_label p = elim p.total_stock [
  | none ↦ unlabelled
  | some n ↦ if n == 0 then sold_out else if leb n 5 then only_left n else unlabelled
]

-- The page of a product says that it is sold out, how many are left, or that it is in stock exactly if its
-- selected variant has none, has at most as many as its threshold, which is five if there is no other,
-- or has more; and with five as the threshold the card of a product with the same stock says the same, but
-- nothing if there are more.
pub labels_of_stock :
    (v : ProductVariant) (p : ProductListWithPrice) (n : ℕ)
    → v.available ≡ some n
    → (n ≡ 0 → product_label (some v) ≡ sold_out)
      × (0 < n → n ≤ low_threshold (some v) → product_label (some v) ≡ only_left n)
      × (low_threshold (some v) < n → product_label (some v) ≡ in_stock)
      × (p.total_stock ≡ some n
          → low_threshold (some v) ≡ 5
          → card_label p ≡ (if leb n 5 then product_label (some v) else unlabelled))
unfolding product_label card_label
labels_of_stock v p n e = (
  λ z. rw (e, product_label) (ground (arith, e, z)),
  λ z l. rw (e, product_label) (ground (arith, e, z, l)),
  λ l. rw (e, product_label) (ground (arith, e, l)),
  λ f t. rw (e, f, product_label, card_label) (ground (arith, e, t)),
)
