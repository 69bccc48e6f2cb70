-- ===== src/Store/Checkout/Prices.antt =====
-- CartCheckoutPage.tsx: from the cart's total to the amount that is shown.
use openmarket.Prelude.{
  ℕ, ◌≡◌, Bool, true, Option, none, some, List, Number, nought, ◌==◌, if◌then◌else◌, find, Text,
  text_eq, codes,
}
use openmarket.Shared.Types.{TaxRate, ShippingMethod}

-- The discount that a code stands for.
pub record Reduction (N : Type 0) : Type 0 where
  pub type : Text
  pub value : N

module _ {N : Type 0} ⦃n : Number N⦄ where
  -- `subtotalAfterDiscount`: a percentage, or an amount that does not go below zero.
  unfoldable pub after_discount : Option (Reduction N) → N → N
  after_discount none total = total
  after_discount (some d) total =
      if text_eq d.type (codes "percentage")
      then n.mul total (n.sub (n.of_ℕ 1) (n.div d.value (n.of_ℕ 100)))
      else n.max nought (n.sub total d.value)

  -- `taxAmount`, by the rate that is marked as the default.
  unfoldable pub tax_amount : List TaxRate → N → N
  tax_amount rates subtotal = elim (find (λ t. t.is_default) rates) [
    | none ↦ nought
    | some t ↦ n.mul subtotal (n.parse_float t.rate)
  ]

  -- `isFree`, of one shipping method.
  unfoldable pub is_free : ShippingMethod → N → Bool
  is_free m subtotal = n.le (n.parse_float m.min_order_amount) subtotal

  -- `shippingCost`, of the method that is selected.
  unfoldable pub shipping_cost : List ShippingMethod → Option ℕ → N → N
  unfolding is_free
  shipping_cost methods none subtotal = nought
  shipping_cost methods (some i) subtotal = elim (find (λ m. m.id == i) methods) [
    | none ↦ nought
    | some m ↦ if is_free m subtotal then nought else n.parse_float m.price
  ]

  -- `finalTotal`.
  unfoldable pub final_total :
      Option (Reduction N) → List TaxRate → List ShippingMethod → Option ℕ → N → N
  unfolding after_discount tax_amount shipping_cost
  final_total d rates methods selected total =
      let subtotal = after_discount d total in
      n.add (n.add subtotal (tax_amount rates subtotal)) (shipping_cost methods selected subtotal)

module _ (N : Type 0) ⦃n : Number N⦄ where
  -- A rate that adds to an amount, and a price that does.
  abbrev pub IsTax : TaxRate → Type 0
  IsTax t =
      (n.is_finite (n.parse_float t.rate) ≡ true) × (n.le nought (n.parse_float t.rate) ≡ true)

  abbrev pub IsPriced : ShippingMethod → Type 0
  IsPriced m = n.le nought (n.parse_float m.price) ≡ true
