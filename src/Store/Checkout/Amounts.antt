-- ===== src/Store/Checkout/Amounts.antt =====
-- CartCheckoutPage.tsx: bounds of the amounts that the page shows.
use openmarket.Prelude.{
  ℕ, ◌≡◌, inl, inr, true, false, Option, none, some, List, Number, IsIeee, nought, ◌==◌, find,
  text_eq, codes, All, All-find, Bool-cases, Option-cases,
}
use openmarket.Shared.Types.{TaxRate, ShippingMethod}
use openmarket.Store.Checkout.Prices.{
  Reduction, after_discount, tax_amount, is_free, shipping_cost, final_total, IsTax, IsPriced,
}

module _ {N : Type 0} ⦃n : Number N⦄ (laws : IsIeee N) where
  open laws use {nought_refl, le_trans, refl_of_le, le-max, le-add, mul_nonneg}

  tax_amount_nonneg :
      (rates : List TaxRate) (subtotal : N)
      → All (IsTax N) rates
      → n.is_finite subtotal ≡ true
      → n.le nought subtotal ≡ true
      → n.le nought (tax_amount rates subtotal) ≡ true
  unfolding tax_amount
  tax_amount_nonneg rates subtotal h f p = elim (Option-cases (find (λ t. t.is_default) rates)) [
    | inl e ↦ rw (e, tax_amount) nought_refl
    | inr (t, e) ↦
        let (finite, positive) = All-find (IsTax N) (λ t. t.is_default) rates h e in
        rw (e, tax_amount) (mul_nonneg subtotal (n.parse_float t.rate) f finite p positive)
  ]

  shipping_cost_nonneg :
      (methods : List ShippingMethod) (selected : Option ℕ) (subtotal : N)
      → All (IsPriced N) methods
      → n.le nought (shipping_cost methods selected subtotal) ≡ true
  unfolding shipping_cost
  shipping_cost_nonneg methods none subtotal h = nought_refl
  shipping_cost_nonneg methods (some i) subtotal h =
      elim (Option-cases (find (λ m. m.id == i) methods)) [
        | inl e ↦ rw (e, shipping_cost) nought_refl
        | inr (m, e) ↦
            let priced = All-find (IsPriced N) (λ m. m.id == i) methods h e in
            elim (Bool-cases (is_free m subtotal)) [
              | inl g ↦ rw (e, shipping_cost, g) nought_refl
              | inr g ↦ rw (e, shipping_cost, g) priced
            ]
      ]

  -- A discount by an amount leaves no negative subtotal, and the final total is at least the
  -- discounted subtotal, under the laws of IEEE arithmetic, for default rates and prices that are not
  -- negative and a discounted subtotal that is finite.
  pub final_total_bounds :
      (d : Reduction N) (rates : List TaxRate) (methods : List ShippingMethod) (selected : Option ℕ)
      (total : N)
      → text_eq d.type (codes "percentage") ≡ false
      → n.le (n.sub total d.value) (n.sub total d.value) ≡ true
      → n.is_finite (after_discount (some d) total) ≡ true
      → All (IsTax N) rates
      → All (IsPriced N) methods
      → let subtotal = after_discount (some d) total in
        (n.le nought subtotal ≡ true)
        × (n.le subtotal (final_total (some d) rates methods selected total) ≡ true)
  unfolding after_discount final_total
  final_total_bounds d rates methods selected total fixed num fin taxes prices =
      let subtotal = after_discount (some d) total in
      let lower : n.le nought subtotal ≡ true =
        rw (fixed, after_discount) (le-max nought (n.sub total d.value) num nought_refl) in
      let taxed = n.add subtotal (tax_amount rates subtotal) in
      let step : n.le subtotal taxed ≡ true =
        le-add subtotal (tax_amount rates subtotal) lower
          (tax_amount_nonneg rates subtotal taxes fin lower) in
      let cost = shipping_cost methods selected subtotal in
      let last : n.le taxed (n.add taxed cost) ≡ true =
        le-add taxed cost (le_trans nought subtotal taxed lower step)
          (shipping_cost_nonneg methods selected subtotal prices) in
      (lower, le_trans subtotal taxed (n.add taxed cost) step last)
