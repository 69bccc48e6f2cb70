-- ===== src/Admin/Variants.antt =====
-- ProductsInventoryPage.tsx: the draft in which a variant is edited, and what saving it sends.
use openmarket.Prelude.{
  ◌≡◌, ◌≢◌, ◌⊎◌, inl, inr, refl, Bool, true, false, Bool-cases, Option, none, some, [], ◌∷◌,
  if◌then◌else◌, or_else, Text, text_eq, codes, arith,
}
use openmarket.Shared.Types.{ProductVariant}

pub data PricingType : Type 0 where
  fixed by_weight : PricingType

pub record VariantDraft : Type 0 where
  pub pricing_type : PricingType
  pub weight_unit : Text
  pub min_weight_kg : Text
  pub max_weight_kg : Text
  pub tare_kg : Text
  pub price : Text
  pub sku : Text
  pub barcode : Text
  pub title : Text
  pub compare_at_price : Text

abbrev pub is_by_weight : Option Text → Bool
is_by_weight none = false
is_by_weight (some t) = text_eq t (codes "by_weight")

-- `makeDraftFromVariant`.
unfoldable pub make_draft : ProductVariant → VariantDraft
make_draft v = record {
  pricing_type = if is_by_weight v.pricing_type then by_weight else fixed;
  weight_unit = or_else v.weight_unit (codes "kg");
  min_weight_kg = or_else v.min_weight_kg [];
  max_weight_kg = or_else v.max_weight_kg [];
  tare_kg = or_else v.tare_kg [];
  price = v.price;
  sku = v.sku;
  barcode = v.barcode;
  title = v.title;
  compare_at_price = or_else v.compare_at_price [];
}

-- The payload of `saveVariant`.
pub record VariantPayload : Type 0 where
  pub title : Text
  pub sku : Text
  pub barcode : Text
  pub price : Text
  pub compare_at_price : Option Text
  pub pricing_type : PricingType
  pub weight_unit : Option Text
  pub min_weight_kg : Option Text
  pub max_weight_kg : Option Text
  pub tare_kg : Option Text

-- `text === "" ? null : text`.
abbrev pub or_null : Text → Option Text
or_null [] = none
or_null (c ∷ s) = some (c ∷ s)

abbrev pub when_weighed {ℓ} : {A : Type ℓ} → PricingType → Option A → Option A
when_weighed by_weight o = o
when_weighed fixed o = none

unfoldable pub payload_of : VariantDraft → VariantPayload
payload_of d = record {
  title = d.title;
  sku = d.sku;
  barcode = d.barcode;
  price = d.price;
  compare_at_price = or_null d.compare_at_price;
  pricing_type = d.pricing_type;
  weight_unit = when_weighed d.pricing_type (some d.weight_unit);
  min_weight_kg = when_weighed d.pricing_type (or_null d.min_weight_kg);
  max_weight_kg = when_weighed d.pricing_type (or_null d.max_weight_kg);
  tare_kg = when_weighed d.pricing_type (or_null d.tare_kg);
}

-- The optional text is there and not empty, or not there.
abbrev pub IsProper : Option Text → Type 0
IsProper o = o ≢ some []

or_null-or_else : (o : Option Text) → IsProper o → or_null (or_else o []) ≡ o
or_null-or_else none h = refl
or_null-or_else (some []) h = ground (arith, h)
or_null-or_else (some (c ∷ s)) h = refl

-- Saving a draft that was not edited sends back what the variant had: the texts, the price to compare
-- with, and for a variant sold by weight also the unit, which is kg if it had none, the range and the
-- tare. For every other variant it sends the fixed pricing and clears these. The price to compare with,
-- the bounds of the range and the tare must not be empty texts.
pub payload_of-make_draft :
    (v : ProductVariant)
    → IsProper v.compare_at_price
    → IsProper v.min_weight_kg
    → IsProper v.max_weight_kg
    → IsProper v.tare_kg
    → let p = payload_of (make_draft v) in
      ((p.title ≡ v.title) × (p.sku ≡ v.sku) × (p.barcode ≡ v.barcode) × (p.price ≡ v.price))
      × (p.compare_at_price ≡ v.compare_at_price)
      × (((is_by_weight v.pricing_type ≡ true)
            × (p.pricing_type ≡ by_weight)
            × (p.weight_unit ≡ some (or_else v.weight_unit (codes "kg")))
            × (p.min_weight_kg ≡ v.min_weight_kg)
            × (p.max_weight_kg ≡ v.max_weight_kg)
            × (p.tare_kg ≡ v.tare_kg))
          ⊎ ((is_by_weight v.pricing_type ≡ false)
              × (p.pricing_type ≡ fixed)
              × (p.weight_unit ≡ none)
              × (p.min_weight_kg ≡ none)
              × (p.max_weight_kg ≡ none)
              × (p.tare_kg ≡ none)))
unfolding payload_of make_draft
payload_of-make_draft v a b c d = (
  (refl, refl, refl, refl),
  or_null-or_else v.compare_at_price a,
  elim (Bool-cases (is_by_weight v.pricing_type)) [
    | inl q ↦ rw q (
        inl (
          refl,
          refl,
          refl,
          or_null-or_else v.min_weight_kg b,
          or_null-or_else v.max_weight_kg c,
          or_null-or_else v.tare_kg d,
        ))
    | inr q ↦ rw q (inr (refl, refl, refl, refl, refl, refl))
  ],
)
