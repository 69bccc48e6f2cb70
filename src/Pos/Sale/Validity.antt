-- ===== src/Pos/Sale/Validity.antt =====
-- SalePage.tsx: every event and every reply keeps the lines of the sale valid.
use openmarket.Prelude.{
  ◌≡◌, refl, ◌⊎◌, ℕ, map, All, Option, inl, inr, Bool, true, some, List, [], ◌∷◌, Number, is_truthy,
  is_some, is_empty, Text, arith, Bool-cases, Option-cases,
}
use openmarket.Shared.Types.{ParkedSale, ProductVariant, Customer}
use openmarket.Pos.Sale.Items.{SaleItem, add_weighed}
use openmarket.Pos.Sale.Bodies.{recall_items, park_body}
use openmarket.Pos.Sale.Parking.{reloaded, recall-park}
use openmarket.Pos.Sale.Lines.{
  IsValid, IsPositive, count_unit, nil-IsValid, add_unit-IsValid, add_weighed-IsValid,
  update_qty-IsValid, remove_at-IsValid,
}
use openmarket.Pos.Sale.State.{Page, Request, lookup_variant, done}
use openmarket.Pos.Sale.Handlers.{
  Snapshot, is_by_weight, variant_of, add_to_sale, add_by_barcode, variant_replied, search_products,
  products_replied, details_replied, weighed_confirmed, void_sale, park_sale, park_replied,
  recall_sale, customer_replied, recall_replied, parked_replied, do_reprint, do_storno,
  storno_replied, authorization_replied,
}
use openmarket.Pos.Sale.Payments.{
  pay, order_replied, paid, cash_paid, card_paid, split_paid, payment_replied,
}
use openmarket.Pos.Sale.Events.{
  Event, react, picked, weighed_entered, recall_picked, line_removed, quantity_set,
}
use openmarket.Pos.Sale.Keyboard.{on_key, on_escape}
use openmarket.Pos.Sale.Replies.{replied, Answer, reprint_replied}

-- A parked sale holds what was parked of some valid sale.
abbrev pub IsParkedValid : ParkedSale → Type 0
IsParkedValid p =
    (items : List SaleItem) × (customer : Option Customer) × IsValid items
    × (p.items ≡ (park_body items customer).items)

-- Of a parked sale that the picker hands over.
abbrev pub IsHonest : {N : Type 0} → Event N → Type 0
IsHonest (recall_picked p) = IsParkedValid p
IsHonest e = Unit

-- A weight is never printed as an empty text.
abbrev pub PrintsWeights : (N : Type 0) ⦃n : Number N⦄ → Type 0
PrintsWeights N ⦃n⦄ = (x : N) → is_truthy (some (n.to_fixed 3 x)) ≡ true

add_to_sale-IsValid :
    {N : Type 0} (had : Bool) (title : Text) (v : ProductVariant) (s : Page N)
    → IsValid s.sale_items
    → IsValid (add_to_sale had title v s).sale_items
unfolding add_to_sale
add_to_sale-IsValid had title v s h = elim (Bool-cases (is_by_weight v)) [
  | inl e ↦ rw (e, add_to_sale) h
  | inr e ↦ rw (e, add_to_sale) (add_unit-IsValid title v s.sale_items h)
]

weighed-IsValid :
    (title : Text) (v : ProductVariant) (kg : Text) (items : List SaleItem)
    → is_truthy (some kg) ≡ true
    → IsValid items
    → IsValid (add_weighed title v kg items)
weighed-IsValid title v [] items t h = cc
weighed-IsValid title v (c ∷ kg) items t h = add_weighed-IsValid title v c kg items h

confirmed-IsValid :
    {N : Type 0} (kg : Text) (s : Page N)
    → is_truthy (some kg) ≡ true
    → IsValid s.sale_items
    → IsValid (weighed_confirmed kg s).0.sale_items
unfolding weighed_confirmed
confirmed-IsValid kg s t h = elim (Option-cases s.weighed_prompt) [
  | inl e ↦ rw (e, weighed_confirmed) h
  | inr (p, e) ↦
      rw (e, weighed_confirmed) (weighed-IsValid p.product_title p.variant kg s.sale_items t h)
]

count_unit-reloaded :
    (j : ℕ) (items : List SaleItem) → count_unit j (map reloaded items) ≡ count_unit j items
unfolding count_unit
count_unit-reloaded j [] = refl
count_unit-reloaded j (i ∷ items) = rw (count_unit-reloaded j items) refl

reloaded-IsPositive :
    (items : List SaleItem) → All IsPositive items → All IsPositive (map reloaded items)
reloaded-IsPositive [] h = tt
reloaded-IsPositive (i ∷ items) h = (h.0, reloaded-IsPositive items h.1)

-- A valid sale is valid after it was parked and recalled.
honest-IsValid : (p : ParkedSale) → IsParkedValid p → IsValid (recall_items p.items)
unfolding park_body
honest-IsValid p (items, customer, h, e) =
    rw (e, recall-park items)
      record {
        distinct = λ j. rw (count_unit-reloaded j items) (h.distinct j);
        positive = reloaded-IsPositive items h.positive;
      }

recalled-IsValid :
    {N : Type 0} (p : ParkedSale) (s : Page N)
    → IsValid (recall_items p.items)
    → IsValid s.sale_items
    → IsValid (recall_sale p s).0.sale_items
unfolding recall_sale
recalled-IsValid p s o h = elim (Bool-cases (is_empty s.sale_items)) [
  | inl e ↦ rw (e, recall_sale) o
  | inr e ↦ rw (e, recall_sale) h
]

kept-IsValid :
    (before after : List SaleItem)
    → (after ≡ []) ⊎ (after ≡ before)
    → IsValid before
    → IsValid after
kept-IsValid before after (inl e) h = rw e nil-IsValid
kept-IsValid before after (inr e) h = rw e h

module _ {N : Type 0} ⦃n : Number N⦄ where
  pub react-IsValid :
      (e : Event N) (snap : Snapshot) (s : Page N)
      → PrintsWeights N
      → IsHonest e
      → IsValid s.sale_items
      → IsValid (react e snap s).0.sale_items
  unfolding react add_by_barcode search_products void_sale park_sale do_reprint pay on_key on_escape
  react-IsValid (picked title v) snap s w o h =
      add_to_sale-IsValid (is_some s.last_sale) title v s h
  react-IsValid (weighed_entered kg) snap s w o h = confirmed-IsValid (n.to_fixed 3 kg) s (w kg) h
  react-IsValid (quantity_set id z) snap s w o h = update_qty-IsValid id z s.sale_items h
  react-IsValid (line_removed i) snap s w o h = remove_at-IsValid i s.sale_items h
  react-IsValid (recall_picked p) snap s w o h = recalled-IsValid p s (honest-IsValid p o) h
  react-IsValid e snap s w o h =
      kept-IsValid s.sale_items (react e snap s).0.sale_items (ground arith) h

  pub replied-IsValid :
      (r : Request) (a : Answer r) (s : Page N)
      → IsValid s.sale_items
      → IsValid (replied r a s).0.sale_items
  unfolding replied variant_replied products_replied details_replied park_replied customer_replied
      recall_replied parked_replied storno_replied order_replied reprint_replied
      authorization_replied do_storno payment_replied cash_paid card_paid split_paid paid
  replied-IsValid (lookup_variant code had) (done r) s h =
      add_to_sale-IsValid had r.title (variant_of r) s h
  replied-IsValid r a s h = kept-IsValid s.sale_items (replied r a s).0.sale_items (ground arith) h
