-- ===== src/Store/Product/Choice.antt =====
-- ProductDetailPage.tsx: in every run the variant that is chosen is one of the product's, and what goes
-- into the cart is that variant, unless it is sold out.
use openmarket.Prelude.{
  ℕ, suc, zero, ◌+◌, ◌-◌, ◌≤◌, ◌≡◌, refl, ap, sym, ◌∙◌, Bool, true, false, Option, none, some, List,
  [], ◌∷◌, if◌then◌else◌, is_empty, any, find, not, length, ltb, ◌==◌, Bool-cases, Option-cases,
  inl, inr, arith,
}
use openmarket.Shared.Types.{Product, ProductVariant, CartItem}
use openmarket.Shared.Machine.{Run, Reach}
use openmarket.Shared.Machine.Waiting.{Reach-state}
use openmarket.Store.Cart.{add, add_item, apply}
use openmarket.Store.Cart.Validity.{IsValid, add_item-IsValid}
use openmarket.Store.Cart.Quantities.{pieces, apply-spec}
use openmarket.Store.Product.Page.{
  State, Request, get, Event, went, stock_changed, selected, image_shown, added, InventoryEvent,
  load, first_variant_id, replied, is_id, is_zero, is_shown, is_stock_of, find_index, set_available,
  restock, selected_variant, handle_inventory_update, sold_out, handle_add, is_offered, react,
  initial, start, page, done, failed, Reply,
}

abbrev is_choice : Option ℕ → List ProductVariant → Bool
is_choice o vs = any (λ v. is_id o v.id) vs

set_available-is_choice :
    (i n : ℕ) (o : Option ℕ) (vs : List ProductVariant)
    → (is_choice o (set_available i n vs) ≡ is_choice o vs)
      × (is_empty (set_available i n vs) ≡ is_empty vs)
unfolding set_available
set_available-is_choice i n o [] = (refl, refl)
set_available-is_choice zero n o (v ∷ vs) = (refl, refl)
set_available-is_choice (suc i) n o (v ∷ vs) =
    let (same, e) = set_available-is_choice i n o vs in (rw same refl, refl)

restock-is_choice :
    (e : InventoryEvent) (o : Option ℕ) (vs : List ProductVariant)
    → (is_choice o (restock e vs) ≡ is_choice o vs) × (is_empty (restock e vs) ≡ is_empty vs)
unfolding restock
restock-is_choice e o vs = elim (Option-cases (find_index (is_stock_of e) vs)) [
  | inl n ↦ rw (restock, n) (refl, refl)
  | inr (i, n) ↦ rw (restock, n) (set_available-is_choice i e.available o vs)
]

-- What holds of the product on the page, the variant that is chosen and the image that is shown.
abbrev pub IsChoosing : Option ℕ → ℕ → Option Product → Type 0
IsChoosing o i none = Unit
IsChoosing o i (some p) =
    (is_empty p.variants ≡ false → is_choice o p.variants ≡ true) × (i ≤ length p.images - 1)

pub record IsChosen (s : State) : Type 0 where
  pub choosing : IsChoosing s.selected_variant_id s.active_image s.product
  pub cart : IsValid s.cart

handle_inventory_update-IsChosen :
    (e : InventoryEvent) (s : State) → IsChosen s → IsChosen (handle_inventory_update e s)
unfolding handle_inventory_update
handle_inventory_update-IsChosen e s h = elim (Option-cases s.product) [
  | inl n ↦ rw (handle_inventory_update, n) h
  | inr (p, n) ↦
      let c : IsChoosing s.selected_variant_id s.active_image (some p) = rw n at h.choosing in
      let (same, empty) = restock-is_choice e s.selected_variant_id p.variants in
      rw (handle_inventory_update, n)
        record { choosing = (λ k. same ∙ c.0 (sym empty ∙ k), c.1); cart = h.cart }
]

sold_out_chosen :
    (s : State) (v : ProductVariant)
    → selected_variant s ≡ some v
    → sold_out s ≡ is_zero v.available
unfolding sold_out
sold_out_chosen s v c = ap (λ o. is_zero (available_of o)) c
  where
    available_of : Option ProductVariant → Option ℕ
    available_of none = none
    available_of (some w) = w.available

-- The button adds a piece of the chosen variant.
handle_add_added :
    (s : State) (p : Product) (v : ProductVariant)
    → s.product ≡ some p
    → selected_variant s ≡ some v
    → is_zero v.available ≡ false
    → (handle_add s).cart ≡ add_item p v s.cart
unfolding handle_add sold_out
handle_add_added s p v e c z = rw (handle_add, e, c, sold_out_chosen s v c, z) refl

handle_add-IsChosen : (s : State) → IsChosen s → IsChosen (handle_add s)
unfolding handle_add sold_out
handle_add-IsChosen s h = elim (Option-cases s.product) [
  | inl e ↦ rw (handle_add, e) h
  | inr (p, e) ↦ elim (Option-cases (selected_variant s)) [
    | inl c ↦ rw (handle_add, e, c) h
    | inr (v, c) ↦ elim (Bool-cases (is_zero v.available)) [
      | inl z ↦ rw (handle_add, e, c, sold_out_chosen s v c, z) h
      | inr z ↦
          rw (handle_add, e, c, sold_out_chosen s v c, z)
            record { choosing = h.choosing; cart = add_item-IsValid p v s.cart h.cart }
    ]
  ]
]

image_shown-IsChoosing :
    (i : ℕ) (s : State) (o : Option Product)
    → ltb i (elim o [ none ↦ 0 | some p ↦ length p.images ]) ≡ true
    → IsChoosing s.selected_variant_id s.active_image o
    → IsChoosing s.selected_variant_id i o
image_shown-IsChoosing i s none q h = tt
image_shown-IsChoosing i s (some p) q h = (h.0, ground arith)

selected-IsChoosing :
    (i k : ℕ) (o : Option Product)
    → any (λ v. i == v.id) (elim o [ none ↦ [] | some p ↦ p.variants ]) ≡ true
    → (j : Option ℕ) → IsChoosing j k o
    → IsChoosing (some i) k o
selected-IsChoosing i k none q j h = tt
selected-IsChoosing i k (some p) q j h = (λ e. q, h.1)

react-IsChosen :
    (e : Event) (s : State) → is_offered e s ≡ true → IsChosen s → IsChosen (react e s).0
unfolding react is_offered load
react-IsChosen (went none) s o h = record { choosing = h.choosing; cart = h.cart }
react-IsChosen (went (some i)) s o h = record { choosing = h.choosing; cart = h.cart }
react-IsChosen (stock_changed e) s o h = handle_inventory_update-IsChosen e s h
react-IsChosen (selected i) s o h = record {
  choosing =
      selected-IsChoosing i s.active_image s.product (ground arith) s.selected_variant_id
        h.choosing;
  cart = h.cart;
}
react-IsChosen (image_shown i) s o h = record {
  choosing = image_shown-IsChoosing i s s.product (ground arith) h.choosing;
  cart = h.cart;
}
react-IsChosen added s o h = handle_add-IsChosen s h

replied-IsChosen :
    (r : Request) (a : Reply Product) (s : State) → IsChosen s → IsChosen (replied r a s)
unfolding replied first_variant_id
replied-IsChosen (get i) (failed m) s h = record { choosing = h.choosing; cart = h.cart }
replied-IsChosen (get i) (done p) s h = record {
  choosing = (first p.variants, omega arith);
  cart = h.cart;
}
  where
    first :
        (vs : List ProductVariant) → is_empty vs ≡ false → is_choice (first_variant_id vs) vs ≡ true
    first [] e = absurd (ground (arith, e))
    first (v ∷ vs) e = ground arith

abbrev pub first_render : Option ℕ → List CartItem → Run page
first_render i cart = record { state = (start i cart).0; waiting = (start i cart).1 }

-- In every run, from any address and any valid cart, whatever order the requests are answered in and
-- whatever stock is reported, the chosen variant is one of the product's if it has any, the image that
-- is shown is one of its images if it has any, and the cart is valid.
pub Reach-IsChosen :
    (i : Option ℕ) (cart : List CartItem)
    → IsValid cart
    → {run : Run page} → Reach page (first_render i cart) run
    → IsChosen run.state
unfolding start initial load
Reach-IsChosen none cart h r =
    Reach-state page IsChosen react-IsChosen replied-IsChosen (record { choosing = tt; cart = h }) r
Reach-IsChosen (some i) cart h r =
    Reach-state page IsChosen react-IsChosen replied-IsChosen (record { choosing = tt; cart = h }) r

any-find :
    {A : Type 0} (p : A → Bool) (xs : List A) → any p xs ≡ true → (x : A) × (find p xs ≡ some x)
any-find p [] h = absurd (ground (arith, h))
any-find p (x ∷ xs) h = elim (Bool-cases (p x)) [
  | inl q ↦ (x, rw q refl)
  | inr q ↦ let (y, e) = any-find p xs (rw q at h) in (y, rw q e)
]

-- In every run, while a product with variants is shown, one of its variants is chosen; the button for
-- the cart is enabled exactly if that variant is not known to be sold out; and then it adds one piece
-- of this variant to the cart and none of any other.
pub added_lem :
    (i : Option ℕ) (cart : List CartItem)
    → IsValid cart
    → {run : Run page} → Reach page (first_render i cart) run
    → (p : Product) → run.state.product ≡ some p
    → is_shown run.state ≡ true
    → is_empty p.variants ≡ false
    → (v : ProductVariant) × (find (λ w. is_id run.state.selected_variant_id w.id) p.variants
        ≡ some v)
      × (is_offered added run.state ≡ not (is_zero v.available))
      × (is_zero v.available ≡ false
          → (j : ℕ)
          → pieces (react added run.state).0.cart j
            ≡ (if v.id == j then pieces run.state.cart j + 1 else pieces run.state.cart j))
unfolding react is_offered selected_variant apply
added_lem i cart h {run} r p e q n =
    let s = run.state in
    let sound = Reach-IsChosen i cart h r in
    let c : IsChoosing s.selected_variant_id s.active_image (some p) = rw e at sound.choosing in
    let (v, f) = any-find (λ w. is_id s.selected_variant_id w.id) p.variants (c.0 n) in
    let chosen : selected_variant s ≡ some v = rw (selected_variant, e) f in
    (
      v,
      f,
      rw (is_offered, q, chosen, sold_out_chosen s v chosen) refl,
      λ z j.
          ap (λ t. pieces t j) (handle_add_added s p v e chosen z)
          ∙ apply-spec (add p v) s.cart j sound.cart,
    )
