-- ===== src/Pos/Sale/Handlers.antt =====
-- SalePage.tsx: the handlers, up to their first `await`, and what each does with the reply. A handler
-- maps the page to the next page and its effects. What only moves the focus is left out.
use openmarket.Prelude.{
  ℕ, ◌+◌, Bool, true, false, Option, none, some, List, [], ◌∷◌, ◌++◌, map, if◌then◌else◌, is_truthy,
  is_some, is_empty, or_else, Text, text_eq, codes, length, take,
}
use openmarket.Shared.Types.{ProductVariant, Product, Customer, ParkedSale, VariantDetail}
use openmarket.Pos.Sale.Items.{SaleItem, add_unit, add_weighed}
use openmarket.Pos.Sale.Bodies.{park_body, recall_items}
use openmarket.Pos.Sale.State.{
  Page, lookup_variant, list_products, get_products, list_parked, create_parked, get_customer,
  cancel_parked, reprint, void_tx, Reply, done, failed, Effect, send, toast,
}

-- What the render that a handler belongs to had read.
pub record Snapshot : Type 0 where
  pub items : List SaleItem
  pub customer : Option Customer

abbrev pub Handler : Type 0 → Type 0
Handler N = Page N → Page N × List Effect

abbrev pub snapshot : {N : Type 0} → Page N → Snapshot
snapshot s = record { items = s.sale_items; customer = s.attached_customer }

-- `variant.pricing_type === "by_weight"`.
unfoldable pub is_by_weight : ProductVariant → Bool
is_by_weight v = elim v.pricing_type [ none ↦ false | some t ↦ text_eq t (codes "by_weight") ]

-- The variant that `addByBarcode` makes of the lookup's answer.
abbrev pub variant_of : VariantDetail → ProductVariant
variant_of r = record {
  id = r.id;
  product_id = r.product_id;
  title = r.title;
  sku = or_else r.sku [];
  barcode = or_else r.barcode [];
  price = r.price;
  compare_at_price = none;
  position = 0;
  pricing_type = some r.pricing_type;
  weight_unit = none;
  min_weight_kg = r.min_weight_kg;
  max_weight_kg = r.max_weight_kg;
  tare_kg = r.tare_kg;
  barcode_format = none;
  inventory_item_id = none;
  available = none;
  low_stock_threshold = none;
}

module _ {N : Type 0} where
  -- `addToSale`. `had_last` says whether the handler's render showed a last sale.
  unfoldable pub add_to_sale : Bool → Text → ProductVariant → Page N → Page N
  add_to_sale had_last title v s =
      let last = if had_last then none else s.last_sale in
      if is_by_weight v
      then record s {
        last_sale = last;
        weighed_prompt = some (record { variant = v; product_title = title });
        object_count = s.object_count + 1;
        search_results = [];
        search_input = [];
      }
      else record s {
        last_sale = last;
        sale_items = add_unit title v s.sale_items;
        search_results = [];
        search_input = [];
      }

  -- `addByBarcode`.
  unfoldable pub add_by_barcode : Text → Handler N
  add_by_barcode code s =
      (record s { error = [] }, send (lookup_variant code (is_some s.last_sale)) ∷ [])

  unfoldable pub variant_replied : Text → Bool → Reply VariantDetail → Handler N
  unfolding add_to_sale
  variant_replied code had_last (done r) s =
      let s' = add_to_sale had_last r.title (variant_of r) s in
      (record s' { barcode_input = [] }, [])
  variant_replied code had_last (failed m) s =
      (record s { error = codes "No product found with barcode: " ++ code }, [])

  -- `searchProducts`, on the text that was just typed.
  unfoldable pub search_products : Text → Handler N
  search_products [] s = (record s { search_results = [] }, [])
  search_products (c ∷ q) s = (s, send (list_products (c ∷ q)) ∷ [])

  -- The details of the first five products are asked for.
  unfoldable pub products_replied : Reply (List ℕ) → Handler N
  products_replied (done ids) s = (s, send (get_products (take 5 ids)) ∷ [])
  products_replied (failed m) s = (s, [])

  unfoldable pub details_replied : Reply (List Product) → Handler N
  details_replied (done ps) s = (
    record s { search_results = map (λ p. record { title = p.title; variants = p.variants }) ps },
    [],
  )
  details_replied (failed m) s = (s, [])

  -- `addWeighedToSale`, and the prompt that called it closes.
  unfoldable pub weighed_confirmed : Text → Handler N
  weighed_confirmed kg s = elim s.weighed_prompt [
    | none ↦ (s, [])
    | some p ↦ (
      record s {
        last_sale = none;
        sale_items = add_weighed p.product_title p.variant kg s.sale_items;
        weighed_prompt = none;
      },
      [],
    )
  ]

  -- `doVoidSale`.
  unfoldable pub void_sale : Handler N
  void_sale s = (
    record s { sale_items = []; attached_customer = none; confirm_void = false },
    toast (codes "Sale voided") false ∷ [],
  )

  -- `parkSale`.
  unfoldable pub park_sale : Handler N
  park_sale s = if is_empty s.sale_items then (s, []) else (
    record s { parking = true },
    send (create_parked (park_body s.sale_items s.attached_customer)) ∷ [],
  )

  unfoldable pub park_replied : Reply (Unit {0}) → Handler N
  park_replied (done _) s = (
    record s { sale_items = []; attached_customer = none; parking = false; confirm_park = false },
    toast (codes "Sale parked") false ∷ send list_parked ∷ [],
  )
  park_replied (failed m) s = (
    record s { parking = false; confirm_park = false },
    toast (codes "Park failed: " ++ m) true ∷ [],
  )

  -- `recallSale`: the lines are loaded at once; the parked sale is cancelled after the customer, if
  -- it has one, has been asked for.
  unfoldable pub recall_sale : ParkedSale → Handler N
  recall_sale p s =
      if is_empty s.sale_items
      then (
        record s { sale_items = recall_items p.items },
        elim p.customer_id [
          | none ↦ send (cancel_parked p.id) ∷ []
          | some c ↦ send (get_customer c p) ∷ []
        ],
      )
      else (s, toast (codes "Park or void the current sale first") true ∷ [])

  unfoldable pub customer_replied : ParkedSale → Reply Customer → Handler N
  customer_replied p (done c) s =
      (record s { attached_customer = some c }, send (cancel_parked p.id) ∷ [])
  customer_replied p (failed m) s = (s, send (cancel_parked p.id) ∷ [])

  unfoldable pub recall_replied : Reply (Unit {0}) → Handler N
  recall_replied (done _) s = (
    record s { show_parked_picker = false },
    send list_parked ∷ toast (codes "Sale recalled") false ∷ [],
  )
  recall_replied (failed m) s = (s, toast (codes "Recall failed: " ++ m) true ∷ [])

  -- `reloadParkedCount`.
  unfoldable pub parked_replied : Reply (List ParkedSale) → Handler N
  parked_replied (done rows) s = (record s { parked_count = length rows }, [])
  parked_replied (failed m) s = (s, [])

  -- `doReprint`.
  unfoldable pub do_reprint : Handler N
  do_reprint s = elim s.last_tx_id [
    | none ↦ (s, [])
    | some t ↦ if is_truthy s.last_tx_id then (s, send (reprint t) ∷ []) else (s, [])
  ]

  -- `doStorno`, of the render whose `lastTxId` is given.
  unfoldable pub do_storno : Option Text → Handler N
  do_storno last s = elim last [
    | none ↦ (s, [])
    | some t ↦ if is_truthy (some t) then (s, send (void_tx t) ∷ []) else (s, [])
  ]

  -- `onAuthorized` of the override modal, with the manager's name; an error stays in the modal.
  unfoldable pub authorization_replied : Option Text → Reply Text → Handler N
  unfolding do_storno
  authorization_replied last (done name) s =
      let (s', effects) = do_storno last (record s { storno_override_open = false }) in
      (s', toast (codes "Authorized by " ++ name) false ∷ effects)
  authorization_replied last (failed m) s = (s, [])

  unfoldable pub storno_replied : Reply (Unit {0}) → Handler N
  storno_replied (done _) s = (
    record s { last_tx_id = none; last_sale = none; confirm_storno = false },
    toast (codes "Transaction voided (Storno)") false ∷ [],
  )
  storno_replied (failed m) s =
      (record s { confirm_storno = false }, toast (codes "Storno failed: " ++ m) true ∷ [])
