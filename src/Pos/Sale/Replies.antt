-- ===== src/Pos/Sale/Replies.antt =====
-- SalePage.tsx: what the server answers to each request, and what the page does with the reply.
use openmarket.Prelude.{
  ℕ, true, false, ◌||◌, Option, List, [], ◌∷◌, ◌++◌, Number, if◌then◌else◌, is_truthy, Text,
  text_eq, codes, or_else,
}
use openmarket.Shared.Types.{Product, Customer, Order, ParkedSale, VariantDetail}
use openmarket.Pos.Sale.State.{
  Request, lookup_variant, list_products, get_products, create_order, list_parked, create_parked,
  get_customer, cancel_parked, reprint, void_tx, charge, authorize, Reply, done, failed, toast,
}
use openmarket.Pos.Sale.Handlers.{
  Handler, variant_replied, products_replied, details_replied, park_replied, customer_replied,
  recall_replied, parked_replied, storno_replied, authorization_replied,
}
use openmarket.Pos.Sale.Payments.{order_replied, Receipted, payment_replied}

-- What the server answers to each request.
abbrev pub Answer : Request → Type 0
Answer (lookup_variant code had_last) = Reply VariantDetail
Answer (list_products q) = Reply (List ℕ)
Answer (get_products ids) = Reply (List Product)
Answer (create_order body m due) = Reply Order
Answer list_parked = Reply (List ParkedSale)
Answer (create_parked body) = Reply (Unit {0})
Answer (get_customer c p) = Reply Customer
Answer (cancel_parked id) = Reply (Unit {0})
Answer (reprint tx) = Reply (Text × Option Text)
Answer (void_tx tx) = Reply (Unit {0})
Answer (charge m shown) = Reply (Receipted m)
Answer (authorize last) = Reply Text

-- What `doReprint` says of the status of the print job and its last error.
unfoldable pub reprint_replied : {N : Type 0} → Reply (Text × Option Text) → Handler N
reprint_replied (done (status, last_error)) s =
    if text_eq status (codes "printed") || text_eq status (codes "queued")
    then (s, toast (codes "Receipt reprinted") false ∷ [])
    else (
      s,
      toast
            (codes "Reprint status: "
              ++ (status
                  ++ (if is_truthy last_error then codes " — " ++ or_else last_error [] else [])))
            true
          ∷ [],
    )
reprint_replied (failed m) s = (s, toast (codes "Reprint failed: " ++ m) true ∷ [])

unfoldable pub replied : {N : Type 0} ⦃n : Number N⦄ → (r : Request) → Answer r → Handler N
replied (lookup_variant code had_last) a s = variant_replied code had_last a s
replied (list_products q) a s = products_replied a s
replied (get_products ids) a s = details_replied a s
replied (create_order body m due) a s = order_replied m due a s
replied list_parked a s = parked_replied a s
replied (create_parked body) a s = park_replied a s
replied (get_customer c p) a s = customer_replied p a s
replied (cancel_parked id) a s = recall_replied a s
replied (reprint tx) a s = reprint_replied a s
replied (void_tx tx) a s = storno_replied a s
replied (charge m shown) a s = payment_replied m shown a s
replied (authorize last) a s = authorization_replied last a s
