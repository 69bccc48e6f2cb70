-- ===== src/Tests/Runs.antt =====
-- Pos/Sale/Run: runs of the till.
use openmarket.Prelude.{
  ◌≡◌, ◌≤◌, refl, true, false, none, some, List, [], ◌∷◌, codes, text_eq, Text,
}
use openmarket.Shared.Types.{VariantDetail, ParkedSale}
use openmarket.Pos.Sale.Items.{SaleItem, add_unit, total}
use openmarket.Pos.Sale.Bodies.{order_body, park_body, recall_items}
use openmarket.Pos.Sale.Lines.{nil-IsValid, add_unit-IsValid}
use openmarket.Pos.Sale.Validity.{IsParkedValid}
use openmarket.Pos.Sale.State.{
  Request, list_parked, lookup_variant, create_order, cancel_parked, charge, authorize, cash, done,
}
use openmarket.Pos.Sale.Handlers.{
  add_by_barcode, variant_replied, add_to_sale, is_by_weight, parked_replied, recall_sale,
  authorization_replied, do_storno,
}
use openmarket.Pos.Sale.Payments.{pay, order_replied, render_of, payment_replied, cash_paid, paid}
use openmarket.Pos.Sale.Events.{
  react, is_offered, camera_clicked, camera_detected, recall_clicked, recall_picked, pay_clicked,
  payment_submitted, storno_clicked, storno_confirmed, override_submitted,
}
use openmarket.Pos.Sale.Storno.{voids_sent, authorizations, voids_authorized}
use openmarket.Pos.Sale.Guarded.{
  authorizes, voided_in, WasAsked, StepMayEmpty, storno_guarded, sale_kept,
}
use openmarket.Tests.Samples.{order, cash_result, bread}
use openmarket.Pos.Sale.Replies.{replied}
use openmarket.Pos.Sale.Run.{
  System, start, perform, commit, Step, act, reply, Reach, here, more, IsSound, Reach-IsSound,
}
use openmarket.Tests.Whole.{Whole, whole, print_truthy}

-- A sale of bread is parked elsewhere; it is recalled here, and its order is created.
abbrev items : List SaleItem
items = add_unit (codes "Food") bread []

abbrev parked : ParkedSale
parked = record {
  id = 5;
  cashier_user_id = 1;
  customer_id = none;
  customer_name = none;
  items = (park_body items none).items;
  note = [];
  created_at = codes "2024-01-01";
  item_count = 1;
}

abbrev listed : System Whole
listed = commit start [] (replied list_parked (done (parked ∷ [])) (start {N = Whole}).page)

abbrev recalled : System Whole
recalled = perform (recall_picked parked) (perform recall_clicked listed)

abbrev recalled_ordering : System Whole
recalled_ordering = perform (pay_clicked cash) recalled

abbrev recalled_request : Request
recalled_request =
    create_order (order_body recalled.page.sale_items none) cash
      (whole.to_fixed 2 (total recalled.page.sale_items))

abbrev opened : System Whole
opened =
    commit recalled_ordering (cancel_parked 5 ∷ [])
      (replied recalled_request (done order) recalled_ordering.page)

recalled_run : Reach {N = Whole} recalled
unfolding is_offered perform start commit react replied parked_replied
recalled_run =
    more
      (more (more here (reply [] [] list_parked (done (parked ∷ [])) refl refl))
        (act recall_clicked refl refl))
      (act (recall_picked parked) refl refl)

recalled_offered : is_offered (pay_clicked cash) recalled.page ≡ true
unfolding is_offered perform start commit react replied parked_replied recall_sale recall_items
    park_body add_unit
recalled_offered = refl

recalled_waits : recalled_ordering.waiting ≡ cancel_parked 5 ∷ recalled_request ∷ []
unfolding perform start commit react replied parked_replied recall_sale recall_items park_body
    add_unit pay
recalled_waits = refl

run : Reach {N = Whole} opened
run =
    more (more recalled_run (act (pay_clicked cash) recalled_offered refl))
      (reply (cancel_parked 5 ∷ []) [] recalled_request (done order) recalled_waits refl)

parked_valid : IsParkedValid parked
parked_valid = (items, none, add_unit-IsValid (codes "Food") bread [] nil-IsValid, refl)

Reach-IsSound_example : IsSound {N = Whole} opened
unfolding run recalled_run
Reach-IsSound_example = Reach-IsSound run print_truthy (((((tt, tt), tt), parked_valid), tt), tt)

abbrev detail : VariantDetail
detail = record {
  id = 7;
  product_id = 1;
  title = codes "Bread";
  sku = none;
  barcode = some (codes "400");
  price = codes "3";
  pricing_type = codes "fixed";
  vat_rate = codes "7";
  min_weight_kg = none;
  max_weight_kg = none;
  tare_kg = none;
}

-- A sale is scanned, ordered, paid and then voided, while the first request still waits.
abbrev scanning : System Whole
scanning = perform (camera_detected (codes "400")) (perform camera_clicked start)

abbrev lookup : Request
lookup = lookup_variant (codes "400") false

abbrev scanned : System Whole
scanned = commit scanning (list_parked ∷ []) (replied lookup (done detail) scanning.page)

abbrev ordering : System Whole
ordering = perform (pay_clicked cash) scanned

abbrev order_request : Request
order_request =
    create_order (order_body scanned.page.sale_items none) cash
      (whole.to_fixed 2 (total scanned.page.sale_items))

abbrev ordered : System Whole
ordered = commit ordering (list_parked ∷ []) (replied order_request (done order) ordering.page)

-- The payment is submitted and reported, and then voided.
abbrev submitting : System Whole
submitting = perform payment_submitted ordered

abbrev charged : Request
charged = charge cash (render_of ordered.page)

abbrev settled : System Whole
settled = commit submitting (list_parked ∷ []) (replied charged (done cash_result) submitting.page)

abbrev overriding : System Whole
overriding = perform override_submitted (perform storno_confirmed (perform storno_clicked settled))

abbrev authorization : Request
authorization = authorize (some (codes "tx"))

abbrev voided_sale : System Whole
voided_sale =
    commit overriding (list_parked ∷ [])
      (replied authorization (done (codes "Max")) overriding.page)

scanning_run : Reach {N = Whole} scanning
unfolding is_offered perform start commit react
scanning_run =
    more (more here (act camera_clicked refl refl)) (act (camera_detected (codes "400")) refl refl)

scanning_waits : scanning.waiting ≡ list_parked ∷ lookup ∷ []
unfolding perform start commit react add_by_barcode
scanning_waits = refl

scanned_run : Reach {N = Whole} scanned
scanned_run =
    more scanning_run (reply (list_parked ∷ []) [] lookup (done detail) scanning_waits refl)

ordering_offered : is_offered (pay_clicked cash) scanned.page ≡ true
unfolding is_offered perform start commit react replied variant_replied add_to_sale is_by_weight
    text_eq add_unit add_by_barcode
ordering_offered = refl

ordering_waits : ordering.waiting ≡ list_parked ∷ order_request ∷ []
unfolding perform start commit react replied variant_replied pay is_by_weight text_eq add_by_barcode
ordering_waits = refl

ordered_run : Reach {N = Whole} ordered
ordered_run =
    more (more scanned_run (act (pay_clicked cash) ordering_offered refl))
      (reply (list_parked ∷ []) [] order_request (done order) ordering_waits refl)

submitting_run : Reach {N = Whole} submitting
unfolding is_offered replied order_replied commit perform
submitting_run = more ordered_run (act payment_submitted refl refl)

submitting_waits : submitting.waiting ≡ list_parked ∷ charged ∷ []
unfolding perform start commit react replied order_replied
submitting_waits = refl

paying : Step {N = Whole} submitting settled
paying = reply (list_parked ∷ []) [] charged (done cash_result) submitting_waits refl

overriding_run : Reach {N = Whole} overriding
unfolding is_offered perform start commit react replied order_replied payment_replied cash_paid paid
overriding_run =
    more
      (more (more (more submitting_run paying) (act storno_clicked refl refl))
        (act storno_confirmed refl refl))
      (act override_submitted refl refl)

overriding_waits : overriding.waiting ≡ list_parked ∷ authorization ∷ []
unfolding perform start commit react replied order_replied payment_replied cash_paid paid
overriding_waits = refl

voiding : Step {N = Whole} overriding voided_sale
voiding = reply (list_parked ∷ []) [] authorization (done (codes "Max")) overriding_waits refl

voided_run : Reach {N = Whole} voided_sale
voided_run = more overriding_run voiding

voids_authorized_example : voids_sent voided_run ≤ authorizations voided_run
voids_authorized_example = voids_authorized voided_run

storno_guarded_example :
    (authorizes voiding ≡ true)
    × ((t : Text) × (voided_in voiding ≡ t ∷ []) × WasAsked overriding_run (some t))
unfolding voiding replied authorization_replied do_storno
storno_guarded_example = storno_guarded overriding_run voiding (λ e. cc)

sale_kept_example : StepMayEmpty paying
unfolding perform start commit react replied order_replied payment_replied cash_paid paid
    variant_replied add_to_sale is_by_weight text_eq add_unit add_by_barcode pay
sale_kept_example = sale_kept paying refl refl
