-- ===== src/Pos/Sale/Events.antt =====
-- SalePage.tsx: what a user, a modal or the keyboard does to the page, with the conditions under
-- which the page offers it, and the replies of the server.
use openmarket.Prelude.{
  ℕ, Bool, true, false, not, ◌&&◌, Option, none, some, [], ◌∷◌, ◌++◌, Number, ℤ, if◌then◌else◌,
  is_truthy, is_some, is_empty, Text, text_eq, codes, trim, is_filled, length, ltb, ◌==◌, any,
}
use openmarket.Shared.Types.{ProductVariant, Customer, ParkedSale}
use openmarket.Pos.Sale.Items.{is_unit_of, update_qty, remove_at}
use openmarket.Pos.Sale.State.{Page, PayMethod, cash, card, split, charge, authorize, send, toast}
use openmarket.Pos.Sale.Handlers.{
  Snapshot, Handler, snapshot, add_to_sale, add_by_barcode, search_products, weighed_confirmed,
  void_sale, park_sale, recall_sale, do_reprint,
}
use openmarket.Pos.Sale.Payments.{pay, render_of}
use openmarket.Pos.Sale.Keyboard.{Key, on_key}

pub data Event (N : Type 0) : Type 0 where
  typed_barcode : Text → Event N
  barcode_enter : Event N
  camera_clicked : Event N
  camera_detected : Text → Event N
  camera_closed : Event N
  typed_search : Text → Event N
  picked : Text → ProductVariant → Event N
  weighed_entered : N → Event N
  weighed_cancelled : Event N
  quantity_set : ℕ → ℤ → Event N
  line_removed : ℕ → Event N
  void_clicked : Event N
  void_confirmed : Event N
  void_cancelled : Event N
  return_clicked : Event N
  return_closed : Event N
  customer_clicked : Event N
  customer_attached : Customer → Event N
  customer_removed : Event N
  customer_closed : Event N
  park_clicked : Event N
  park_confirmed : Event N
  park_cancelled : Event N
  recall_clicked : Event N
  recall_picked : ParkedSale → Event N
  picker_closed : Event N
  pay_clicked : PayMethod → Event N
  payment_submitted : Event N
  payment_cancelled : Event N
  receipt_closed : Event N
  reprint_clicked : Event N
  storno_clicked : Event N
  storno_confirmed : Event N
  storno_cancelled : Event N
  override_submitted : Event N
  override_cancelled : Event N
  key : Key → Event N

abbrev pub same_method : PayMethod → Option PayMethod → Bool
same_method cash (some cash) = true
same_method card (some card) = true
same_method split (some split) = true
same_method _ _ = false

-- Whether the page offers the event: the button or the modal is rendered, and not disabled. A line's
-- stepper and its cross belong to lines that are there. A customer may also arrive after the
-- customer modal is closed, for its lookup goes on. Whether a payment or override modal is busy is its
-- own state (Pos/Payment, Pos/Modals): here it may be submitted or cancelled whenever it is shown.
unfoldable pub is_offered : {N : Type 0} → Event N → Page N → Bool
is_offered (camera_detected code) s = s.show_camera_scanner
is_offered camera_closed s = s.show_camera_scanner
is_offered (weighed_entered kg) s = is_some s.weighed_prompt
is_offered weighed_cancelled s = is_some s.weighed_prompt
is_offered (picked title v) s =
    any (λ r. text_eq r.title title && any (λ w. w.id == v.id) r.variants) s.search_results
is_offered (quantity_set id z) s = any (is_unit_of id) s.sale_items
is_offered (line_removed i) s = ltb i (length s.sale_items)
is_offered void_clicked s = not (is_empty s.sale_items)
is_offered void_confirmed s = s.confirm_void
is_offered void_cancelled s = s.confirm_void
is_offered return_closed s = s.show_return
is_offered customer_removed s = is_some s.attached_customer
is_offered customer_closed s = s.show_customer_modal
is_offered park_clicked s = not (is_empty s.sale_items) && not s.parking
is_offered park_confirmed s = s.confirm_park && not s.parking
is_offered park_cancelled s = s.confirm_park && not s.parking
is_offered recall_clicked s = ltb 0 s.parked_count
is_offered (recall_picked p) s = s.show_parked_picker
is_offered picker_closed s = s.show_parked_picker
is_offered (pay_clicked m) s = not (is_empty s.sale_items) && not (is_some s.pay_method)
is_offered payment_submitted s = is_some s.pay_method && is_some s.pending_order
is_offered payment_cancelled s = is_some s.pay_method && is_some s.pending_order
is_offered receipt_closed s = is_some s.receipt_data
is_offered reprint_clicked s = is_truthy s.last_tx_id
is_offered storno_clicked s = is_truthy s.last_tx_id
is_offered storno_confirmed s = s.confirm_storno
is_offered storno_cancelled s = s.confirm_storno
is_offered override_submitted s = s.storno_override_open
is_offered override_cancelled s = s.storno_override_open
is_offered _ s = true

-- What the event does. The snapshot is the one of the keyboard listener.
unfoldable pub react : {N : Type 0} ⦃n : Number N⦄ → Event N → Snapshot → Handler N
react (typed_barcode t) snap s = (record s { barcode_input = t }, [])
react barcode_enter snap s =
    if is_filled s.barcode_input then add_by_barcode (trim s.barcode_input) s else (s, [])
react camera_clicked snap s = (record s { show_camera_scanner = true }, [])
react (camera_detected code) snap s = add_by_barcode code (record s { show_camera_scanner = false })
react camera_closed snap s = (record s { show_camera_scanner = false }, [])
react (typed_search q) snap s = search_products q (record s { search_input = q })
react (picked title v) snap s = (add_to_sale (is_some s.last_sale) title v s, [])
react ⦃n⦄ (weighed_entered kg) snap s = weighed_confirmed (n.to_fixed 3 kg) s
react weighed_cancelled snap s = (record s { weighed_prompt = none }, [])
react (quantity_set id z) snap s = (record s { sale_items = update_qty id z s.sale_items }, [])
react (line_removed i) snap s = (record s { sale_items = remove_at i s.sale_items }, [])
react void_clicked snap s = (record s { confirm_void = true }, [])
react void_confirmed snap s = void_sale s
react void_cancelled snap s = (record s { confirm_void = false }, [])
react return_clicked snap s = (record s { show_return = true }, [])
react return_closed snap s = (record s { show_return = false }, [])
react customer_clicked snap s = (record s { show_customer_modal = true }, [])
react (customer_attached c) snap s = (
  record s { attached_customer = some c; show_customer_modal = false },
  toast (codes "Attached " ++ c.first_name) false ∷ [],
)
react customer_removed snap s = (record s { attached_customer = none }, [])
react customer_closed snap s = (record s { show_customer_modal = false }, [])
react park_clicked snap s = (record s { confirm_park = true }, [])
react park_confirmed snap s = park_sale s
react park_cancelled snap s = (record s { confirm_park = false }, [])
react recall_clicked snap s = (record s { show_parked_picker = true }, [])
react (recall_picked p) snap s = recall_sale p s
react picker_closed snap s = (record s { show_parked_picker = false }, [])
react (pay_clicked m) snap s = pay m (snapshot s) s
react payment_submitted snap s = elim s.pay_method [
  | none ↦ (s, [])
  | some m ↦ (s, send (charge m (render_of s)) ∷ [])
]
react payment_cancelled snap s = (record s { pay_method = none; pending_order = none }, [])
react receipt_closed snap s = (record s { receipt_data = none }, [])
react reprint_clicked snap s = do_reprint s
react storno_clicked snap s = (record s { confirm_storno = true }, [])
react storno_confirmed snap s =
    (record s { confirm_storno = false; storno_override_open = true }, [])
react storno_cancelled snap s = (record s { confirm_storno = false }, [])
react override_submitted snap s = (s, send (authorize s.last_tx_id) ∷ [])
react override_cancelled snap s = (record s { storno_override_open = false }, [])
react (key k) snap s = on_key k snap s
