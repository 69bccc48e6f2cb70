-- ===== src/Store/Checkout/Page.antt =====
-- CartCheckoutPage.tsx: the state of the page, its handlers and the replies that they wait for. The
-- items are those of the cart's context, which the page changes through its operations.
pub use openmarket.Shared.Machine.{Reply, done, failed}
use openmarket.Prelude.{
  ℕ, ◌+◌, Bool, true, false, not, ◌&&◌, Option, none, some, List, [], ◌∷◌, map, Number, pos, pred_ℤ,
  if◌then◌else◌, is_empty, is_some, any, Text, codes, ◌==◌,
}
use openmarket.Shared.Types.{CartItem, TaxRate, ShippingMethod, Discount, Order}
use openmarket.Store.Cart.{has_id, update_quantity, remove_item}
use openmarket.Store.Checkout.Prices.{Reduction}
use openmarket.Store.Checkout.Form.{
  Form, Field, FieldErrors, validate_form, is_clean, all_given, edit_field, clear_error,
}

pub record Page (N : Type 0) : Type 0 where
  pub items : List CartItem
  pub form : Form
  pub discount_code : Text
  pub discount : Option (Reduction N)
  pub error : Text
  pub field_errors : FieldErrors
  pub submitting : Bool
  pub order_number : Text
  pub shipping_methods : List ShippingMethod
  pub selected_shipping : Option ℕ
  pub tax_rates : List TaxRate
  pub confirm_remove : Option ℕ

pub record OrderLine : Type 0 where
  pub variant_id : ℕ
  pub quantity : ℕ

pub record OrderBody : Type 0 where
  pub source : Text
  pub customer_name : Text
  pub customer_phone : Text
  pub address1 : Text
  pub city : Text
  pub zip : Text
  pub line_items : List OrderLine
  pub shipping_method_id : Option ℕ

pub data Request : Type 0 where
  list_methods : Request
  list_rates : Request
  lookup_discount : Text → Request
  create_order : OrderBody → Request

abbrev pub order_line : CartItem → OrderLine
order_line i = record { variant_id = i.variant.id; quantity = i.quantity }

module _ {N : Type 0} where
  -- The body that `placeOrder` sends.
  unfoldable pub order_body : Page N → OrderBody
  order_body s = record {
    source = codes "web";
    customer_name = s.form.name;
    customer_phone = s.form.phone;
    address1 = s.form.address;
    city = s.form.city;
    zip = s.form.zip;
    line_items = map order_line s.items;
    shipping_method_id = s.selected_shipping;
  }

  unfoldable pub can_submit : Page N → Bool
  can_submit s = all_given s.form && not (is_empty s.items) && not s.submitting

  -- `placeOrder` up to its request. The validation shows its messages in any case.
  unfoldable pub place_order : Page N → Page N × List Request
  unfolding can_submit
  place_order s =
      let errors = validate_form s.form in
      if is_clean errors && can_submit s
      then (
        record s { field_errors = errors; submitting = true; error = [] },
        create_order (order_body s) ∷ [],
      )
      else (record s { field_errors = errors }, [])

pub data Event : Type 0 where
  edited : Field → Text → Event
  code_typed : Text → Event
  code_applied : Event
  shipping_chosen : ℕ → Event
  fewer : CartItem → Event
  more : CartItem → Event
  remove_clicked : ℕ → Event
  remove_confirmed : Event
  remove_cancelled : Event
  placed : Event

module _ {N : Type 0} where
  -- Whether the page offers the event: after the order only its number is shown, and an empty cart
  -- has no form.
  unfoldable pub is_offered : Event → Page N → Bool
  unfolding can_submit
  is_offered remove_confirmed s = is_empty s.order_number && is_some s.confirm_remove
  is_offered remove_cancelled s = is_empty s.order_number && is_some s.confirm_remove
  is_offered (shipping_chosen i) s =
      is_empty s.order_number && not (is_empty s.items) && any (λ m. m.id == i) s.shipping_methods
  is_offered (fewer item) s = is_empty s.order_number && any (has_id item.variant.id) s.items
  is_offered (more item) s = is_empty s.order_number && any (has_id item.variant.id) s.items
  is_offered (remove_clicked i) s = is_empty s.order_number && any (has_id i) s.items
  is_offered placed s = is_empty s.order_number && can_submit s
  is_offered e s = is_empty s.order_number && not (is_empty s.items)

  unfoldable pub react : Event → Page N → Page N × List Request
  unfolding place_order
  react (edited f t) s =
      (record s { form = edit_field f t s.form; field_errors = clear_error f s.field_errors }, [])
  react (code_typed t) s = (record s { discount_code = t }, [])
  react code_applied s = (s, lookup_discount s.discount_code ∷ [])
  react (shipping_chosen i) s = (record s { selected_shipping = some i }, [])
  react (fewer item) s =
      (record s { items = update_quantity item.variant.id (pred_ℤ item.quantity) s.items }, [])
  react (more item) s =
      (record s { items = update_quantity item.variant.id (pos (item.quantity + 1)) s.items }, [])
  react (remove_clicked i) s = (record s { confirm_remove = some i }, [])
  react remove_confirmed s = elim s.confirm_remove [
    | none ↦ (s, [])
    | some i ↦ (record s { items = remove_item i s.items; confirm_remove = none }, [])
  ]
  react remove_cancelled s = (record s { confirm_remove = none }, [])
  react placed s = place_order s

abbrev pub Answer : Request → Type 0
Answer list_methods = Reply (List ShippingMethod)
Answer list_rates = Reply (List TaxRate)
Answer (lookup_discount code) = Reply Discount
Answer (create_order body) = Reply Order

-- The first method is selected when the methods arrive.
abbrev pub first_id : List ShippingMethod → Option ℕ → Option ℕ
first_id [] old = old
first_id (m ∷ ms) old = some m.id

-- `e.message || "Failed to place order"`.
abbrev pub or_message : Text → Text → Text
or_message [] d = d
or_message (c ∷ t) d = c ∷ t

module _ {N : Type 0} ⦃n : Number N⦄ where
  unfoldable pub replied : (r : Request) → Answer r → Page N → Page N
  replied list_methods (done ms) s = record s {
    shipping_methods = ms;
    selected_shipping = first_id ms s.selected_shipping;
  }
  replied list_methods (failed m) s = s
  replied list_rates (done rates) s = record s { tax_rates = rates }
  replied list_rates (failed m) s = s
  replied (lookup_discount code) (done d) s = record s {
    discount = some (record { type = d.discount_type; value = n.parse_float d.value });
    error = [];
  }
  replied (lookup_discount code) (failed m) s = record s {
    error = codes "Invalid or expired discount code";
    discount = none;
  }
  replied (create_order body) (done order) s = record s {
    order_number = order.order_number;
    items = [];
    submitting = false;
  }
  replied (create_order body) (failed m) s = record s {
    error = or_message m (codes "Failed to place order");
    submitting = false;
  }
