-- ===== src/Tests/Checkouts.antt =====
-- Store/Checkout at a concrete page.
use openmarket.Prelude.{
  ◌≡◌, refl, ◌↔◌, true, false, none, some, [], ◌∷◌, codes, is_empty, is_filled, text_eq,
}
use openmarket.Shared.Types.{TaxRate, ShippingMethod}
use openmarket.Shared.Machine.{Run, Reach, act, here, more}
use openmarket.Shared.Machine.Flight.{count, flag}
use openmarket.Store.Checkout.Prices.{Reduction, after_discount, final_total}
use openmarket.Store.Checkout.Amounts.{final_total_bounds}
use openmarket.Store.Checkout.Form.{Form, validate_form, IsDeliverable}
use openmarket.Store.Checkout.Page.{
  Page, placed, create_order, place_order, can_submit, order_body, is_offered, react,
}
use openmarket.Store.Checkout.Placing.{place_order_iff, one_order, checkout, is_order}
use openmarket.Tests.Samples.{cart}
use openmarket.Tests.Whole.{Whole, whole, whole-IsIeee}

abbrev form : Form
form = record {
  name = codes "Ann";
  phone = codes "010-1234-5678";
  address = codes "Road 1";
  city = codes "Berlin";
  zip = codes "10115";
}

abbrev rate : TaxRate
rate = record { id = 1; name = codes "VAT"; rate = codes "1"; region = []; is_default = true }

abbrev method : ShippingMethod
method = record {
  id = 5;
  name = codes "Post";
  price = codes "4";
  min_order_amount = codes "50";
  is_active = true;
}

abbrev reduction : Reduction Whole
reduction = record { type = codes "fixed_amount"; value = some 3 }

abbrev page : Page Whole
page = record {
  items = cart;
  form = form;
  discount_code = codes "THREE";
  discount = some reduction;
  error = [];
  field_errors = validate_form form;
  submitting = false;
  order_number = [];
  shipping_methods = method ∷ [];
  selected_shipping = some 5;
  tax_rates = rate ∷ [];
  confirm_remove = none;
}

-- 8 less 3 is 5; the tax is 5 more, and the shipping 4.
final_total_run : final_total (some reduction) (rate ∷ []) (method ∷ []) (some 5) (some 8) ≡ some 14
unfolding final_total text_eq
final_total_run = refl

final_total_bounds_example :
    let subtotal = after_discount (some reduction) (some 8) in
    (whole.le (some 0) subtotal ≡ true)
    × (whole.le subtotal (final_total (some reduction) (rate ∷ []) (method ∷ []) (some 5) (some 8))
        ≡ true)
unfolding after_discount text_eq
final_total_bounds_example =
    final_total_bounds whole-IsIeee reduction (rate ∷ []) (method ∷ []) (some 5) (some 8) refl refl
      refl ((refl, refl), tt) (refl, tt)

place_order_iff_example :
    ((place_order page).1 ≡ create_order (order_body page) ∷ [])
    ↔ (IsDeliverable page.form × (is_empty page.items ≡ false) × (page.submitting ≡ false))
place_order_iff_example = place_order_iff page

abbrev before : Run (checkout Whole)
before = record { state = page; waiting = [] }

abbrev after : Run (checkout Whole)
after = record { state = (react placed page).0; waiting = (react placed page).1 }

placing : Reach (checkout Whole) before after
unfolding is_offered can_submit is_filled
placing = more here (act placed refl refl)

one_order_example : count is_order after.waiting ≡ flag after.state.submitting
one_order_example = one_order Whole {start = before} refl placing
