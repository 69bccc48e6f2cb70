-- ===== src/Store/Checkout/Placing.antt =====
-- CartCheckoutPage.tsx: when an order is sent, what it says, and what becomes of the cart.
use openmarket.Prelude.{
  ◌+◌, ◌≤◌, ◌≡◌, refl, ◌↔◌, Bool, true, false, not, ◌&&◌, Option, [], ◌∷◌, Number, is_empty, Text,
  codes, arith,
}
use openmarket.Shared.Types.{Order}
use openmarket.Shared.Machine.{Machine, Run, Reach}
use openmarket.Shared.Machine.Flight.{flag, count, IsGuarded, Reach-IsBalanced}
use openmarket.Store.Checkout.Prices.{Reduction}
use openmarket.Store.Checkout.Form.{all_given, IsDeliverable, IsDeliverable-iff, all_given_of_clean}
use openmarket.Store.Checkout.Page.{
  Page, Request, create_order, order_body, can_submit, place_order, Event, is_offered, react,
  Answer, done, failed, replied, remove_confirmed, or_message,
}

or_message-nonempty : (t : Text) → is_empty (or_message t (codes "Failed to place order")) ≡ false
or_message-nonempty [] = refl
or_message-nonempty (c ∷ t) = refl

module _ {N : Type 0} where
  -- Placing an order sends it exactly when the delivery details are valid, the cart is not empty and
  -- no order is under way, and what is sent is the order of the page.
  pub place_order_iff :
      (s : Page N)
      → ((place_order s).1 ≡ create_order (order_body s) ∷ [])
        ↔ (IsDeliverable s.form × (is_empty s.items ≡ false) × (s.submitting ≡ false))
  unfolding place_order can_submit
  place_order_iff s = (
    λ h. ground (arith, (IsDeliverable-iff s.form).1),
    λ (d, i, b). ground (arith, (IsDeliverable-iff s.form).0 d, all_given_of_clean s.form d),
  )

  -- The order does not say which discount was applied: pages that differ in the discount and its code
  -- alone, and so may show different totals, send the same requests.
  pub order_without_discount :
      (s : Page N) (code : Text) (d : Option (Reduction N))
      → (place_order (record s { discount_code = code; discount = d })).1 ≡ (place_order s).1
  unfolding place_order can_submit order_body
  order_without_discount s code d = ground arith

module _ {N : Type 0} ⦃n : Number N⦄ where
  -- An order that the server accepts empties the cart and shows its number, and then the page offers
  -- nothing more. One that is refused leaves the cart, the delivery details and the choice of shipping,
  -- shows a message, and may be placed again if the page could be submitted before.
  pub order_outcome :
      (s : Page N) (order : Order) (message : Text) (e : Event)
      → is_empty order.order_number ≡ false
      → let request = create_order (order_body s) in
        let ok = replied request (done order) s in
        let refused = replied request (failed message) s in
        (ok.items ≡ [])
        × (ok.order_number ≡ order.order_number)
        × (is_offered e ok ≡ false)
        × (order_body refused ≡ order_body s)
        × (is_empty refused.error ≡ false)
        × (can_submit refused ≡ (all_given s.form && not (is_empty s.items)))
  unfolding replied is_offered can_submit order_body
  order_outcome s order message remove_confirmed h =
      (refl, refl, ground arith, refl, or_message-nonempty message, ground arith)
  order_outcome s order message e h =
      (refl, refl, ground arith, refl, or_message-nonempty message, ground arith)

abbrev pub is_order : Request → Bool
is_order (create_order body) = true
is_order r = false

module _ (N : Type 0) ⦃n : Number N⦄ where
  abbrev pub checkout : Machine
  checkout = record {
    State = Page N;
    Event = Event;
    Request = Request;
    Answer = Answer;
    is_offered = λ e s. is_offered e s;
    react = λ e s. react e s;
    replied = λ r a s. (replied r a s, []);
  }

  react-submitting :
      (e : Event) (s : Page N)
      → is_offered e s ≡ true
      → flag (react e s).0.submitting ≡ flag s.submitting + count is_order (react e s).1
  unfolding is_offered react place_order can_submit
  react-submitting remove_confirmed s o = ground arith
  react-submitting e s o = ground arith

  replied-submitting :
      (r : Request) (a : Answer r) (s : Page N)
      → flag (is_order r) ≤ flag s.submitting
      → flag (replied r a s).submitting + flag (is_order r) ≡ flag s.submitting + 0
  unfolding replied
  replied-submitting (create_order body) a s h = ground arith
  replied-submitting r a s h = ground arith

  checkout-IsGuarded : IsGuarded checkout is_order (λ s. s.submitting)
  checkout-IsGuarded = record { act_flag = react-submitting; reply_flag = replied-submitting }

  -- From a page that is not submitting and waits for no order, whatever the user does and in whatever
  -- order the replies arrive, at most one order is outstanding, and the page is submitting exactly
  -- while one is.
  pub one_order :
      {start run : Run checkout}
      → count is_order start.waiting ≡ flag start.state.submitting
      → Reach checkout start run
      → count is_order run.waiting ≡ flag run.state.submitting
  one_order h r = Reach-IsBalanced checkout is_order (λ s. s.submitting) checkout-IsGuarded h r
