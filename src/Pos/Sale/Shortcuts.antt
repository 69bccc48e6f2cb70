-- ===== src/Pos/Sale/Shortcuts.antt =====
-- SalePage.tsx: the keyboard listener. Its effect is run again when the number of lines changes, and
-- not when a quantity or the customer does, so what F8 orders may not be what the page shows.
use openmarket.Prelude.{
  ℕ, suc, pos, length, length-map, text_eq_iff, ◌≡◌, refl, sym, ◌⊎◌, Bool, true, false, Option,
  none, some, List, [], ◌∷◌, ◌++◌, Number, is_some, is_empty, arith,
}
use openmarket.Shared.Types.{Customer}
use openmarket.Pos.Sale.Items.{with_quantity, update_qty, total, SaleItem}
use openmarket.Pos.Sale.Bodies.{order_body}
use openmarket.Pos.Sale.State.{Page, PayMethod, cash, card, split, create_order, Effect, send}
use openmarket.Pos.Sale.Handlers.{Snapshot, snapshot}
use openmarket.Pos.Sale.Payments.{pay}
use openmarket.Pos.Sale.Events.{key, react, is_offered, pay_clicked, quantity_set}
use openmarket.Pos.Sale.Keyboard.{f8, Key, on_key, modal_open}
use openmarket.Pos.Sale.Run.{System, perform, commit, same, same_pay, same_deps}

module _ {N : Type 0} ⦃n : Number N⦄ where
  -- While one of the modals that the listener knows is open, F4, F8 and F9 change nothing and send
  -- nothing. Escape never sends anything and never touches the lines, the customer or the payment.
  pub shortcuts_suppressed :
      (k : Key) (snap : Snapshot) (s : Page N)
      → modal_open s ≡ true
      → ((on_key k snap s).1 ≡ [])
        × ((on_key k snap s).0.sale_items ≡ s.sale_items)
        × ((on_key k snap s).0.attached_customer ≡ s.attached_customer)
        × ((on_key k snap s).0.pay_method ≡ s.pay_method)
        × ((k ≡ Key.escape) ⊎ ((on_key k snap s).0 ≡ s))
  unfolding on_key
  shortcuts_suppressed Key.escape snap s h = ground arith
  shortcuts_suppressed k snap s h = ground arith

  -- What F8 sends when no modal is open: the order of the listener's snapshot.
  pub f8-sends :
      (snap : Snapshot) (s : Page N)
      → modal_open s ≡ false
      → is_empty snap.items ≡ false
      → (on_key f8 snap s).1
        ≡ send (
            create_order
              (order_body snap.items snap.customer)
              cash
              (n.to_fixed 2 (total snap.items)))
          ∷ []
  unfolding on_key pay
  f8-sends snap s m h = ground arith

same_refl : (b : Bool) → same b b ≡ true
same_refl true = refl
same_refl false = refl

same_pay_refl : (o : Option PayMethod) → same_pay o o ≡ true
same_pay_refl none = refl
same_pay_refl (some cash) = refl
same_pay_refl (some card) = refl
same_pay_refl (some split) = refl

-- Lines of the same number leave the dependencies as they are.
same_deps-lines :
    {N : Type 0} (s : Page N) (items : List SaleItem)
    → length s.sale_items ≡ length items
    → same_deps s (record s { sale_items = items }) ≡ true
unfolding same_deps
same_deps-lines s items h = ground (
  arith,
  same_refl (is_some s.receipt_data),
  text_eq_iff s.error s.error,
  same_refl s.show_return,
  same_refl (is_some s.weighed_prompt),
  same_pay_refl s.pay_method,
  same_refl s.show_customer_modal,
  same_refl s.show_parked_picker,
  same_refl s.confirm_void,
  same_refl s.confirm_park,
  same_refl s.confirm_storno,
  same_refl s.storno_override_open,
)

abbrev pub cash_order : (N : Type 0) ⦃n : Number N⦄ → List SaleItem → Option Customer → Effect
cash_order N ⦃n⦄ items customer =
    send (create_order (order_body items customer) cash (n.to_fixed 2 (total items)))

length-update_qty :
    (id q : ℕ) (items : List SaleItem) → length items ≡ length (update_qty id (pos (suc q)) items)
unfolding update_qty
length-update_qty id q items = sym (length-map (with_quantity id (suc q)) items)

-- The shortcut for paying reads an outdated sale. If a positive quantity is set on a page with lines
-- and no modal whose listener is up to date, the page has the new lines, and the button orders and
-- charges these, but F8 orders and charges the lines from before the change.
pub f8_outdated :
    {N : Type 0} ⦃n : Number N⦄ (sys : System N) (id q : ℕ)
    → sys.shortcuts ≡ snapshot sys.page
    → modal_open sys.page ≡ false
    → is_empty sys.page.sale_items ≡ false
    → let items = sys.page.sale_items in
      let customer = sys.page.attached_customer in
      let next = perform (quantity_set id (pos (suc q))) sys in
      (next.page.sale_items ≡ update_qty id (pos (suc q)) items)
      × ((react (pay_clicked cash) next.shortcuts next.page).1
          ≡ cash_order N (update_qty id (pos (suc q)) items) customer ∷ [])
      × ((react (key f8) next.shortcuts next.page).1 ≡ cash_order N items customer ∷ [])
unfolding perform react commit pay modal_open
f8_outdated {N} sys id q fresh m e =
    let s = sys.page in
    let t = record s { sale_items = update_qty id (pos (suc q)) s.sale_items } in
    let kept : same_deps s t ≡ true =
      same_deps-lines s t.sale_items (length-update_qty id q s.sale_items) in
    (refl, refl, rw kept (rw fresh (f8-sends (snapshot s) t m e)))

-- Paying is offered again while its order is being created. Clicked twice before the server answers,
-- it sends the same order twice, and both wait.
pub order_sent_twice :
    {N : Type 0} ⦃n : Number N⦄ (sys : System N) (m : PayMethod)
    → is_offered (pay_clicked m) sys.page ≡ true
    → let s = sys.page in
      let request =
        create_order
          (order_body s.sale_items s.attached_customer)
          m
          (n.to_fixed 2 (total s.sale_items)) in
      let once = perform (pay_clicked m) sys in
      (is_offered (pay_clicked m) once.page ≡ true)
      × ((perform (pay_clicked m) once).waiting ≡ (sys.waiting ++ request ∷ []) ++ request ∷ [])
unfolding perform react commit pay is_offered
order_sent_twice sys m o = (o, refl)
