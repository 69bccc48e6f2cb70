-- ===== src/Store/Shop/Adding.antt =====
-- ShopPage.tsx: what the page does to the cart.
use openmarket.Prelude.{
  ℕ, ◌+◌, ◌≡◌, refl, List, [], ◌∷◌, ◌==◌, if◌then◌else◌, Bool-cases, inl, inr, arith,
}
use openmarket.Shared.Types.{Product, ProductVariant, CartItem}
use openmarket.Shared.Machine.{Run, Reach}
use openmarket.Shared.Machine.Waiting.{Reach-state}
use openmarket.Store.Cart.{add, apply}
use openmarket.Store.Cart.Validity.{IsValid, add_item-IsValid}
use openmarket.Store.Cart.Quantities.{pieces, apply-spec}
use openmarket.Store.Shop.Page.{
  State, Request, list, refetch, get, Answer, done, failed, Event, chosen, fired, quick_add, load,
  handle_inventory_update, start_quick_add, finish_quick_add, toast, replied, react, shop, is_zero,
  start, initial,
}

abbrev HasCart : State → Type 0
HasCart s = IsValid s.cart

react-cart : (e : Event) (s : State) → (react e s).0.cart ≡ s.cart
unfolding react load handle_inventory_update start_quick_add toast
react-cart (chosen t) s = ground arith
react-cart (quick_add p) s = ground arith
react-cart fired s = ground arith
react-cart e s = refl

-- The specification: how many pieces of a variant the reply to a request puts into the cart.
abbrev pub pieces_of : List ProductVariant → ℕ → ℕ
pieces_of [] j = 0
pieces_of (v ∷ vs) j = if is_zero v.available then 0 else if v.id == j then 1 else 0

abbrev pub brought : (r : Request) → Answer r → ℕ → ℕ
brought (get i) (done p) j = pieces_of p.variants j
brought (get i) (failed m) j = 0
brought (list q) a j = 0
brought (refetch q) a j = 0

finish-pieces :
    (p : Product) (vs : List ProductVariant) (s : State)
    → HasCart s
    → HasCart (finish_quick_add p vs s)
      × ((j : ℕ) → pieces (finish_quick_add p vs s).cart j ≡ pieces s.cart j + pieces_of vs j)
unfolding finish_quick_add toast apply
finish-pieces p [] s h = (h, λ j. omega arith)
finish-pieces p (v ∷ vs) s h = elim (Bool-cases (is_zero v.available)) [
  | inl z ↦ (rw (finish_quick_add, z) h, λ j. rw (finish_quick_add, z) (omega arith))
  | inr z ↦ (
    rw (finish_quick_add, z) (add_item-IsValid p v s.cart h),
    λ j. rw (finish_quick_add, z) (ground (arith, apply-spec (add p v) s.cart j h)),
  )
]

replied-pieces :
    (r : Request) (a : Answer r) (s : State)
    → HasCart s
    → HasCart (replied r a s)
      × ((j : ℕ) → pieces (replied r a s).cart j ≡ pieces s.cart j + brought r a j)
unfolding replied toast
replied-pieces (get i) (done p) s h = finish-pieces p p.variants s h
replied-pieces (get i) (failed m) s h = (h, λ j. omega arith)
replied-pieces (list q) (done ps) s h = (h, λ j. omega arith)
replied-pieces (list q) (failed m) s h = (h, λ j. omega arith)
replied-pieces (refetch q) (done ps) s h = (h, λ j. omega arith)
replied-pieces (refetch q) (failed m) s h = (h, λ j. omega arith)

abbrev pub first_render : List CartItem → Run shop
first_render cart = record { state = (start cart).0; waiting = (start cart).1 }

-- In every run from a valid cart the cart is valid; what the user does on this page and the timer leave
-- it as it is; and of the replies only that to a quick addition changes it: it adds one piece of the
-- first variant of the product, if it has one that is not known to be sold out.
pub quick_added :
    (cart : List CartItem)
    → IsValid cart
    → {run : Run shop} → Reach shop (first_render cart) run
    → IsValid run.state.cart
      × ((e : Event) → (react e run.state).0.cart ≡ run.state.cart)
      × ((r : Request) (a : Answer r) (j : ℕ)
          → pieces (replied r a run.state).cart j ≡ pieces run.state.cart j + brought r a j)
unfolding start initial load
quick_added cart h {run} r =
    let valid =
      Reach-state shop HasCart (λ e s o k. rw (react-cart e s) k)
        (λ q a s k. (replied-pieces q a s k).0) h r in
    (valid, λ e. react-cart e run.state, λ q a. (replied-pieces q a run.state valid).1)
