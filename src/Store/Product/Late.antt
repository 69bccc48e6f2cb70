-- ===== src/Store/Product/Late.antt =====
-- ProductDetailPage.tsx: the reply for an address that has been left is shown under the next one.
use openmarket.Prelude.{ℕ, ◌≡◌, refl, arith, false, some, List, [], ◌∷◌, ◌==◌}
use openmarket.Shared.Types.{Product, CartItem}
use openmarket.Shared.Machine.{Run, Reach, here, more, act, reply, done}
use openmarket.Store.Product.Page.{
  get, went, start, page, load, initial, replied, react, is_offered,
}

abbrev pub opened : ℕ → List CartItem → Run page
opened i cart = record { state = (start (some i) cart).0; waiting = get i ∷ [] }

-- Whatever two products are, one can go from the address of the first to that of the second and, with
-- every request answered by its own product and no error, be shown the first one there.
pub late_product :
    (i j : ℕ) (p q : Product) (cart : List CartItem)
    → (i == j) ≡ false
    → (run : Run page) × Reach page (opened i cart) run
      × (run.waiting ≡ [])
      × (run.state.loading ≡ false)
      × (run.state.product_id ≡ some j)
      × (run.state.product ≡ some p)
unfolding start load initial react replied is_offered
late_product i j p q cart d = (
  _,
  more
      (more (more here (act (went (some j)) (ground arith) refl))
        (reply (get i ∷ []) [] (get j) (done q) refl refl))
      (reply [] [] (get i) (done p) refl refl),
  refl,
  refl,
  refl,
  refl,
)
