-- ===== src/Admin/Create/Chain.antt =====
-- ProductsInventoryPage.tsx: creating a product and uploading its photo, to the end and when the upload
-- fails.
use openmarket.Prelude.{
  ℕ, ◌≡◌, refl, ap, ◌∙◌, true, false, Option, none, some, [], ◌∷◌, is_empty, Text, arith,
}
use openmarket.Shared.Types.{Product}
use openmarket.Shared.Machine.{Run, Reach, here, more, act, reply}
use openmarket.Admin.Create.{
  blank, State, create, upload_image, reload, done, failed, body_of, create_product, toast, finish,
  fail, replied, create_clicked, is_offered, react, form,
}

-- The click sends the product, if the handle is not empty either.
sent :
    (s : State) (i : Option ℕ)
    → is_offered create_clicked s ≡ true
    → is_empty s.draft.handle ≡ false
    → s.captured_image ≡ i
    → create_product s ≡ create (body_of s.draft) i ∷ []
unfolding create_product is_offered
sent s i o h c = sent_here ∙ ap (λ k. create (body_of s.draft) k ∷ []) c
  where
    sent_here : create_product s ≡ create (body_of s.draft) s.captured_image ∷ []
    sent_here = ground (arith, o, h)

module _ (lower : Text → Text) where
  -- When every request succeeds, creating a product with a photo sends the product, then the photo for
  -- the number that the product has been given, and then loads the lists again; the form is closed
  -- and blank then, without the photo.
  pub created_with_photo :
      (s : State) (i : ℕ) (p : Product)
      → is_offered create_clicked s ≡ true
      → is_empty s.draft.handle ≡ false
      → s.captured_image ≡ some i
      → (run : Run (form lower)) × Reach (form lower) (record { state = s; waiting = [] }) run
        × (run.waiting ≡ reload ∷ [])
        × (run.state.draft ≡ blank)
        × (run.state.show_create ≡ false)
        × (run.state.captured_image ≡ none)
  unfolding replied finish toast react
  created_with_photo s i p o h c =
      let first : create_product s ≡ create (body_of s.draft) (some i) ∷ [] =
        sent s (some i) o h c in
      (
        _,
        more
            (more (more here (act create_clicked o refl))
              (reply [] [] (create (body_of s.draft) (some i)) (done p) first refl))
            (reply [] [] (upload_image p.id i) (done tt) refl refl),
        refl,
        refl,
        refl,
        refl,
      )

  -- When the upload of the photo fails, the product exists already, but the form stays as it was: if the
  -- same button is clicked again it sends the same product once more, whatever the messages are.
  pub created_again :
      (s : State) (i : ℕ) (p : Product) (m : Text)
      → is_offered create_clicked s ≡ true
      → is_empty s.draft.handle ≡ false
      → s.captured_image ≡ some i
      → (run : Run (form lower)) × Reach (form lower) (record { state = s; waiting = [] }) run
        × (run.waiting ≡ [])
        × (is_offered create_clicked run.state ≡ true)
        × ((react lower create_clicked run.state).1 ≡ (react lower create_clicked s).1)
  unfolding replied fail toast react is_offered create_product body_of
  created_again s i p m o h c =
      let first : create_product s ≡ create (body_of s.draft) (some i) ∷ [] =
        sent s (some i) o h c in
      (
        _,
        more
            (more (more here (act create_clicked o refl))
              (reply [] [] (create (body_of s.draft) (some i)) (done p) first refl))
            (reply [] [] (upload_image p.id i) (failed m) refl refl),
        refl,
        o,
        refl,
      )
