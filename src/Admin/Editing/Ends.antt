-- ===== src/Admin/Editing/Ends.antt =====
-- ProductsInventoryPage.tsx: how the editing of a variant ends, and how it ends that of another one.
use openmarket.Prelude.{
  ℕ, ◌≡◌, refl, ap, sym, true, Option, none, some, [], ◌∷◌, ==_refl, Text, ℤ, arith,
}
use openmarket.Shared.Types.{Product, ProductVariant}
use openmarket.Shared.Machine.{Run, Reach, here, more, act, reply}
use openmarket.Admin.Variants.{VariantDraft, make_draft, payload_of}
use openmarket.Admin.Stock.Page as Page
use openmarket.Admin.Editing.{
  State, update, get_saved, done, start_edit_variant, cancel_edit_variant, save_variant, finish,
  replied, edit_clicked, draft_changed, cancel_clicked, save_clicked, has_row, is_offered, react,
  table,
}

module _ (parse_int : Text → Option ℤ) where
  abbrev pub still : State → Run (table parse_int)
  still s = record { state = s; waiting = [] }

  abbrev editing : State → ProductVariant → VariantDraft → State
  editing s v d = record s { editing_variant_id = some v.id; variant_draft = some d }

  -- The draft of a variant, changed to another one, is sent.
  abbrev saving : State → ProductVariant → VariantDraft → ℕ → Run (table parse_int)
  saving s v d i = record {
    state = editing s v d;
    waiting = update v.id (payload_of d) (some i) ∷ [];
  }

  saving_run :
      (s : State) (v : ProductVariant) (d : VariantDraft) (i : ℕ)
      → is_offered (edit_clicked v) s ≡ true
      → s.page.expanded_id ≡ some i
      → Reach (table parse_int) (still s) (saving s v d i)
  unfolding react start_edit_variant save_variant is_offered
  saving_run s v d i o e =
      let sent = ap (λ k. update v.id (payload_of d) k ∷ []) (sym e) in
      more (more (more here (act (edit_clicked v) o refl)) (act (draft_changed d) refl refl)) (
        act (save_clicked v.id) (==_refl v.id)
          (ap (λ w. record { state = editing s v d; waiting = w }) sent))

  -- Editing a variant whose row is shown, changing its draft to any other and saving it sends the payload
  -- of that draft for this variant; when the server accepts it and gives the product again, the page
  -- shows this product, nothing is edited any more, and nothing waits.
  pub edit_saved :
      (s : State) (v : ProductVariant) (d : VariantDraft) (i : ℕ) (p : Product)
      → is_offered (edit_clicked v) s ≡ true
      → s.page.expanded_id ≡ some i
      → (sent : Run (table parse_int)) × (end : Run (table parse_int)) × Reach
          (table parse_int)
          (still s)
          sent
        × (sent.waiting ≡ update v.id (payload_of d) (some i) ∷ [])
        × Reach (table parse_int) sent end
        × (end.waiting ≡ [])
        × (end.state.editing_variant_id ≡ none)
        × (end.state.variant_draft ≡ none)
        × (end.state.page.expanded_product ≡ some p)
  unfolding react replied start_edit_variant save_variant finish cancel_edit_variant is_offered
      Page.toast
  edit_saved s v d i p o e = (
    saving s v d i,
    _,
    saving_run s v d i o e,
    refl,
    more (more here (reply [] [] (update v.id (payload_of d) (some i)) (done tt) refl refl))
        (reply [] [] (get_saved i) (done p) refl refl),
    refl,
    refl,
    refl,
    refl,
  )

  -- A variant is saved, its editing is cancelled, and another variant is edited before the server
  -- answers: when the answers come, the draft of the other variant is thrown away.
  pub edit_lost :
      (s : State) (v w : ProductVariant) (d : VariantDraft) (i : ℕ) (p : Product)
      → is_offered (edit_clicked v) s ≡ true
      → has_row w.id s ≡ true
      → s.page.expanded_id ≡ some i
      → (before : Run (table parse_int)) × (end : Run (table parse_int)) × Reach
          (table parse_int)
          (still s)
          before
        × (before.state.editing_variant_id ≡ some w.id)
        × (before.state.variant_draft ≡ some d)
        × Reach (table parse_int) before end
        × (end.state.variant_draft ≡ none)
  unfolding react replied start_edit_variant save_variant finish cancel_edit_variant is_offered
      Page.toast
  edit_lost s v w d i p o k e =
      let first = make_draft v in
      (
        record { state = editing s w d; waiting = update v.id (payload_of first) (some i) ∷ [] },
        _,
        more
            (more (more (saving_run s v first i o e) (act cancel_clicked refl refl))
              (act (edit_clicked w) (ground (arith, k)) refl))
            (act (draft_changed d) refl refl),
        refl,
        refl,
        more (more here (reply [] [] (update v.id (payload_of first) (some i)) (done tt) refl refl))
            (reply [] [] (get_saved i) (done p) refl refl),
        refl,
      )
