-- ===== src/Admin/Editing.antt =====
-- ProductsInventoryPage.tsx: editing a variant in the table, on the page that Admin/Stock models.
pub mod Ends
pub use openmarket.Shared.Machine.{Reply, done, failed}
use openmarket.Prelude.{
  ℕ, Bool, true, false, not, ◌&&◌, Option, none, some, List, [], ◌∷◌, ◌++◌, map, if◌then◌else◌, any,
  is_empty, is_some, ◌==◌, Text, codes, ℤ,
}
use openmarket.Shared.Types.{Product, ProductVariant, VariantDetail}
use openmarket.Shared.Machine.{Machine}
use openmarket.Admin.Variants.{VariantDraft, VariantPayload, make_draft, payload_of}
use openmarket.Admin.Stock.Page as Page

pub record State : Type 0 where
  pub page : Page.State
  pub editing_variant_id : Option ℕ
  pub variant_draft : Option VariantDraft

pub data Request : Type 0 where
  of_page : Page.Request → Request
  -- `api.variants.update`, with the row that is expanded in the render of the click.
  update : ℕ → VariantPayload → Option ℕ → Request
  -- `api.products.get`, after the update.
  get_saved : ℕ → Request

abbrev pub Answer : Request → Type 0
Answer (of_page r) = Page.Answer r
Answer (update i p e) = Reply (Unit {0})
Answer (get_saved i) = Reply Product

-- `startEditVariant`.
unfoldable pub start_edit_variant : ProductVariant → State → State
unfolding make_draft
start_edit_variant v s = record s {
  editing_variant_id = some v.id;
  variant_draft = some (make_draft v);
}

-- `cancelEditVariant`.
unfoldable pub cancel_edit_variant : State → State
cancel_edit_variant s = record s { editing_variant_id = none; variant_draft = none }

-- `saveVariant`, up to the request.
unfoldable pub save_variant : ℕ → State → List Request
unfolding payload_of
save_variant i s = elim s.variant_draft [
  | none ↦ []
  | some d ↦ update i (payload_of d) s.page.expanded_id ∷ []
]

abbrev pub told : Text → State → State
told t s = record s { page = Page.toast t s.page }

-- The end of `saveVariant`.
unfoldable pub finish : State → State
unfolding cancel_edit_variant
finish s = told (codes "Variant updated") (cancel_edit_variant s)

-- `e.message || "Failed to update variant"`.
unfoldable pub fail : Text → State → State
fail m s = told (if is_empty m then codes "Failed to update variant" else m) s

abbrev pub lift : State → Page.State × List Page.Request → State × List Request
lift s (p, sent) = (record s { page = p }, map of_page sent)

unfoldable pub replied : (r : Request) → Answer r → State → State × List Request
unfolding finish fail
replied (of_page r) a s = lift s (Page.replied r a s.page)
replied (update i p none) (done u) s = (finish s, [])
replied (update i p (some e)) (done u) s = (s, get_saved e ∷ [])
replied (update i p e) (failed m) s = (fail m s, [])
replied (get_saved i) (done p) s =
    (finish (record s { page = record s.page { expanded_product = some p } }), [])
replied (get_saved i) (failed m) s = (fail m s, [])

pub data Event : Type 0 where
  on_page : Page.Event → Event
  edit_clicked : ProductVariant → Event
  draft_changed : VariantDraft → Event
  cancel_clicked : Event
  save_clicked : ℕ → Event

abbrev pub is_editing : ℕ → State → Bool
is_editing i s =
    is_some s.variant_draft && elim s.editing_variant_id [ none ↦ false | some j ↦ j == i ]

-- The variant has a row in the table of the expanded product.
abbrev pub has_row : ℕ → State → Bool
has_row i s = elim s.page.expanded_product [
  | none ↦ false
  | some p ↦ any (λ v. v.id == i) p.variants
]

unfoldable pub is_offered : Event → State → Bool
is_offered (on_page e) s = Page.is_offered e s.page
is_offered (edit_clicked v) s = has_row v.id s && not (is_editing v.id s)
is_offered (draft_changed d) s = is_some s.variant_draft
is_offered cancel_clicked s = is_some s.variant_draft
is_offered (save_clicked i) s = is_editing i s

module _ (parse_int : Text → Option ℤ) where
  unfoldable pub react : Event → State → State × List Request
  unfolding start_edit_variant cancel_edit_variant save_variant
  react (on_page e) s = lift s (Page.react parse_int e s.page)
  react (edit_clicked v) s = (start_edit_variant v s, [])
  react (draft_changed d) s = (record s { variant_draft = some d }, [])
  react cancel_clicked s = (cancel_edit_variant s, [])
  react (save_clicked i) s = (s, save_variant i s)

  abbrev pub table : Machine
  table = record {
    State = State;
    Event = Event;
    Request = Request;
    Answer = Answer;
    is_offered = is_offered;
    react = react;
    replied = replied;
  }
