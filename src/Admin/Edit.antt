-- ===== src/Admin/Edit.antt =====
-- frontend/packages/admin/src/pages/VariantEdit.tsx, and how ProductsInventoryPage.tsx opens it: the
-- dialog in which a variant is edited.
pub use openmarket.Shared.Machine.{Reply, done, failed}
use openmarket.Prelude.{
  ℕ, ◌≡◌, refl, ◌+◌, ◌≤◌, Bool, true, false, not, ◌&&◌, Option, none, some, List, [], ◌∷◌, ◌++◌,
  is_empty, or_else, Text, codes, arith,
}
use openmarket.Shared.Types.{ProductVariant, VariantDetail}
use openmarket.Shared.Machine.{Machine, Run, Reach}
use openmarket.Shared.Machine.Flight.{flag, count, IsGuarded, Reach-IsBalanced}

-- `text || null`.
abbrev pub or_null : Text → Option Text
or_null [] = none
or_null (c ∷ s) = some (c ∷ s)

-- What the button "Modal Edit" opens the dialog with.
unfoldable pub detail_of : ProductVariant → VariantDetail
detail_of v = record {
  id = v.id;
  product_id = v.product_id;
  title = v.title;
  sku = or_null v.sku;
  barcode = or_null v.barcode;
  price = v.price;
  pricing_type = or_else v.pricing_type (codes "fixed");
  vat_rate = codes "19.00";
  min_weight_kg = v.min_weight_kg;
  max_weight_kg = v.max_weight_kg;
  tare_kg = v.tare_kg;
}

-- The body of `api.variants.update`.
pub record VariantBody : Type 0 where
  pub title : Text
  pub sku : Option Text
  pub barcode : Option Text
  pub price : Text
  pub vat_rate : Text
  pub pricing_type : Text

pub record State : Type 0 where
  pub id : ℕ
  pub title : Text
  pub sku : Text
  pub barcode : Text
  pub price : Text
  pub vat_rate : Text
  pub pricing_type : Text
  pub busy : Bool
  pub error : Option Text
  -- What `onSaved` was called with, and how often `onCancel` was.
  pub saved : List VariantDetail
  pub cancelled : ℕ

unfoldable pub initial : VariantDetail → State
initial v = record {
  id = v.id;
  title = v.title;
  sku = or_else v.sku [];
  barcode = or_else v.barcode [];
  price = v.price;
  vat_rate = v.vat_rate;
  pricing_type = v.pricing_type;
  busy = false;
  error = none;
  saved = [];
  cancelled = 0;
}

pub data Request : Type 0 where
  update : ℕ → VariantBody → Request

pub data Event : Type 0 where
  title_typed sku_typed barcode_typed price_typed vat_chosen pricing_chosen : Text → Event
  submitted : Event
  closed : Event

unfoldable pub body_of : State → VariantBody
body_of s = record {
  title = s.title;
  sku = or_null s.sku;
  barcode = or_null s.barcode;
  price = s.price;
  vat_rate = s.vat_rate;
  pricing_type = s.pricing_type;
}

-- The fields for the title and the price are required, and the buttons are disabled while busy.
unfoldable pub is_offered : Event → State → Bool
is_offered submitted s = not s.busy && not (is_empty s.title) && not (is_empty s.price)
is_offered closed s = not s.busy
is_offered e s = true

unfoldable pub react : Event → State → State × List Request
unfolding body_of
react (title_typed t) s = (record s { title = t }, [])
react (sku_typed t) s = (record s { sku = t }, [])
react (barcode_typed t) s = (record s { barcode = t }, [])
react (price_typed t) s = (record s { price = t }, [])
react (vat_chosen t) s = (record s { vat_rate = t }, [])
react (pricing_chosen t) s = (record s { pricing_type = t }, [])
react submitted s = (record s { busy = true; error = none }, update s.id (body_of s) ∷ [])
react closed s = (record s { cancelled = s.cancelled + 1 }, [])

unfoldable pub replied : Request → Reply VariantDetail → State → State
replied (update i b) (done v) s = record s { saved = s.saved ++ v ∷ []; busy = false }
replied (update i b) (failed m) s = record s { error = some m; busy = false }

abbrev pub dialog : Machine
dialog = record {
  State = State;
  Event = Event;
  Request = Request;
  Answer = λ r. Reply VariantDetail;
  is_offered = is_offered;
  react = react;
  replied = λ r a s. (replied r a s, []);
}

react-busy :
    (e : Event) (s : State)
    → is_offered e s ≡ true
    → flag (react e s).0.busy ≡ flag s.busy + count (λ r. true) (react e s).1
unfolding react is_offered
react-busy e s o = ground arith

replied-busy :
    (r : Request) (a : Reply VariantDetail) (s : State)
    → 1 ≤ flag s.busy
    → flag (replied r a s).busy + 1 ≡ flag s.busy + 0
unfolding replied
replied-busy (update i b) (done v) s h = ground arith
replied-busy (update i b) (failed m) s h = ground arith

dialog-IsGuarded : IsGuarded dialog (λ r. true) (λ s. s.busy)
dialog-IsGuarded = record { act_flag = react-busy; reply_flag = replied-busy }

abbrev pub opened : VariantDetail → Run dialog
opened v = record { state = initial v; waiting = [] }

-- In every run at most one update of the variant waits for its reply, exactly while the dialog is busy,
-- and while one waits neither another one nor the cancellation is offered.
pub one_update :
    (v : VariantDetail) {run : Run dialog}
    → Reach dialog (opened v) run
    → (count (λ r. true) run.waiting ≡ flag run.state.busy)
      × (run.state.busy ≡ true
          → (is_offered submitted run.state ≡ false) × (is_offered closed run.state ≡ false))
unfolding initial is_offered
one_update v {run} r = (
  Reach-IsBalanced dialog (λ q. true) (λ s. s.busy) dialog-IsGuarded refl r,
  λ b. (rw b refl, rw b refl),
)

or_null-or_else-or_null : (t : Text) → or_null (or_else (or_null t) []) ≡ or_null t
or_null-or_else-or_null [] = refl
or_null-or_else-or_null (c ∷ s) = refl

-- Opening the dialog for a variant and saving it without a change sends back its own title, texts,
-- price and pricing, and 19 % as its tax rate, whichever rate the variant has.
pub saved_unchanged :
    (v : ProductVariant)
    → (react submitted (initial (detail_of v))).1
      ≡ update v.id (record {
        title = v.title;
        sku = or_null v.sku;
        barcode = or_null v.barcode;
        price = v.price;
        vat_rate = codes "19.00";
        pricing_type = or_else v.pricing_type (codes "fixed");
      })
        ∷ []
unfolding react body_of initial detail_of
saved_unchanged v = rw (or_null-or_else-or_null v.sku, or_null-or_else-or_null v.barcode) refl
