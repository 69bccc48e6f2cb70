-- ===== src/Admin/Create.antt =====
-- frontend/packages/admin/src/pages/ProductsInventoryPage.tsx: the form for a new product. The photo is a
-- number that stands for the captured blob, and `toLowerCase` of the host is a parameter.
pub mod Chain
pub use openmarket.Shared.Machine.{Reply, done, failed}
use openmarket.Prelude.{
  ℕ, Bool, true, false, not, ◌&&◌, ◌||◌, Option, none, some, List, [], ◌∷◌, ◌++◌, if◌then◌else◌,
  is_empty, is_some, Text, codes,
}
use openmarket.Shared.Types.{Product}
use openmarket.Shared.Machine.{Machine}
use openmarket.Admin.Variants.{PricingType, fixed, by_weight}
use openmarket.Admin.Handles.{handle_of}

-- The fields of the form.
pub record Draft : Type 0 where
  pub title : Text
  pub handle : Text
  pub type : Text
  pub price : Text
  pub barcode : Text
  pub pricing_type : PricingType
  pub weight_unit : Text
  pub min_weight : Text
  pub max_weight : Text
  pub tare_weight : Text

abbrev pub blank : Draft
blank = record {
  title = [];
  handle = [];
  type = [];
  price = [];
  barcode = [];
  pricing_type = fixed;
  weight_unit = codes "kg";
  min_weight = [];
  max_weight = [];
  tare_weight = [];
}

pub record State : Type 0 where
  pub show_create : Bool
  pub draft : Draft
  pub captured_image : Option ℕ
  pub toasts : List Text

-- The variant of the body. A field that is not set is none.
pub record VariantBody : Type 0 where
  pub title : Text
  pub price : Text
  pub barcode : Text
  pub pricing_type : PricingType
  pub weight_unit : Option Text
  pub min_weight_kg : Option Text
  pub max_weight_kg : Option Text
  pub tare_kg : Option Text

pub record ProductBody : Type 0 where
  pub title : Text
  pub handle : Text
  pub product_type : Text
  pub variant : VariantBody

pub data Request : Type 0 where
  -- `api.products.create`, with the photo that the handler of this render has.
  create : ProductBody → Option ℕ → Request
  -- `api.products.uploadImage`.
  upload_image : ℕ → ℕ → Request
  -- `loadProducts(); loadInventory();`
  reload : Request

abbrev pub Answer : Request → Type 0
Answer (create b i) = Reply Product
Answer (upload_image p i) = Reply (Unit {0})
Answer reload = Unit {0}

-- What is set if it is not "".
abbrev pub if_given : Text → Option Text
if_given [] = none
if_given (c ∷ s) = some (c ∷ s)

unfoldable pub variant_of : Draft → VariantBody
variant_of d =
    let plain : VariantBody = record {
      title = codes "Default";
      price = d.price;
      barcode = d.barcode;
      pricing_type = d.pricing_type;
      weight_unit = none;
      min_weight_kg = none;
      max_weight_kg = none;
      tare_kg = none;
    } in
    elim d.pricing_type [
      | fixed ↦ plain
      | by_weight ↦ record plain {
        weight_unit = some d.weight_unit;
        min_weight_kg = if_given d.min_weight;
        max_weight_kg = if_given d.max_weight;
        tare_kg = if_given d.tare_weight;
      }
    ]

unfoldable pub body_of : Draft → ProductBody
unfolding variant_of
body_of d = record {
  title = d.title;
  handle = d.handle;
  product_type = d.type;
  variant = variant_of d;
}

-- `createProduct`, up to the first request.
unfoldable pub create_product : State → List Request
unfolding body_of
create_product s =
    if is_empty s.draft.title || is_empty s.draft.handle || is_empty s.draft.price
    then []
    else create (body_of s.draft) s.captured_image ∷ []

unfoldable pub toast : Text → State → State
toast t s = record s { toasts = s.toasts ++ t ∷ [] }

-- The end of `createProduct`.
unfoldable pub finish : State → State × List Request
unfolding toast
finish s =
    (toast (codes "Product created") (record s { draft = blank; show_create = false }), reload ∷ [])

-- `e.message || "Failed to create product"`.
unfoldable pub fail : Text → State → State
unfolding toast
fail m s = toast (if is_empty m then codes "Failed to create product" else m) s

unfoldable pub replied : (r : Request) → Answer r → State → State × List Request
unfolding finish fail
replied (create b none) (done p) s = finish s
replied (create b (some i)) (done p) s = (s, upload_image p.id i ∷ [])
replied (create b i) (failed m) s = (fail m s, [])
replied (upload_image p i) (done u) s = finish (record s { captured_image = none })
replied (upload_image p i) (failed m) s = (fail m s, [])
replied reload u s = (s, [])

pub data Event : Type 0 where
  toggled : Event
  -- The title is typed, or read by the scanner, and the handle follows it.
  title_typed title_scanned : Text → Event
  handle_typed type_typed price_typed barcode_typed barcode_scanned : Text → Event
  pricing_chosen : PricingType → Event
  unit_chosen min_typed max_typed tare_typed : Text → Event
  photo_captured : ℕ → Event
  photo_removed : Event
  create_clicked : Event

abbrev pub is_weighed : PricingType → Bool
is_weighed fixed = false
is_weighed by_weight = true

unfoldable pub is_offered : Event → State → Bool
is_offered toggled s = true
is_offered (title_scanned t) s = true
is_offered (barcode_scanned t) s = true
is_offered (photo_captured i) s = true
is_offered (unit_chosen t) s = s.show_create && is_weighed s.draft.pricing_type
is_offered (min_typed t) s = s.show_create && is_weighed s.draft.pricing_type
is_offered (max_typed t) s = s.show_create && is_weighed s.draft.pricing_type
is_offered (tare_typed t) s = s.show_create && is_weighed s.draft.pricing_type
is_offered photo_removed s = s.show_create && is_some s.captured_image
is_offered create_clicked s =
    s.show_create && not (is_empty s.draft.title) && not (is_empty s.draft.price)
is_offered e s = s.show_create

abbrev pub edited : Draft → State → State
edited d s = record s { draft = d }

module _ (lower : Text → Text) where
  -- The title, with the handle that is made of it.
  unfoldable pub titled : Text → Draft → Draft
  unfolding handle_of
  titled t d = record d { title = t; handle = handle_of lower t }

  unfoldable pub react : Event → State → State × List Request
  unfolding titled create_product
  react toggled s = (record s { show_create = not s.show_create }, [])
  react (title_typed t) s = (edited (titled t s.draft) s, [])
  react (title_scanned t) s = (edited (titled t s.draft) s, [])
  react (handle_typed t) s = (edited (record s.draft { handle = t }) s, [])
  react (type_typed t) s = (edited (record s.draft { type = t }) s, [])
  react (price_typed t) s = (edited (record s.draft { price = t }) s, [])
  react (barcode_typed t) s = (edited (record s.draft { barcode = t }) s, [])
  react (barcode_scanned t) s = (edited (record s.draft { barcode = t }) s, [])
  react (pricing_chosen p) s = (edited (record s.draft { pricing_type = p }) s, [])
  react (unit_chosen t) s = (edited (record s.draft { weight_unit = t }) s, [])
  react (min_typed t) s = (edited (record s.draft { min_weight = t }) s, [])
  react (max_typed t) s = (edited (record s.draft { max_weight = t }) s, [])
  react (tare_typed t) s = (edited (record s.draft { tare_weight = t }) s, [])
  react (photo_captured i) s = (record s { captured_image = some i }, [])
  react photo_removed s = (record s { captured_image = none }, [])
  react create_clicked s = (s, create_product s)

  abbrev pub form : Machine
  form = record {
    State = State;
    Event = Event;
    Request = Request;
    Answer = Answer;
    is_offered = is_offered;
    react = react;
    replied = replied;
  }
