-- ===== src/Admin/Settings.antt =====
-- frontend/packages/admin/src/pages/SettingsPage.tsx: tax rates, shipping methods and discounts. How the
-- browser turns the text of a date field into an ISO date is a parameter.
pub mod Ends
use openmarket.Prelude.{
  ℕ, Bool, true, false, not, ◌&&◌, ◌||◌, any, ◌==◌, Option, none, some, List, [], ◌∷◌, ◌++◌,
  if◌then◌else◌, is_empty, Text, codes,
}
pub use openmarket.Shared.Machine.{Reply, done, failed}
use openmarket.Shared.Types.{TaxRate, ShippingMethod, Discount, Location, DiscountCreate, StoreInfo}
use openmarket.Shared.Machine.{Machine}

-- The fields of the three forms.
pub record TaxForm : Type 0 where
  pub name : Text
  pub rate : Text
  pub region : Text
  pub is_default : Bool

pub record ShipForm : Type 0 where
  pub name : Text
  pub price : Text
  pub min_order : Text

pub record DiscountForm : Type 0 where
  pub code : Text
  pub type : Text
  pub value : Text
  pub start : Text
  pub end : Text

pub record Loaded : Type 0 where
  pub tax_rates : List TaxRate
  pub shipping_methods : List ShippingMethod
  pub discounts : List Discount
  pub locations : List Location
  -- None if it cannot be loaded.
  pub store_info : Option StoreInfo

pub record State : Type 0 where
  pub shown : Loaded
  pub loading : Bool
  pub tax : TaxForm
  pub ship : ShipForm
  pub discount : DiscountForm
  pub toasts : List Text

abbrev pub blank_tax : TaxForm
blank_tax = record { name = []; rate = []; region = []; is_default = false }

abbrev pub blank_ship : ShipForm
blank_ship = record { name = []; price = []; min_order = [] }

abbrev pub blank_discount : DiscountForm
blank_discount = record { code = []; type = codes "percentage"; value = []; start = []; end = [] }

abbrev pub nothing_yet : Loaded
nothing_yet = record {
  tax_rates = [];
  shipping_methods = [];
  discounts = [];
  locations = [];
  store_info = none;
}

abbrev pub initial : State
initial = record {
  shown = nothing_yet;
  loading = true;
  tax = blank_tax;
  ship = blank_ship;
  discount = blank_discount;
  toasts = [];
}

pub data Request : Type 0 where
  -- The five requests of `loadAll`, which are awaited together.
  load_all : Request
  create_tax : TaxForm → Request
  -- The name, the price and the minimum of an active method.
  create_shipping : ShipForm → Request
  create_discount : DiscountCreate → Request
  delete_discount : ℕ → Request

abbrev pub Answer : Request → Type 0
Answer load_all = Reply Loaded
Answer (create_tax f) = Reply TaxRate
Answer (create_shipping f) = Reply ShippingMethod
Answer (create_discount b) = Reply Discount
Answer (delete_discount i) = Reply (Unit {0})

pub data Event : Type 0 where
  tax_typed : TaxForm → Event
  ship_typed : ShipForm → Event
  discount_typed : DiscountForm → Event
  tax_clicked ship_clicked discount_clicked : Event
  delete_clicked : ℕ → Event

-- The page is a spinner while it is loading.
-- A discount can be deleted if it is in the list.
unfoldable pub is_offered : Event → State → Bool
is_offered (delete_clicked i) s = not s.loading && any (λ d. d.id == i) s.shown.discounts
is_offered e s = not s.loading

-- `loadAll`, up to its requests.
unfoldable pub load : State → State × List Request
load s = (record s { loading = true }, load_all ∷ [])

unfoldable pub toast : Text → State → State
toast t s = record s { toasts = s.toasts ++ t ∷ [] }

-- `createTax` and `createShipping`, up to their requests.
unfoldable pub tax_requests : TaxForm → List Request
tax_requests f = if is_empty f.name || is_empty f.rate then [] else create_tax f ∷ []

unfoldable pub ship_requests : ShipForm → List Request
ship_requests f =
    if is_empty f.name || is_empty f.price
    then []
    else create_shipping
        (record f { min_order = if is_empty f.min_order then codes "0" else f.min_order })
      ∷ []

unfoldable pub replied : (r : Request) → Answer r → State → State × List Request
unfolding load toast
replied load_all (done l) s = (record s { shown = l; loading = false }, [])
replied (create_tax f) (done t) s =
    load (toast (codes "Tax rate created") (record s { tax = blank_tax }))
replied (create_shipping f) (done m) s =
    load (toast (codes "Shipping method created") (record s { ship = blank_ship }))
replied (create_discount b) (done d) s = load (
    toast (codes "Discount created")
      (record s { discount = record blank_discount { type = s.discount.type } }))
replied (delete_discount i) (done u) s = load (toast (codes "Discount deleted") s)
-- A failure is not caught.
replied load_all (failed m) s = (s, [])
replied (create_tax f) (failed m) s = (s, [])
replied (create_shipping f) (failed m) s = (s, [])
replied (create_discount b) (failed m) s = (s, [])
replied (delete_discount i) (failed m) s = (s, [])

module _ (iso : Text → Text) where
  -- `createDiscount`, up to its request.
  unfoldable pub discount_requests : DiscountForm → List Request
  discount_requests f =
      if is_empty f.code || is_empty f.value || is_empty f.start || is_empty f.end
      then []
      else create_discount (record {
        code = f.code;
        discount_type = f.type;
        value = f.value;
        starts_at = iso f.start;
        ends_at = iso f.end;
      })
        ∷ []

  unfoldable pub react : Event → State → State × List Request
  unfolding tax_requests ship_requests discount_requests
  react (tax_typed f) s = (record s { tax = f }, [])
  react (ship_typed f) s = (record s { ship = f }, [])
  react (discount_typed f) s = (record s { discount = f }, [])
  react tax_clicked s = (s, tax_requests s.tax)
  react ship_clicked s = (s, ship_requests s.ship)
  react discount_clicked s = (s, discount_requests s.discount)
  react (delete_clicked i) s = (s, delete_discount i ∷ [])

  abbrev pub page : Machine
  page = record {
    State = State;
    Event = Event;
    Request = Request;
    Answer = Answer;
    is_offered = is_offered;
    react = react;
    replied = replied;
  }
