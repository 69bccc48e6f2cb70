-- ===== src/Admin/Import.antt =====
-- frontend/packages/admin/src/pages/ProductsInventoryPage.tsx: the import of products from a file. A file
-- is a number.
use openmarket.Prelude.{
  ℕ, ◌≡◌, refl, true, Option, none, some, List, [], ◌∷◌, ◌++◌, if◌then◌else◌, is_empty, length,
  Text, codes,
}
use openmarket.Shared.Machine.{Machine, Run, Reach, Reply, done, failed, here, more, act, reply}
use openmarket.Shared.Numerals.{print}

-- What the server says of an import.
pub record Imported : Type 0 where
  pub created : ℕ
  pub skipped : ℕ
  pub errors : List Text

pub record State : Type 0 where
  pub toasts : List Text
  -- What has been written to the console.
  pub warned : List (List Text)

pub data Request : Type 0 where
  import_csv : ℕ → Request
  load_products : Request

abbrev pub Answer : Request → Type 0
Answer (import_csv f) = Reply Imported
Answer load_products = Reply (Unit {0})

pub data Event : Type 0 where
  -- The file input changes, with its first file if it has one.
  picked : Option ℕ → Event

abbrev pub told : Imported → Text
told r =
    codes "Imported "
    ++ (print r.created
        ++ (codes ", skipped "
            ++ (print r.skipped
                ++ (if is_empty r.errors
                    then []
                    else codes ", " ++ (print (length r.errors) ++ codes " errors")))))

-- `onCsvChange`, up to its request.
unfoldable pub react : Event → State → State × List Request
react (picked none) s = (s, [])
react (picked (some f)) s = (s, import_csv f ∷ [])

abbrev toast : Text → State → State
toast t s = record s { toasts = s.toasts ++ t ∷ [] }

-- A failure of the reload is caught as one of the import.
unfoldable pub replied : (r : Request) → Answer r → State → State × List Request
replied (import_csv f) (done r) s = (
  record (toast (told r) s) {
    warned = if is_empty r.errors then s.warned else s.warned ++ r.errors ∷ [];
  },
  load_products ∷ [],
)
replied (import_csv f) (failed m) s = (toast (codes "Import failed: " ++ m) s, [])
replied load_products (done u) s = (s, [])
replied load_products (failed m) s = (toast (codes "Import failed: " ++ m) s, [])

abbrev pub page : Machine
page = record {
  State = State;
  Event = Event;
  Request = Request;
  Answer = Answer;
  is_offered = λ e s. true;
  react = react;
  replied = replied;
}

-- If the file has been imported and the list of products fails to load, the page tells of the import and
-- then that it failed.
pub told_twice :
    (s : State) (f : ℕ) (r : Imported) (m : Text)
    → (run : Run page) × Reach page (record { state = s; waiting = [] }) run
      × (run.state.toasts ≡ (s.toasts ++ told r ∷ []) ++ (codes "Import failed: " ++ m) ∷ [])
      × (run.waiting ≡ [])
unfolding react replied
told_twice s f r m = (
  _,
  more
      (more (more here (act (picked (some f)) refl refl))
        (reply [] [] (import_csv f) (done r) refl refl))
      (reply [] [] load_products (failed m) refl refl),
  refl,
  refl,
)
