-- ===== src/Admin/Orders/Export.antt =====
-- OrdersPage.tsx: the file of the orders (`handleExport`). How the browser writes a date is its own.
use openmarket.Prelude.{◌≡◌, refl, List, [], ◌∷◌, map, or_else, Text, codes, All}
use openmarket.Shared.Types.{OrderListItem}
use openmarket.Shared.Csv.{csv}
use openmarket.Shared.Csv.Reading.{HasCells, read_csv, read_csv-csv}

abbrev pub headers : List Text
headers =
    codes "Order #"
    ∷ codes "Source"
    ∷ codes "Customer"
    ∷ codes "Total"
    ∷ codes "Date"
    ∷ codes "Status"
    ∷ []

module _ (show_date : Text → Text) where
  unfoldable pub export_row : OrderListItem → List Text
  export_row o =
      o.order_number
      ∷ o.source
      ∷ or_else o.customer_name []
      ∷ (b'$' ∷ o.total_price)
      ∷ show_date o.created_at
      ∷ o.fulfillment_status
      ∷ []

  unfoldable pub handle_export : List OrderListItem → Text
  unfolding export_row
  handle_export os = csv headers (map export_row os)

  HasCells-rows : (os : List OrderListItem) → All HasCells (map export_row os)
  unfolding export_row
  HasCells-rows [] = tt
  HasCells-rows (o ∷ os) = (refl, HasCells-rows os)

  -- The exported file has the header and one row for each order, in their order, whatever characters
  -- the names of the customers have.
  pub read_csv-handle_export :
      (os : List OrderListItem) → read_csv (handle_export os) ≡ headers ∷ map export_row os
  unfolding handle_export
  read_csv-handle_export os = read_csv-csv headers (map export_row os) (refl, HasCells-rows os)
