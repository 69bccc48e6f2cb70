-- ===== src/Shared/Api/Staff.antt =====
-- api.ts: the calls for reports, customers, users, payments, the cash book and the devices.
use openmarket.Prelude.{
  ℕ, Option, none, some, List, [], ◌∷◌, ◌++◌, if◌then◌else◌, ◌==◌, Text, codes,
}
use openmarket.Shared.Numerals.{print}
use openmarket.Shared.Uri.{encode}
use openmarket.Shared.Api.{
  Params, qs, post, patch, delete, Sent, numbered, below, fetched, posted, replaced, bare,
  after_mark,
}

pub data Call (B : Type 0) : Type 0 where
  summary : Option ℕ → Call B
  tax_rates_list shipping_methods_list users_list store_info : Call B
  tax_rates_create shipping_methods_create customers_create users_create : B → Call B
  customers_list customers_lookup : Params → Call B
  customers_get customers_orders users_deactivate parked_get parked_cancel : ℕ → Call B
  customers_update : ℕ → B → Call B
  payment_cash payment_card payment_split : B → Call B
  receipts_reprint storno_void : Text → Call B
  kassenbuch_open kassenbuch_close paid_in paid_out parked_create : B → Call B
  kassenbuch_status parked_list health_db health_fiskaly health_printer health_terminal : Call B
  z_report : Text → Text → Call B
  transactions_list : Option ℕ → Option ℕ → Call B

-- `?days=${days}` of a number that is given and not 0.
abbrev days_of : Option ℕ → Text
days_of none = []
days_of (some n) = if n == 0 then [] else codes "?days=" ++ print n

-- The limit and the offset of the list of transactions, if they are not null.
abbrev pub page_of : Option ℕ → Option ℕ → List (Text × Text)
page_of limit offset =
    elim limit [ none ↦ [] | some n ↦ (codes "limit", print n) ∷ [] ]
    ++ elim offset [ none ↦ [] | some n ↦ (codes "offset", print n) ∷ [] ]

module _ {B : Type 0} where
  -- The method, the path below /api and the body of each call.
  unfoldable pub send : Call B → Sent B
  unfolding qs after_mark
  send (summary days) = fetched (codes "/analytics/summary" ++ days_of days)
  send tax_rates_list = fetched (codes "/tax-rates")
  send (tax_rates_create b) = posted (codes "/tax-rates") b
  send shipping_methods_list = fetched (codes "/shipping-methods")
  send (shipping_methods_create b) = posted (codes "/shipping-methods") b
  send (customers_list ps) = fetched (codes "/customers" ++ qs ps)
  send (customers_get i) = fetched (numbered "/customers/" i)
  send (customers_create b) = posted (codes "/customers") b
  send (customers_update i b) = replaced (numbered "/customers/" i) b
  send (customers_lookup ps) = fetched (codes "/customers/lookup" ++ qs ps)
  send (customers_orders i) = fetched (below "/customers/" i "/orders")
  send users_list = fetched (codes "/users")
  send (users_create b) = posted (codes "/users") b
  send (users_deactivate i) = bare patch (below "/users/" i "/deactivate")
  send (payment_cash b) = posted (codes "/payment/cash") b
  send (payment_card b) = posted (codes "/payment/card") b
  send (payment_split b) = posted (codes "/payment/split") b
  send store_info = fetched (codes "/store-info")
  send (receipts_reprint t) = bare post (codes "/receipts/" ++ t ++ codes "/reprint")
  send (kassenbuch_open b) = posted (codes "/kassenbuch/open") b
  send (kassenbuch_close b) = posted (codes "/kassenbuch/close") b
  send (paid_in b) = posted (codes "/kassenbuch/paid-in") b
  send (paid_out b) = posted (codes "/kassenbuch/paid-out") b
  send kassenbuch_status = fetched (codes "/kassenbuch/status")
  send (z_report t u) =
      fetched (codes "/reports/z-report?date_from=" ++ encode t ++ codes "&date_to=" ++ encode u)
  send (transactions_list limit offset) =
      fetched (codes "/pos-transactions" ++ after_mark (page_of limit offset))
  send (storno_void t) = bare post (codes "/pos-transactions/" ++ t ++ codes "/void")
  send parked_list = fetched (codes "/parked-sales")
  send (parked_create b) = posted (codes "/parked-sales") b
  send (parked_get i) = fetched (numbered "/parked-sales/" i)
  send (parked_cancel i) = bare delete (numbered "/parked-sales/" i)
  send health_db = fetched (codes "/health")
  send health_fiskaly = fetched (codes "/health/fiskaly")
  send health_printer = fetched (codes "/health/printer")
  send health_terminal = fetched (codes "/health/terminal")

-- `reports.dsfinvkUrl`, an address that the browser opens itself.
unfoldable pub dsfinvk_url : Text → Text → Text
dsfinvk_url t u = codes "/api/reports/dsfinvk?date_from=" ++ t ++ codes "&date_to=" ++ u
