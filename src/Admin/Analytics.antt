-- ===== src/Admin/Analytics.antt =====
-- frontend/packages/admin/src/pages/AnalyticsPage.tsx: the summary of a period, and the chart of its
-- daily sales.
pub mod Chart
pub mod Late
use openmarket.Prelude.{
  ℕ, Bool, true, false, not, Option, none, some, List, [], ◌∷◌, if◌then◌else◌, ◌==◌, Number, ltb,
}
pub use openmarket.Shared.Machine.{Reply, done, failed}
use openmarket.Shared.Types.{AnalyticsSummary, DailySales}
use openmarket.Shared.Machine.{Machine, Run}

pub record State : Type 0 where
  pub summary : Option AnalyticsSummary
  pub loading : Bool
  pub days : ℕ
  pub low_stock : Option ℕ

pub data Request : Type 0 where
  -- `api.analytics.summary` and `api.inventory.lowStockCount`.
  summary_of : ℕ → Request
  count_low : Request

abbrev pub Answer : Request → Type 0
Answer (summary_of d) = Reply AnalyticsSummary
Answer count_low = Reply ℕ

-- The four buttons for a period.
pub data Event : Type 0 where
  today week month quarter : Event

abbrev pub days_of : Event → ℕ
days_of today = 1
days_of week = 7
days_of month = 30
days_of quarter = 90

-- `loadSummary`, up to its request.
unfoldable pub load_summary : ℕ → State → State × List Request
load_summary d s = (record s { loading = true }, summary_of d ∷ [])

-- A button sets the days, and if they are others the effect on them loads their summary.
unfoldable pub react : Event → State → State × List Request
unfolding load_summary
react e s =
    if days_of e == s.days
    then (s, [])
    else load_summary (days_of e) (record s { days = days_of e })

unfoldable pub replied : (r : Request) → Answer r → State → State
replied (summary_of d) (done x) s = record s { summary = some x; loading = false }
replied (summary_of d) (failed m) s = record s { loading = false }
replied count_low (done n) s = record s { low_stock = some n }
replied count_low (failed m) s = record s { low_stock = none }

abbrev pub page : Machine
page = record {
  State = State;
  Event = Event;
  Request = Request;
  Answer = Answer;
  is_offered = λ e s. true;
  react = react;
  replied = λ r a s. (replied r a s, []);
}

-- After the effects of the first render.
abbrev pub opened : Run page
opened = record {
  state = record { summary = none; loading = true; days = 1; low_stock = none };
  waiting = summary_of 1 ∷ count_low ∷ [];
}

-- What the card for low stock is marked by.
abbrev pub is_alarming : State → Bool
is_alarming s = elim s.low_stock [ none ↦ false | some n ↦ ltb 0 n ]

module _ {N : Type 0} ⦃n : Number N⦄ where
  abbrev pub revenue_of : DailySales → N
  revenue_of d = n.parse_float d.revenue

  -- `maxRevenue`: the largest of the revenues and 1.
  unfoldable pub max_revenue : List DailySales → N
  max_revenue [] = n.of_ℕ 1
  max_revenue (d ∷ ds) = n.max (revenue_of d) (max_revenue ds)

  -- The height in per cent of the bar of a day.
  unfoldable pub bar : List DailySales → DailySales → N
  unfolding max_revenue
  bar ds d = n.max (n.mul (n.div (revenue_of d) (max_revenue ds)) (n.of_ℕ 100)) (n.of_ℕ 2)
