-- ===== src/Admin/Analytics/Late.antt =====
-- AnalyticsPage.tsx: the summary of a period that is no longer chosen.
use openmarket.Prelude.{◌≡◌, refl, false, some, [], ◌∷◌}
use openmarket.Shared.Types.{AnalyticsSummary}
use openmarket.Shared.Machine.{Reach, Run, here, more, act, reply}
use openmarket.Admin.Analytics.{
  summary_of, count_low, done, week, days_of, react, replied, page, opened,
}

-- If the week is chosen while the summary of the day is on its way, and the replies come in the other
-- order, the page shows the day's summary under the chosen week, is not loading, and waits for nothing
-- more of it.
pub late_summary :
    (day seven : AnalyticsSummary)
    → (run : Run page) × Reach page opened run
      × (run.waiting ≡ count_low ∷ [])
      × (run.state.days ≡ days_of week)
      × (run.state.summary ≡ some day)
      × (run.state.loading ≡ false)
unfolding react replied
late_summary day seven = (
  _,
  more
      (more (more here (act week refl refl))
        (reply (summary_of 1 ∷ count_low ∷ []) [] (summary_of 7) (done seven) refl refl))
      (reply [] (count_low ∷ []) (summary_of 1) (done day) refl refl),
  refl,
  refl,
  refl,
  refl,
)
