-- ===== src/Tests/Charts.antt =====
-- Admin/Analytics and Pos/Shift at concrete inputs, with whole numbers.
use openmarket.Prelude.{◌≡◌, refl, none, some, List, [], ◌∷◌, All, or_else, text_eq, Text, codes}
use openmarket.Shared.Machine.{Run, Reach, here, more, act}
use openmarket.Shared.Types.{DailySales}
use openmarket.Admin.Analytics as Analytics
use openmarket.Admin.Analytics.Chart.{IsWithin, bars_in_chart}
use openmarket.Pos.Shift as Shift
use openmarket.Pos.Shift.Closing.{IsTens, IsTensSent, amount, opened, no_small_coins}
use openmarket.Tests.Whole.{Whole, whole, whole-IsIeee, whole-IsScaled}

-- A day of 40 and one of 10.
abbrev week : List DailySales
week =
    record { date = codes "2026-01-01"; order_count = 4; revenue = codes "40" }
    ∷ record { date = codes "2026-01-02"; order_count = 1; revenue = codes "10" }
    ∷ []

bars_run :
    Analytics.bar {N = Whole} week (record { date = []; order_count = 1; revenue = codes "40" })
    ≡ some 100
unfolding Analytics.bar
bars_run = refl

bars_in_chart_example : All (IsWithin whole-IsIeee whole-IsScaled week) week
bars_in_chart_example = bars_in_chart whole-IsIeee whole-IsScaled week (refl, (refl, tt))

abbrev parse : Text → Whole
parse = whole.parse_float

-- Three notes of ten and one coin of twenty cents.
abbrev counts : List (Text × Whole)
counts = (codes "10", some 3) ∷ (codes "0.2", some 1) ∷ []

abbrev sent : Run (Shift.closing Whole parse)
sent = record {
  state = record { counts = counts; summary = none; error = none };
  waiting = Shift.kassenbuch counts ∷ [];
}

sent_run : Reach (Shift.closing Whole parse) (opened Whole parse) sent
unfolding Shift.react Shift.is_offered text_eq
sent_run =
    more
      (more (more here (act (Shift.typed (codes "10") (codes "3")) refl refl))
        (act (Shift.typed (codes "0.2") (codes "1")) refl refl))
      (act Shift.submitted refl refl)

no_small_coins_example :
    IsTens (amount (λ c. or_else c 0) counts)
    × All (IsTensSent Whole parse (λ c. or_else c 0)) sent.waiting
no_small_coins_example = no_small_coins Whole parse (λ c. or_else c 0) sent_run
