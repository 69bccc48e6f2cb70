-- ===== src/Admin/Analytics/Chart.antt =====
-- AnalyticsPage.tsx: the heights of the bars of the chart.
use mathlib.Core.Path.{subst}
use openmarket.Prelude.{◌≡◌, ◌∙◌, ap, true, List, [], ◌∷◌, Number, IsIeee, IsScaled, arith, All}
use openmarket.Shared.Types.{DailySales}
use openmarket.Shared.Machine.Waiting.{All-weaken}
use openmarket.Admin.Analytics.{revenue_of, max_revenue, bar}

module _ {N : Type 0} ⦃n : Number N⦄ (laws : IsIeee N) (scaled : IsScaled N) where
  open laws use {le_trans, le-max}
  open scaled use {
    of_ℕ_mono, of_ℕ_finite, max_finite, finite_refl, refl_of_le_left, le-max_right, max-le,
    div_mono, div_self, mul_mono, one_mul,
  }

  abbrev pub IsFinite : DailySales → Type 0
  IsFinite d = n.is_finite (revenue_of d) ≡ true

  max_revenue_finite :
      (ds : List DailySales) → All IsFinite ds → n.is_finite (max_revenue ds) ≡ true
  unfolding max_revenue
  max_revenue_finite [] h = of_ℕ_finite 1 (omega arith)
  max_revenue_finite (d ∷ ds) h =
      max_finite (revenue_of d) (max_revenue ds) h.0 (max_revenue_finite ds h.1)

  one-le-max_revenue :
      (ds : List DailySales) → All IsFinite ds → n.le (n.of_ℕ 1) (max_revenue ds) ≡ true
  unfolding max_revenue
  one-le-max_revenue [] h = of_ℕ_mono 1 1 (omega arith)
  one-le-max_revenue (d ∷ ds) h =
      let rest = max_revenue ds in
      le_trans (n.of_ℕ 1) rest (n.max (revenue_of d) rest) (one-le-max_revenue ds h.1) (
        le-max_right (revenue_of d) rest (finite_refl rest (max_revenue_finite ds h.1))
          (finite_refl (revenue_of d) h.0))

  All-le-max_revenue :
      (ds : List DailySales)
      → All IsFinite ds
      → All (λ d. n.le (revenue_of d) (max_revenue ds) ≡ true) ds
  unfolding max_revenue
  All-le-max_revenue [] h = tt
  All-le-max_revenue (d ∷ ds) h =
      let rest = max_revenue ds in
      let own = finite_refl (revenue_of d) h.0 in
      let others = finite_refl rest (max_revenue_finite ds h.1) in
      (
        le-max (revenue_of d) rest others own,
        All-weaken (λ e. n.le (revenue_of e) rest ≡ true)
            (λ e. n.le (revenue_of e) (n.max (revenue_of d) rest) ≡ true) ds
            (λ e k.
              le_trans (revenue_of e) rest (n.max (revenue_of d) rest) k
                (le-max_right (revenue_of d) rest others own))
            (All-le-max_revenue ds h.1),
      )

  -- The share of the largest revenue, in per cent, before it is raised to 2.
  percent_mono :
      (ds : List DailySales) (a b : N)
      → All IsFinite ds
      → n.le a b ≡ true
      → n.le
          (n.mul (n.div a (max_revenue ds)) (n.of_ℕ 100))
          (n.mul (n.div b (max_revenue ds)) (n.of_ℕ 100))
        ≡ true
  percent_mono ds a b h k =
      mul_mono (n.div a (max_revenue ds)) (n.div b (max_revenue ds)) (n.of_ℕ 100)
        (of_ℕ_finite 100 (omega arith)) (of_ℕ_mono 1 100 (omega arith))
        (div_mono a b (max_revenue ds) (max_revenue_finite ds h) (one-le-max_revenue ds h) k)

  percent_whole :
      (ds : List DailySales)
      → All IsFinite ds
      → n.mul (n.div (max_revenue ds) (max_revenue ds)) (n.of_ℕ 100) ≡ n.of_ℕ 100
  percent_whole ds h =
      ap (λ q. n.mul q (n.of_ℕ 100))
        (div_self (max_revenue ds) (max_revenue_finite ds h) (one-le-max_revenue ds h))
      ∙ one_mul (n.of_ℕ 100)

  bar_within :
      (ds : List DailySales) (d : DailySales)
      → All IsFinite ds
      → n.le (revenue_of d) (max_revenue ds) ≡ true
      → (n.le (n.of_ℕ 2) (bar ds d) ≡ true) × (n.le (bar ds d) (n.of_ℕ 100) ≡ true)
  unfolding bar
  bar_within ds d h k =
      let share = n.mul (n.div (revenue_of d) (max_revenue ds)) (n.of_ℕ 100) in
      let below : n.le share (n.of_ℕ 100) ≡ true =
        subst (λ x. n.le share x ≡ true) (percent_whole ds h)
          (percent_mono ds (revenue_of d) (max_revenue ds) h k) in
      (
        le-max_right share (n.of_ℕ 2) (of_ℕ_mono 2 2 (omega arith))
            (refl_of_le_left share (n.of_ℕ 100) below),
        max-le share (n.of_ℕ 2) (n.of_ℕ 100) below (of_ℕ_mono 2 100 (omega arith)),
      )

  bar_mono :
      (ds : List DailySales) (d e : DailySales)
      → All IsFinite ds
      → n.le (revenue_of d) (revenue_of e) ≡ true
      → n.le (revenue_of e) (max_revenue ds) ≡ true
      → n.le (bar ds d) (bar ds e) ≡ true
  unfolding bar
  bar_mono ds d e h k m =
      let low = n.mul (n.div (revenue_of d) (max_revenue ds)) (n.of_ℕ 100) in
      let high = n.mul (n.div (revenue_of e) (max_revenue ds)) (n.of_ℕ 100) in
      let two : n.le (n.of_ℕ 2) (n.of_ℕ 2) ≡ true = of_ℕ_mono 2 2 (omega arith) in
      let upper : n.le high (n.of_ℕ 100) ≡ true =
        subst (λ x. n.le high x ≡ true) (percent_whole ds h)
          (percent_mono ds (revenue_of e) (max_revenue ds) h m) in
      let num = refl_of_le_left high (n.of_ℕ 100) upper in
      max-le low (n.of_ℕ 2) (n.max high (n.of_ℕ 2))
        (le_trans low high (n.max high (n.of_ℕ 2))
          (percent_mono ds (revenue_of d) (revenue_of e) h k) (le-max high (n.of_ℕ 2) two num))
        (le-max_right high (n.of_ℕ 2) two num)

  abbrev pub IsWithin : List DailySales → DailySales → Type 0
  IsWithin ds d =
      (n.le (n.of_ℕ 2) (bar ds d) ≡ true)
      × (n.le (bar ds d) (n.of_ℕ 100) ≡ true)
      × ((e : DailySales)
          → n.le (revenue_of e) (revenue_of d) ≡ true
          → n.le (bar ds e) (bar ds d) ≡ true)

  -- If the revenues are finite, every bar of the chart has between 2 and 100 per cent of its height, and
  -- of two days the one that has at least the other's revenue has at least its bar, under the laws of
  -- IEEE arithmetic.
  pub bars_in_chart : (ds : List DailySales) → All IsFinite ds → All (IsWithin ds) ds
  bars_in_chart ds h =
      All-weaken (λ d. n.le (revenue_of d) (max_revenue ds) ≡ true) (IsWithin ds) ds
        (λ d k. let (low, high) = bar_within ds d h k in (low, high, λ e l. bar_mono ds e d h l k))
        (All-le-max_revenue ds h)
