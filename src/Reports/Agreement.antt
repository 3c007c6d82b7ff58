-- ===== src/Reports/Agreement.antt =====
-- The charts of the dashboard against the administration's report (modules/reports/service.py).
use electronic_shop.Base.{
  ℕ, suc, ◌+◌, ◌-◌, ◌*◌, ◌≡◌, ◌≤◌, refl, sym, ◌∙◌, Bool, true, false, List, [], ◌∷◌, ◌==◌,
  if◌then◌else◌, arith, some,
}
use electronic_shop.Reports.Models.{Stamped, Records, ReportRange, AdminReport}
use electronic_shop.Reports.Queries.{sum_where, where_rows, every, group_sum}
use electronic_shop.Reports.Service.{
  date_of, first_date, since, created_date, get_dashboard_charts, resolve_range, day_length,
}
use electronic_shop.Reports.Admin.{created_in, sold_in, report_between, get_admin_report}
use electronic_shop.Reports.Series.{
  total_of, total_in, total_in-group_sum, dated_in, total_of-series_from,
}
use electronic_shop.Reports.Service.{series_from, same_status}

module _ {A : Type 0} where
  sum_where-where_rows :
      (p q : A → Bool) (f : A → ℕ) (xs : List A)
      → sum_where p f (where_rows q xs) ≡ sum_where (λ x. if q x then p x else false) f xs
  unfolding sum_where where_rows
  sum_where-where_rows p q f [] = refl
  sum_where-where_rows p q f (x ∷ xs) = ground (arith, sum_where-where_rows p q f xs)

  sum_where-same :
      (p q : A → Bool) (f : A → ℕ) (xs : List A)
      → ((x : A) → p x ≡ q x)
      → sum_where p f xs ≡ sum_where q f xs
  unfolding sum_where
  sum_where-same p q f [] h = refl
  sum_where-same p q f (x ∷ xs) h = rw (h x, sum_where-same p q f xs h) refl

  -- A row of the window is one between its first second and the last second of its last date.
  window_rows :
      (start days today : ℕ) (x : Stamped A)
      → start + days ≡ suc today
      → (if since (start * day_length) x
          then dated_in created_date (λ y. 1) start days x
          else false)
        ≡ created_in (start * day_length) (today * day_length + (day_length - 1)) x
  window_rows start days today x h = ground arith

module _ {A : Type 0} (q : A → Bool) where
  kept_every : (f : A → ℕ) (xs : List A) → sum_where every f (where_rows q xs) ≡ sum_where q f xs
  kept_every f xs =
      sum_where-where_rows every q f xs
      ∙ sum_where-same (λ x. if q x then true else false) q f xs (λ x. ground arith)

-- The series of the rows that were queried, where its dates pick the wanted ones among them.
series_window :
    {A : Type 0} (queried wanted : Stamped A → Bool) (f : Stamped A → ℕ) (start days : ℕ)
    (xs : List (Stamped A))
    → ((x : Stamped A)
        → (if queried x then dated_in created_date f start days x else false) ≡ wanted x)
    → total_of (series_from (group_sum ◌==◌ created_date f (where_rows queried xs)) start days)
      ≡ sum_where wanted f xs
series_window queried wanted f start days xs h =
    total_of-series_from created_date f days start (where_rows queried xs)
    ∙ sum_where-where_rows (dated_in created_date f start days) queried f xs
    ∙ sum_where-same _ wanted f xs h

-- For a number of days of at least 1, and no more than there are since the epoch, the report on the
-- custom range of the same days is made, and the charts agree with it: the values of the revenue series
-- add up to its revenue, and those of the orders series to its orders over all statuses.
pub charts_agree :
    {D : Type 0} (divide : ℕ → ℕ → D) (decimal_zero : D) (days now : ℕ) (r : Records)
    → 1 ≤ days
    → days ≤ suc (date_of now)
    → (report : AdminReport D) × (get_admin_report divide decimal_zero ReportRange.custom
          (some (first_date days (date_of now)))
          (some (date_of now))
          now
          r
        ≡ some report)
      × (total_of (get_dashboard_charts days now r).revenue_per_day ≡ report.sales.total_revenue)
      × (total_of (get_dashboard_charts days now r).orders_per_day
          ≡ total_in report.orders_by_status)
unfolding get_admin_report resolve_range get_dashboard_charts
charts_agree divide decimal_zero days now r some_days enough =
    let today = date_of now in
    let start = first_date days today in
    let fits : start + days ≡ suc today = omega arith in
    let window_start = start * day_length in
    let window_end = today * day_length + (day_length - 1) in
    (
      report_between divide decimal_zero ReportRange.custom window_start window_end r,
      refl,
      series_window _ (sold_in window_start window_end) (λ o. o.row.total) start days r.orders
          (λ x. ground (arith, window_rows start days today x fits)),
      series_window _ (created_in window_start window_end) (λ o. 1) start days r.orders
            (λ x. window_rows start days today x fits)
          ∙ sym (kept_every (created_in window_start window_end) (λ o. 1) r.orders)
          ∙ sym (
              total_in-group_sum same_status (λ o. o.row.status) (λ o. 1)
                (where_rows (created_in window_start window_end) r.orders)),
    )
