-- ===== src/Collector/Queries.antt =====
-- internal/collector/queries.go and ports.CostQuery: what is asked of Cost Explorer at a time.
use aws_cost_exporter.Base.{◌%◌, ◌+◌, ◌≤◌, ◌<◌, ◌≡◌, List, [], ◌∷◌, arith}
use aws_cost_exporter.Base.Text.{Text}
use aws_cost_exporter.Domain.Dimension.{DimensionKind, Basis}
use aws_cost_exporter.Domain.Period.{
  day_length, Time, Period, new_period, day_containing, month_containing, month_containing-bounds,
  day_containing-bounds,
}
use aws_cost_exporter.Domain.Month.{BeginsMonthOf, month_containing-BeginsMonthOf}
use aws_cost_exporter.Domain.Cost.{Window, daily, month_to_date}
use aws_cost_exporter.Errors.{Result, ok, ◌>>=◌}

-- ports.CostQuery
pub record CostQuery : Type 0 where
  pub period : Period
  pub window : Window
  pub basis : Basis
  pub group_by : DimensionKind
  pub linked_account_ids : List Text
  pub services : List Text
  pub regions : List Text

abbrev pub cost_query : Period → Window → DimensionKind → CostQuery
cost_query period window group_by = record {
  period = period;
  window = window;
  basis = [];
  group_by = group_by;
  linked_account_ids = [];
  services = [];
  regions = [];
}

-- `BuildDailyAndMTDQueries`
unfoldable pub build_daily_and_mtd_queries : Time → DimensionKind → Result (List CostQuery)
build_daily_and_mtd_queries reference group_by = do
  let day = day_containing reference
  let month = month_containing reference
  to_date ← new_period month.start day.end
  ok (cost_query day daily group_by ∷ cost_query to_date month_to_date group_by ∷ [])

-- At every time there are the two queries: one for the day that holds the time, and one from the
-- start of its month to the end of that day, which lies in the month and holds the day. That start is
-- the midnight of a first day of a month, and no later day up to that of the time is a first one.
pub build_daily_and_mtd_queries-ok :
    (reference : Time) (group_by : DimensionKind)
    → let day = day_containing reference in
      let month = month_containing reference in
      let to_date : Period = record { start = month.start; end = day.end } in
      (build_daily_and_mtd_queries reference group_by
        ≡ ok (cost_query day daily group_by ∷ cost_query to_date month_to_date group_by ∷ []))
      × (month.start ≤ day.start)
      × (day.start ≤ reference)
      × (reference < day.end)
      × (day.end ≤ month.end)
      × (day.start % day_length ≡ 0)
      × (day.end ≡ day.start + day_length)
      × BeginsMonthOf month.start reference
unfolding build_daily_and_mtd_queries new_period
build_daily_and_mtd_queries-ok reference group_by =
    let d = day_containing-bounds reference in
    let m = month_containing-bounds reference in
    (
      ground (arith, d.0, d.1, m.0),
      m.0,
      d.0,
      d.1,
      m.1,
      d.3,
      d.2,
      month_containing-BeginsMonthOf reference,
    )
