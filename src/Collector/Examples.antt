-- ===== src/Collector/Examples.antt =====
-- Two costs limited to one series, and the queries of a day in February.
use aws_cost_exporter.Base.{◌%◌, ◌+◌, ◌≤◌, ◌<◌, ◌≡◌, [], ◌∷◌}
use aws_cost_exporter.Base.Dict.{Dict}
use aws_cost_exporter.Base.Text.{Text, text}
use aws_cost_exporter.Domain.Dimension.{dimension_account, dimension_total}
use aws_cost_exporter.Domain.Period.{day_length, Period, day_containing, month_containing}
use aws_cost_exporter.Domain.Cost.{Cost, daily, month_to_date}
use aws_cost_exporter.Errors.{ok}
use aws_cost_exporter.Collector.Cardinality.{Limited}
use aws_cost_exporter.Collector.Queries.{
  cost_query, build_daily_and_mtd_queries, build_daily_and_mtd_queries-ok,
}
use aws_cost_exporter.Domain.Month.{BeginsMonthOf}
use aws_cost_exporter.Samples.{prod, account_total, two, noon}

abbrev limited : Limited
limited = record {
  values = account_total prod (text "__other__") two ∷ [];
  overflows = record { dimension = dimension_account; count = 2 } ∷ [];
}

build_daily_and_mtd_queries-ok_example :
    let day = day_containing noon in
    let month = month_containing noon in
    let to_date : Period = record { start = month.start; end = day.end } in
    (build_daily_and_mtd_queries noon dimension_total
      ≡ ok (
          cost_query day daily dimension_total
          ∷ cost_query to_date month_to_date dimension_total
          ∷ []))
    × (month.start ≤ day.start)
    × (day.start ≤ noon)
    × (noon < day.end)
    × (day.end ≤ month.end)
    × (day.start % day_length ≡ 0)
    × (day.end ≡ day.start + day_length)
    × BeginsMonthOf month.start noon
build_daily_and_mtd_queries-ok_example = build_daily_and_mtd_queries-ok noon dimension_total
