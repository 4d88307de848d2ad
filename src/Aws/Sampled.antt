-- ===== src/Aws/Sampled.antt =====
-- Two days of a service, mapped day by day and added up for the month.
use mathlib.Core.List.{Nodup, Mem}
use aws_cost_exporter.Base.{◌≡◌, ◌*◌, refl, List, [], ◌∷◌, map, All, some, if◌then◌else◌, ◌=?◌}
use aws_cost_exporter.Base.Keys.{list_same, lex_lt}
use aws_cost_exporter.Base.Dict.{find, put}
use aws_cost_exporter.Base.Float.{is_nan, is_inf}
use aws_cost_exporter.Base.Sort.{sort_by}
use aws_cost_exporter.Base.Text.{Text, text, text_same, key_lt, trim_space, is_space}
use aws_cost_exporter.Domain.Money.{new_money, parse_money, add}
use aws_cost_exporter.Domain.Period.{Period, day_length, new_period}
use aws_cost_exporter.Domain.Dimension.{new_dimension, dimension_service, unblended}
use aws_cost_exporter.Domain.Cost.{Cost, month_to_date}
use aws_cost_exporter.Errors.{Result, ok}
use aws_cost_exporter.Collector.Queries.{CostQuery, cost_query}
use aws_cost_exporter.Aws.Mapping.{
  Parsers, ResultByTime, metric_basis, aggregate_key, map_period, map_cost, map_groups, map_total,
  map_result, map_results, add_row, add_rows, key_before, aggregate_month_to_date, map_usage,
}
use aws_cost_exporter.Aws.Mapped.{IsMapped}
use aws_cost_exporter.Aws.Totals.{IsTotal, aggregate_month_to_date-totals}
use aws_cost_exporter.Aws.Known.{map_usage-IsMapped}
use aws_cost_exporter.Samples.{one, two}

-- Dates by their last digit, one decimal number, and a sum
abbrev parsers : Parsers
parsers = record {
  parse_date = λ s.
      if s =? text "2026-02-01"
      then some (739_647 * day_length)
      else if s =? text "2026-02-02"
      then some (739_648 * day_length)
      else some (739_649 * day_length);
  parse_float = λ _. some one;
  plus = λ a b. two;
}

abbrev result : Text → Text → ResultByTime
result start end = record {
  time_period = some (record { start = some start; end = some end });
  total = [];
  groups =
      record {
        keys = text "Amazon S3" ∷ [];
        metrics = (text "UnblendedCost", record { amount = text "1"; unit = text "USD" }) ∷ [];
      }
      ∷ [];
}

abbrev results : List ResultByTime
results =
    result (text "2026-02-01") (text "2026-02-02")
    ∷ result (text "2026-02-02") (text "2026-02-03")
    ∷ []

abbrev february : Period
february = record { start = 739_647 * day_length; end = 739_649 * day_length }

abbrev query : CostQuery
query = record (cost_query february month_to_date dimension_service) { basis = unblended }

abbrev costs_or_none : Result (List Cost) → List Cost
costs_or_none (ok costs) = costs
costs_or_none _ = []

abbrev mapped : List Cost
mapped = costs_or_none (map_usage parsers results query (text "UnblendedCost"))

results_mapped : map_usage parsers results query (text "UnblendedCost") ≡ ok mapped
unfolding map_usage map_results map_result map_total map_groups map_cost map_period metric_basis
    new_period new_dimension parse_money new_money add add_row add_rows aggregate_month_to_date
    sort_by key_before key_lt lex_lt find put list_same trim_space is_space is_nan is_inf
results_mapped = refl

map_usage-IsMapped_example :
    All (IsMapped query (text "UnblendedCost")) mapped
    × (query.window ≡ month_to_date
        → All (λ c. c.period ≡ query.period) mapped × Nodup (map aggregate_key mapped))
map_usage-IsMapped_example =
    map_usage-IsMapped query (text "UnblendedCost") parsers results mapped results_mapped

abbrev days : List Cost
days = costs_or_none (map_results parsers query (text "UnblendedCost") results)

days_total : aggregate_month_to_date parsers.plus days february ≡ ok mapped
unfolding map_usage map_results map_result map_total map_groups map_cost map_period metric_basis
    new_period new_dimension parse_money new_money add add_row add_rows aggregate_month_to_date
    sort_by key_before key_lt lex_lt find put list_same trim_space is_space is_nan is_inf
days_total = refl

aggregate_month_to_date-totals_example :
    Nodup (map aggregate_key mapped)
    × All (λ c. IsTotal parsers.plus february days (aggregate_key c) c) mapped
    × All (λ r. Mem (aggregate_key r) (map aggregate_key mapped)) days
aggregate_month_to_date-totals_example =
    aggregate_month_to_date-totals parsers.plus days february mapped days_total
