-- ===== src/App/Readings.antt =====
-- The total collector over the reader of the application, where AWS answers one page with one day.
use aws_cost_exporter.Base.{◌≡◌, ◌*◌, refl, [], ◌∷◌, none, some, if◌then◌else◌, ◌=?◌}
use aws_cost_exporter.Base.Keys.{list_same, lex_lt}
use aws_cost_exporter.Base.Dict.{find, put}
use aws_cost_exporter.Base.Float.{is_nan, is_inf, float_lt, float_eq}
use aws_cost_exporter.Base.Sort.{sort_by}
use aws_cost_exporter.Base.Text.{Text, text, text_same, key_lt, text_lt, trim_space, is_space}
use aws_cost_exporter.Domain.Money.{new_money, parse_money, add}
use aws_cost_exporter.Domain.Period.{
  Time, day_length, new_period, month_place, day_containing, month_containing,
}
use aws_cost_exporter.Domain.Dimension.{new_dimension, unblended, net}
use aws_cost_exporter.Domain.Cost.{cost_before, cost_less}
use aws_cost_exporter.Domain.Records.{
  sort_budgets, sort_accounts, sort_commitments, sort_anomalies, sort_tags,
}
use aws_cost_exporter.Errors.{Result, ok}
use aws_cost_exporter.Snapshot
use aws_cost_exporter.Snapshot.{Snapshot, no_snapshot, new_with_data}
use aws_cost_exporter.Snapshot.Owned.{OwnedBy}
use aws_cost_exporter.Snapshot.Validate.{contains}
use aws_cost_exporter.Collector.Queries.{build_daily_and_mtd_queries}
use aws_cost_exporter.Collector.Costs.{TotalCollector, total_costs, collect_total}
use aws_cost_exporter.Aws.Pagination.{page, read}
use aws_cost_exporter.Aws.Mapping.{
  Parsers, ResultByTime, metric_basis, map_period, map_cost, map_groups, map_total, map_result,
  map_results, add_row, add_rows, key_before, aggregate_month_to_date, map_usage,
}
use aws_cost_exporter.Aws.Usage.{
  UsageAdapter, metric_for_basis, usage_dimension, filter_terms, expression_of, dimension_filter,
  results_of, group_definition, fetch, read_costs,
}
use aws_cost_exporter.App.Reader.{
  FilteredReader, read_bases, read_filtered_costs, collect_total-OwnedBy,
}
use aws_cost_exporter.Samples.{prod, collector, one, two, noon}

abbrev parsers : Parsers
parsers = record {
  parse_date = λ s.
      if s =? text "2026-02-15" then some (739_661 * day_length) else some (739_662 * day_length);
  parse_float = λ _. some one;
  plus = λ a b. two;
}

abbrev day : ResultByTime
day = record {
  time_period = some (record { start = some (text "2026-02-15"); end = some (text "2026-02-16") });
  total =
      (text "UnblendedCost", record { amount = text "1"; unit = text "USD" })
      ∷ (text "NetUnblendedCost", record { amount = text "1"; unit = text "USD" })
      ∷ [];
  groups = [];
}

abbrev usage : UsageAdapter
usage = record {
  api = λ _. record {
    answer = λ _ _. page (record { results = day ∷ []; token = [] });
    context_error = λ _. none;
  };
  max_pages = 3;
  cost_metric = text "UnblendedCost";
}

abbrev reader : FilteredReader
reader = record {
  usage = usage;
  filters = record { linked_account_ids = []; services = []; regions = text "eu-west-1" ∷ [] };
  bases = unblended ∷ net ∷ [];
}

abbrev format_date : Time → Text
format_date t = text "2026-02-15"

abbrev total : TotalCollector
total = record {
  id = collector prod (text "total");
  reader = record {
    context_error = λ _. none;
    answer = read_filtered_costs parsers format_date reader;
  };
}

abbrev snapshot_of : Result Snapshot → Snapshot
snapshot_of (ok s) = s
snapshot_of _ = no_snapshot

abbrev total_made : Snapshot
total_made = snapshot_of (collect_total total noon)

total_collected : collect_total total noon ≡ ok total_made
unfolding collect_total total_costs read_filtered_costs read_bases read_costs metric_for_basis
    usage_dimension filter_terms expression_of dimension_filter results_of group_definition fetch
    read contains build_daily_and_mtd_queries month_place day_containing month_containing map_usage
    map_results map_result map_total map_groups map_cost map_period metric_basis new_period
    new_dimension parse_money new_money add add_row add_rows aggregate_month_to_date sort_by
    key_before key_lt text_lt lex_lt find put list_same trim_space is_space is_nan is_inf float_lt
    float_eq Snapshot.new new_with_data cost_before cost_less sort_budgets sort_accounts
    sort_commitments sort_anomalies sort_tags
total_collected = refl

collect_total-OwnedBy_example : OwnedBy prod total_made
collect_total-OwnedBy_example =
    collect_total-OwnedBy parsers format_date reader refl (λ _. none) total refl noon total_made
      total_collected
