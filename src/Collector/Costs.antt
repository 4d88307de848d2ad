-- ===== src/Collector/Costs.antt =====
-- The collectors that read costs: internal/collector/total, service, region and account, each
-- collector.go. A nil reader is `none`; the observers are told of the overflows of a collection.
use aws_cost_exporter.Base.{
  Bool, ◌&&◌, ◌||◌, not, List, [], ◌∷◌, ◌++◌, map, Option, every, leb, ◌==◌, ◌=?◌,
}
use aws_cost_exporter.Base.Int.{ℤ, pos, leb_ℤ}
use aws_cost_exporter.Base.Float.{Float64}
use aws_cost_exporter.Base.Text.{Text, text, text_same, byte_length}
use aws_cost_exporter.Domain.Identity.{TargetId, CollectorId, is_valid}
use aws_cost_exporter.Domain.Dimension.{
  dimension_total, dimension_service, dimension_region, dimension_account,
}
use aws_cost_exporter.Domain.Period.{Time}
use aws_cost_exporter.Domain.Cost.{Cost}
use aws_cost_exporter.Errors.{
  Result, ok, ◌>>=◌, ◌>>◌, fail_if, or_fail, nil_reader, invalid_target, invalid_series_limit,
  invalid_account_id,
}
use aws_cost_exporter.Snapshot
use aws_cost_exporter.Snapshot.{Snapshot}
use aws_cost_exporter.Collector.Queries.{CostQuery, build_daily_and_mtd_queries}
use aws_cost_exporter.Collector.Grouped.{
  GroupedReader, Collected, Plan, unless_done, retarget, validate_overflow_label, collect_grouped,
}

-- total.Collector
pub record TotalCollector : Type 0 where
  pub id : CollectorId
  pub reader : GroupedReader

-- total.NewForTarget
unfoldable pub new_total : TargetId → Option GroupedReader → Result TotalCollector
new_total target reader = do
  given ← or_fail reader nil_reader
  let id : CollectorId = record { target = target; name = text "total" }
  fail_if (not (is_valid id)) invalid_target
  ok (record { id = id; reader = given })

-- The loop of total.Collect
unfoldable pub total_costs : TotalCollector → List CostQuery → Result (List Cost)
total_costs c [] = ok []
total_costs c (query ∷ queries) = do
  unless_done (c.reader.context_error query)
  values ← c.reader.answer query
  rest ← total_costs c queries
  ok (map (retarget c.id.target) values ++ rest)

-- total.Collect
unfoldable pub collect_total : TotalCollector → Time → Result Snapshot
collect_total c reference = do
  queries ← build_daily_and_mtd_queries reference dimension_total
  collected ← total_costs c queries
  ok (Snapshot.new collected [] [] [])

-- service.Collector and region.Collector
pub record GroupedCollector : Type 0 where
  pub id : CollectorId
  pub reader : GroupedReader
  pub series_limit : ℤ
  pub overflow_label : Text

-- service.NewForTarget
unfoldable pub new_service : TargetId → Option GroupedReader → ℤ → Text → Result GroupedCollector
new_service target reader series_limit overflow_label = do
  given ← or_fail reader nil_reader
  fail_if (leb_ℤ series_limit (pos 0)) invalid_series_limit
  validate_overflow_label overflow_label
  ok (record {
    id = record { target = target; name = text "service" };
    reader = given;
    series_limit = series_limit;
    overflow_label = overflow_label;
  })

-- region.NewForTarget
unfoldable pub new_region : TargetId → Option GroupedReader → ℤ → Text → Result GroupedCollector
new_region target reader series_limit overflow_label = do
  given ← or_fail reader nil_reader
  fail_if (leb_ℤ series_limit (pos 0)) invalid_series_limit
  validate_overflow_label overflow_label
  ok (record {
    id = record { target = target; name = text "region" };
    reader = given;
    series_limit = series_limit;
    overflow_label = overflow_label;
  })

-- Nil for mutate and for validate
abbrev pub plain_plan : GroupedCollector → Plan
plain_plan c = record {
  target = c.id.target;
  series_limit = c.series_limit;
  overflow_label = c.overflow_label;
  mutate = λ query. query;
  check = λ values. ok tt;
}

module _ (plus : Float64 → Float64 → Float64) where
  -- service.Collect
  unfoldable pub collect_service : GroupedCollector → Time → Result Collected
  collect_service c reference =
      collect_grouped plus (plain_plan c) c.reader reference dimension_service

  -- region.Collect
  unfoldable pub collect_region : GroupedCollector → Time → Result Collected
  collect_region c reference =
      collect_grouped plus (plain_plan c) c.reader reference dimension_region

-- `validAccountID`
unfoldable pub valid_account_id : Text → Bool
valid_account_id value = byte_length value == 12 && every (λ c. leb b'0' c && leb c b'9') value

-- `validateAccountCosts`
unfoldable pub validate_account_costs : List Cost → Result (Unit {0})
validate_account_costs [] = ok tt
validate_account_costs (value ∷ values) = do
  fail_if
      (not (value.dimension.kind =? dimension_account)
        || not (valid_account_id value.dimension.value))
      invalid_account_id
  validate_account_costs values

-- account.Collector
pub record AccountCollector : Type 0 where
  pub id : CollectorId
  pub reader : GroupedReader
  pub linked_account_ids : List Text
  pub series_limit : ℤ
  pub overflow_label : Text

-- account.NewForTarget
unfoldable pub new_account_collector :
    TargetId → Option GroupedReader → List Text → ℤ → Text → Result AccountCollector
new_account_collector target reader linked_account_ids series_limit overflow_label = do
  given ← or_fail reader nil_reader
  fail_if (leb_ℤ series_limit (pos 0)) invalid_series_limit
  validate_overflow_label overflow_label
  fail_if (not (every valid_account_id linked_account_ids)) invalid_account_id
  ok (record {
    id = record { target = target; name = text "account" };
    reader = given;
    linked_account_ids = linked_account_ids;
    series_limit = series_limit;
    overflow_label = overflow_label;
  })

abbrev pub account_plan : AccountCollector → Plan
account_plan c = record {
  target = c.id.target;
  series_limit = c.series_limit;
  overflow_label = c.overflow_label;
  mutate = λ query. record query { linked_account_ids = c.linked_account_ids };
  check = validate_account_costs;
}

-- account.Collect
unfoldable pub collect_account :
    (Float64 → Float64 → Float64) → AccountCollector → Time → Result Collected
collect_account plus c reference =
    collect_grouped plus (account_plan c) c.reader reference dimension_account
