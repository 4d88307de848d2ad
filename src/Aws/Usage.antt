-- ===== src/Aws/Usage.antt =====
-- internal/aws/costexplorer/usage.go: a query as a request, its pages, and what they are mapped to.
-- time.Format with time.DateOnly is an argument, and so is the paginated API, by the request.
use aws_cost_exporter.Base.{ℕ, false, List, [], ◌∷◌, Option, none, some, if◌then◌else◌, ◌=?◌}
use aws_cost_exporter.Base.Int.{ℤ}
use aws_cost_exporter.Base.Text.{Text, text, text_same, is_empty}
use aws_cost_exporter.Domain.Period.{Time}
use aws_cost_exporter.Domain.Dimension.{
  DimensionKind, dimension_total, dimension_service, dimension_region, dimension_account, Basis,
  unblended, amortized, net,
}
use aws_cost_exporter.Domain.Cost.{Cost}
use aws_cost_exporter.Errors.{
  Result, ok, err, Error, classified, unknown, ◌>>=◌, ◌>>◌, fail_if, or_fail, nil_reader,
  invalid_response, page_limit_exceeded,
}
use aws_cost_exporter.Collector.Queries.{CostQuery}
use aws_cost_exporter.Aws.Pagination.{Api, Outcome, new_usage_paginator, read}
use aws_cost_exporter.Aws.Mapping.{Parsers, ResultByTime, map_usage}

-- `metricForBasis`
unfoldable pub metric_for_basis : Basis → Text → Result Text
metric_for_basis basis fallback =
    if basis =? unblended
    then ok fallback
    else if basis =? amortized
    then ok (text "AmortizedCost")
    else if basis =? net
    then ok (text "NetUnblendedCost")
    else err invalid_response

-- cetypes.Dimension, in the three values that are used
pub data ApiDimension : Type 0 where
  service region linked_account : ApiDimension

-- `usageDimension`
unfoldable pub usage_dimension : DimensionKind → Result ApiDimension
usage_dimension kind =
    if kind =? dimension_service
    then ok service
    else if kind =? dimension_region
    then ok region
    else if kind =? dimension_account
    then ok linked_account
    else err invalid_response

-- cetypes.DimensionValues, and cetypes.Expression as dimensionFilter makes it
pub record DimensionValues : Type 0 where
  pub key : ApiDimension
  pub values : List Text

pub data Expression : Type 0 where
  dimensions : DimensionValues → Expression
  all_of : List DimensionValues → Expression

-- The loop of dimensionFilter over the three lists
unfoldable pub filter_terms : List DimensionValues → List DimensionValues
filter_terms [] = []
filter_terms (value ∷ values) =
    let rest = filter_terms values in elim value.values [ [] ↦ rest | _ ∷ _ ↦ value ∷ rest ]

-- The end of dimensionFilter; nil is `none`.
unfoldable pub expression_of : List DimensionValues → Option Expression
expression_of [] = none
expression_of (only ∷ []) = some (dimensions only)
expression_of (first ∷ second ∷ rest) = some (all_of (first ∷ second ∷ rest))

-- `dimensionFilter`
unfoldable pub dimension_filter : List Text → List Text → List Text → Option Expression
dimension_filter linked_account_ids services regions = expression_of (
    filter_terms (
      record { key = linked_account; values = linked_account_ids }
      ∷ record { key = service; values = services }
      ∷ record { key = region; values = regions }
      ∷ []))

-- What groups the results: a dimension or a tag
pub data GroupDefinition : Type 0 where
  by_dimension : ApiDimension → GroupDefinition
  by_tag : Text → GroupDefinition

-- GetCostAndUsageInput; the granularity is always daily.
pub record UsageRequest : Type 0 where
  pub start : Text
  pub end : Text
  pub metrics : List Text
  pub filter : Option Expression
  pub group_by : Option GroupDefinition

-- UsageAdapter, with the world that it reads
pub record UsageAdapter : Type 0 where
  pub api : UsageRequest → Api ResultByTime
  pub max_pages : ℕ
  pub cost_metric : Text

-- `NewUsageAdapterForTarget`
unfoldable pub new_usage_adapter :
    Option (UsageRequest → Api ResultByTime) → ℤ → Text → Result UsageAdapter
new_usage_adapter api max_pages cost_metric = do
  given ← or_fail api nil_reader
  fail_if (is_empty cost_metric) invalid_response
  limit ← new_usage_paginator max_pages
  ok (record { api = given; max_pages = limit; cost_metric = cost_metric })

-- `ClassifyError` on a failure of the paginator: a class that it bears is kept.
abbrev pub reclassify : Error → Error
reclassify (classified kind retryable) = classified kind retryable
reclassify _ = classified unknown false

-- `paginator.Read`, with its error classified. The loop always has the fuel to end.
unfoldable pub results_of : Option (Outcome ResultByTime) → Result (List ResultByTime)
results_of none = err page_limit_exceeded
results_of (some outcome) = elim outcome.result [
  | ok results ↦ ok results
  | err e ↦ err (reclassify e)
]

-- `input.GroupBy` for a query
unfoldable pub group_definition : DimensionKind → Result (Option GroupDefinition)
group_definition kind =
    if kind =? dimension_total
    then ok none
    else (usage_dimension kind >>= λ dimension. ok (some (by_dimension dimension)))

module _ (env : Parsers) (format_date : Time → Text) (adapter : UsageAdapter) where
  -- The request for a query
  abbrev pub usage_request : CostQuery → Text → Option GroupDefinition → UsageRequest
  usage_request query cost_metric group_by = record {
    start = format_date query.period.start;
    end = format_date query.period.end;
    metrics = cost_metric ∷ [];
    filter = dimension_filter query.linked_account_ids query.services query.regions;
    group_by = group_by;
  }

  unfoldable pub fetch : UsageRequest → Result (List ResultByTime)
  fetch request = results_of (read (adapter.api request) adapter.max_pages [])

  -- `ReadCosts`
  unfoldable pub read_costs : CostQuery → Result (List Cost)
  read_costs query = do
    cost_metric ← metric_for_basis query.basis adapter.cost_metric
    group_by ← group_definition query.group_by
    results ← fetch (usage_request query cost_metric group_by)
    map_usage env results query cost_metric
