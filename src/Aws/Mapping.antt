-- ===== src/Aws/Mapping.antt =====
-- internal/aws/costexplorer/mapping.go: the results of GetCostAndUsage as costs. The readers of
-- dates (time.Parse) and of decimal numbers (strconv.ParseFloat) and the sum of two floats are
-- arguments. A nil text of an amount or a unit is the empty text, as aws.ToString has it.
use aws_cost_exporter.Base.{
  Bool, ◌&&◌, not, List, [], ◌∷◌, ◌++◌, map, take, Option, none, some, if◌then◌else◌, ◌=?◌,
}
use aws_cost_exporter.Base.Float.{Float64}
use aws_cost_exporter.Base.Text.{Text, text, text_same, key_lt, key_same, is_empty}
use aws_cost_exporter.Base.Dict.{Dict, find, put}
use aws_cost_exporter.Base.Sort.{sort_by}
use aws_cost_exporter.Domain.Money.{parse_money, add}
use aws_cost_exporter.Domain.Period.{Time, Period, new_period}
use aws_cost_exporter.Domain.Dimension.{
  Dimension, new_dimension, dimension_total, dimension_service, dimension_region, dimension_account,
  provider_cost_explorer, Basis, unblended, amortized, net,
}
use aws_cost_exporter.Domain.Cost.{Window, month_to_date, Cost}
use aws_cost_exporter.Errors.{Result, ok, err, ◌>>=◌, ◌>>◌, fail_if, or_fail, invalid_response}
use aws_cost_exporter.Collector.Queries.{CostQuery}

-- What the Go libraries compute
pub record Parsers : Type 0 where
  pub parse_date : Text → Option Time
  pub parse_float : Text → Option Float64
  pub plus : Float64 → Float64 → Float64

-- cetypes.MetricValue, DateInterval, Group and ResultByTime
pub record MetricValue : Type 0 where
  pub amount : Text
  pub unit : Text

pub record DateInterval : Type 0 where
  pub start : Option Text
  pub end : Option Text

pub record Group : Type 0 where
  pub keys : List Text
  pub metrics : Dict Text MetricValue

pub record ResultByTime : Type 0 where
  pub time_period : Option DateInterval
  pub total : Dict Text MetricValue
  pub groups : List Group

-- `metricBasis`
unfoldable pub metric_basis : Text → Basis
metric_basis metric =
    if metric =? text "AmortizedCost"
    then amortized
    else if metric =? text "NetUnblendedCost"
    then net
    else unblended

-- `len(group.Keys) != 1`, and the key where it is 1
abbrev pub only_key : List Text → Option Text
only_key (key ∷ []) = some key
only_key _ = none

-- `if err != nil { return ErrInvalidResponse }`
abbrev pub or_invalid : Result Period → Result Period
or_invalid (ok period) = ok period
or_invalid (err _) = err invalid_response

module _ (env : Parsers) where
  -- `mapPeriod`
  unfoldable pub map_period : Option DateInterval → Result Period
  map_period interval = do
    given ← or_fail interval invalid_response
    start ← or_fail given.start invalid_response
    end ← or_fail given.end invalid_response
    from ← or_fail (env.parse_date start) invalid_response
    to ← or_fail (env.parse_date end) invalid_response
    or_invalid (new_period from to)

  -- `mapCost`
  unfoldable pub map_cost : Period → Window → Dimension → Dict Text MetricValue → Text → Result Cost
  map_cost period window dimension metrics cost_metric = do
    metric ← or_fail (find cost_metric metrics) invalid_response
    amount ← parse_money env.parse_float metric.amount metric.unit
    ok (record {
      target = [];
      provider = provider_cost_explorer;
      basis = metric_basis cost_metric;
      window = window;
      period = period;
      dimension = dimension;
      amount = amount;
    })

  module _ (query : CostQuery) (cost_metric : Text) where
    -- The loop over the groups of a result
    unfoldable pub map_groups : Period → List Group → Result (List Cost)
    map_groups period [] = ok []
    map_groups period (group ∷ groups) = do
      key ← or_fail (only_key group.keys) invalid_response
      dimension ← new_dimension query.group_by key
      entry ← map_cost period query.window dimension group.metrics cost_metric
      rest ← map_groups period groups
      ok (entry ∷ rest)

    -- The row of a result that is not grouped
    unfoldable pub map_total : Period → Dict Text MetricValue → Result (List Cost)
    map_total period metrics = do
      dimension ← new_dimension dimension_total []
      entry ← map_cost period query.window dimension metrics cost_metric
      ok (entry ∷ [])

    -- One round of the loop over the results
    unfoldable pub map_result : ResultByTime → Result (List Cost)
    map_result result = do
      period ← map_period result.time_period
      if query.group_by =? dimension_total
          then map_total period result.total
          else map_groups period result.groups

    -- The loop over the results
    unfoldable pub map_results : List ResultByTime → Result (List Cost)
    map_results [] = ok []
    map_results (result ∷ results) = do
      first ← map_result result
      rest ← map_results results
      ok (first ++ rest)

-- `aggregateKey`, as the list of its fields
abbrev pub aggregate_key : Cost → List Text
aggregate_key entry =
    entry.dimension.kind ∷ entry.dimension.value ∷ entry.amount.currency ∷ entry.provider
    ∷ entry.basis ∷ []

abbrev pub Totals : Type 0
Totals = Dict (List Text) Cost

-- What is first stored for a key
abbrev pub first_total : Period → Cost → Cost
first_total period entry = record entry { target = []; window = month_to_date; period = period }

-- What is stored for a key that a row has, given what is there
unfoldable pub add_row : (Float64 → Float64 → Float64) → Period → Option Cost → Cost → Result Cost
add_row plus period none entry = ok (first_total period entry)
add_row plus period (some existing) entry = do
  sum ← add plus existing.amount entry.amount
  ok (record existing { amount = sum })

-- The loop over the costs
unfoldable pub add_rows :
    (Float64 → Float64 → Float64) → Period → List Cost → Totals → Result Totals
add_rows plus period [] totals = ok totals
add_rows plus period (entry ∷ entries) totals = do
  stored ← add_row plus period (find (aggregate_key entry) totals) entry
  add_rows plus period entries (put (aggregate_key entry) stored totals)

-- The order of the keys: by the kind, then the value, then the currency
unfoldable pub key_before : List Text × Cost → List Text × Cost → Bool
key_before (l, _) (r, _) = key_lt (take 3 l) (take 3 r)

-- `aggregateMonthToDate`. The entries are sorted with their keys.
unfoldable pub aggregate_month_to_date :
    (Float64 → Float64 → Float64) → List Cost → Period → Result (List Cost)
aggregate_month_to_date plus costs period = do
  totals ← add_rows plus period costs []
  ok (map (λ entry. entry.1) (sort_by key_before totals))

-- `MapUsage`
unfoldable pub map_usage : Parsers → List ResultByTime → CostQuery → Text → Result (List Cost)
map_usage env results query cost_metric = do
  fail_if (is_empty cost_metric) invalid_response
  fail_if
      (not (query.group_by =? dimension_total)
        && not (query.group_by =? dimension_service)
        && not (query.group_by =? dimension_region)
        && not (query.group_by =? dimension_account))
      invalid_response
  mapped ← map_results env query cost_metric results
  if not (query.window =? month_to_date)
      then ok mapped
      else aggregate_month_to_date env.plus mapped query.period
