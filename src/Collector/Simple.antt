-- ===== src/Collector/Simple.antt =====
-- The collectors that read one thing: internal/collector/forecast, anomaly, budget and
-- organizationmeta, each collector.go. What the reader returns is an argument.
use aws_cost_exporter.Base.{◌||◌, List, [], ◌∷◌, Option}
use aws_cost_exporter.Base.Int.{ℤ, pos, leb_ℤ, ltb_ℤ}
use aws_cost_exporter.Base.Text.{Text, text, is_empty}
use aws_cost_exporter.Domain.Identity.{TargetId, CollectorId}
use aws_cost_exporter.Domain.Period.{Time, Period, new_period, day_containing, month_containing}
use aws_cost_exporter.Domain.Dimension.{Basis}
use aws_cost_exporter.Domain.Cost.{Forecast}
use aws_cost_exporter.Domain.Records.{Account, Budget, Anomaly}
use aws_cost_exporter.Errors.{
  Result, ok, ◌>>=◌, ◌>>◌, fail_if, or_fail, nil_reader, invalid_target, invalid_series_limit,
  invalid_prediction_interval, anomaly_series_limit,
}
use aws_cost_exporter.Snapshot
use aws_cost_exporter.Snapshot.{Snapshot, no_snapshot, new_with_data, series_count}

-- ports.ForecastQuery
pub record ForecastQuery : Type 0 where
  pub period : Period
  pub basis : Basis
  pub prediction_interval : ℤ
  pub linked_account_ids : List Text
  pub services : List Text
  pub regions : List Text

abbrev pub ForecastReader : Type 0
ForecastReader = ForecastQuery → Result Forecast

-- forecast.Collector
pub record ForecastCollector : Type 0 where
  pub id : CollectorId
  pub reader : ForecastReader
  pub prediction_interval : ℤ

-- forecast.NewForTarget
unfoldable pub new_forecast : TargetId → Option ForecastReader → ℤ → Result ForecastCollector
new_forecast target reader prediction_interval = do
  given ← or_fail reader nil_reader
  fail_if (ltb_ℤ prediction_interval (pos 80) || ltb_ℤ (pos 99) prediction_interval)
      invalid_prediction_interval
  ok (record {
    id = record { target = target; name = text "forecast" };
    reader = given;
    prediction_interval = prediction_interval;
  })

-- forecast.Collect
unfoldable pub collect_forecast : ForecastCollector → Time → Result Snapshot
collect_forecast c reference = do
  let day = day_containing reference
  let month = month_containing reference
  period ← new_period day.start month.end
  value ← c.reader (record {
    period = period;
    basis = [];
    prediction_interval = c.prediction_interval;
    linked_account_ids = [];
    services = [];
    regions = [];
  })
  ok (Snapshot.new [] (record value { target = c.id.target } ∷ []) [] [])

abbrev pub AnomalyReader : Type 0
AnomalyReader = Time → Result Anomaly

-- anomaly.Collector
pub record AnomalyCollector : Type 0 where
  pub id : CollectorId
  pub reader : AnomalyReader
  pub series_limit : ℤ

-- anomaly.New
unfoldable pub new_anomalies : TargetId → Option AnomalyReader → ℤ → Result AnomalyCollector
new_anomalies target reader series_limit = do
  given ← or_fail reader nil_reader
  fail_if (leb_ℤ series_limit (pos 0)) invalid_series_limit
  ok (record {
    id = record { target = target; name = text "anomalies" };
    reader = given;
    series_limit = series_limit;
  })

-- anomaly.Collect
unfoldable pub collect_anomalies : AnomalyCollector → Time → Result Snapshot
collect_anomalies c reference = do
  value ← c.reader reference
  let result = new_with_data (record no_snapshot { anomalies = value ∷ [] })
  fail_if (ltb_ℤ c.series_limit (pos (series_count result))) anomaly_series_limit
  ok result

-- budget.Collector
pub record BudgetCollector : Type 0 where
  pub id : CollectorId
  pub reader : Result (List Budget)

-- budget.New
unfoldable pub new_budgets : TargetId → Option (Result (List Budget)) → Result BudgetCollector
new_budgets target reader = do
  fail_if (is_empty target) invalid_target
  given ← or_fail reader invalid_target
  ok (record { id = record { target = target; name = text "budgets" }; reader = given })

-- budget.Collect
unfoldable pub collect_budgets : BudgetCollector → Result Snapshot
collect_budgets c = do values ← c.reader; ok (Snapshot.new [] [] values [])

-- organizationmeta.Collector
pub record OrganizationCollector : Type 0 where
  pub id : CollectorId
  pub reader : Result (List Account)

-- organizationmeta.New
unfoldable pub new_organizations :
    TargetId → Option (Result (List Account)) → Result OrganizationCollector
new_organizations target reader = do
  fail_if (is_empty target) invalid_target
  given ← or_fail reader invalid_target
  ok (record { id = record { target = target; name = text "organizations" }; reader = given })

-- organizationmeta.Collect
unfoldable pub collect_organizations : OrganizationCollector → Result Snapshot
collect_organizations c = do values ← c.reader; ok (Snapshot.new [] [] [] values)
