-- ===== src/Snapshot.antt =====
-- internal/domain/snapshot/snapshot.go: the aggregate of all records, its order, its merge and its
-- count of series. The visitors (ForEachCost and so on) go along the lists, and the accessors
-- (Costs and so on) copy them: both are the fields here, since a list is never changed in place.
pub mod Validate
pub mod Labels
mod Pool
pub mod Bags
pub mod Series
pub mod Unique
pub mod Deterministic
pub mod Owned
pub mod Isolated
pub mod Stable
mod Examples
use aws_cost_exporter.Base.{ℕ, ◌+◌, ◌*◌, Bool, not, List, [], ◌∷◌, ◌++◌, length, if◌then◌else◌}
use aws_cost_exporter.Base.Sort.{sort_by}
use aws_cost_exporter.Domain.Period.{is_zero}
use aws_cost_exporter.Domain.Cost.{Cost, Forecast, cost_before, forecast_before}
use aws_cost_exporter.Domain.Records.{
  Account, Budget, Commitment, Anomaly, TagCost, sort_accounts, sort_budgets, sort_commitments,
  sort_anomalies, sort_tags,
}

pub record Snapshot : Type 0 where
  pub costs : List Cost
  pub forecasts : List Forecast
  pub budgets : List Budget
  pub accounts : List Account
  pub commitments : List Commitment
  pub anomalies : List Anomaly
  pub tag_costs : List TagCost

-- `Snapshot{}`
abbrev pub no_snapshot : Snapshot
no_snapshot = record {
  costs = [];
  forecasts = [];
  budgets = [];
  accounts = [];
  commitments = [];
  anomalies = [];
  tag_costs = [];
}

-- `NewWithData`, which takes the seven lists: here in one record.
unfoldable pub new_with_data : Snapshot → Snapshot
new_with_data s = record {
  costs = sort_by cost_before s.costs;
  forecasts = sort_by forecast_before s.forecasts;
  budgets = sort_budgets s.budgets;
  accounts = sort_accounts s.accounts;
  commitments = sort_commitments s.commitments;
  anomalies = sort_anomalies s.anomalies;
  tag_costs = sort_tags s.tag_costs;
}

-- `New`
unfoldable pub new : List Cost → List Forecast → List Budget → List Account → Snapshot
new costs forecasts budgets accounts = new_with_data (record no_snapshot {
  costs = costs;
  forecasts = forecasts;
  budgets = budgets;
  accounts = accounts;
})

-- One round of the loop of `Merge`.
unfoldable pub append_part : Snapshot → Snapshot → Snapshot
append_part all part = record {
  costs = all.costs ++ part.costs;
  forecasts = all.forecasts ++ part.forecasts;
  budgets = all.budgets ++ part.budgets;
  accounts = all.accounts ++ part.accounts;
  commitments = all.commitments ++ part.commitments;
  anomalies = all.anomalies ++ part.anomalies;
  tag_costs = all.tag_costs ++ part.tag_costs;
}

unfoldable pub append_parts : Snapshot → List Snapshot → Snapshot
append_parts all [] = all
append_parts all (part ∷ parts) = append_parts (append_part all part) parts

-- `Merge`
unfoldable pub merge : List Snapshot → Snapshot
merge parts = new_with_data (append_parts no_snapshot parts)

abbrev pub one_if : Bool → ℕ
one_if b = if b then 1 else 0

unfoldable pub commitments_count : List Commitment → ℕ
commitments_count [] = 0
commitments_count (c ∷ cs) =
    one_if c.has_utilization
    + one_if c.has_coverage
    + one_if c.has_unused_hours
    + one_if c.has_covered_spend
    + one_if c.has_on_demand_cost
    + one_if c.has_net_savings
    + commitments_count cs

unfoldable pub anomalies_count : List Anomaly → ℕ
anomalies_count [] = 0
anomalies_count (a ∷ as') =
    2 + one_if a.has_impact + one_if (not (is_zero a.last_detected)) + anomalies_count as'

unfoldable pub budgets_count : List Budget → ℕ
budgets_count [] = 0
budgets_count (b ∷ bs) = 1 + one_if b.has_actual + one_if b.has_forecasted + budgets_count bs

-- `SeriesCount`
unfoldable pub series_count : Snapshot → ℕ
series_count s =
    length s.costs
    + 3 * length s.forecasts
    + length s.accounts
    + length s.tag_costs
    + commitments_count s.commitments
    + anomalies_count s.anomalies
    + budgets_count s.budgets
