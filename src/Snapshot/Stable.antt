-- ===== src/Snapshot/Stable.antt =====
-- A merged snapshot is ordered, so to build it again from its own lists changes nothing.
use aws_cost_exporter.Base.{◌≡◌, sym, ap, ◌∙◌, Bool, List, select}
use aws_cost_exporter.Base.Text.{key_lt-IsStrictOrder}
use aws_cost_exporter.Base.Sort.{sort_by, sort_by_idem, select-sort_by}
use aws_cost_exporter.Domain.Cost.{
  cost_before, cost_key, cost_before-key_lt, forecast_before, forecast_key, forecast_before-key_lt,
}
use aws_cost_exporter.Domain.Records.{
  Account, account_before, account_key, account_before-key_lt, budget_before, budget_key,
  budget_before-key_lt, commitment_before, commitment_key, commitment_before-key_lt, anomaly_before,
  anomaly_key, anomaly_before-key_lt, tag_before, tag_sort_key, tag_before-key_lt, sort_budgets,
  sort_accounts, sort_commitments, sort_anomalies, sort_tags,
}
use aws_cost_exporter.Snapshot.{Snapshot, merge, new_with_data}

-- The two snapshots differ in their accounts at most.
pub record SameButAccounts (s t : Snapshot) : Type 0 where
  pub costs : s.costs ≡ t.costs
  pub forecasts : s.forecasts ≡ t.forecasts
  pub budgets : s.budgets ≡ t.budgets
  pub commitments : s.commitments ≡ t.commitments
  pub anomalies : s.anomalies ≡ t.anomalies
  pub tag_costs : s.tag_costs ≡ t.tag_costs

pub new_with_data-SameButAccounts :
    (parts : List Snapshot) (accounts : List Account)
    → SameButAccounts (new_with_data (record (merge parts) { accounts = accounts })) (merge parts)
unfolding merge new_with_data sort_budgets sort_commitments sort_anomalies sort_tags
new_with_data-SameButAccounts parts accounts = record {
  costs = sort_by_idem cost_before cost_key key_lt-IsStrictOrder cost_before-key_lt _;
  forecasts =
      sort_by_idem forecast_before forecast_key key_lt-IsStrictOrder forecast_before-key_lt _;
  budgets = sort_by_idem budget_before budget_key key_lt-IsStrictOrder budget_before-key_lt _;
  commitments =
      sort_by_idem commitment_before commitment_key key_lt-IsStrictOrder commitment_before-key_lt _;
  anomalies = sort_by_idem anomaly_before anomaly_key key_lt-IsStrictOrder anomaly_before-key_lt _;
  tag_costs = sort_by_idem tag_before tag_sort_key key_lt-IsStrictOrder tag_before-key_lt _;
}

-- Accounts picked from a merged snapshot are in order.
pub new_with_data-picked :
    (parts : List Snapshot) (p : Account → Bool)
    → (new_with_data (record (merge parts) { accounts = select p (merge parts).accounts })).accounts
      ≡ select p (merge parts).accounts
unfolding merge new_with_data sort_accounts
new_with_data-picked parts p =
    let picks =
      select-sort_by account_before account_key key_lt-IsStrictOrder account_before-key_lt p in
    ap (sort_by account_before) (picks _)
    ∙ sort_by_idem account_before account_key key_lt-IsStrictOrder account_before-key_lt _
    ∙ sym (picks _)
