-- ===== src/Snapshot/Validate.antt =====
-- ValidatePartial and ValidateUnique of internal/domain/snapshot/snapshot.go.
use aws_cost_exporter.Base.{
  Bool, true, false, ◌&&◌, not, List, [], ◌∷◌, ◌++◌, if◌then◌else◌, ◌=?◌, every,
}
use aws_cost_exporter.Base.Text.{Text, text, text_same}
use aws_cost_exporter.Domain.Identity.{TargetId}
use aws_cost_exporter.Domain.Dimension.{Provider, Basis, valid_provider, valid_basis}
use aws_cost_exporter.Domain.Cost.{Cost, Forecast}
use aws_cost_exporter.Domain.Records.{Account, Budget, Commitment, Anomaly, TagCost}
use aws_cost_exporter.Errors.{
  Result, ◌>>◌, fail_if, identity_mismatch, invalid_identity, duplicate_labels,
}
use aws_cost_exporter.Snapshot.{Snapshot}

abbrev pub known_source : Provider → Basis → Bool
known_source provider basis = valid_provider provider && valid_basis basis

-- `ValidatePartial`: the visitors keep `valid = valid && …`.
unfoldable pub validate_partial : Snapshot → TargetId → Result (Unit {0})
validate_partial s target =
    fail_if
      (not (
        every (λ c. c.target =? target && known_source c.provider c.basis) s.costs
        && every (λ f. f.target =? target && known_source f.provider f.basis) s.forecasts
        && every (λ b. b.target =? target) s.budgets
        && every (λ a. a.target =? target) s.accounts
        && every (λ c. c.target =? target) s.commitments
        && every (λ a. a.target =? target) s.anomalies
        && every (λ t. t.target =? target && known_source t.provider t.basis) s.tag_costs))
      identity_mismatch

-- The map `seen`, and `valid`.
pub record Marks : Type 0 where
  pub seen : List Text
  pub valid : Bool

unfoldable pub contains : List Text → Text → Bool
contains [] k = false
contains (j ∷ js) k = if j =? k then true else contains js k

-- `valid = valid && add(key)`
unfoldable pub mark : Text → Marks → Marks
mark key m =
    if m.valid
    then if contains m.seen key
      then record m { valid = false }
      else record m { seen = key ∷ m.seen }
    else m

abbrev pub mark_if : Bool → Text → Marks → Marks
mark_if b key m = if b then mark key m else m

infixr 60 ◌¦◌
abbrev pub ◌¦◌ : Text → Text → Text
a ¦ b = a ++ text "|" ++ b

unfoldable pub cost_label : Cost → Text
cost_label c =
    text "cost"
    ¦ c.target
    ¦ c.provider
    ¦ c.basis
    ¦ c.window
    ¦ c.dimension.kind
    ¦ c.dimension.value
    ¦ c.amount.currency

unfoldable pub forecast_label : Forecast → Text
forecast_label f = text "forecast" ¦ f.target ¦ f.provider ¦ f.basis ¦ f.mean.currency

unfoldable pub budget_prefix : Budget → Text
budget_prefix b = text "budget" ¦ b.target ¦ b.name ¦ b.kind ¦ b.time_unit ¦ []

unfoldable pub account_label : Account → Text
account_label a = text "account" ¦ a.target ¦ a.account_id ¦ a.name ¦ a.status

unfoldable pub tag_label : TagCost → Text
tag_label t =
    text "tag"
    ¦ t.target
    ¦ t.provider
    ¦ t.basis
    ¦ t.window
    ¦ t.tag_key
    ¦ t.tag_value
    ¦ t.amount.currency

unfoldable pub commitment_prefix : Commitment → Text
commitment_prefix c = text "commitment" ¦ c.target ¦ c.kind ¦ c.time_unit ¦ []

unfoldable pub anomaly_prefix : Anomaly → Text
anomaly_prefix a = text "anomaly" ¦ a.target ¦ []

unfoldable pub mark_costs : List Cost → Marks → Marks
mark_costs [] m = m
mark_costs (c ∷ cs) m = mark_costs cs (mark (cost_label c) m)

unfoldable pub mark_forecasts : List Forecast → Marks → Marks
mark_forecasts [] m = m
mark_forecasts (f ∷ fs) m = mark_forecasts fs (mark (forecast_label f) m)

unfoldable pub mark_budget : Budget → Marks → Marks
mark_budget b m =
    let prefix = budget_prefix b in
    let m1 = mark (prefix ++ text "limit|" ++ b.limit.currency) m in
    let m2 = mark_if b.has_actual (prefix ++ text "actual|" ++ b.actual.currency) m1 in
    mark_if b.has_forecasted (prefix ++ text "forecasted|" ++ b.forecasted.currency) m2

unfoldable pub mark_budgets : List Budget → Marks → Marks
mark_budgets [] m = m
mark_budgets (b ∷ bs) m = mark_budgets bs (mark_budget b m)

unfoldable pub mark_accounts : List Account → Marks → Marks
mark_accounts [] m = m
mark_accounts (a ∷ rest) m = mark_accounts rest (mark (account_label a) m)

unfoldable pub mark_tags : List TagCost → Marks → Marks
mark_tags [] m = m
mark_tags (t ∷ ts) m = mark_tags ts (mark (tag_label t) m)

unfoldable pub mark_commitment : Commitment → Marks → Marks
mark_commitment c m =
    let prefix = commitment_prefix c in
    let m1 = mark_if c.has_utilization (prefix ++ text "utilization") m in
    let m2 = mark_if c.has_coverage (prefix ++ text "coverage") m1 in
    let m3 = mark_if c.has_unused_hours (prefix ++ text "unused_hours") m2 in
    let m4 =
      mark_if c.has_covered_spend (prefix ++ text "covered_spend|" ++ c.covered_spend.currency)
        m3 in
    let m5 =
      mark_if c.has_on_demand_cost (prefix ++ text "on_demand_cost|" ++ c.on_demand_cost.currency)
        m4 in
    mark_if c.has_net_savings (prefix ++ text "net_savings|" ++ c.net_savings.currency) m5

unfoldable pub mark_commitments : List Commitment → Marks → Marks
mark_commitments [] m = m
mark_commitments (c ∷ cs) m = mark_commitments cs (mark_commitment c m)

unfoldable pub mark_anomaly : Anomaly → Marks → Marks
mark_anomaly a m =
    let prefix = anomaly_prefix a in
    let m1 = mark (prefix ++ text "active") m in
    let m2 = mark (prefix ++ text "count") m1 in
    let m3 = mark (prefix ++ text "last_detected") m2 in
    mark_if a.has_impact (prefix ++ text "impact|" ++ a.impact.currency) m3

unfoldable pub mark_anomalies : List Anomaly → Marks → Marks
mark_anomalies [] m = m
mark_anomalies (a ∷ rest) m = mark_anomalies rest (mark_anomaly a m)

unfoldable pub identities_valid : Snapshot → Bool
identities_valid s =
    every (λ c. known_source c.provider c.basis) s.costs
    && every (λ f. known_source f.provider f.basis) s.forecasts
    && every (λ t. known_source t.provider t.basis) s.tag_costs

-- The marks after the seven visits of `ValidateUnique`.
unfoldable pub mark_snapshot : Snapshot → Marks
mark_snapshot s =
    let m1 = mark_costs s.costs (record { seen = []; valid = true }) in
    let m2 = mark_forecasts s.forecasts m1 in
    let m3 = mark_budgets s.budgets m2 in
    let m4 = mark_accounts s.accounts m3 in
    let m5 = mark_tags s.tag_costs m4 in
    let m6 = mark_commitments s.commitments m5 in mark_anomalies s.anomalies m6

-- `ValidateUnique`
unfoldable pub validate_unique : Snapshot → Result (Unit {0})
validate_unique s = do
  fail_if (not (identities_valid s)) invalid_identity
  fail_if (not (mark_snapshot s).valid) duplicate_labels
