-- ===== src/Snapshot/Examples.antt =====
-- The snapshots of internal/domain/snapshot on concrete records.
use mathlib.Core.List.Perm
use aws_cost_exporter.Base.{◌≡◌, refl, ◌↔◌, List, [], ◌∷◌, select, ◌=?◌}
use aws_cost_exporter.Base.Keys.{list_same, lex_lt}
use aws_cost_exporter.Base.Sort.{sort_by}
use aws_cost_exporter.Base.Text.{text_same, text_lt}
use aws_cost_exporter.Domain.Identity.{TargetId}
use aws_cost_exporter.Domain.Dimension.{valid_provider, valid_basis}
use aws_cost_exporter.Domain.Cost.{cost_before, cost_less}
use aws_cost_exporter.Domain.Records.{
  sort_accounts, sort_budgets, sort_commitments, sort_anomalies, sort_tags,
}
use aws_cost_exporter.Errors.{ok}
use aws_cost_exporter.Snapshot.{Snapshot, merge, new_with_data, append_part, append_parts}
use aws_cost_exporter.Snapshot.Validate.{
  validate_partial, validate_unique, identities_valid, mark_snapshot, mark_costs, mark_forecasts,
  mark_budgets, mark_accounts, mark_tags, mark_commitments, mark_anomalies, mark, contains,
  cost_label,
}
use aws_cost_exporter.Snapshot.Deterministic.{merge-perm}
use aws_cost_exporter.Snapshot.Owned.{OwnedBy, validate_partial_iff}
use aws_cost_exporter.Snapshot.Isolated.{Owned, merge-parts_of, parts_of, values}
use aws_cost_exporter.Samples.{prod, dev, prod_costs, dev_costs, prod_accounts}

validate_partial_iff_example : (validate_partial prod_costs prod ≡ ok tt) ↔ OwnedBy prod prod_costs
validate_partial_iff_example = validate_partial_iff prod_costs prod

abbrev parts : List Snapshot
parts = prod_costs ∷ dev_costs ∷ []

abbrev turned : List Snapshot
turned = dev_costs ∷ prod_costs ∷ []

parts_accepted : validate_unique (merge parts) ≡ ok tt
unfolding validate_unique merge new_with_data append_part append_parts identities_valid
    valid_provider valid_basis mark_snapshot mark_costs mark_forecasts mark_budgets mark_accounts
    mark_tags mark_commitments mark_anomalies mark contains cost_label sort_accounts sort_budgets
    sort_commitments sort_anomalies sort_tags sort_by cost_before cost_less text_lt lex_lt list_same
parts_accepted = refl

merge-perm_example :
    ((merge parts).costs ≡ (merge turned).costs)
    × ((merge parts).forecasts ≡ (merge turned).forecasts)
    × ((merge parts).tag_costs ≡ (merge turned).tag_costs)
    × ((merge parts).anomalies ≡ (merge turned).anomalies)
merge-perm_example = merge-perm parts turned (Perm.swap dev_costs prod_costs []) parts_accepted

abbrev owned_parts : List (TargetId × Snapshot)
owned_parts = (prod, prod_costs) ∷ (dev, dev_costs) ∷ (prod, prod_accounts) ∷ []

all-Owned : Owned (λ t. t) owned_parts
unfolding validate_partial valid_provider valid_basis list_same
all-Owned = (
  (validate_partial_iff prod_costs prod).0 refl,
  (
    (validate_partial_iff dev_costs dev).0 refl,
    ((validate_partial_iff prod_accounts prod).0 refl, tt),
  ),
)

merge-parts_of_example :
    let everyone = merge (values (λ t. t) owned_parts) in
    let mine = merge (values (λ t. t) (parts_of (λ t. t) prod owned_parts)) in
    (select (λ c. c.target =? prod) everyone.costs ≡ mine.costs)
    × (select (λ f. f.target =? prod) everyone.forecasts ≡ mine.forecasts)
    × (select (λ b. b.target =? prod) everyone.budgets ≡ mine.budgets)
    × (select (λ a. a.target =? prod) everyone.accounts ≡ mine.accounts)
    × (select (λ c. c.target =? prod) everyone.commitments ≡ mine.commitments)
    × (select (λ a. a.target =? prod) everyone.anomalies ≡ mine.anomalies)
    × (select (λ c. c.target =? prod) everyone.tag_costs ≡ mine.tag_costs)
merge-parts_of_example = merge-parts_of (λ t. t) prod owned_parts all-Owned
