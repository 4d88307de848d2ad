-- ===== src/Snapshot/Owned.antt =====
-- What ValidatePartial accepts.
use aws_cost_exporter.Base.{
  ◌≡◌, ◌↔◌, Bool, true, ◌&&◌, List, arith, ◌=?◌, every, All, All-mono, every→All, All→every,
}
use aws_cost_exporter.Base.Text.{text_same}
use aws_cost_exporter.Base.Sort.{All-sort_by}
use aws_cost_exporter.Domain.Identity.{TargetId}
use aws_cost_exporter.Domain.Cost.{cost_before, forecast_before}
use aws_cost_exporter.Domain.Records.{
  budget_before, account_before, commitment_before, anomaly_before, tag_before, sort_accounts,
  sort_budgets, sort_commitments, sort_anomalies, sort_tags,
}
use aws_cost_exporter.Errors.{ok, fail_if-not}
use aws_cost_exporter.Snapshot.{Snapshot, new_with_data}
use aws_cost_exporter.Snapshot.Validate.{known_source, validate_partial}

-- Every record is the target's own, with a known provider and basis where it has them.
pub record OwnedBy (target : TargetId) (s : Snapshot) : Type 0 where
  pub costs : All (λ c. (c.target ≡ target) × (known_source c.provider c.basis ≡ true)) s.costs
  pub forecasts :
      All (λ f. (f.target ≡ target) × (known_source f.provider f.basis ≡ true)) s.forecasts
  pub budgets : All (λ b. b.target ≡ target) s.budgets
  pub accounts : All (λ a. a.target ≡ target) s.accounts
  pub commitments : All (λ c. c.target ≡ target) s.commitments
  pub anomalies : All (λ a. a.target ≡ target) s.anomalies
  pub tag_costs :
      All (λ t. (t.target ≡ target) × (known_source t.provider t.basis ≡ true)) s.tag_costs

module _ {A : Type 0} (field : A → TargetId) (target : TargetId) where
  same_target : (a : A) → (field a =? target) ≡ true → field a ≡ target
  same_target a h = (text_same.same_iff (field a) target).0 h

  targets_iff :
      (xs : List A) → (every (λ a. field a =? target) xs ≡ true) ↔ All (λ a. field a ≡ target) xs
  targets_iff xs = (
    λ h. All-mono same_target xs (every→All _ xs h),
    λ h. All→every _ xs (All-mono (λ a e. (text_same.same_iff (field a) target).1 e) xs h),
  )

  module _ (ok_of : A → Bool) where
    both :
        (a : A) → ((field a =? target && ok_of a) ≡ true) ↔ ((field a ≡ target) × (ok_of a ≡ true))
    both a = (
      λ h. ground (arith, text_same.same_iff (field a) target),
      λ h. ground (arith, text_same.same_iff (field a) target),
    )

    known_targets_iff :
        (xs : List A)
        → (every (λ a. field a =? target && ok_of a) xs ≡ true)
          ↔ All (λ a. (field a ≡ target) × (ok_of a ≡ true)) xs
    known_targets_iff xs = (
      λ h. All-mono (λ a e. (both a).0 e) xs (every→All _ xs h),
      λ h. All→every _ xs (All-mono (λ a e. (both a).1 e) xs h),
    )

all_seven :
    (a b c d e f g : Bool)
    → ((a && b && c && d && e && f && g) ≡ true)
      ↔ ((a ≡ true) × (b ≡ true) × (c ≡ true) × (d ≡ true) × (e ≡ true) × (f ≡ true) × (g ≡ true))
all_seven a b c d e f g = (λ h. ground arith, λ h. ground arith)

-- ValidatePartial accepts exactly the partial snapshots all of whose records belong to the target
-- and whose costs, forecasts and tag costs have a known provider and basis.
pub validate_partial_iff :
    (s : Snapshot) (target : TargetId) → (validate_partial s target ≡ ok tt) ↔ OwnedBy target s
unfolding validate_partial
validate_partial_iff s target = (
  λ h.
      let p = (all_seven _ _ _ _ _ _ _).0 ((fail_if-not _ _).0 h) in
      record {
        costs =
            (known_targets_iff (λ r. r.target) target (λ r. known_source r.provider r.basis)
                s.costs).0
              p.0;
        forecasts =
            (known_targets_iff (λ r. r.target) target (λ r. known_source r.provider r.basis)
                s.forecasts).0
              p.1;
        budgets = (targets_iff (λ r. r.target) target s.budgets).0 p.2;
        accounts = (targets_iff (λ r. r.target) target s.accounts).0 p.3;
        commitments = (targets_iff (λ r. r.target) target s.commitments).0 p.4;
        anomalies = (targets_iff (λ r. r.target) target s.anomalies).0 p.5;
        tag_costs =
            (known_targets_iff (λ r. r.target) target (λ r. known_source r.provider r.basis)
                s.tag_costs).0
              p.6;
      },
  λ o. (fail_if-not _ _).1 (
      (all_seven _ _ _ _ _ _ _).1 (
        (known_targets_iff (λ r. r.target) target (λ r. known_source r.provider r.basis) s.costs).1
            o.costs,
        (known_targets_iff (λ r. r.target) target (λ r. known_source r.provider r.basis)
              s.forecasts).1
            o.forecasts,
        (targets_iff (λ r. r.target) target s.budgets).1 o.budgets,
        (targets_iff (λ r. r.target) target s.accounts).1 o.accounts,
        (targets_iff (λ r. r.target) target s.commitments).1 o.commitments,
        (targets_iff (λ r. r.target) target s.anomalies).1 o.anomalies,
        (known_targets_iff (λ r. r.target) target (λ r. known_source r.provider r.basis)
              s.tag_costs).1
            o.tag_costs,
      )),
)

-- Putting the records into order changes no owner.
pub new_with_data-OwnedBy :
    (target : TargetId) (s : Snapshot) → OwnedBy target s → OwnedBy target (new_with_data s)
unfolding new_with_data sort_budgets sort_accounts sort_commitments sort_anomalies sort_tags
new_with_data-OwnedBy target s o = record {
  costs = All-sort_by cost_before _ s.costs o.costs;
  forecasts = All-sort_by forecast_before _ s.forecasts o.forecasts;
  budgets = All-sort_by budget_before _ s.budgets o.budgets;
  accounts = All-sort_by account_before _ s.accounts o.accounts;
  commitments = All-sort_by commitment_before _ s.commitments o.commitments;
  anomalies = All-sort_by anomaly_before _ s.anomalies o.anomalies;
  tag_costs = All-sort_by tag_before _ s.tag_costs o.tag_costs;
}
