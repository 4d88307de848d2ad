-- ===== src/Snapshot/Isolated.antt =====
-- Targets do not disturb one another: the records of one target in a merge are those of the parts
-- that belong to it.
use aws_cost_exporter.Base.{
  ◌≡◌, refl, sym, ap, subst, ◌∙◌, Bool, true, false, List, [], ◌∷◌, ◌++◌, map, arith, if◌then◌else◌,
  ◌=?◌, select, All, All-mono, select-append, select-All, select_none, Bool-cases, inl, inr,
}
use aws_cost_exporter.Base.Text.{Text, text_same, key_lt, key_lt-IsStrictOrder}
use aws_cost_exporter.Base.Sort.{sort_by, select-sort_by}
use aws_cost_exporter.Domain.Identity.{TargetId}
use aws_cost_exporter.Domain.Cost.{
  cost_before, cost_key, cost_before-key_lt, forecast_before, forecast_key, forecast_before-key_lt,
}
use aws_cost_exporter.Domain.Records.{
  account_before, account_key, account_before-key_lt, budget_before, budget_key,
  budget_before-key_lt, commitment_before, commitment_key, commitment_before-key_lt, anomaly_before,
  anomaly_key, anomaly_before-key_lt, tag_before, tag_sort_key, tag_before-key_lt, sort_budgets,
  sort_accounts, sort_commitments, sort_anomalies, sort_tags,
}
use aws_cost_exporter.Snapshot.Owned.{OwnedBy}
use aws_cost_exporter.Snapshot.{
  Snapshot, no_snapshot, append_part, append_parts, merge, new_with_data,
}
use aws_cost_exporter.Snapshot.Pool.{pooled, gathered}

-- A part under the key of its collector, with the target that the key names.
module _ {K : Type 0} (owner : K → TargetId) where
  abbrev pub Owned : List (K × Snapshot) → Type 0
  Owned = All (λ p. OwnedBy (owner p.0) p.1)

  abbrev pub parts_of : TargetId → List (K × Snapshot) → List (K × Snapshot)
  parts_of t = select (λ p. owner p.0 =? t)

  abbrev pub values : List (K × Snapshot) → List Snapshot
  values = map (λ p. p.1)

  module _ {A : Type 0} (field : Snapshot → List A) (target : A → TargetId)
      (owned : (t : TargetId) (s : Snapshot)
        → OwnedBy t s
        → All (λ a. target a ≡ t) (field s)) where
    select-field :
        (t u : TargetId) (s : Snapshot)
        → OwnedBy u s
        → select (λ a. target a =? t) (field s) ≡ (if u =? t then field s else [])
    select-field t u s o = elim (Bool-cases (u =? t)) [
      | inl e ↦ rw e (
          select-All _ (field s)
            (All-mono (λ a h. subst (λ v. (v =? t) ≡ true) (sym h) e) (field s) (owned u s o)))
      | inr e ↦ rw e (
          select_none _ (field s)
            (All-mono (λ a h. subst (λ v. (v =? t) ≡ false) (sym h) e) (field s) (owned u s o)))
    ]

    select-pooled :
        (t : TargetId) (parts : List (K × Snapshot))
        → Owned parts
        → select (λ a. target a =? t) (pooled field (values parts))
          ≡ pooled field (values (parts_of t parts))
    select-pooled t [] o = refl
    select-pooled t ((k, s) ∷ parts) o =
        select-append _ (field s) (pooled field (values parts))
        ∙ ground (arith, select-field t (owner k) s o.0, select-pooled t parts o.1)

    module _ (before : A → A → Bool) (key : A → List Text)
        (by_key : (l r : A) → before l r ≡ key_lt (key l) (key r))
        (appends : (a b : Snapshot) → field (append_part a b) ≡ field a ++ field b)
        (empty : field no_snapshot ≡ []) where
      selected :
          (t : TargetId) (parts : List (K × Snapshot))
          → Owned parts
          → select
              (λ a. target a =? t)
              (sort_by before (field (append_parts no_snapshot (values parts))))
            ≡ sort_by before (field (append_parts no_snapshot (values (parts_of t parts))))
      selected t parts o =
          select-sort_by before key key_lt-IsStrictOrder by_key (λ a. target a =? t) _
          ∙ ap (sort_by before) (
              ap (select (λ a. target a =? t)) (gathered field appends empty (values parts))
              ∙ select-pooled t parts o
              ∙ sym (gathered field appends empty (values (parts_of t parts))))

module _ {K : Type 0} (owner : K → TargetId) (t : TargetId) (parts : List (K × Snapshot)) where
  abbrev mine : Snapshot
  mine = merge (values owner (parts_of owner t parts))

  abbrev everyone : Snapshot
  everyone = merge (values owner parts)

  -- The records of a target in a merge of owned parts are, kind by kind, what the merge of that
  -- target's own parts gives: no target can add, drop or reorder another's records.
  pub merge-parts_of :
      Owned owner parts
      → (select (λ c. c.target =? t) everyone.costs ≡ mine.costs)
        × (select (λ f. f.target =? t) everyone.forecasts ≡ mine.forecasts)
        × (select (λ b. b.target =? t) everyone.budgets ≡ mine.budgets)
        × (select (λ a. a.target =? t) everyone.accounts ≡ mine.accounts)
        × (select (λ c. c.target =? t) everyone.commitments ≡ mine.commitments)
        × (select (λ a. a.target =? t) everyone.anomalies ≡ mine.anomalies)
        × (select (λ c. c.target =? t) everyone.tag_costs ≡ mine.tag_costs)
  unfolding merge new_with_data append_part sort_budgets sort_accounts sort_commitments
      sort_anomalies sort_tags
  merge-parts_of o = (
    selected owner (λ s. s.costs) (λ r. r.target) (λ u s p. All-mono (λ r h. h.0) _ p.costs)
        cost_before cost_key cost_before-key_lt (λ a b. refl) refl t parts o,
    selected owner (λ s. s.forecasts) (λ r. r.target) (λ u s p. All-mono (λ r h. h.0) _ p.forecasts)
        forecast_before forecast_key forecast_before-key_lt (λ a b. refl) refl t parts o,
    selected owner (λ s. s.budgets) (λ r. r.target) (λ u s p. p.budgets) budget_before budget_key
        budget_before-key_lt (λ a b. refl) refl t parts o,
    selected owner (λ s. s.accounts) (λ r. r.target) (λ u s p. p.accounts) account_before
        account_key account_before-key_lt (λ a b. refl) refl t parts o,
    selected owner (λ s. s.commitments) (λ r. r.target) (λ u s p. p.commitments) commitment_before
        commitment_key commitment_before-key_lt (λ a b. refl) refl t parts o,
    selected owner (λ s. s.anomalies) (λ r. r.target) (λ u s p. p.anomalies) anomaly_before
        anomaly_key anomaly_before-key_lt (λ a b. refl) refl t parts o,
    selected owner (λ s. s.tag_costs) (λ r. r.target) (λ u s p. All-mono (λ r h. h.0) _ p.tag_costs)
        tag_before tag_sort_key tag_before-key_lt (λ a b. refl) refl t parts o,
  )
