-- ===== src/Snapshot/Labels.antt =====
-- What ValidateUnique decides: it goes through the label sets of the seven kinds of records, in
-- order, and accepts exactly the snapshots with known identities in which no joined label set comes
-- twice. What that says of the fields is shown in Snapshot.Unique.
use mathlib.Core.Bool.{false≢true}
use aws_cost_exporter.Base.{
  ◌≡◌, refl, sym, subst, ◌∙◌, ◌↔◌, Bool, true, false, List, [], ◌∷◌, ◌++◌, arith, if◌then◌else◌,
  Bool-cases, inl, inr, All,
}
use aws_cost_exporter.Base.Text.{Text, text, text_same}
use aws_cost_exporter.Domain.Cost.{Cost, Forecast}
use aws_cost_exporter.Domain.Records.{Account, Budget, Commitment, Anomaly, TagCost}
use aws_cost_exporter.Errors.{ok}
use aws_cost_exporter.Snapshot.{Snapshot}
use aws_cost_exporter.Snapshot.Validate.{
  Marks, contains, mark, mark_if, cost_label, forecast_label, budget_prefix, account_label,
  tag_label, commitment_prefix, anomaly_prefix, mark_costs, mark_forecasts, mark_budget,
  mark_budgets, mark_accounts, mark_tags, mark_commitment, mark_commitments, mark_anomaly,
  mark_anomalies, mark_snapshot, identities_valid, validate_unique,
}

-- No label set comes twice.
abbrev pub Distinct : List Text → Type 0
Distinct [] = Unit
Distinct (k ∷ ks) = (contains ks k ≡ false) × Distinct ks

abbrev pub only_if : Bool → Text → List Text
only_if b k = if b then k ∷ [] else []

unfoldable pub budget_labels : Budget → List Text
budget_labels b =
    (budget_prefix b ++ text "limit|" ++ b.limit.currency)
      ∷ only_if b.has_actual (budget_prefix b ++ text "actual|" ++ b.actual.currency)
    ++ only_if b.has_forecasted (budget_prefix b ++ text "forecasted|" ++ b.forecasted.currency)

unfoldable pub commitment_labels : Commitment → List Text
commitment_labels c =
    only_if c.has_utilization (commitment_prefix c ++ text "utilization")
    ++ only_if c.has_coverage (commitment_prefix c ++ text "coverage")
    ++ only_if c.has_unused_hours (commitment_prefix c ++ text "unused_hours")
    ++ only_if c.has_covered_spend
        (commitment_prefix c ++ text "covered_spend|" ++ c.covered_spend.currency)
    ++ only_if c.has_on_demand_cost
        (commitment_prefix c ++ text "on_demand_cost|" ++ c.on_demand_cost.currency)
    ++ only_if c.has_net_savings
        (commitment_prefix c ++ text "net_savings|" ++ c.net_savings.currency)

unfoldable pub anomaly_labels : Anomaly → List Text
anomaly_labels a =
    (anomaly_prefix a ++ text "active")
    ∷ (anomaly_prefix a ++ text "count")
    ∷ (anomaly_prefix a ++ text "last_detected")
    ∷ only_if a.has_impact (anomaly_prefix a ++ text "impact|" ++ a.impact.currency)

-- The label sets of a list of records.
abbrev pub labels_of {ℓ} : {A : Type ℓ} → (A → List Text) → List A → List Text
labels_of f [] = []
labels_of f (x ∷ xs) = f x ++ labels_of f xs

-- The label sets of a snapshot, in the order of the visits.
abbrev pub after_tags : Snapshot → List Text
after_tags s = labels_of commitment_labels s.commitments ++ labels_of anomaly_labels s.anomalies

abbrev pub after_accounts : Snapshot → List Text
after_accounts s = labels_of (λ t. tag_label t ∷ []) s.tag_costs ++ after_tags s

abbrev pub after_budgets : Snapshot → List Text
after_budgets s = labels_of (λ a. account_label a ∷ []) s.accounts ++ after_accounts s

abbrev pub after_forecasts : Snapshot → List Text
after_forecasts s = labels_of budget_labels s.budgets ++ after_budgets s

abbrev pub after_costs : Snapshot → List Text
after_costs s = labels_of (λ f. forecast_label f ∷ []) s.forecasts ++ after_forecasts s

unfoldable pub series_labels : Snapshot → List Text
series_labels s = labels_of (λ c. cost_label c ∷ []) s.costs ++ after_costs s

mark_all : List Text → Marks → Marks
mark_all [] m = m
mark_all (k ∷ ks) m = mark_all ks (mark k m)

mark_all-append :
    (xs ys : List Text) (m : Marks) → mark_all (xs ++ ys) m ≡ mark_all ys (mark_all xs m)
unfolding mark_all
mark_all-append [] ys m = refl
mark_all-append (x ∷ xs) ys m = mark_all-append xs ys (mark x m)

mark_if-mark_all : (b : Bool) (k : Text) (m : Marks) → mark_if b k m ≡ mark_all (only_if b k) m
unfolding mark_all
mark_if-mark_all true k m = refl
mark_if-mark_all false k m = refl

-- A visit marks the label sets of each record in turn.
mark_costs-mark_all :
    (xs : List Cost) (m : Marks)
    → mark_costs xs m ≡ mark_all (labels_of (λ c. cost_label c ∷ []) xs) m
unfolding mark_costs mark_all
mark_costs-mark_all [] m = refl
mark_costs-mark_all (x ∷ xs) m = mark_costs-mark_all xs _

mark_forecasts-mark_all :
    (xs : List Forecast) (m : Marks)
    → mark_forecasts xs m ≡ mark_all (labels_of (λ f. forecast_label f ∷ []) xs) m
unfolding mark_forecasts mark_all
mark_forecasts-mark_all [] m = refl
mark_forecasts-mark_all (x ∷ xs) m = mark_forecasts-mark_all xs _

mark_accounts-mark_all :
    (xs : List Account) (m : Marks)
    → mark_accounts xs m ≡ mark_all (labels_of (λ a. account_label a ∷ []) xs) m
unfolding mark_accounts mark_all
mark_accounts-mark_all [] m = refl
mark_accounts-mark_all (x ∷ xs) m = mark_accounts-mark_all xs _

mark_tags-mark_all :
    (xs : List TagCost) (m : Marks)
    → mark_tags xs m ≡ mark_all (labels_of (λ t. tag_label t ∷ []) xs) m
unfolding mark_tags mark_all
mark_tags-mark_all [] m = refl
mark_tags-mark_all (x ∷ xs) m = mark_tags-mark_all xs _

ruleset one_record = (mark_all-append, mark_if-mark_all)

mark_budget-mark_all : (b : Budget) (m : Marks) → mark_budget b m ≡ mark_all (budget_labels b) m
unfolding mark_budget budget_labels mark_all
mark_budget-mark_all b m = simp one_record

mark_commitment-mark_all :
    (c : Commitment) (m : Marks) → mark_commitment c m ≡ mark_all (commitment_labels c) m
unfolding mark_commitment commitment_labels
mark_commitment-mark_all c m = simp one_record

mark_anomaly-mark_all : (a : Anomaly) (m : Marks) → mark_anomaly a m ≡ mark_all (anomaly_labels a) m
unfolding mark_anomaly anomaly_labels mark_all
mark_anomaly-mark_all a m = mark_if-mark_all a.has_impact _ _

mark_budgets-mark_all :
    (xs : List Budget) (m : Marks) → mark_budgets xs m ≡ mark_all (labels_of budget_labels xs) m
unfolding mark_budgets mark_all
mark_budgets-mark_all [] m = refl
mark_budgets-mark_all (x ∷ xs) m =
    simp (mark_budgets-mark_all xs, mark_budget-mark_all, mark_all-append)

mark_commitments-mark_all :
    (xs : List Commitment) (m : Marks)
    → mark_commitments xs m ≡ mark_all (labels_of commitment_labels xs) m
unfolding mark_commitments mark_all
mark_commitments-mark_all [] m = refl
mark_commitments-mark_all (x ∷ xs) m =
    simp (mark_commitments-mark_all xs, mark_commitment-mark_all, mark_all-append)

mark_anomalies-mark_all :
    (xs : List Anomaly) (m : Marks) → mark_anomalies xs m ≡ mark_all (labels_of anomaly_labels xs) m
unfolding mark_anomalies mark_all
mark_anomalies-mark_all [] m = refl
mark_anomalies-mark_all (x ∷ xs) m =
    simp (mark_anomalies-mark_all xs, mark_anomaly-mark_all, mark_all-append)

ruleset visits = (
  mark_all-append, mark_costs-mark_all, mark_forecasts-mark_all, mark_budgets-mark_all,
  mark_accounts-mark_all, mark_tags-mark_all, mark_commitments-mark_all, mark_anomalies-mark_all,
)

no_marks : Marks
no_marks = record { seen = []; valid = true }

mark_snapshot-mark_all : (s : Snapshot) → mark_snapshot s ≡ mark_all (series_labels s) no_marks
unfolding mark_snapshot series_labels no_marks
mark_snapshot-mark_all s = simp visits

-- Each label set is new when its turn comes.
abbrev pub Fresh : List Text → List Text → Type 0
Fresh seen [] = Unit
Fresh seen (k ∷ ks) = (contains seen k ≡ false) × Fresh (k ∷ seen) ks

mark_all-invalid : (ks : List Text) (m : Marks) → m.valid ≡ false → (mark_all ks m).valid ≡ false
unfolding mark_all
mark_all-invalid [] m h = h
mark_all-invalid (k ∷ ks) m h = mark_all-invalid ks (mark k m) (unfold mark in ground arith)

mark_seen :
    (k : Text) (seen : List Text)
    → contains seen k ≡ true
    → (mark k (record { seen = seen; valid = true })).valid ≡ false
unfolding mark
mark_seen k seen h = ground arith

mark_new :
    (k : Text) (seen : List Text)
    → contains seen k ≡ false
    → mark k (record { seen = seen; valid = true }) ≡ record { seen = k ∷ seen; valid = true }
unfolding mark
mark_new k seen h = ground arith

mark_all→Fresh :
    (ks seen : List Text)
    → (mark_all ks (record { seen = seen; valid = true })).valid ≡ true
    → Fresh seen ks
unfolding mark_all
mark_all→Fresh [] seen h = tt
mark_all→Fresh (k ∷ ks) seen h = elim (Bool-cases (contains seen k)) [
  | inl e ↦
      let m : Marks = record { seen = seen; valid = true } in
      absurd (false≢true (sym (mark_all-invalid ks (mark k m) (mark_seen k seen e)) ∙ h))
  | inr e ↦ (
    e,
    mark_all→Fresh ks (k ∷ seen) (subst (λ m. (mark_all ks m).valid ≡ true) (mark_new k seen e) h),
  )
]

Fresh→mark_all :
    (ks seen : List Text)
    → Fresh seen ks
    → (mark_all ks (record { seen = seen; valid = true })).valid ≡ true
unfolding mark_all
Fresh→mark_all [] seen f = refl
Fresh→mark_all (k ∷ ks) seen f =
    subst (λ m. (mark_all ks m).valid ≡ true) (sym (mark_new k seen f.0))
      (Fresh→mark_all ks (k ∷ seen) f.1)

abbrev pub Apart : List Text → List Text → Type 0
Apart seen ks = All (λ k. contains seen k ≡ false) ks

Apart-cons :
    (k : Text) (seen ks : List Text)
    → Apart (k ∷ seen) ks ↔ ((contains ks k ≡ false) × Apart seen ks)
unfolding contains
Apart-cons k seen [] = (λ _. (refl, tt), λ _. tt)
Apart-cons k seen (j ∷ js) = (
  λ h. ground (arith, text_same.same_iff k j, text_same.same_iff j k, (Apart-cons k seen js).0 h.1),
  λ h. ground (arith, text_same.same_iff k j, text_same.same_iff j k, (Apart-cons k seen js).1),
)

pub Fresh-iff : (seen ks : List Text) → Fresh seen ks ↔ (Distinct ks × Apart seen ks)
Fresh-iff seen [] = (λ _. (tt, tt), λ _. tt)
Fresh-iff seen (k ∷ ks) = (
  λ h.
      let rest = (Fresh-iff (k ∷ seen) ks).0 h.1 in
      let apart = (Apart-cons k seen ks).0 rest.1 in ((apart.0, rest.0), (h.0, apart.1)),
  λ h. (h.1.0, (Fresh-iff (k ∷ seen) ks).1 (h.0.1, (Apart-cons k seen ks).1 (h.0.0, h.1.1))),
)

pub Apart-nil : (ks : List Text) → Apart [] ks
unfolding contains
Apart-nil [] = tt
Apart-nil (k ∷ ks) = (refl, Apart-nil ks)

mark_snapshot-Distinct :
    (s : Snapshot) → ((mark_snapshot s).valid ≡ true) ↔ Distinct (series_labels s)
unfolding no_marks
mark_snapshot-Distinct s = (
  λ h. ((Fresh-iff [] _).0 (mark_all→Fresh _ [] (rw (mark_snapshot-mark_all s) at h))).0,
  λ d.
      rw (mark_snapshot-mark_all s)
        (Fresh→mark_all (series_labels s) [] ((Fresh-iff [] _).1 (d, Apart-nil _))),
)

-- ValidateUnique accepts a snapshot exactly when every provider and basis is known and no text comes
-- twice among the joined label sets of its records.
pub validate_unique_iff :
    (s : Snapshot)
    → (validate_unique s ≡ ok tt) ↔ ((identities_valid s ≡ true) × Distinct (series_labels s))
unfolding validate_unique
validate_unique_iff s =
    (λ h. ground (arith, mark_snapshot-Distinct s), λ h. ground (arith, mark_snapshot-Distinct s))
