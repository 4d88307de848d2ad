-- ===== src/Snapshot/Deterministic.antt =====
-- Go visits the parts of the cache in any order. A merged snapshot that ValidateUnique accepts does
-- not depend on it in its costs, forecasts, anomalies and tag costs.
use mathlib.Core.List.{
  Perm, Mem, Nodup, Nodup-nil, append_assoc, append-nil, Nodup-cons, not-mem-nil, mem-cons, map,
}
use mathlib.Core.List.Perm
use mathlib.Core.Logic.Or
use mathlib.Core.HLevel.{⊥_prop}
use aws_cost_exporter.Base.{◌≡◌, refl, sym, ap, subst, Bool, false, List, [], ◌∷◌, ◌++◌, arith}
use aws_cost_exporter.Base.Text.{Text, text, text_same, key_lt, key_lt-IsStrictOrder}
use aws_cost_exporter.Base.Sort.{sort_by, sort_by-perm, sort_by-perm_eq}
use aws_cost_exporter.Domain.Cost.{
  Cost, Forecast, cost_before, forecast_before, cost_key, forecast_key, cost_before-key_lt,
  forecast_before-key_lt,
}
use aws_cost_exporter.Domain.Records.{
  Anomaly, TagCost, anomaly_before, tag_before, anomaly_key, tag_sort_key, anomaly_before-key_lt,
  tag_before-key_lt, sort_anomalies, sort_tags,
}
use aws_cost_exporter.Errors.{ok}
use aws_cost_exporter.Snapshot.{
  Snapshot, no_snapshot, append_part, append_parts, merge, new_with_data,
}
use aws_cost_exporter.Snapshot.Pool.{pooled-perm, gathered}
use aws_cost_exporter.Snapshot.Validate.{
  contains, cost_label, account_label, forecast_label, tag_label, anomaly_prefix, validate_unique,
}
use aws_cost_exporter.Snapshot.Labels.{
  Distinct, labels_of, series_labels, anomaly_labels, budget_labels, commitment_labels, after_costs,
  after_forecasts, after_accounts, after_tags, validate_unique_iff,
}

contains-append_right :
    (xs ys : List Text) (k : Text) → contains (xs ++ ys) k ≡ false → contains ys k ≡ false
unfolding contains
contains-append_right [] ys k h = h
contains-append_right (x ∷ xs) ys k h = contains-append_right xs ys k (ground arith)

Distinct-append_right : (xs ys : List Text) → Distinct (xs ++ ys) → Distinct ys
Distinct-append_right [] ys d = d
Distinct-append_right (x ∷ xs) ys d = Distinct-append_right xs ys d.1

-- Where each record's first label set is determined by its sort key.
module _ {A : Type 0} (labels : A → List Text) (first : A → Text) (others : A → List Text)
    (shape : (a : A) → labels a ≡ first a ∷ others a) (key : A → List Text)
    (by_key : (a b : A) → key a ≡ key b → first a ≡ first b) where
  unroll :
      (x : A) (xs : List A) (rest : List Text)
      → labels_of labels (x ∷ xs) ++ rest ≡ first x ∷ others x ++ (labels_of labels xs ++ rest)
  unroll x xs rest =
      rw (shape x) (ap (◌∷◌ (first x)) (append_assoc (others x) (labels_of labels xs) rest))

  absent :
      (xs : List A) (rest : List Text) (a : A)
      → contains (labels_of labels xs ++ rest) (first a) ≡ false
      → ¬ Mem (key a) (map key xs)
  unfolding contains
  absent [] rest a h m = not-mem-nil m
  absent (x ∷ xs) rest a h m =
      let h' = subst (λ l. contains l (first a) ≡ false) (unroll x xs rest) h in
      Or.elim ⊥_prop (mem-cons.0 m)
        (λ e. ground (arith, text_same.same_iff (first x) (first a), by_key a x e))
        (absent xs rest a (contains-append_right (others x) _ (first a) (ground arith)))

  pub Distinct→Nodup :
      (xs : List A) (rest : List Text) → Distinct (labels_of labels xs ++ rest) → Nodup (map key xs)
  Distinct→Nodup [] rest d = Nodup-nil
  Distinct→Nodup (x ∷ xs) rest d =
      let d' = subst Distinct (unroll x xs rest) d in
      Nodup-cons.1 (
        absent xs rest x (contains-append_right (others x) _ (first x) d'.0),
        Distinct→Nodup xs rest (Distinct-append_right (others x) _ d'.1),
      )

-- The sorted records of one kind, over the parts in either order.
module _ {A : Type 0} (set : IsSet A) (field : Snapshot → List A) (before : A → A → Bool)
    (key : A → List Text) (by_key : (l r : A) → before l r ≡ key_lt (key l) (key r))
    (appends : (a b : Snapshot) → field (append_part a b) ≡ field a ++ field b)
    (empty : field no_snapshot ≡ []) where
  sorted_eq :
      (xs ys : List Snapshot)
      → Perm xs ys
      → Nodup (map key (sort_by before (field (append_parts no_snapshot xs))))
      → sort_by before (field (append_parts no_snapshot xs))
        ≡ sort_by before (field (append_parts no_snapshot ys))
  sorted_eq xs ys p d = rw (gathered field appends empty ys) (
      rw (gathered field appends empty xs) (
        sort_by-perm_eq before key key_lt-IsStrictOrder by_key set (pooled-perm field p) (
          Perm.nodup (Perm.map key (sort_by-perm before _))
            (subst (λ l. Nodup (map key (sort_by before l))) (gathered field appends empty xs) d))))

cost_label-key : (a b : Cost) → cost_key a ≡ cost_key b → cost_label a ≡ cost_label b
unfolding cost_label
cost_label-key a b e = cc

forecast_label-key :
    (a b : Forecast) → forecast_key a ≡ forecast_key b → forecast_label a ≡ forecast_label b
unfolding forecast_label
forecast_label-key a b e = cc

tag_label-key : (a b : TagCost) → tag_sort_key a ≡ tag_sort_key b → tag_label a ≡ tag_label b
unfolding tag_label
tag_label-key a b e = cc

anomaly_active : Anomaly → Text
anomaly_active a = anomaly_prefix a ++ text "active"

anomaly_label-key :
    (a b : Anomaly) → anomaly_key a ≡ anomaly_key b → anomaly_active a ≡ anomaly_active b
unfolding anomaly_active anomaly_prefix
anomaly_label-key a b e = cc

Cost-set : IsSet Cost
Cost-set = hlevel

Forecast-set : IsSet Forecast
Forecast-set = hlevel

Anomaly-set : IsSet Anomaly
Anomaly-set = hlevel

TagCost-set : IsSet TagCost
TagCost-set = hlevel

-- The records of each kind have distinct sort keys in a snapshot with distinct label sets.
module _ (s : Snapshot) (d : Distinct (series_labels s)) where
  Distinct-after_costs : Distinct (after_costs s)
  unfolding series_labels
  Distinct-after_costs = Distinct-append_right (labels_of (λ c. cost_label c ∷ []) s.costs) _ d

  Distinct-after_accounts : Distinct (after_accounts s)
  Distinct-after_accounts =
      Distinct-append_right (labels_of (λ a. account_label a ∷ []) s.accounts) _ (
        Distinct-append_right (labels_of budget_labels s.budgets) _ (
          Distinct-append_right (labels_of (λ f. forecast_label f ∷ []) s.forecasts) _
            Distinct-after_costs))

  costs-Nodup : Nodup (map cost_key s.costs)
  unfolding series_labels
  costs-Nodup =
      Distinct→Nodup (λ c. cost_label c ∷ []) cost_label (λ _. []) (λ _. refl) cost_key
        cost_label-key s.costs (after_costs s) d

  forecasts-Nodup : Nodup (map forecast_key s.forecasts)
  forecasts-Nodup =
      Distinct→Nodup (λ f. forecast_label f ∷ []) forecast_label (λ _. []) (λ _. refl) forecast_key
        forecast_label-key s.forecasts (after_forecasts s) Distinct-after_costs

  tags-Nodup : Nodup (map tag_sort_key s.tag_costs)
  tags-Nodup =
      Distinct→Nodup (λ t. tag_label t ∷ []) tag_label (λ _. []) (λ _. refl) tag_sort_key
        tag_label-key s.tag_costs (after_tags s) Distinct-after_accounts

  anomalies-Nodup : Nodup (map anomaly_key s.anomalies)
  unfolding anomaly_labels anomaly_active
  anomalies-Nodup =
      Distinct→Nodup anomaly_labels anomaly_active _ (λ _. refl) anomaly_key anomaly_label-key
        s.anomalies []
        (subst Distinct (sym (append-nil (labels_of anomaly_labels s.anomalies))) (
          Distinct-append_right (labels_of commitment_labels s.commitments) _ (
            Distinct-append_right (labels_of (λ t. tag_label t ∷ []) s.tag_costs) _
              Distinct-after_accounts)))

-- If a merged snapshot passes ValidateUnique, its costs, forecasts, tag costs and anomalies are the
-- same lists whatever the order in which the parts were merged.
pub merge-perm :
    (xs ys : List Snapshot)
    → Perm xs ys
    → validate_unique (merge xs) ≡ ok tt
    → ((merge xs).costs ≡ (merge ys).costs)
      × ((merge xs).forecasts ≡ (merge ys).forecasts)
      × ((merge xs).tag_costs ≡ (merge ys).tag_costs)
      × ((merge xs).anomalies ≡ (merge ys).anomalies)
unfolding merge new_with_data append_part sort_tags sort_anomalies
merge-perm xs ys p h =
    let d = ((validate_unique_iff (merge xs)).0 h).1 in
    (
      sorted_eq Cost-set (λ s. s.costs) cost_before cost_key cost_before-key_lt (λ a b. refl) refl
          xs ys p (costs-Nodup (merge xs) d),
      sorted_eq Forecast-set (λ s. s.forecasts) forecast_before forecast_key forecast_before-key_lt
          (λ a b. refl) refl xs ys p (forecasts-Nodup (merge xs) d),
      sorted_eq TagCost-set (λ s. s.tag_costs) tag_before tag_sort_key tag_before-key_lt
          (λ a b. refl) refl xs ys p (tags-Nodup (merge xs) d),
      sorted_eq Anomaly-set (λ s. s.anomalies) anomaly_before anomaly_key anomaly_before-key_lt
          (λ a b. refl) refl xs ys p (anomalies-Nodup (merge xs) d),
    )
