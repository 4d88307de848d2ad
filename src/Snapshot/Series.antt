-- ===== src/Snapshot/Series.antt =====
-- ValidateUnique against the series that a snapshot publishes: the name of a metric and its label
-- values, field by field, where the code joins them with bars.
use mathlib.Core.List.{append_assoc, map-append}
use aws_cost_exporter.Base.{
  ◌≡◌, refl, sym, ap, ◌∙◌, Bool, true, false, List, [], ◌∷◌, ◌++◌, map, if◌then◌else◌,
}
use aws_cost_exporter.Base.Text.{Text, text, text_same}
use aws_cost_exporter.Domain.Cost.{Cost, Forecast}
use aws_cost_exporter.Domain.Records.{Account, Budget, Commitment, Anomaly, TagCost}
use aws_cost_exporter.Snapshot.{Snapshot}
use aws_cost_exporter.Snapshot.Validate.{
  cost_label, forecast_label, account_label, tag_label, budget_prefix, commitment_prefix,
  anomaly_prefix,
}
use aws_cost_exporter.Snapshot.Labels.{
  labels_of, only_if, budget_labels, commitment_labels, anomaly_labels, series_labels,
}

-- A metric and its label values
abbrev pub Series : Type 0
Series = Text × List Text

abbrev series_if : Bool → Series → List Series
series_if b s = if b then s ∷ [] else []

abbrev cost_series : Cost → List Series
cost_series c =
    (
      text "cost",
      c.target ∷ c.provider ∷ c.basis ∷ c.window ∷ c.dimension.kind ∷ c.dimension.value
          ∷ c.amount.currency ∷ [],
    )
    ∷ []

abbrev forecast_series : Forecast → List Series
forecast_series f = (text "forecast", f.target ∷ f.provider ∷ f.basis ∷ f.mean.currency ∷ []) ∷ []

abbrev of_budget : Budget → Text → Text → Series
of_budget b which currency =
    (text "budget", b.target ∷ b.name ∷ b.kind ∷ b.time_unit ∷ which ∷ currency ∷ [])

abbrev budget_series : Budget → List Series
budget_series b =
    of_budget b (text "limit") b.limit.currency
      ∷ series_if b.has_actual (of_budget b (text "actual") b.actual.currency)
    ++ series_if b.has_forecasted (of_budget b (text "forecasted") b.forecasted.currency)

abbrev account_series : Account → List Series
account_series a = (text "account", a.target ∷ a.account_id ∷ a.name ∷ a.status ∷ []) ∷ []

abbrev tag_series : TagCost → List Series
tag_series t =
    (
      text "tag",
      t.target ∷ t.provider ∷ t.basis ∷ t.window ∷ t.tag_key ∷ t.tag_value ∷ t.amount.currency ∷ [],
    )
    ∷ []

abbrev of_commitment : Commitment → List Text → Series
of_commitment c rest = (text "commitment", c.target ∷ c.kind ∷ c.time_unit ∷ rest)

abbrev commitment_series : Commitment → List Series
commitment_series c =
    series_if c.has_utilization (of_commitment c (text "utilization" ∷ []))
    ++ series_if c.has_coverage (of_commitment c (text "coverage" ∷ []))
    ++ series_if c.has_unused_hours (of_commitment c (text "unused_hours" ∷ []))
    ++ series_if c.has_covered_spend
        (of_commitment c (text "covered_spend" ∷ c.covered_spend.currency ∷ []))
    ++ series_if c.has_on_demand_cost
        (of_commitment c (text "on_demand_cost" ∷ c.on_demand_cost.currency ∷ []))
    ++ series_if c.has_net_savings
        (of_commitment c (text "net_savings" ∷ c.net_savings.currency ∷ []))

abbrev of_anomaly : Anomaly → List Text → Series
of_anomaly a rest = (text "anomaly", a.target ∷ rest)

abbrev anomaly_series : Anomaly → List Series
anomaly_series a =
    of_anomaly a (text "active" ∷ [])
    ∷ of_anomaly a (text "count" ∷ [])
    ∷ of_anomaly a (text "last_detected" ∷ [])
    ∷ series_if a.has_impact (of_anomaly a (text "impact" ∷ a.impact.currency ∷ []))

abbrev series_of {ℓ} : {A : Type ℓ} → (A → List Series) → List A → List Series
series_of f [] = []
series_of f (x ∷ xs) = f x ++ series_of f xs

-- The series of a snapshot
abbrev pub all_series : Snapshot → List Series
all_series s =
    series_of cost_series s.costs
    ++ (series_of forecast_series s.forecasts
        ++ (series_of budget_series s.budgets
            ++ (series_of account_series s.accounts
                ++ (series_of tag_series s.tag_costs
                    ++ (series_of commitment_series s.commitments
                        ++ series_of anomaly_series s.anomalies)))))

abbrev pub joined : Text → List Text → Text
joined name [] = name
joined name (value ∷ values) = name ++ text "|" ++ joined value values

abbrev pub label : Series → Text
label s = joined s.0 s.1

both-series :
    (xs ys : List Text) (as_xs as_ys : List Series)
    → xs ≡ map label as_xs
    → ys ≡ map label as_ys
    → xs ++ ys ≡ map label (as_xs ++ as_ys)
both-series xs ys as_xs as_ys h k =
    ap (λ l. l ++ ys) h ∙ ap (λ l. map label as_xs ++ l) k ∙ sym (map-append label as_xs as_ys)

labels_of-series :
    {A : Type 0} (f : A → List Text) (g : A → List Series) (same : (a : A) → f a ≡ map label (g a))
    (xs : List A)
    → labels_of f xs ≡ map label (series_of g xs)
labels_of-series f g same [] = refl
labels_of-series f g same (x ∷ xs) =
    both-series (f x) (labels_of f xs) (g x) (series_of g xs) (same x)
      (labels_of-series f g same xs)

map-series_if : (b : Bool) (s : Series) → map label (series_if b s) ≡ only_if b (label s)
map-series_if true s = refl
map-series_if false s = refl

cost_label-series : (c : Cost) → cost_label c ∷ [] ≡ map label (cost_series c)
unfolding cost_label
cost_label-series c = refl

forecast_label-series : (f : Forecast) → forecast_label f ∷ [] ≡ map label (forecast_series f)
unfolding forecast_label
forecast_label-series f = refl

account_label-series : (a : Account) → account_label a ∷ [] ≡ map label (account_series a)
unfolding account_label
account_label-series a = refl

tag_label-series : (t : TagCost) → tag_label t ∷ [] ≡ map label (tag_series t)
unfolding tag_label
tag_label-series t = refl

ruleset as_series = (map-append, map-series_if, append_assoc)

budget_labels-series : (b : Budget) → budget_labels b ≡ map label (budget_series b)
unfolding budget_labels budget_prefix
budget_labels-series b = simp as_series

commitment_labels-series : (c : Commitment) → commitment_labels c ≡ map label (commitment_series c)
unfolding commitment_labels commitment_prefix
commitment_labels-series c = simp as_series

anomaly_labels-series : (a : Anomaly) → anomaly_labels a ≡ map label (anomaly_series a)
unfolding anomaly_labels anomaly_prefix
anomaly_labels-series a = simp as_series

-- The labels that ValidateUnique marks are the series, joined.
pub series_labels-label : (s : Snapshot) → series_labels s ≡ map label (all_series s)
unfolding series_labels
series_labels-label s =
    both-series _ _ _ _ (labels_of-series _ cost_series cost_label-series s.costs) (
      both-series _ _ _ _ (labels_of-series _ forecast_series forecast_label-series s.forecasts) (
        both-series _ _ _ _ (labels_of-series _ budget_series budget_labels-series s.budgets) (
          both-series _ _ _ _ (labels_of-series _ account_series account_label-series s.accounts) (
            both-series _ _ _ _ (labels_of-series _ tag_series tag_label-series s.tag_costs) (
              both-series _ _ _ _
                (labels_of-series _ commitment_series commitment_labels-series s.commitments)
                (labels_of-series _ anomaly_series anomaly_labels-series s.anomalies))))))
