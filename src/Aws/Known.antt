-- ===== src/Aws/Known.antt =====
-- What MapUsage and ReadCosts return in either window.
use mathlib.Core.List.{Nodup}
use aws_cost_exporter.Base.{
  ◌≡◌, refl, sym, subst, ap, ◌∙◌, Bool, true, ◌&&◌, not, List, [], ◌∷◌, map, All, All-select,
  All-mono, arith, ◌=?◌, Bool-cases, inl, inr, select,
}
use aws_cost_exporter.Base.Keys.{list_same}
use aws_cost_exporter.Base.Float.{Float64}
use aws_cost_exporter.Base.Text.{Text, text, text_same, key_same, is_empty}
use aws_cost_exporter.Domain.Money.{Money, IsMoney, add, add-IsMoney}
use aws_cost_exporter.Domain.Period.{Time}
use aws_cost_exporter.Domain.Dimension.{
  Dimension, IsDimension, dimension_total, dimension_service, dimension_region, dimension_account,
  Basis, unblended, amortized, net, valid_basis, valid_provider, provider_cost_explorer,
}
use aws_cost_exporter.Domain.Cost.{month_to_date, Cost}
use aws_cost_exporter.Errors.{ok, bind_ok, check_passed, ok_injective, invalid_response}
use aws_cost_exporter.Snapshot.Validate.{known_source}
use aws_cost_exporter.Collector.Queries.{CostQuery}
use aws_cost_exporter.Aws.Mapping.{
  Parsers, ResultByTime, metric_basis, aggregate_key, map_results, aggregate_month_to_date,
  map_usage,
}
use aws_cost_exporter.Aws.Mapped.{IsMapped, map_results-IsMapped}
use aws_cost_exporter.Aws.Totals.{sum_from, IsTotal, aggregate_month_to_date-totals}
use aws_cost_exporter.Aws.Usage.{
  UsageAdapter, metric_for_basis, group_definition, usage_request, fetch, read_costs,
}

sum_from-IsMoney :
    (plus : Float64 → Float64 → Float64) (m n : Money) (rows : List Cost)
    → IsMoney m
    → sum_from plus m rows ≡ ok n
    → IsMoney n
sum_from-IsMoney plus m n [] w h = subst IsMoney (ok_injective h) w
sum_from-IsMoney plus m n (r ∷ rs) w h =
    let (s, one, h1) = bind_ok (add plus m r.amount) _ h in
    sum_from-IsMoney plus s n rs (add-IsMoney plus m r.amount s w one).0 h1

All-selected : {A : Type 0} (p : A → Bool) (xs : List A) → All (λ x. p x ≡ true) (select p xs)
All-selected p [] = tt
All-selected p (x ∷ xs) = elim (Bool-cases (p x)) [
  | inl e ↦ rw e (e, All-selected p xs)
  | inr e ↦ rw e (All-selected p xs)
]

-- Costs with the same key agree in what the key holds.
record SameKey (a b : Cost) : Type 0 where
  dimension : a.dimension ≡ b.dimension
  provider : a.provider ≡ b.provider
  basis : a.basis ≡ b.basis

key-SameKey : (a b : Cost) → aggregate_key a ≡ aggregate_key b → SameKey a b
key-SameKey a b e = record { dimension = cc; provider = cc; basis = cc }

module _ (query : CostQuery) (metric : Text) where
  -- A total of mapped rows is mapped.
  IsTotal-IsMapped :
      (plus : Float64 → Float64 → Float64) (rows : List Cost) (c : Cost)
      → query.window ≡ month_to_date
      → All (IsMapped query metric) rows
      → IsTotal plus query.period rows (aggregate_key c) c
      → IsMapped query metric c
  IsTotal-IsMapped plus rows c w a t =
      let k = aggregate_key c in
      let (first, rest, split, summed) = t.summed in
      let mapped = subst (All (IsMapped query metric)) split (All-select _ _ rows a) in
      let keyed = subst (All (λ r. (aggregate_key r =? k) ≡ true)) split (All-selected _ rows) in
      let same = key-SameKey first c ((key_same.same_iff (aggregate_key first) k).0 keyed.0) in
      record {
        provider = sym same.provider ∙ mapped.0.provider;
        basis = sym same.basis ∙ mapped.0.basis;
        window = t.window ∙ sym w;
        kind = ap (λ (d : Dimension). d.kind) (sym same.dimension) ∙ mapped.0.kind;
        dimension = subst IsDimension same.dimension mapped.0.dimension;
        amount = sum_from-IsMoney plus first.amount c.amount rest mapped.0.amount summed;
      }

  -- Each cost that MapUsage returns is one of Cost Explorer in the basis of the metric, in the
  -- query's window, with a well-formed dimension of the query's kind and a well-formed amount. For
  -- the month to date it stands for the query's period, and no two costs agree in their dimension,
  -- currency, provider and basis.
  pub map_usage-IsMapped :
      (env : Parsers) (results : List ResultByTime) (made : List Cost)
      → map_usage env results query metric ≡ ok made
      → All (IsMapped query metric) made
        × (query.window ≡ month_to_date
            → All (λ c. c.period ≡ query.period) made × Nodup (map aggregate_key made))
  unfolding map_usage
  map_usage-IsMapped env results made h =
      let (_, h1) = check_passed (is_empty metric) invalid_response _ h in
      let (_, h2) =
        check_passed
          (not (query.group_by =? dimension_total)
            && not (query.group_by =? dimension_service)
            && not (query.group_by =? dimension_region)
            && not (query.group_by =? dimension_account))
          invalid_response _ h1 in
      let (mapped, each, h3) = bind_ok (map_results env query metric results) _ h2 in
      let all = map_results-IsMapped env query metric results mapped each in
      elim (Bool-cases (query.window =? month_to_date)) [
        | inl e ↦
            let w = (text_same.same_iff query.window month_to_date).0 e in
            let total : aggregate_month_to_date env.plus mapped query.period ≡ ok made =
              rw e at h3 in
            let (distinct, totals, _) =
              aggregate_month_to_date-totals env.plus mapped query.period made total in
            (
              All-mono (λ c t. IsTotal-IsMapped env.plus mapped c w all t) made totals,
              λ _. (All-mono (λ c t. t.span) made totals, distinct),
            )
        | inr e ↦
            let daily : ok mapped ≡ ok made = rw e at h3 in
            (
              subst (All (IsMapped query metric)) (ok_injective daily) all,
              λ w. absurd (cc (e, (text_same.same_iff query.window month_to_date).1 w)),
            )
      ]

-- The metric that is asked for in a basis is that basis again when its costs are mapped.
pub metric_basis-metric_for_basis :
    (basis : Basis)
    → valid_basis basis ≡ true
    → (metric : Text) × (metric_for_basis basis (text "UnblendedCost") ≡ ok metric)
      × (metric_basis metric ≡ basis)
unfolding metric_for_basis valid_basis metric_basis list_same
metric_basis-metric_for_basis basis valid = elim (Bool-cases (basis =? unblended)) [
  | inl u ↦ (text "UnblendedCost", rw u refl, sym ((text_same.same_iff basis unblended).0 u))
  | inr nu ↦ elim (Bool-cases (basis =? amortized)) [
    | inl a ↦
        (text "AmortizedCost", rw (nu, a) refl, sym ((text_same.same_iff basis amortized).0 a))
    | inr na ↦
        let n : (basis =? net) ≡ true = ground (arith, valid, nu, na) in
        (text "NetUnblendedCost", rw (nu, na, n) refl, sym ((text_same.same_iff basis net).0 n))
  ]
]

-- No other basis is asked for.
metric_for_basis-valid :
    (basis : Basis) (fallback metric : Text)
    → metric_for_basis basis fallback ≡ ok metric
    → valid_basis basis ≡ true
unfolding metric_for_basis valid_basis
metric_for_basis-valid basis fallback metric h = ground arith

cost_explorer-valid : valid_provider provider_cost_explorer ≡ true
unfolding valid_provider list_same
cost_explorer-valid = refl

pub known_of :
    (provider : Text) (basis asked : Basis)
    → provider ≡ provider_cost_explorer
    → basis ≡ asked
    → valid_basis asked ≡ true
    → known_source provider basis ≡ true
known_of provider basis asked p b valid = rw (p, b, cost_explorer-valid) valid

module _ (env : Parsers) (format_date : Time → Text) (adapter : UsageAdapter)
    (plain : adapter.cost_metric ≡ text "UnblendedCost") where
  -- Where the adapter's own metric is UnblendedCost, each cost that ReadCosts returns has the basis
  -- of the query, which is a known one, and the provider Cost Explorer.
  pub read_costs-known :
      (query : CostQuery) (made : List Cost)
      → read_costs env format_date adapter query ≡ ok made
      → All
          (λ c.
            (c.provider ≡ provider_cost_explorer)
            × (c.basis ≡ query.basis)
            × (known_source c.provider c.basis ≡ true))
          made
  unfolding read_costs
  read_costs-known query made h =
      let (metric, asked, h1) = bind_ok (metric_for_basis query.basis adapter.cost_metric) _ h in
      let (group_by, _, h2) = bind_ok (group_definition query.group_by) _ h1 in
      let (results, _, h3) =
        bind_ok
          (fetch env format_date adapter
            (usage_request env format_date adapter query metric group_by))
          _ h2 in
      let valid = metric_for_basis-valid query.basis adapter.cost_metric metric asked in
      let (metric', asked', back) = metric_basis-metric_for_basis query.basis valid in
      let same : metric' ≡ metric =
        ok_injective
          (sym asked' ∙ subst (λ f. metric_for_basis query.basis f ≡ ok metric) plain asked) in
      let basis = subst (λ m. metric_basis m ≡ query.basis) same back in
      All-mono
        (λ c w. (
          w.provider,
          w.basis ∙ basis,
          known_of c.provider c.basis query.basis w.provider (w.basis ∙ basis) valid,
        ))
        made (map_usage-IsMapped query metric env results made h3).0
