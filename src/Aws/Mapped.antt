-- ===== src/Aws/Mapped.antt =====
-- What MapUsage makes of the results.
use aws_cost_exporter.Base.{
  ◌≡◌, refl, sym, subst, ◌∙◌, List, [], ◌∷◌, All, All-append, ◌=?◌, Bool-cases, inl, inr,
}
use aws_cost_exporter.Base.Text.{Text, text_same, key_same}
use aws_cost_exporter.Base.Dict.{Dict, find}
use aws_cost_exporter.Domain.Money.{IsMoney, parse_money, parse_money-IsMoney}
use aws_cost_exporter.Domain.Period.{Period}
use aws_cost_exporter.Domain.Dimension.{
  Dimension, IsDimension, new_dimension, new_dimension-IsDimension, dimension_total,
  provider_cost_explorer,
}
use aws_cost_exporter.Domain.Cost.{Cost}
use aws_cost_exporter.Errors.{ok, or_fail, bind_ok, ok_injective, invalid_response}
use aws_cost_exporter.Collector.Queries.{CostQuery}
use aws_cost_exporter.Aws.Mapping.{
  Parsers, MetricValue, Group, ResultByTime, metric_basis, only_key, map_period, map_cost,
  map_groups, map_total, map_result, map_results,
}

-- A cost of Cost Explorer for a query and a metric
pub record IsMapped (query : CostQuery) (metric : Text) (c : Cost) : Type 0 where
  pub provider : c.provider ≡ provider_cost_explorer
  pub basis : c.basis ≡ metric_basis metric
  pub window : c.window ≡ query.window
  pub kind : c.dimension.kind ≡ query.group_by
  pub dimension : IsDimension c.dimension
  pub amount : IsMoney c.amount

module _ (env : Parsers) (query : CostQuery) (metric : Text) where
  map_cost-IsMapped :
      (period : Period) (dimension : Dimension) (metrics : Dict Text MetricValue) (made : Cost)
      → IsDimension dimension
      → dimension.kind ≡ query.group_by
      → map_cost env period query.window dimension metrics metric ≡ ok made
      → IsMapped query metric made
  unfolding map_cost
  map_cost-IsMapped period dimension metrics made d k h =
      let (value, _, h1) = bind_ok (or_fail (find metric metrics) invalid_response) _ h in
      let (amount, parsed, h2) =
        bind_ok (parse_money env.parse_float value.amount value.unit) _ h1 in
      let m = parse_money-IsMoney env.parse_float value.amount value.unit amount parsed in
      subst (IsMapped query metric) (ok_injective h2) (record {
        provider = refl;
        basis = refl;
        window = refl;
        kind = k;
        dimension = d;
        amount = m;
      })

  map_groups-IsMapped :
      (period : Period) (groups : List Group) (made : List Cost)
      → map_groups env query metric period groups ≡ ok made
      → All (IsMapped query metric) made
  unfolding map_groups
  map_groups-IsMapped period [] made h = subst (All (IsMapped query metric)) (ok_injective h) tt
  map_groups-IsMapped period (group ∷ groups) made h =
      let (key, _, h1) = bind_ok (or_fail (only_key group.keys) invalid_response) _ h in
      let (dimension, named, h2) = bind_ok (new_dimension query.group_by key) _ h1 in
      let (entry, one, h3) =
        bind_ok (map_cost env period query.window dimension group.metrics metric) _ h2 in
      let (rest, others, h4) = bind_ok (map_groups env query metric period groups) _ h3 in
      let (d, k) = new_dimension-IsDimension query.group_by key dimension named in
      subst (All (IsMapped query metric)) (ok_injective h4) (
        map_cost-IsMapped period dimension group.metrics entry d k one,
        map_groups-IsMapped period groups rest others,
      )

  map_total-IsMapped :
      (period : Period) (metrics : Dict Text MetricValue) (made : List Cost)
      → query.group_by ≡ dimension_total
      → map_total env query metric period metrics ≡ ok made
      → All (IsMapped query metric) made
  unfolding map_total
  map_total-IsMapped period metrics made total h =
      let (dimension, named, h1) = bind_ok (new_dimension dimension_total []) _ h in
      let (entry, one, h2) =
        bind_ok (map_cost env period query.window dimension metrics metric) _ h1 in
      let (d, k) = new_dimension-IsDimension dimension_total [] dimension named in
      subst (All (IsMapped query metric)) (ok_injective h2)
        (map_cost-IsMapped period dimension metrics entry d (k ∙ sym total) one, tt)

  map_result-IsMapped :
      (result : ResultByTime) (made : List Cost)
      → map_result env query metric result ≡ ok made
      → All (IsMapped query metric) made
  unfolding map_result
  map_result-IsMapped result made h =
      let (period, _, h1) = bind_ok (map_period env result.time_period) _ h in
      elim (Bool-cases (query.group_by =? dimension_total)) [
        | inl e ↦
            map_total-IsMapped period result.total made
              ((text_same.same_iff query.group_by dimension_total).0 e) (rw e at h1)
        | inr e ↦ map_groups-IsMapped period result.groups made (rw e at h1)
      ]

  pub map_results-IsMapped :
      (results : List ResultByTime) (made : List Cost)
      → map_results env query metric results ≡ ok made
      → All (IsMapped query metric) made
  unfolding map_results
  map_results-IsMapped [] made h = subst (All (IsMapped query metric)) (ok_injective h) tt
  map_results-IsMapped (result ∷ results) made h =
      let (first, one, h1) = bind_ok (map_result env query metric result) _ h in
      let (rest, others, h2) = bind_ok (map_results env query metric results) _ h1 in
      subst (All (IsMapped query metric)) (ok_injective h2) (
        All-append (IsMapped query metric) first rest (map_result-IsMapped result first one)
          (map_results-IsMapped results rest others))
