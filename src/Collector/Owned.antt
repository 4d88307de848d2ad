-- ===== src/Collector/Owned.antt =====
-- Whose costs the cost collectors return.
use aws_cost_exporter.Base.{◌≡◌, refl, subst, true, List, [], ◌∷◌, map, All, All-append}
use aws_cost_exporter.Base.Float.{Float64}
use aws_cost_exporter.Base.Text.{text_same}
use aws_cost_exporter.Domain.Identity.{TargetId}
use aws_cost_exporter.Domain.Dimension.{DimensionKind}
use aws_cost_exporter.Domain.Period.{Time}
use aws_cost_exporter.Domain.Cost.{Cost}
use aws_cost_exporter.Errors.{ok, bind_ok, ok_injective}
use aws_cost_exporter.Snapshot
use aws_cost_exporter.Snapshot.Owned.{OwnedBy, new_with_data-OwnedBy}
use aws_cost_exporter.Snapshot.Validate.{known_source}
use aws_cost_exporter.Collector.Queries.{CostQuery, build_daily_and_mtd_queries}
use aws_cost_exporter.Collector.Cardinality.{Limited, limit_dimensions}
use aws_cost_exporter.Collector.Bounded.{limit_dimensions-known}
use aws_cost_exporter.Collector.Grouped.{
  GroupedReader, Collected, Plan, unless_done, retarget, validate_overflow_label, collect_query,
  collect_queries, collect_grouped,
}

-- A cost of the target with a known provider and basis.
abbrev pub IsOwn : TargetId → Cost → Type 0
IsOwn target c = (c.target ≡ target) × (known_source c.provider c.basis ≡ true)

pub retarget-IsOwn :
    (target : TargetId) (values : List Cost)
    → All (λ c. known_source c.provider c.basis ≡ true) values
    → All (IsOwn target) (map (retarget target) values)
retarget-IsOwn target [] h = tt
retarget-IsOwn target (c ∷ cs) h = ((refl, h.0), retarget-IsOwn target cs h.1)

-- A snapshot of such costs and of nothing else.
pub new_costs-OwnedBy :
    (target : TargetId) (costs : List Cost)
    → All (IsOwn target) costs
    → OwnedBy target (Snapshot.new costs [] [] [])
unfolding Snapshot.new
new_costs-OwnedBy target costs h = new_with_data-OwnedBy target _ (record {
  costs = h;
  forecasts = tt;
  budgets = tt;
  accounts = tt;
  commitments = tt;
  anomalies = tt;
  tag_costs = tt;
})

module _ (plus : Float64 → Float64 → Float64) (plan : Plan) (reader : GroupedReader) where
  pub collect_query-ok :
      (query : CostQuery) (made : Limited)
      → collect_query plus plan reader query ≡ ok made
      → (values : List Cost) × (bounded : Limited) × (plan.check values ≡ ok tt)
        × (limit_dimensions plus values plan.series_limit plan.overflow_label ≡ ok bounded)
        × (map (retarget plan.target) bounded.values ≡ made.values)
  unfolding collect_query
  collect_query-ok query made h =
      let (_, _, h1) = bind_ok (unless_done (reader.context_error query)) _ h in
      let (values, _, h2) = bind_ok (reader.answer query) _ h1 in
      let (done, fine, h3) = bind_ok (plan.check values) _ h2 in
      let (bounded, one, h4) =
        bind_ok (limit_dimensions plus values plan.series_limit plan.overflow_label) _ h3 in
      (values, bounded, fine, one, cc (ok_injective h4))

  -- What holds of the costs of each query holds of all costs of a collection.
  pub collect_queries-All :
      (P : Cost → Type 0) (queries : List CostQuery) (made : Limited)
      → ((query : CostQuery) (one : Limited)
          → collect_query plus plan reader query ≡ ok one
          → All P one.values)
      → collect_queries plus plan reader queries ≡ ok made
      → All P made.values
  unfolding collect_queries
  collect_queries-All P [] made each h = subst (λ (m : Limited). All P m.values) (ok_injective h) tt
  collect_queries-All P (query ∷ queries) made each h =
      let (first, one, h1) = bind_ok (collect_query plus plan reader (plan.mutate query)) _ h in
      let (rest, others, h2) = bind_ok (collect_queries plus plan reader queries) _ h1 in
      subst (λ (m : Limited). All P m.values) (ok_injective h2)
        (All-append P first.values rest.values (each (plan.mutate query) first one)
          (collect_queries-All P queries rest each others))

  -- A snapshot that CollectGrouped returns holds only costs of the collector's target with a known
  -- provider and basis, whatever the reader returns, so that ValidatePartial accepts it.
  pub collect_grouped-OwnedBy :
      (reference : Time) (group_by : DimensionKind) (made : Collected)
      → collect_grouped plus plan reader reference group_by ≡ ok made
      → OwnedBy plan.target made.snapshot
  unfolding collect_grouped
  collect_grouped-OwnedBy reference group_by made h =
      let (_, _, h1) = bind_ok (validate_overflow_label plan.overflow_label) _ h in
      let (queries, _, h2) = bind_ok (build_daily_and_mtd_queries reference group_by) _ h1 in
      let (collected, all, h3) = bind_ok (collect_queries plus plan reader queries) _ h2 in
      subst (λ (m : Collected). OwnedBy plan.target m.snapshot) (ok_injective h3)
        (new_costs-OwnedBy plan.target collected.values
          (collect_queries-All (IsOwn plan.target) queries collected own all))
    where
      own :
          (query : CostQuery) (one : Limited)
          → collect_query plus plan reader query ≡ ok one
          → All (IsOwn plan.target) one.values
      own query one h =
          let (values, bounded, _, limited, same) = collect_query-ok query one h in
          subst (All (IsOwn plan.target)) same (
            retarget-IsOwn plan.target bounded.values (
              limit_dimensions-known plus plan.series_limit plan.overflow_label values bounded
                limited))
