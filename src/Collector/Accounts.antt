-- ===== src/Collector/Accounts.antt =====
-- What the account collector publishes.
use aws_cost_exporter.Base.{
  ◌≡◌, ◌⊎◌, subst, ◌∙◌, true, ◌||◌, not, List, [], ◌∷◌, map, All, arith, ◌=?◌, inl, inr,
}
use aws_cost_exporter.Base.Float.{Float64}
use aws_cost_exporter.Base.Keys.{list_same}
use aws_cost_exporter.Base.Sort.{All-sort_by}
use aws_cost_exporter.Base.Text.{Text, text_same, trim_space, trim_space_idem}
use aws_cost_exporter.Domain.Identity.{TargetId}
use aws_cost_exporter.Domain.Dimension.{Dimension, dimension_account, new_dimension}
use aws_cost_exporter.Domain.Period.{Time}
use aws_cost_exporter.Domain.Cost.{Cost, cost_before}
use aws_cost_exporter.Errors.{ok, bind_ok, check_passed, ok_injective, invalid_account_id}
use aws_cost_exporter.Snapshot
use aws_cost_exporter.Collector.Queries.{CostQuery, build_daily_and_mtd_queries}
use aws_cost_exporter.Collector.Cardinality.{Limited, overflow_of}
use aws_cost_exporter.Collector.Bounded.{overflow_of-ok, limit_dimensions-All}
use aws_cost_exporter.Collector.Grouped.{
  Collected, retarget, validate_overflow_label, collect_query, collect_queries, collect_grouped,
}
use aws_cost_exporter.Collector.Owned.{collect_query-ok, collect_queries-All}
use aws_cost_exporter.Collector.Costs.{
  AccountCollector, account_plan, valid_account_id, validate_account_costs, collect_account,
}

-- A cost of an account, or of what is left of them under the label.
abbrev pub IsAccountCost : Text → Cost → Type 0
IsAccountCost label c =
    (c.dimension.kind ≡ dimension_account)
    × ((valid_account_id c.dimension.value ≡ true) ⊎ (c.dimension.value ≡ trim_space label))

validate_account_costs-All :
    (label : Text) (values : List Cost)
    → validate_account_costs values ≡ ok tt
    → All (IsAccountCost label) values
unfolding validate_account_costs
validate_account_costs-All label [] h = tt
validate_account_costs-All label (c ∷ cs) h =
    let (fine, rest) =
      check_passed
        (not (c.dimension.kind =? dimension_account) || not (valid_account_id c.dimension.value))
        invalid_account_id (validate_account_costs cs) h in
    let valid : valid_account_id c.dimension.value ≡ true = ground (arith, fine) in
    (
      (ground (arith, fine, text_same.same_iff c.dimension.kind dimension_account), inl valid),
      validate_account_costs-All label cs rest,
    )

new_dimension-account :
    (raw : Text) (d : Dimension)
    → new_dimension dimension_account raw ≡ ok d
    → (d.kind ≡ dimension_account) × (d.value ≡ trim_space raw)
unfolding new_dimension list_same
new_dimension-account raw d h = ground arith

overflow_of-account :
    (plus : Float64 → Float64 → Float64) (label : Text) (first : Cost) (rest : List Cost)
    (made : Cost)
    → IsAccountCost label first
    → overflow_of plus (trim_space label) first rest ≡ ok made
    → IsAccountCost label made
overflow_of-account plus label first rest made a h =
    let (dimension, amount, named, same) =
      overflow_of-ok plus (trim_space label) first rest made h in
    let named' = subst (λ k. new_dimension k (trim_space label) ≡ ok dimension) a.0 named in
    let (kind, value) = new_dimension-account (trim_space label) dimension named' in
    subst (IsAccountCost label) same (kind, inr (value ∙ trim_space_idem label))

retarget-account :
    (label : Text) (target : TargetId) (values : List Cost)
    → All (IsAccountCost label) values
    → All (IsAccountCost label) (map (retarget target) values)
retarget-account label target [] h = tt
retarget-account label target (c ∷ cs) h = (h.0, retarget-account label target cs h.1)

-- Each cost that the account collector returns is one of the account dimension, under an account ID
-- of twelve digits or under the trimmed overflow label.
pub collect_account-IsAccountCost :
    (plus : Float64 → Float64 → Float64) (c : AccountCollector) (reference : Time)
    (made : Collected)
    → collect_account plus c reference ≡ ok made
    → All (IsAccountCost c.overflow_label) made.snapshot.costs
unfolding collect_account collect_grouped Snapshot.new Snapshot.new_with_data
collect_account-IsAccountCost plus c reference made h =
    let (_, _, h1) = bind_ok (validate_overflow_label c.overflow_label) _ h in
    let (queries, _, h2) = bind_ok (build_daily_and_mtd_queries reference dimension_account) _ h1 in
    let (collected, all, h3) =
      bind_ok (collect_queries plus (account_plan c) c.reader queries) _ h2 in
    subst (λ (m : Collected). All (IsAccountCost c.overflow_label) m.snapshot.costs)
      (ok_injective h3)
      (All-sort_by cost_before (IsAccountCost c.overflow_label) collected.values (
        collect_queries-All plus (account_plan c) c.reader (IsAccountCost c.overflow_label) queries
          collected each all))
  where
    each :
        (query : CostQuery) (one : Limited)
        → collect_query plus (account_plan c) c.reader query ≡ ok one
        → All (IsAccountCost c.overflow_label) one.values
    each query one h =
        let (values, bounded, fine, limited, same) =
          collect_query-ok plus (account_plan c) c.reader query one h in
        subst (All (IsAccountCost c.overflow_label)) same (
          retarget-account c.overflow_label c.id.target bounded.values (
            limit_dimensions-All plus c.series_limit c.overflow_label
              (IsAccountCost c.overflow_label) values bounded
              (overflow_of-account plus c.overflow_label)
              (validate_account_costs-All c.overflow_label values fine) limited))
