-- ===== src/App/Reader.antt =====
-- internal/app/bootstrap.go: filteredReader, which asks for each basis of the configuration under the
-- filters of the target.
use aws_cost_exporter.Base.{
  ◌≡◌, subst, true, List, [], ◌∷◌, ◌++◌, All, All-append, All-mono, Option,
}
use aws_cost_exporter.Base.Text.{Text, text}
use aws_cost_exporter.Domain.Dimension.{dimension_total, Basis, unblended}
use aws_cost_exporter.Domain.Period.{Time}
use aws_cost_exporter.Domain.Cost.{Cost}
use aws_cost_exporter.Config.Schema.{FiltersConfig}
use aws_cost_exporter.Errors.{Result, ok, Error, ◌>>=◌, bind_ok, ok_injective}
use aws_cost_exporter.Snapshot.{Snapshot}
use aws_cost_exporter.Snapshot.Owned.{OwnedBy}
use aws_cost_exporter.Snapshot.Validate.{known_source}
use aws_cost_exporter.Collector.Queries.{CostQuery, build_daily_and_mtd_queries}
use aws_cost_exporter.Collector.Grouped.{GroupedReader, unless_done}
use aws_cost_exporter.Collector.Owned.{IsOwn, retarget-IsOwn, new_costs-OwnedBy}
use aws_cost_exporter.Collector.Costs.{TotalCollector, total_costs, collect_total}
use aws_cost_exporter.Aws.Mapping.{Parsers}
use aws_cost_exporter.Aws.Usage.{UsageAdapter, read_costs}
use aws_cost_exporter.Aws.Known.{read_costs-known}

-- filteredReader, but for its forecasts
pub record FilteredReader : Type 0 where
  pub usage : UsageAdapter
  pub filters : FiltersConfig
  pub bases : List Basis

-- `configuredCostBases`: the texts themselves
abbrev pub configured_cost_bases : List Text → List Basis
configured_cost_bases values = values

-- The default of `bases`
abbrev pub bases_or_default : List Basis → List Basis
bases_or_default [] = unblended ∷ []
bases_or_default (basis ∷ bases) = basis ∷ bases

-- The query under the filters
abbrev pub filtered : FiltersConfig → CostQuery → CostQuery
filtered filters query = record query {
  linked_account_ids = filters.linked_account_ids;
  services = filters.services;
  regions = filters.regions;
}

module _ (env : Parsers) (format_date : Time → Text) (reader : FilteredReader) where
  -- The loop over the bases
  unfoldable pub read_bases : List Basis → CostQuery → Result (List Cost)
  read_bases [] query = ok []
  read_bases (basis ∷ bases) query = do
    result ← read_costs env format_date reader.usage (record query { basis = basis })
    rest ← read_bases bases query
    ok (result ++ rest)

  -- `filteredReader.ReadCosts`
  unfoldable pub read_filtered_costs : CostQuery → Result (List Cost)
  read_filtered_costs query =
      read_bases (bases_or_default reader.bases) (filtered reader.filters query)

  module _ (plain : reader.usage.cost_metric ≡ text "UnblendedCost") where
    read_bases-known :
        (bases : List Basis) (query : CostQuery) (made : List Cost)
        → read_bases bases query ≡ ok made
        → All (λ c. known_source c.provider c.basis ≡ true) made
    unfolding read_bases
    read_bases-known [] query made h =
        subst (All (λ c. known_source c.provider c.basis ≡ true)) (ok_injective h) tt
    read_bases-known (basis ∷ bases) query made h =
        let asked : CostQuery = record query { basis = basis } in
        let (result, one, h1) = bind_ok (read_costs env format_date reader.usage asked) _ h in
        let (rest, others, h2) = bind_ok (read_bases bases query) _ h1 in
        subst (All (λ c. known_source c.provider c.basis ≡ true)) (ok_injective h2) (
          All-append _ result rest
            (All-mono (λ c w. w.2) result
              (read_costs-known env format_date reader.usage plain asked result one))
            (read_bases-known bases query rest others))

    read_filtered_costs-known :
        (query : CostQuery) (made : List Cost)
        → read_filtered_costs query ≡ ok made
        → All (λ c. known_source c.provider c.basis ≡ true) made
    unfolding read_filtered_costs
    read_filtered_costs-known query made h =
        read_bases-known (bases_or_default reader.bases) (filtered reader.filters query) made h

    -- The total collector over this reader, for a context that says what it will before each query
    module _ (context_error : CostQuery → Option Error) (c : TotalCollector)
        (reads : c.reader
          ≡ record { context_error = context_error; answer = read_filtered_costs }) where
      total_costs-IsOwn :
          (queries : List CostQuery) (made : List Cost)
          → total_costs c queries ≡ ok made
          → All (IsOwn c.id.target) made
      unfolding total_costs
      total_costs-IsOwn [] made h = subst (All (IsOwn c.id.target)) (ok_injective h) tt
      total_costs-IsOwn (query ∷ queries) made h =
          let (_, _, h1) = bind_ok (unless_done (c.reader.context_error query)) _ h in
          let (values, read, h2) = bind_ok (c.reader.answer query) _ h1 in
          let (rest, others, h3) = bind_ok (total_costs c queries) _ h2 in
          let read' = subst (λ (r : GroupedReader). r.answer query ≡ ok values) reads read in
          subst (All (IsOwn c.id.target)) (ok_injective h3) (
            All-append (IsOwn c.id.target) _ rest
              (retarget-IsOwn c.id.target values (read_filtered_costs-known query values read'))
              (total_costs-IsOwn queries rest others))

      -- A snapshot of the total collector, over the Cost Explorer reader of the application with the
      -- metric UnblendedCost, holds only costs of its target with a known provider and basis: one
      -- that ValidatePartial accepts, whatever AWS answers.
      pub collect_total-OwnedBy :
          (reference : Time) (s : Snapshot)
          → collect_total c reference ≡ ok s
          → OwnedBy c.id.target s
      unfolding collect_total
      collect_total-OwnedBy reference s h =
          let (queries, _, h1) =
            bind_ok (build_daily_and_mtd_queries reference dimension_total) _ h in
          let (collected, all, h2) = bind_ok (total_costs c queries) _ h1 in
          subst (OwnedBy c.id.target) (ok_injective h2)
            (new_costs-OwnedBy c.id.target collected (total_costs-IsOwn queries collected all))
