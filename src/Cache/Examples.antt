-- ===== src/Cache/Examples.antt =====
-- The store of internal/cache/memory on a history of calls.
use aws_cost_exporter.Base.{
  ℕ, ◌≡◌, ◌≢◌, ◌≤◌, ◌<◌, ◌+◌, ◌↔◌, refl, true, false, List, [], ◌∷◌, map, arith,
}
use aws_cost_exporter.Base.Int.{pos}
use aws_cost_exporter.Base.Keys.{list_same, lex_lt}
use aws_cost_exporter.Base.Dict.{Dict, find, find_or, put}
use aws_cost_exporter.Base.Sort.{sort_by}
use aws_cost_exporter.Base.Text.{text, text_same, text_lt, byte_length, trim_space, is_space}
use aws_cost_exporter.Domain.Identity.{CollectorId, is_valid, collector_same, collector_id_same}
use aws_cost_exporter.Domain.Dimension.{valid_provider, valid_basis}
use aws_cost_exporter.Domain.Cost.{cost_before, cost_less}
use aws_cost_exporter.Domain.Records.{
  sort_accounts, sort_budgets, sort_commitments, sort_anomalies, sort_tags, account_before,
}
use aws_cost_exporter.Errors.{ok, err, Error, invalid_collector}
use aws_cost_exporter.Snapshot.{
  Snapshot, merge, new_with_data, append_part, append_parts, no_snapshot,
}
use aws_cost_exporter.Snapshot.Validate.{
  validate_partial, validate_unique, identities_valid, mark_snapshot, mark_costs, mark_forecasts,
  mark_budgets, mark_accounts, mark_tags, mark_commitments, mark_anomalies, mark, contains,
  cost_label, account_label,
}
use aws_cost_exporter.Snapshot.Owned.{OwnedBy}
use aws_cost_exporter.Cache.Policy.{
  Policies, Policy, install, with_organization_policies, is_account_id, observe, allow, included,
  choose_one, choose, exceeded, chosen_accounts, bound_accounts, merge_parts,
}
use aws_cost_exporter.Cache.Age.{missing, fresh, aging, stale, freshness_at, freshness_bounds}
use aws_cost_exporter.Cache.{Store, new, apply_options, publish, published, record_failure}
use aws_cost_exporter.Cache.Statuses.{SameRun}
use aws_cost_exporter.Cache.Invariant.{IsSound, Call, publishes, fails, run, step, new-run-IsSound}
use aws_cost_exporter.Cache.Isolation.{SameFor, step-SameFor}
use aws_cost_exporter.Cache.Outcome.{
  status_of, publish-ok_iff, publish-statuses, record_failure_lem,
}
use aws_cost_exporter.Samples.{
  prod, dev, prod_costs, dev_costs, prod_accounts, collector, first_account, account, noon,
  in_order,
}

abbrev cost_collector : CollectorId
cost_collector = collector prod (text "account")

abbrev organization_collector : CollectorId
organization_collector = collector prod (text "organization")

abbrev dev_collector : CollectorId
dev_collector = collector dev (text "total")

abbrev policy : Policy
policy = record { account_ids = first_account ∷ []; series_limit = pos 1 }

abbrev policies : Policies
policies = (prod, policy) ∷ []

abbrev start : Store
start = record {
  freshness_ttl = pos 10;
  stale_after = pos 20;
  policies = policies;
  current = record { snapshot = no_snapshot; parts = []; statuses = [] };
}

started : new (pos 10) (pos 20) (policies ∷ []) ≡ ok start
unfolding new apply_options with_organization_policies install put
started = refl

abbrev history : List Call
history = publishes cost_collector prod_costs in_order noon ∷ fails dev_collector noon ∷ []

history-IsSound : IsSound (run start history)
history-IsSound = new-run-IsSound (pos 10) (pos 20) (policies ∷ []) start history started

dev_not_prod : dev ≢ prod
dev_not_prod h = cc

step-SameFor_example :
    SameFor prod
      (step (run start history) (publishes dev_collector dev_costs in_order noon)).current.snapshot
      (run start history).current.snapshot
step-SameFor_example =
    step-SameFor (run start history) (publishes dev_collector dev_costs in_order noon) prod
      history-IsSound dev_not_prod

abbrev parts : Dict CollectorId Snapshot
parts = (cost_collector, prod_costs) ∷ (organization_collector, prod_accounts) ∷ []

abbrev bounded : Snapshot
bounded = record (merge (map (λ part. part.1) parts)) { accounts = account prod first_account ∷ [] }

publish-ok_iff_example :
    let r = publish start cost_collector prod_costs in_order noon in
    ((r.1 ≡ ok tt) ↔ (
      (is_valid cost_collector ≡ true)
      × OwnedBy prod prod_costs
      × (merged : Snapshot) × (merge_parts policies (put cost_collector prod_costs [])
          ≡ ok merged)))
    × (r.1 ≡ ok tt
        → merge_parts policies (put cost_collector prod_costs []) ≡ ok r.0.current.snapshot)
    × ((e : Error) → r.1 ≡ err e → r.0 ≡ start)
publish-ok_iff_example = publish-ok_iff start cost_collector prod_costs in_order noon

costs_published : (publish start cost_collector prod_costs in_order noon).1 ≡ ok tt
unfolding publish published is_valid collector_same trim_space is_space validate_partial merge_parts
    bound_accounts chosen_accounts choose choose_one included allow observe is_account_id exceeded
    find find_or put byte_length validate_unique merge new_with_data append_part append_parts
    identities_valid valid_provider valid_basis mark_snapshot mark_costs mark_forecasts mark_budgets
    mark_accounts mark_tags mark_commitments mark_anomalies mark contains cost_label account_label
    account_before sort_accounts sort_budgets sort_commitments sort_anomalies sort_tags sort_by
    cost_before cost_less text_lt lex_lt list_same
costs_published = refl

publish-statuses_example :
    let after = (publish start cost_collector prod_costs in_order noon).0 in
    ((status_of after cost_collector).last_attempt ≡ noon)
    × ((status_of after cost_collector).last_success ≡ noon)
    × ((status_of after cost_collector).up ≡ true)
    × (cost_collector ≢ dev_collector
        → SameRun (status_of after dev_collector) (status_of start dev_collector))
publish-statuses_example =
    publish-statuses start cost_collector dev_collector prod_costs in_order noon costs_published

record_failure_lem_example :
    let r = record_failure start dev_collector noon in
    (is_valid dev_collector ≡ false → r ≡ (start, err invalid_collector))
    × (is_valid dev_collector ≡ true
        → (r.1 ≡ ok tt)
          × (r.0.current.snapshot ≡ no_snapshot)
          × (r.0.current.parts ≡ [])
          × (status_of r.0 dev_collector
              ≡ record (status_of start dev_collector) { last_attempt = noon; up = false })
          × ((other : CollectorId)
              → dev_collector ≢ other
              → status_of r.0 other ≡ status_of start other))
record_failure_lem_example = record_failure_lem start dev_collector noon

freshness_bounds_example :
    let success : ℕ = 1 in
    let f = freshness_at (pos 10) (pos 20) 15 success in
    ((f ≡ missing) ↔ (success ≡ 0))
    × ((f ≡ fresh) ↔ ((0 < 1) × (15 ≤ 1 + 10)))
    × ((f ≡ aging) ↔ ((0 < 1) × (1 + 10 < 15) × (15 ≤ 1 + 20)))
    × ((f ≡ stale) ↔ ((0 < 1) × (1 + 20 < 15)))
freshness_bounds_example = freshness_bounds 10 20 15 1 (omega arith) (omega arith)
