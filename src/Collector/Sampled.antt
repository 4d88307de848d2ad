-- ===== src/Collector/Sampled.antt =====
-- The collectors at work: two accounts limited to one series, two summaries of commitments, tags.
use aws_cost_exporter.Base.{◌≡◌, refl, true, [], ◌∷◌, All, none, some}
use aws_cost_exporter.Base.Keys.{list_same, lex_lt}
use aws_cost_exporter.Base.Int.{pos}
use aws_cost_exporter.Base.Float.{Float64, is_nan, is_inf, float_lt, float_eq}
use aws_cost_exporter.Base.Dict.{find, find_or, put, has}
use aws_cost_exporter.Base.Sort.{sort_by}
use aws_cost_exporter.Base.Text.{Text, text, text_lt, trim_space, is_space, byte_length}
use aws_cost_exporter.Domain.Identity.{is_valid}
use aws_cost_exporter.Domain.Money.{new_money}
use aws_cost_exporter.Domain.Period.{new_period, month_place, day_containing, month_containing}
use aws_cost_exporter.Domain.Dimension.{
  new_dimension, valid_provider, valid_basis, dimension_account,
}
use aws_cost_exporter.Domain.Cost.{cost_before, cost_less}
use aws_cost_exporter.Domain.Records.{
  sort_budgets, sort_accounts, sort_commitments, sort_anomalies, sort_tags,
}
use aws_cost_exporter.Errors.{Result, ok}
use aws_cost_exporter.Snapshot
use aws_cost_exporter.Snapshot.{Snapshot, no_snapshot, new_with_data, series_count}
use aws_cost_exporter.Snapshot.Owned.{OwnedBy}
use aws_cost_exporter.Collector.Queries.{build_daily_and_mtd_queries}
use aws_cost_exporter.Collector.Registry.{
  Collector, Registry, register, build_one, build, register-build,
}
use aws_cost_exporter.Collector.Cardinality.{
  ranks_before, sum_of, overflow_of, aggregate, limit_dimension_group, group_values, limit_groups,
  limit_grouped, limit_dimensions,
}
use aws_cost_exporter.Collector.Grouped.{
  Collected, validate_overflow_label, collect_query, collect_queries, collect_grouped,
}
use aws_cost_exporter.Collector.Owned.{collect_grouped-OwnedBy}
use aws_cost_exporter.Collector.Costs.{
  AccountCollector, valid_account_id, account_plan, validate_account_costs, collect_account,
}
use aws_cost_exporter.Collector.Accounts.{IsAccountCost, collect_account-IsAccountCost}
use aws_cost_exporter.Samples.{prod, prod_costs, collector, two, noon}

abbrev collects : Text → Collector
collects name = record { id = collector prod name; refresh = λ _. ok no_snapshot }

abbrev before : Registry
before = (text "service", ok (some (collects (text "service")))) ∷ []

abbrev after : Registry
after =
    (text "service", ok (some (collects (text "service"))))
    ∷ (text "total", ok (some (collects (text "total"))))
    ∷ []

total_registered :
    register before (text " total ") (some (ok (some (collects (text "total"))))) ≡ ok after
unfolding register has find put trim_space list_same
total_registered = refl

service_built : build before (text "service" ∷ []) ≡ ok (collects (text "service") ∷ [])
unfolding build build_one find is_valid trim_space list_same
service_built = refl

total_valid : is_valid (collector prod (text "total")) ≡ true
unfolding is_valid trim_space list_same
total_valid = refl

total_named : text "total" ≡ trim_space (text " total ")
unfolding trim_space
total_named = refl

register-build_example :
    build after (text "service" ∷ trim_space (text " total ") ∷ [])
    ≡ ok (collects (text "service") ∷ collects (text "total") ∷ [])
register-build_example =
    register-build before after (text " total ") (collects (text "total")) (text "service" ∷ [])
      (collects (text "service") ∷ []) total_registered total_valid total_named service_built

abbrev accounts : AccountCollector
accounts = record {
  id = collector prod (text "account");
  reader = record { context_error = λ _. none; answer = λ _. ok prod_costs.costs };
  linked_account_ids = [];
  series_limit = pos 1;
  overflow_label = text "__other__";
}

abbrev plus : Float64 → Float64 → Float64
plus a b = two

made_of : Result Collected → Collected
made_of (ok made) = made
made_of _ = record { snapshot = no_snapshot; overflows = [] }

abbrev accounts_made : Collected
unfolding made_of
accounts_made = made_of (collect_account plus accounts noon)

accounts_collected : collect_account plus accounts noon ≡ ok accounts_made
unfolding made_of collect_account collect_grouped collect_queries collect_query
    validate_account_costs valid_account_id validate_overflow_label build_daily_and_mtd_queries
    new_period day_containing month_containing limit_dimensions limit_grouped limit_groups
    group_values limit_dimension_group aggregate overflow_of sum_of ranks_before new_money
    new_dimension valid_provider valid_basis sort_by find find_or put trim_space is_space is_nan
    is_inf float_lt float_eq text_lt lex_lt list_same byte_length Snapshot.new new_with_data
    cost_before cost_less sort_budgets sort_accounts sort_commitments sort_anomalies sort_tags
    month_place
accounts_collected = refl

collect_grouped-OwnedBy_example : OwnedBy prod accounts_made.snapshot
unfolding collect_account
collect_grouped-OwnedBy_example =
    collect_grouped-OwnedBy plus (account_plan accounts) accounts.reader noon dimension_account
      accounts_made accounts_collected

collect_account-IsAccountCost_example :
    All (IsAccountCost (text "__other__")) accounts_made.snapshot.costs
collect_account-IsAccountCost_example =
    collect_account-IsAccountCost plus accounts noon accounts_made accounts_collected
