-- ===== src/Collector/Summaries.antt =====
-- Two summaries of commitments, and two tag values under a limit of one, collected by the tag and by
-- the CUR collector.
use aws_cost_exporter.Base.{
  ◌+◌, ◌≤◌, ◌≡◌, refl, subst, true, false, List, [], ◌∷◌, map, All, length,
}
use aws_cost_exporter.Base.Keys.{list_same, lex_lt}
use aws_cost_exporter.Base.Int.{pos, pos_part}
use aws_cost_exporter.Base.Float.{Float64, is_nan, is_inf, float_lt, float_eq}
use aws_cost_exporter.Base.Dict.{find, find_or, put}
use aws_cost_exporter.Base.Sort.{sort_by}
use aws_cost_exporter.Base.Text.{Text, text, text_lt, trim_space, is_space, is_empty}
use aws_cost_exporter.Domain.Money.{new_money, no_money}
use aws_cost_exporter.Domain.Period.{new_period, month_place, day_containing, month_containing}
use aws_cost_exporter.Domain.Dimension.{
  valid_provider, valid_basis, provider_cost_explorer, unblended,
}
use aws_cost_exporter.Domain.Cost.{Cost, daily}
use aws_cost_exporter.Domain.Records.{
  Commitment, TagCost, savings_plan, reservation, sort_budgets, sort_accounts, sort_commitments,
  sort_anomalies, sort_tags, commitment_before, tag_before,
}
use aws_cost_exporter.Config.Schema.{TagKeyConfig}
use aws_cost_exporter.Errors.{Result, ok, ok_injective}
use aws_cost_exporter.Snapshot.{
  Snapshot, no_snapshot, new_with_data, series_count, commitments_count, anomalies_count,
  budgets_count,
}
use aws_cost_exporter.Snapshot.Owned.{OwnedBy}
use aws_cost_exporter.Snapshot.Validate.{known_source}
use aws_cost_exporter.Collector.Queries.{CostQuery, build_daily_and_mtd_queries}
use aws_cost_exporter.Collector.Commitments.{
  CommitmentCollector, merge_summaries, bounded_commitments, collect_commitments,
  collect_commitments-ok,
}
use aws_cost_exporter.Collector.Tags.{
  TagCollector, LimitedTags, tag_ranks_before, sum_of_tags, aggregate_tags, cut_values,
  limit_values, tags_of_queries, tags_of_keys, tags_of_bases, collect_tags,
}
use aws_cost_exporter.Collector.TagsOwned.{collect_tags-OwnedBy}
use aws_cost_exporter.Collector.Cur.{
  CurCollector, currency_count, cost_currencies, tag_currencies, tag_limits, is_allowlisted,
  group_tags, bound_groups, limit_tags, tags_when, collect_cur,
}
use aws_cost_exporter.Collector.CurLimits.{Admits, WithinCurrencies}
use aws_cost_exporter.Collector.CurBounds.{collect_cur-ok}
use aws_cost_exporter.Samples.{prod, prod_costs, collector, usd, one, two, noon}

abbrev snapshot_of : Result Snapshot → Snapshot
snapshot_of (ok s) = s
snapshot_of _ = no_snapshot

abbrev summary : Text → Commitment
summary kind = record {
  target = prod;
  kind = kind;
  time_unit = text "MONTHLY";
  utilization_ratio = one;
  coverage_ratio = one;
  unused_hours = 0;
  covered_spend = no_money;
  on_demand_cost = no_money;
  net_savings = no_money;
  has_utilization = true;
  has_coverage = false;
  has_unused_hours = false;
  has_covered_spend = false;
  has_on_demand_cost = false;
  has_net_savings = true;
}

abbrev commitments : CommitmentCollector
commitments = record {
  id = collector prod (text "commitments");
  reader = record {
    read_savings_plans_utilization = λ _. ok (summary savings_plan);
    read_savings_plans_coverage = λ _. ok (summary savings_plan);
    read_reservation_utilization = λ _. ok (summary reservation);
    read_reservation_coverage = λ _. ok (summary reservation);
  };
  series_limit = pos 4;
}

abbrev commitments_made : Snapshot
commitments_made = snapshot_of (collect_commitments commitments noon)

commitments_collected : collect_commitments commitments noon ≡ ok commitments_made
unfolding collect_commitments merge_summaries bounded_commitments series_count commitments_count
    anomalies_count budgets_count new_with_data list_same sort_by commitment_before text_lt lex_lt
    sort_budgets sort_accounts sort_commitments sort_anomalies sort_tags
commitments_collected = refl

collect_commitments-ok_example :
    OwnedBy prod commitments_made
    × (map (λ r. r.kind) commitments_made.commitments ≡ reservation ∷ savings_plan ∷ [])
    × All (λ r. is_empty r.time_unit ≡ false) commitments_made.commitments
    × (series_count commitments_made ≤ pos_part (pos 4))
collect_commitments-ok_example =
    collect_commitments-ok commitments noon commitments_made commitments_collected

abbrev tagged : Text → Float64 → TagCost
tagged value amount = record {
  target = [];
  provider = provider_cost_explorer;
  basis = unblended;
  window = daily;
  tag_key = text "team";
  tag_value = value;
  amount = usd amount;
}

abbrev rows : List TagCost
rows = tagged (text "core") one ∷ tagged (text "data") two ∷ []

abbrev plus : Float64 → Float64 → Float64
plus a b = two

abbrev team : TagKeyConfig
team = record { key = text "team"; max_values = pos 1 }

abbrev limited : LimitedTags
limited = record { values = tagged (text "__other__") two ∷ []; overflows = 2 ∷ [] }

two_rows_cut : limit_values plus rows (pos 1) (text "__other__") ≡ ok limited
unfolding limit_values cut_values aggregate_tags sum_of_tags tag_ranks_before sort_by new_money
    is_nan is_inf trim_space is_space float_eq float_lt text_lt lex_lt list_same
two_rows_cut = refl

abbrev tags : TagCollector
tags = record {
  target = prod;
  reader = λ _ _. ok rows;
  bases = unblended ∷ [];
  keys = team ∷ [];
  series_limit = pos 2;
  overflow = text "__other__";
}

abbrev tags_made : Snapshot
tags_made = snapshot_of (collect_tags plus tags noon)

tags_collected : collect_tags plus tags noon ≡ ok tags_made
unfolding collect_tags tags_of_bases tags_of_keys tags_of_queries build_daily_and_mtd_queries
    new_period day_containing month_containing month_place limit_values cut_values aggregate_tags
    sum_of_tags tag_ranks_before sort_by new_money is_nan is_inf trim_space is_space float_eq
    float_lt text_lt lex_lt list_same new_with_data tag_before sort_budgets sort_accounts
    sort_commitments sort_anomalies sort_tags
tags_collected = refl

rows_known :
    (query : CostQuery) (key : Text) (read : List TagCost)
    → tags.reader query key ≡ ok read
    → All (λ t. known_source t.provider t.basis ≡ true) read
unfolding valid_provider valid_basis list_same
rows_known query key read h =
    subst (All (λ (t : TagCost). known_source t.provider t.basis ≡ true)) (ok_injective h)
      (refl, (refl, tt))

collect_tags-OwnedBy_example :
    OwnedBy prod tags_made × (length tags_made.tag_costs ≤ pos_part (pos 2))
collect_tags-OwnedBy_example =
    collect_tags-OwnedBy plus tags rows_known noon tags_made tags_collected

abbrev cur : CurCollector
cur = record {
  target = prod;
  reader = record { query_costs = λ _ _. ok prod_costs.costs; query_tag_costs = λ _ _. ok rows };
  bases = unblended ∷ [];
  tags = true;
  series_limit = pos 3;
  tag_series_limit = pos 1;
  max_currencies = pos 1;
  keys = team ∷ [];
  overflow = text "__other__";
}

abbrev cur_tags : List TagCost
cur_tags = tagged (text "__other__") two ∷ []

abbrev cur_made : Snapshot
cur_made = new_with_data (record no_snapshot { costs = prod_costs.costs; tag_costs = cur_tags })

cur_collected : collect_cur plus cur noon ≡ ok cur_made
unfolding collect_cur tags_when limit_tags group_tags bound_groups tag_limits is_allowlisted
    currency_count cost_currencies tag_currencies find find_or put limit_values cut_values
    aggregate_tags sum_of_tags tag_ranks_before sort_by new_money is_nan is_inf trim_space is_space
    float_eq float_lt text_lt lex_lt list_same tag_before sort_tags
cur_collected = refl

collect_cur-ok_example :
    (costs : List Cost) × (read : List TagCost) × (cur.reader.query_costs noon cur.bases ≡ ok costs)
    × (cur_made ≡ new_with_data (record no_snapshot { costs = costs; tag_costs = read }))
    × All (λ t. Admits cur.keys t.tag_key) read
    × (cur.tags ≡ false → read ≡ [])
    × (length read ≤ pos_part cur.tag_series_limit)
    × (length costs + length read ≤ pos_part cur.series_limit)
    × WithinCurrencies cur.max_currencies costs read
collect_cur-ok_example = collect_cur-ok plus cur noon cur_made cur_collected
