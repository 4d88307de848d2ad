-- ===== src/Collector/Tags.antt =====
-- internal/collector/tag/collector.go: the costs by tag value, and the limit on the values of a key.
-- The sum of two floats and what the reader returns are arguments.
use aws_cost_exporter.Base.{
  ℕ, ◌-◌, Bool, ◌||◌, not, List, [], ◌∷◌, ◌++◌, map, Option, if◌then◌else◌, ◌=?◌, length, take,
  drop,
}
use aws_cost_exporter.Base.Int.{ℤ, pos, leb_ℤ, ltb_ℤ, pos_part}
use aws_cost_exporter.Base.Float.{Float64, float_eq, float_lt}
use aws_cost_exporter.Base.Text.{Text, text, text_same, text_lt}
use aws_cost_exporter.Base.Sort.{sort_by}
use aws_cost_exporter.Domain.Identity.{TargetId, CollectorId}
use aws_cost_exporter.Domain.Money.{new_money}
use aws_cost_exporter.Domain.Dimension.{Basis, dimension_total}
use aws_cost_exporter.Domain.Period.{Time}
use aws_cost_exporter.Domain.Records.{TagCost}
use aws_cost_exporter.Config.Schema.{TagKeyConfig}
use aws_cost_exporter.Errors.{
  Result, ok, ◌>>=◌, ◌>>◌, fail_if, or_fail, invalid_tag_collector, tag_series_limit,
  tag_values_limit, tag_boundary, tag_currency,
}
use aws_cost_exporter.Snapshot.{Snapshot, no_snapshot, new_with_data}
use aws_cost_exporter.Collector.Queries.{CostQuery, build_daily_and_mtd_queries}

-- What LimitValues returns, and the counts that the observers are told of for the dimension "tag"
pub record LimitedTags : Type 0 where
  pub values : List TagCost
  pub overflows : List ℕ

-- The larger amount comes first, then the smaller value.
unfoldable pub tag_ranks_before : TagCost → TagCost → Bool
tag_ranks_before l r =
    if not (float_eq l.amount.amount r.amount.amount)
    then float_lt r.amount.amount l.amount.amount
    else text_lt l.tag_value r.tag_value

-- The loop over `ranked[keep:]`
unfoldable pub sum_of_tags :
    (Float64 → Float64 → Float64) → TagCost → List TagCost → Float64 → Result Float64
sum_of_tags plus current [] total = ok total
sum_of_tags plus current (item ∷ items) total = do
  fail_if (not (item.amount.currency =? current.amount.currency)) tag_currency
  fail_if
      (not (item.provider =? current.provider)
        || not (item.basis =? current.basis)
        || not (item.window =? current.window)
        || not (item.tag_key =? current.tag_key))
      tag_boundary
  sum_of_tags plus current items (plus total item.amount.amount)

-- The rest of LimitValues, where `kept` are the values before the place `keep`
unfoldable pub aggregate_tags :
    (Float64 → Float64 → Float64) → Text → List TagCost → ℕ → List TagCost → Result LimitedTags
aggregate_tags plus overflow kept count [] = ok (record { values = kept; overflows = [] })
aggregate_tags plus overflow kept count (current ∷ rest) = do
  total ← sum_of_tags plus current (current ∷ rest) 0
  amount ← new_money total current.amount.currency
  ok (record {
    values = kept ++ record current { tag_value = overflow; amount = amount } ∷ [];
    overflows = count ∷ [];
  })

-- LimitValues with more values than the limit
unfoldable pub cut_values :
    (Float64 → Float64 → Float64) → List TagCost → ℤ → Text → Result LimitedTags
cut_values plus values limit overflow = do
  fail_if (leb_ℤ limit (pos 0)) tag_values_limit
  let ranked = sort_by tag_ranks_before values
  let keep = pos_part limit - 1
  aggregate_tags plus overflow (take keep ranked) (length values - keep) (drop keep ranked)

-- `LimitValues`
unfoldable pub limit_values :
    (Float64 → Float64 → Float64) → List TagCost → ℤ → Text → Result LimitedTags
limit_values plus values limit overflow =
    if leb_ℤ (pos (length values)) limit
    then ok (record { values = values; overflows = [] })
    else cut_values plus values limit overflow

-- ReadTagCosts
abbrev pub TagReader : Type 0
TagReader = CostQuery → Text → Result (List TagCost)

-- tag.Collector
pub record TagCollector : Type 0 where
  pub target : TargetId
  pub reader : TagReader
  pub bases : List Basis
  pub keys : List TagKeyConfig
  pub series_limit : ℤ
  pub overflow : Text

-- `New`
unfoldable pub new_tags :
    TargetId → Option TagReader → List Basis → List TagKeyConfig → ℤ → Text → Result TagCollector
new_tags target reader bases keys series_limit overflow = do
  given ← or_fail reader invalid_tag_collector
  fail_if (leb_ℤ (pos (length keys)) (pos 0) || leb_ℤ series_limit (pos 0)) invalid_tag_collector
  ok (record {
    target = target;
    reader = given;
    bases = bases;
    keys = keys;
    series_limit = series_limit;
    overflow = overflow;
  })

-- `ID`
abbrev pub tag_collector_id : TagCollector → CollectorId
tag_collector_id c = record { target = c.target; name = text "tags" }

abbrev pub retarget_tag : TargetId → TagCost → TagCost
retarget_tag target value = record value { target = target }

module _ (plus : Float64 → Float64 → Float64) (c : TagCollector) where
  -- The innermost loop of Collect, over the queries
  unfoldable pub tags_of_queries : Basis → TagKeyConfig → List CostQuery → Result (List TagCost)
  tags_of_queries basis key [] = ok []
  tags_of_queries basis key (query ∷ queries) = do
    rows ← c.reader (record query { basis = basis }) key.key
    bounded ← limit_values plus rows key.max_values c.overflow
    rest ← tags_of_queries basis key queries
    ok (map (retarget_tag c.target) bounded.values ++ rest)

  -- The loop over the keys
  unfoldable pub tags_of_keys : List CostQuery → Basis → List TagKeyConfig → Result (List TagCost)
  tags_of_keys queries basis [] = ok []
  tags_of_keys queries basis (key ∷ keys) = do
    first ← tags_of_queries basis key queries
    rest ← tags_of_keys queries basis keys
    ok (first ++ rest)

  -- The loop over the bases
  unfoldable pub tags_of_bases : List CostQuery → List Basis → Result (List TagCost)
  tags_of_bases queries [] = ok []
  tags_of_bases queries (basis ∷ bases) = do
    first ← tags_of_keys queries basis c.keys
    rest ← tags_of_bases queries bases
    ok (first ++ rest)

  -- `Collect`
  unfoldable pub collect_tags : Time → Result Snapshot
  collect_tags reference = do
    queries ← build_daily_and_mtd_queries reference dimension_total
    result ← tags_of_bases queries c.bases
    fail_if (ltb_ℤ c.series_limit (pos (length result))) tag_series_limit
    ok (new_with_data (record no_snapshot { tag_costs = result }))
