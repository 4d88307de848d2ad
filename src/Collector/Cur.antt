-- ===== src/Collector/Cur.antt =====
-- internal/collector/cur/collector.go. The sum of two floats is an argument, and so is what the
-- reader returns.
use aws_cost_exporter.Base.{
  ℕ, ◌+◌, Bool, true, false, ◌||◌, not, List, [], ◌∷◌, ◌++◌, Option, none, some, length,
}
use aws_cost_exporter.Base.Int.{ℤ, pos, leb_ℤ, ltb_ℤ}
use aws_cost_exporter.Base.Float.{Float64}
use aws_cost_exporter.Base.Text.{Text, text, text_same, key_same}
use aws_cost_exporter.Base.Dict.{Dict, find, find_or, put}
use aws_cost_exporter.Domain.Identity.{TargetId, CollectorId}
use aws_cost_exporter.Domain.Dimension.{Basis}
use aws_cost_exporter.Domain.Period.{Time}
use aws_cost_exporter.Domain.Cost.{Cost}
use aws_cost_exporter.Domain.Records.{TagCost, sort_tags}
use aws_cost_exporter.Config.Schema.{TagKeyConfig}
use aws_cost_exporter.Errors.{
  Result, ok, ◌>>=◌, ◌>>◌, fail_if, or_fail, nil_reader, cur_limits, cur_currency_limit,
  cur_tag_series_limit, cur_series_limit, cur_tag_key,
}
use aws_cost_exporter.Snapshot.{Snapshot, no_snapshot, new_with_data}
use aws_cost_exporter.Collector.Tags.{limit_values}

-- ports.CURReader
pub record CurReader : Type 0 where
  pub query_costs : Time → List Basis → Result (List Cost)
  pub query_tag_costs : Time → List Basis → Result (List TagCost)

-- cur.Collector
pub record CurCollector : Type 0 where
  pub target : TargetId
  pub reader : CurReader
  pub bases : List Basis
  pub tags : Bool
  pub series_limit : ℤ
  pub tag_series_limit : ℤ
  pub max_currencies : ℤ
  pub keys : List TagKeyConfig
  pub overflow : Text

-- `New`
unfoldable pub new_cur :
    TargetId
    → Option CurReader
    → List Basis
    → Bool
    → ℤ
    → ℤ
    → ℤ
    → List TagKeyConfig
    → Text
    → Result CurCollector
new_cur target reader bases tags series_limit tag_series_limit max_currencies keys overflow = do
  given ← or_fail reader nil_reader
  fail_if
      (leb_ℤ series_limit (pos 0) || leb_ℤ tag_series_limit (pos 0) || leb_ℤ max_currencies (pos 0))
      cur_limits
  ok (record {
    target = target;
    reader = given;
    bases = bases;
    tags = tags;
    series_limit = series_limit;
    tag_series_limit = tag_series_limit;
    max_currencies = max_currencies;
    keys = keys;
    overflow = overflow;
  })

-- `ID`
abbrev pub cur_collector_id : CurCollector → CollectorId
cur_collector_id c = record { target = c.target; name = text "cur" }

abbrev pub Currencies : Type 0
Currencies = Dict Text (Unit {0})

-- The two loops of currencyCount
unfoldable pub cost_currencies : List Cost → Currencies → Currencies
cost_currencies [] seen = seen
cost_currencies (item ∷ items) seen = cost_currencies items (put item.amount.currency tt seen)

unfoldable pub tag_currencies : List TagCost → Currencies → Currencies
tag_currencies [] seen = seen
tag_currencies (item ∷ items) seen = tag_currencies items (put item.amount.currency tt seen)

-- `currencyCount`
unfoldable pub currency_count : List Cost → List TagCost → ℕ
currency_count costs tags = length (tag_currencies tags (cost_currencies costs []))

-- The first loop of limitTags, which fills `limits`
unfoldable pub tag_limits : List TagKeyConfig → Dict Text ℤ → Dict Text ℤ
tag_limits [] limits = limits
tag_limits (key ∷ keys) limits = tag_limits keys (put key.key key.max_values limits)

-- `groupKey`, as the list of its fields
abbrev pub tag_group_key : TagCost → List Text
tag_group_key item =
    item.tag_key ∷ item.provider ∷ item.basis ∷ item.window ∷ item.amount.currency ∷ []

abbrev pub TagGroups : Type 0
TagGroups = Dict (List Text) (List TagCost)

-- `limit, ok := limits[item.TagKey]`, and its test
unfoldable pub is_allowlisted : Dict Text ℤ → Text → Bool
is_allowlisted limits key = elim (find key limits) [
  | none ↦ false
  | some limit ↦ not (leb_ℤ limit (pos 0))
]

-- The second loop of limitTags
unfoldable pub group_tags : Dict Text ℤ → List TagCost → TagGroups → Result TagGroups
group_tags limits [] groups = ok groups
group_tags limits (item ∷ items) groups = do
  fail_if (not (is_allowlisted limits item.tag_key)) cur_tag_key
  let key = tag_group_key item
  group_tags limits items (put key (find_or [] key groups ++ item ∷ []) groups)

-- `key.key` of a group's key
abbrev pub key_of_group : List Text → Text
key_of_group [] = []
key_of_group (key ∷ _) = key

module _ (plus : Float64 → Float64 → Float64) where
  -- The loop over the groups, which Go visits in any order: any order of the list stands for a run.
  unfoldable pub bound_groups : Dict Text ℤ → Text → TagGroups → Result (List TagCost)
  bound_groups limits overflow [] = ok []
  bound_groups limits overflow ((key, group) ∷ groups) = do
    bounded ← limit_values plus group (find_or (pos 0) (key_of_group key) limits) overflow
    rest ← bound_groups limits overflow groups
    ok (bounded.values ++ rest)

  -- `limitTags`
  unfoldable pub limit_tags : CurCollector → List TagCost → Result (List TagCost)
  limit_tags c values = do
    let limits = tag_limits c.keys []
    groups ← group_tags limits values []
    result ← bound_groups limits c.overflow groups
    ok (sort_tags result)

  -- The part of Collect under `if collector.tags`
  unfoldable pub tags_when : Bool → CurCollector → Time → Result (List TagCost)
  tags_when false c reference = ok []
  tags_when true c reference = do
    read ← c.reader.query_tag_costs reference c.bases
    tags ← limit_tags c read
    fail_if (ltb_ℤ c.tag_series_limit (pos (length tags))) cur_tag_series_limit
    ok tags

  -- `Collect`
  unfoldable pub collect_cur : CurCollector → Time → Result Snapshot
  collect_cur c reference = do
    costs ← c.reader.query_costs reference c.bases
    fail_if (ltb_ℤ c.max_currencies (pos (currency_count costs []))) cur_currency_limit
    tags ← tags_when c.tags c reference
    fail_if (ltb_ℤ c.max_currencies (pos (currency_count costs tags))) cur_currency_limit
    fail_if (ltb_ℤ c.series_limit (pos (length costs + length tags))) cur_series_limit
    ok (new_with_data (record no_snapshot { costs = costs; tag_costs = tags }))
