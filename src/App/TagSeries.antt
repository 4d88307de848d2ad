-- ===== src/App/TagSeries.antt =====
-- internal/app/bootstrap.go: the tag collector that buildJobs makes for a target, and that an accepted
-- configuration leaves it room for all it can collect.
use native.Mathlib.Nat.{le_trans, mul-le-mul, mul-add, add-mul, mul-one}
use aws_cost_exporter.Base.{
  ℕ, zero, suc, ◌+◌, ◌*◌, ◌≤◌, ◌≡◌, refl, subst, true, false, ◌||◌, List, [], ◌∷◌, map, All, Any,
  length, length-append, length-map, arith, max, if◌then◌else◌, inl, inr, some,
}
use aws_cost_exporter.Base.Int.{ℤ, pos, leb_ℤ, ◌≤ℤ◌, ◌<ℤ◌, ltb_ℤ, pos_part, times}
use aws_cost_exporter.Base.Float.{Float64}
use aws_cost_exporter.Domain.Dimension.{Basis, dimension_total}
use aws_cost_exporter.Domain.Period.{Time}
use aws_cost_exporter.Domain.Records.{TagCost}
use aws_cost_exporter.Errors.{
  Result, ok, err, ◌>>=◌, ◌>>◌, fail_if, bind_ok, check_passed, ok_injective, tag_series_limit,
  invalid_tag_collector,
}
use aws_cost_exporter.Snapshot.{Snapshot, no_snapshot, new_with_data}
use aws_cost_exporter.Config.Schema.{TargetConfig, TagKeyConfig}
use aws_cost_exporter.Config.Collection.{Config}
use aws_cost_exporter.Config.Credentials.{Environment}
use aws_cost_exporter.Config.Targets.{validate}
use aws_cost_exporter.Config.Tags.{sum_values, at_least_one}
use aws_cost_exporter.Config.TagBudget.{IsBudgeted, validate-IsBudgeted}
use aws_cost_exporter.Collector.Queries.{
  CostQuery, build_daily_and_mtd_queries, build_daily_and_mtd_queries-ok,
}
use aws_cost_exporter.Collector.Tags.{
  TagReader, TagCollector, new_tags, retarget_tag, limit_values, tags_of_queries, tags_of_keys,
  tags_of_bases, collect_tags,
}
use aws_cost_exporter.Collector.TagLimits.{limit_values-length}
use aws_cost_exporter.App.Reader.{configured_cost_bases}

-- What buildJobs calls for a target whose tags are enabled
unfoldable pub tag_collector : Config → TargetConfig → TagReader → Result TagCollector
tag_collector c t reader =
    new_tags t.name (some reader) (configured_cost_bases c.collection.cost_explorer.cost_bases)
      t.tags.keys c.collection.tags.series_limit
      c.collection.cost_explorer.dimensions.overflow_label

abbrev values_of : List TagKeyConfig → ℕ
values_of [] = 0
values_of (key ∷ keys) = pos_part key.max_values + values_of keys

module _ (plus : Float64 → Float64 → Float64) (c : TagCollector) where
  tags_of_queries-length :
      (basis : Basis) (key : TagKeyConfig) (queries : List CostQuery) (made : List TagCost)
      → tags_of_queries plus c basis key queries ≡ ok made
      → length made ≤ length queries * pos_part key.max_values
  unfolding tags_of_queries
  tags_of_queries-length basis key [] made h =
      subst (λ l. length l ≤ 0 * pos_part key.max_values) (ok_injective h) (omega arith)
  tags_of_queries-length basis key (query ∷ queries) made h =
      let (rows, _, h1) = bind_ok (c.reader (record query { basis = basis }) key.key) _ h in
      let (bounded, limited, h2) =
        bind_ok (limit_values plus rows key.max_values c.overflow) _ h1 in
      let (rest, others, h3) = bind_ok (tags_of_queries plus c basis key queries) _ h2 in
      let few = limit_values-length plus c.overflow rows key.max_values bounded limited in
      let own = map (retarget_tag c.target) bounded.values in
      subst (λ l. length l ≤ length (query ∷ queries) * pos_part key.max_values) (ok_injective h3)
        (omega (
          arith,
          few,
          length-append own rest,
          length-map (retarget_tag c.target) bounded.values,
          tags_of_queries-length basis key queries rest others,
        ))

  tags_of_keys-length :
      (queries : List CostQuery) (basis : Basis) (keys : List TagKeyConfig) (made : List TagCost)
      → tags_of_keys plus c queries basis keys ≡ ok made
      → length made ≤ length queries * values_of keys
  unfolding tags_of_keys
  tags_of_keys-length queries basis [] made h =
      subst (λ l. length l ≤ length queries * 0) (ok_injective h) (omega arith)
  tags_of_keys-length queries basis (key ∷ keys) made h =
      let (first, one, h1) = bind_ok (tags_of_queries plus c basis key queries) _ h in
      let (rest, others, h2) = bind_ok (tags_of_keys plus c queries basis keys) _ h1 in
      subst (λ l. length l ≤ length queries * values_of (key ∷ keys)) (ok_injective h2)
        (omega (
          arith,
          length-append first rest,
          mul-add (length queries) (pos_part key.max_values) (values_of keys),
          tags_of_queries-length basis key queries first one,
          tags_of_keys-length queries basis keys rest others,
        ))

  tags_of_bases-length :
      (queries : List CostQuery) (bases : List Basis) (made : List TagCost)
      → tags_of_bases plus c queries bases ≡ ok made
      → length made ≤ length bases * (length queries * values_of c.keys)
  unfolding tags_of_bases
  tags_of_bases-length queries [] made h =
      subst (λ l. length l ≤ 0 * (length queries * values_of c.keys)) (ok_injective h) (omega arith)
  tags_of_bases-length queries (basis ∷ bases) made h =
      let (first, one, h1) = bind_ok (tags_of_keys plus c queries basis c.keys) _ h in
      let (rest, others, h2) = bind_ok (tags_of_bases plus c queries bases) _ h1 in
      subst (λ l. length l ≤ length (basis ∷ bases) * (length queries * values_of c.keys))
        (ok_injective h2)
        (omega (
          arith,
          length-append first rest,
          tags_of_keys-length queries basis c.keys first one,
          tags_of_bases-length queries bases rest others,
        ))

-- The keys that admit a value count as they are.
sum_values-values_of :
    (keys : List TagKeyConfig)
    → All (λ (k : TagKeyConfig). pos 0 <ℤ k.max_values) keys
    → sum_values keys ≡ pos (values_of keys)
sum_values-values_of [] h = refl
sum_values-values_of (key ∷ keys) h = ground (arith, h.0, sum_values-values_of keys h.1)

twice : (bases s : ℕ) → bases * (2 * s) ≡ 2 * bases * 1 * s
twice zero s = omega arith
twice (suc bases) s = omega (
  arith,
  twice bases s,
  add-mul (2 * bases * 1) 2 s,
  mul-one (2 * bases),
  mul-one (2 * suc bases),
)

budget_covers :
    (bases n currencies s : ℕ)
    → 1 ≤ currencies
    → n ≤ bases * (2 * s)
    → n ≤ 2 * max 1 bases * currencies * s
budget_covers bases n currencies s h k =
    let wide : 2 * bases ≤ 2 * max 1 bases = omega arith in
    let same : s ≤ s = omega arith in
    le_trans (subst (λ m. n ≤ m) (twice bases s) k) (mul-le-mul (mul-le-mul wide h) same)

multiple_fits :
    (k v n : ℕ) (sum limit : ℤ)
    → sum ≡ pos v
    → times k sum ≤ℤ limit
    → n ≤ k * v
    → ltb_ℤ limit (pos n) ≡ false
multiple_fits k v n sum limit same fits few =
    let whole = subst (λ a. times k a ≤ℤ limit) same fits in ground (arith, whole, few)

series_fit :
    (t : TargetConfig) (limit : ℤ) (bases n : ℕ) (currencies : ℤ)
    → IsBudgeted t limit bases currencies
    → n ≤ bases * (2 * values_of t.tags.keys)
    → ltb_ℤ limit (pos n) ≡ false
series_fit t limit bases n currencies (fits, positive) h =
    let counted = at_least_one (if t.cur.enabled then currencies else pos 1) in
    let s = values_of t.tags.keys in
    multiple_fits (2 * max 1 bases * counted) s n (sum_values t.tags.keys) limit
      (sum_values-values_of t.tags.keys positive) fits
      (budget_covers bases n counted s (omega arith) h)

-- Collect without the check of the series limit
abbrev pub all_collected : (Float64 → Float64 → Float64) → TagCollector → Time → Result Snapshot
all_collected plus c reference =
    build_daily_and_mtd_queries reference dimension_total >>= λ queries.
    tags_of_bases plus c queries c.bases >>= λ result.
    ok (new_with_data (record no_snapshot { tag_costs = result }))

module _ (plus : Float64 → Float64 → Float64) (c : TagCollector) where
  unlimited :
      (result : Result (List TagCost))
      → ((made : List TagCost)
          → result ≡ ok made
          → ltb_ℤ c.series_limit (pos (length made)) ≡ false)
      → (result >>= λ made.
          fail_if (ltb_ℤ c.series_limit (pos (length made))) tag_series_limit
          >> ok (new_with_data (record no_snapshot { tag_costs = made })))
        ≡ (result >>= λ made. ok (new_with_data (record no_snapshot { tag_costs = made })))
  unlimited (err e) h = refl
  unlimited (ok made) h = rw (h made refl) refl

  collect_tags-all_collected :
      (reference : Time)
      → ((queries : List CostQuery) (made : List TagCost)
          → length queries ≡ 2
          → tags_of_bases plus c queries c.bases ≡ ok made
          → ltb_ℤ c.series_limit (pos (length made)) ≡ false)
      → collect_tags plus c reference ≡ all_collected plus c reference
  unfolding collect_tags
  collect_tags-all_collected reference h =
      rw ((build_daily_and_mtd_queries-ok reference dimension_total).0)
        (unlimited (tags_of_bases plus c _ c.bases) (λ made e. h _ made refl e))

  -- No more than a budget for two queries, for each basis, of the values of the keys
  bases_fit :
      (queries : List CostQuery) (made : List TagCost)
      → length queries ≡ 2
      → tags_of_bases plus c queries c.bases ≡ ok made
      → length made ≤ length c.bases * (2 * values_of c.keys)
  bases_fit queries made two h =
      subst (λ n. length made ≤ length c.bases * (n * values_of c.keys)) two
        (tags_of_bases-length plus c queries c.bases made h)

target_unlimited :
    (plus : Float64 → Float64 → Float64) (c : TagCollector) (t : TargetConfig) (config : Config)
    (reader : TagReader) (reference : Time)
    → tag_collector config t reader ≡ ok c
    → IsBudgeted t config.collection.tags.series_limit
        (length config.collection.cost_explorer.cost_bases)
        config.collection.cur.max_currencies
    → collect_tags plus c reference ≡ all_collected plus c reference
unfolding tag_collector new_tags
target_unlimited plus c t config reader reference made fits =
    let limit = config.collection.tags.series_limit in
    let (_, same) =
      check_passed (leb_ℤ (pos (length t.tags.keys)) (pos 0) || leb_ℤ limit (pos 0))
        invalid_tag_collector _ made in
    subst (λ k. collect_tags plus k reference ≡ all_collected plus k reference) (ok_injective same)
      (collect_tags-all_collected plus _ reference (λ queries all two e.
        series_fit t limit (length config.collection.cost_explorer.cost_bases) (length all)
          config.collection.cur.max_currencies fits (bases_fit plus _ queries all two e)))

All-Any : {A : Type 0} (P : A → Type 0) (a : A) (xs : List A) → All P xs → Any (λ x. x ≡ a) xs → P a
All-Any P a [] h k = absurd k
All-Any P a (x ∷ xs) h (inl e) = subst P e h.0
All-Any P a (x ∷ xs) h (inr k) = All-Any P a xs h.1 k

-- The tag collector that is made for a target of an accepted configuration, whose tags are enabled, is
-- never refused for the limit of tag series, whatever the reader answers: Collect is what it would be
-- without that check, since what the two queries of each basis give for the keys of the target is
-- within the limit.
pub validate-all_collected :
    (env : Environment) (config : Config) (t : TargetConfig) (reader : TagReader) (c : TagCollector)
    (plus : Float64 → Float64 → Float64) (reference : Time)
    → validate env config ≡ ok tt
    → Any (λ u. u ≡ t) config.targets
    → t.tags.enabled ≡ true
    → tag_collector config t reader ≡ ok c
    → collect_tags plus c reference ≡ all_collected plus c reference
validate-all_collected env config t reader c plus reference valid among on made =
    target_unlimited plus c t config reader reference made
      (All-Any _ t config.targets (validate-IsBudgeted env config valid) among on)
