-- ===== src/Collector/TagsOwned.antt =====
-- What the tag collector publishes.
use aws_cost_exporter.Base.{
  ◌≡◌, ◌≤◌, refl, sym, subst, true, List, [], ◌∷◌, map, All, All-append, length,
}
use aws_cost_exporter.Base.Int.{pos, ltb_ℤ, pos_part}
use aws_cost_exporter.Base.Float.{Float64}
use aws_cost_exporter.Base.Sort.{length-sort_by}
use aws_cost_exporter.Base.Text.{Text}
use aws_cost_exporter.Domain.Identity.{TargetId}
use aws_cost_exporter.Domain.Dimension.{Basis, dimension_total}
use aws_cost_exporter.Domain.Period.{Time}
use aws_cost_exporter.Domain.Records.{TagCost, tag_before, sort_tags}
use aws_cost_exporter.Config.Schema.{TagKeyConfig}
use aws_cost_exporter.Errors.{ok, bind_ok, check_passed, ok_injective, tag_series_limit}
use aws_cost_exporter.Snapshot.{Snapshot, no_snapshot, new_with_data}
use aws_cost_exporter.Snapshot.Owned.{OwnedBy, new_with_data-OwnedBy}
use aws_cost_exporter.Snapshot.Validate.{known_source}
use aws_cost_exporter.Collector.Queries.{CostQuery, build_daily_and_mtd_queries}
use aws_cost_exporter.Collector.Commitments.{within_limit}
use aws_cost_exporter.Collector.Tags.{
  TagCollector, limit_values, retarget_tag, tags_of_queries, tags_of_keys, tags_of_bases,
  collect_tags,
}
use aws_cost_exporter.Collector.TagLimits.{SameGroup, limit_values-All}

abbrev pub IsKnownTag : TagCost → Type 0
IsKnownTag t = known_source t.provider t.basis ≡ true

abbrev pub IsOwnTag : TargetId → TagCost → Type 0
IsOwnTag target t = (t.target ≡ target) × IsKnownTag t

pub known_passes : (a b : TagCost) → SameGroup a b → IsKnownTag a → IsKnownTag b
known_passes a b same k =
    subst (λ p. known_source p b.basis ≡ true) same.provider
      (subst (λ s. known_source a.provider s ≡ true) same.basis k)

retarget_tag-IsOwnTag :
    (target : TargetId) (values : List TagCost)
    → All IsKnownTag values
    → All (IsOwnTag target) (map (retarget_tag target) values)
retarget_tag-IsOwnTag target [] h = tt
retarget_tag-IsOwnTag target (t ∷ ts) h = ((refl, h.0), retarget_tag-IsOwnTag target ts h.1)

module _ (plus : Float64 → Float64 → Float64) (c : TagCollector)
    (reads : (query : CostQuery) (key : Text) (rows : List TagCost)
      → c.reader query key ≡ ok rows
      → All IsKnownTag rows) where
  tags_of_queries-IsOwnTag :
      (basis : Basis) (key : TagKeyConfig) (queries : List CostQuery) (made : List TagCost)
      → tags_of_queries plus c basis key queries ≡ ok made
      → All (IsOwnTag c.target) made
  unfolding tags_of_queries
  tags_of_queries-IsOwnTag basis key [] made h = subst (All (IsOwnTag c.target)) (ok_injective h) tt
  tags_of_queries-IsOwnTag basis key (query ∷ queries) made h =
      let asked : CostQuery = record query { basis = basis } in
      let (rows, read, h1) = bind_ok (c.reader asked key.key) _ h in
      let (bounded, limited, h2) =
        bind_ok (limit_values plus rows key.max_values c.overflow) _ h1 in
      let (rest, others, h3) = bind_ok (tags_of_queries plus c basis key queries) _ h2 in
      let known =
        limit_values-All plus c.overflow IsKnownTag known_passes rows key.max_values bounded
          (reads asked key.key rows read) limited in
      subst (All (IsOwnTag c.target)) (ok_injective h3) (
        All-append (IsOwnTag c.target) (map (retarget_tag c.target) bounded.values) rest
          (retarget_tag-IsOwnTag c.target bounded.values known)
          (tags_of_queries-IsOwnTag basis key queries rest others))

  tags_of_keys-IsOwnTag :
      (queries : List CostQuery) (basis : Basis) (keys : List TagKeyConfig) (made : List TagCost)
      → tags_of_keys plus c queries basis keys ≡ ok made
      → All (IsOwnTag c.target) made
  unfolding tags_of_keys
  tags_of_keys-IsOwnTag queries basis [] made h =
      subst (All (IsOwnTag c.target)) (ok_injective h) tt
  tags_of_keys-IsOwnTag queries basis (key ∷ keys) made h =
      let (first, one, h1) = bind_ok (tags_of_queries plus c basis key queries) _ h in
      let (rest, others, h2) = bind_ok (tags_of_keys plus c queries basis keys) _ h1 in
      subst (All (IsOwnTag c.target)) (ok_injective h2) (
        All-append (IsOwnTag c.target) first rest
          (tags_of_queries-IsOwnTag basis key queries first one)
          (tags_of_keys-IsOwnTag queries basis keys rest others))

  tags_of_bases-IsOwnTag :
      (queries : List CostQuery) (bases : List Basis) (made : List TagCost)
      → tags_of_bases plus c queries bases ≡ ok made
      → All (IsOwnTag c.target) made
  unfolding tags_of_bases
  tags_of_bases-IsOwnTag queries [] made h = subst (All (IsOwnTag c.target)) (ok_injective h) tt
  tags_of_bases-IsOwnTag queries (basis ∷ bases) made h =
      let (first, one, h1) = bind_ok (tags_of_keys plus c queries basis c.keys) _ h in
      let (rest, others, h2) = bind_ok (tags_of_bases plus c queries bases) _ h1 in
      subst (All (IsOwnTag c.target)) (ok_injective h2) (
        All-append (IsOwnTag c.target) first rest
          (tags_of_keys-IsOwnTag queries basis c.keys first one)
          (tags_of_bases-IsOwnTag queries bases rest others))

  -- Where the reader returns only rows with a known provider and basis, a snapshot of the tag
  -- collector is one that ValidatePartial accepts for its target, and it has no more tag costs than
  -- the series limit.
  pub collect_tags-OwnedBy :
      (reference : Time) (s : Snapshot)
      → collect_tags plus c reference ≡ ok s
      → OwnedBy c.target s × (length s.tag_costs ≤ pos_part c.series_limit)
  unfolding collect_tags
  collect_tags-OwnedBy reference s h =
      let (queries, _, h1) = bind_ok (build_daily_and_mtd_queries reference dimension_total) _ h in
      let (result, all, h2) = bind_ok (tags_of_bases plus c queries c.bases) _ h1 in
      let (fits, made) =
        check_passed (ltb_ℤ c.series_limit (pos (length result))) tag_series_limit _ h2 in
      let given = record no_snapshot { tag_costs = result } in
      subst (λ (s : Snapshot). OwnedBy c.target s × (length s.tag_costs ≤ pos_part c.series_limit))
        (ok_injective made)
        (
          new_with_data-OwnedBy c.target given (record {
            costs = tt;
            forecasts = tt;
            budgets = tt;
            accounts = tt;
            commitments = tt;
            anomalies = tt;
            tag_costs = tags_of_bases-IsOwnTag queries c.bases result all;
          }),
          unfold new_with_data sort_tags in
              subst (λ n. n ≤ pos_part c.series_limit) (sym (length-sort_by tag_before result))
                (within_limit c.series_limit (length result) fits),
        )
