-- ===== src/Collector/CurBounds.antt =====
-- How much the CUR collector publishes.
use aws_cost_exporter.Base.{
  ◌+◌, ◌≡◌, ◌≤◌, sym, subst, Bool, true, false, not, List, [], ◌∷◌, ◌++◌, All, All-append, All-mono,
  length, arith,
}
use aws_cost_exporter.Base.Int.{ℤ, pos, ltb_ℤ, pos_part}
use aws_cost_exporter.Base.Float.{Float64}
use aws_cost_exporter.Base.Sort.{All-sort_by}
use aws_cost_exporter.Base.Text.{Text, text_same, key_same}
use aws_cost_exporter.Base.Dict.{Dict, find_or, find_or-All, put, All-put}
use aws_cost_exporter.Domain.Period.{Time}
use aws_cost_exporter.Domain.Cost.{Cost}
use aws_cost_exporter.Domain.Records.{TagCost, tag_before, sort_tags}
use aws_cost_exporter.Errors.{
  ok, bind_ok, check_passed, ok_injective, cur_tag_key, cur_currency_limit, cur_series_limit,
  cur_tag_series_limit,
}
use aws_cost_exporter.Snapshot.{Snapshot, no_snapshot, new_with_data}
use aws_cost_exporter.Collector.Commitments.{within_limit}
use aws_cost_exporter.Collector.Tags.{limit_values}
use aws_cost_exporter.Collector.TagLimits.{SameGroup, limit_values-All}
use aws_cost_exporter.Collector.CurLimits.{
  Admits, is_allowlisted-Admits, WithinCurrencies, currency_count-WithinCurrencies,
}
use aws_cost_exporter.Collector.Cur.{
  CurCollector, TagGroups, currency_count, tag_limits, tag_group_key, is_allowlisted, group_tags,
  key_of_group, bound_groups, limit_tags, tags_when, collect_cur,
}

module _ (limits : Dict Text ℤ) where
  abbrev Allowed : TagCost → Type 0
  Allowed t = is_allowlisted limits t.tag_key ≡ true

  Allowed-passes : (a b : TagCost) → SameGroup a b → Allowed a → Allowed b
  Allowed-passes a b same h = subst (λ k. is_allowlisted limits k ≡ true) same.tag_key h

  group_tags-Allowed :
      (values : List TagCost) (groups made : TagGroups)
      → All (λ entry. All Allowed entry.1) groups
      → group_tags limits values groups ≡ ok made
      → All (λ entry. All Allowed entry.1) made
  unfolding group_tags
  group_tags-Allowed [] groups made g h =
      subst (All (λ entry. All Allowed entry.1)) (ok_injective h) g
  group_tags-Allowed (item ∷ items) groups made g h =
      let (allowed, h1) = check_passed (not (is_allowlisted limits item.tag_key)) cur_tag_key _ h in
      let key = tag_group_key item in
      let before = find_or [] key groups in
      group_tags-Allowed items (put key (before ++ item ∷ []) groups) made
        (All-put (λ entry. All Allowed entry.1) key (before ++ item ∷ []) groups
          (All-append Allowed before (item ∷ []) (find_or-All Allowed key groups g)
            (ground (arith, allowed), tt))
          g)
        h1

  bound_groups-Allowed :
      (plus : Float64 → Float64 → Float64) (overflow : Text) (groups : TagGroups)
      (made : List TagCost)
      → All (λ entry. All Allowed entry.1) groups
      → bound_groups plus limits overflow groups ≡ ok made
      → All Allowed made
  unfolding bound_groups
  bound_groups-Allowed plus overflow [] made g h = subst (All Allowed) (ok_injective h) tt
  bound_groups-Allowed plus overflow ((key, group) ∷ groups) made g h =
      let limit = find_or (pos 0) (key_of_group key) limits in
      let (bounded, one, h1) = bind_ok (limit_values plus group limit overflow) _ h in
      let (rest, others, h2) = bind_ok (bound_groups plus limits overflow groups) _ h1 in
      subst (All Allowed) (ok_injective h2) (
        All-append Allowed bounded.values rest
          (limit_values-All plus overflow Allowed Allowed-passes group limit bounded g.0 one)
          (bound_groups-Allowed plus overflow groups rest g.1 others))

module _ (plus : Float64 → Float64 → Float64) (c : CurCollector) where
  abbrev limits_of : Dict Text ℤ
  limits_of = tag_limits c.keys []

  limit_tags-Allowed :
      (values made : List TagCost)
      → limit_tags plus c values ≡ ok made
      → All (Allowed limits_of) made
  unfolding limit_tags sort_tags
  limit_tags-Allowed values made h =
      let (groups, grouped, h1) = bind_ok (group_tags limits_of values []) _ h in
      let (result, bounded, h2) = bind_ok (bound_groups plus limits_of c.overflow groups) _ h1 in
      subst (All (Allowed limits_of)) (ok_injective h2) (
        All-sort_by tag_before (Allowed limits_of) result (
          bound_groups-Allowed limits_of plus c.overflow groups result
            (group_tags-Allowed limits_of values [] groups tt grouped) bounded))

  tags_when-ok :
      (enabled : Bool) (reference : Time) (made : List TagCost)
      → tags_when plus enabled c reference ≡ ok made
      → All (Allowed limits_of) made
        × (length made ≤ pos_part c.tag_series_limit)
        × (enabled ≡ false → made ≡ [])
  unfolding tags_when
  tags_when-ok false reference made h =
      let none_made = ok_injective h in
      (
        subst (All (Allowed limits_of)) none_made tt,
        subst (λ l. length l ≤ pos_part c.tag_series_limit) none_made (omega arith),
        λ _. sym none_made,
      )
  tags_when-ok true reference made h =
      let (read, _, h1) = bind_ok (c.reader.query_tag_costs reference c.bases) _ h in
      let (tags, limited, h2) = bind_ok (limit_tags plus c read) _ h1 in
      let (few, h3) =
        check_passed (ltb_ℤ c.tag_series_limit (pos (length tags))) cur_tag_series_limit _ h2 in
      let same = ok_injective h3 in
      (
        subst (All (Allowed limits_of)) same (limit_tags-Allowed read tags limited),
        subst (λ l. length l ≤ pos_part c.tag_series_limit) same
            (within_limit c.tag_series_limit (length tags) few),
        λ e. cc,
      )

  -- A snapshot of the CUR collector is made of the costs that the reader returned and of tag costs
  -- under allowlisted keys with a positive limit, none if tags are disabled; together they are
  -- within the series limit, the tag costs within theirs, and the currencies of all their amounts are
  -- in a list no longer than the limit of currencies.
  pub collect_cur-ok :
      (reference : Time) (s : Snapshot)
      → collect_cur plus c reference ≡ ok s
      → (costs : List Cost) × (tags : List TagCost) × (c.reader.query_costs reference c.bases
          ≡ ok costs)
        × (s ≡ new_with_data (record no_snapshot { costs = costs; tag_costs = tags }))
        × All (λ t. Admits c.keys t.tag_key) tags
        × (c.tags ≡ false → tags ≡ [])
        × (length tags ≤ pos_part c.tag_series_limit)
        × (length costs + length tags ≤ pos_part c.series_limit)
        × WithinCurrencies c.max_currencies costs tags
  unfolding collect_cur
  collect_cur-ok reference s h =
      let (costs, read, h1) = bind_ok (c.reader.query_costs reference c.bases) _ h in
      let (_, h2) =
        check_passed (ltb_ℤ c.max_currencies (pos (currency_count costs []))) cur_currency_limit _
          h1 in
      let (tags, limited, h3) = bind_ok (tags_when plus c.tags c reference) _ h2 in
      let (currencies, h4) =
        check_passed (ltb_ℤ c.max_currencies (pos (currency_count costs tags))) cur_currency_limit _
          h3 in
      let (series, h5) =
        check_passed (ltb_ℤ c.series_limit (pos (length costs + length tags))) cur_series_limit _
          h4 in
      let (allowed, few, absent) = tags_when-ok c.tags reference tags limited in
      (
        costs,
        tags,
        read,
        sym (ok_injective h5),
        All-mono (λ t a. is_allowlisted-Admits c.keys t.tag_key a) tags allowed,
        absent,
        few,
        within_limit c.series_limit (length costs + length tags) series,
        currency_count-WithinCurrencies c.max_currencies costs tags
            (within_limit c.max_currencies (currency_count costs tags) currencies),
      )
