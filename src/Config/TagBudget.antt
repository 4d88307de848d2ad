-- ===== src/Config/TagBudget.antt =====
-- What validateTags of internal/config/validation.go has checked of the keys of each target.
use aws_cost_exporter.Base.{
  ℕ, ◌==◌, ltb, ◌≡◌, subst, ◌&&◌, ◌||◌, Bool, true, false, not, List, [], ◌∷◌, map, All, All-mono,
  arith, if◌then◌else◌, length, ◌++◌, suc,
}
use aws_cost_exporter.Base.Int.{ℤ, pos, ◌<ℤ◌, ◌≤ℤ◌, ltb_ℤ}
use aws_cost_exporter.Base.Text.{Text, text, text_same}
use aws_cost_exporter.Errors.{ok, fail_if, bind_ok, check_passed, Error}
use aws_cost_exporter.Config.Schema.{TargetConfig, TagKeyConfig}
use aws_cost_exporter.Config.Collection.{Config}
use aws_cost_exporter.Config.Checks.{beyond}
use aws_cost_exporter.Snapshot.Validate.{contains}
use aws_cost_exporter.Config.Strings.{untrimmed, at, at_index}
use aws_cost_exporter.Config.Credentials.{Environment}
use aws_cost_exporter.Config.Tags.{
  validate_cur, validate_tags, validate_enabled_tags, validate_keys, tag_series_budget,
  distinct_count,
}
use aws_cost_exporter.Config.Targets.{
  validate, validate_settings, validate_filters, validate_organizations, validate_budgets,
}
use aws_cost_exporter.Config.Names.{targets-Loop}

within : (a b : ℤ) → ltb_ℤ a b ≡ false → b ≤ℤ a
within a b h = ground arith

last_check : (b : Bool) (e : Error) → fail_if b e ≡ ok tt → b ≡ false
last_check b e h = ground arith

-- The values of the keys of a target fit a limit, and each key admits a value.
abbrev pub IsBudgeted : TargetConfig → ℤ → ℕ → ℤ → Type 0
IsBudgeted t limit bases currencies =
    (tag_series_budget t bases (if t.cur.enabled then currencies else pos 1) ≤ℤ limit)
    × All (λ (k : TagKeyConfig). pos 0 <ℤ k.max_values) t.tags.keys

validate_keys-positive :
    (path : Text) (enabled : Bool) (columns : List Text) (index : ℕ) (keys : List TagKeyConfig)
    (seen after : List Text)
    → validate_keys path enabled columns index keys seen ≡ ok after
    → All (λ (k : TagKeyConfig). pos 0 <ℤ k.max_values) keys
unfolding validate_keys
validate_keys-positive path enabled columns index [] seen after h = tt
validate_keys-positive path enabled columns index (key ∷ keys) seen after h =
    let (_, h1) = check_passed (untrimmed key.key) _ _ h in
    let (positive, h2) = check_passed (beyond 500 key.max_values) _ _ h1 in
    let (_, h3) = check_passed (contains seen key.key) _ _ h2 in
    let (_, h4) = check_passed (enabled && not (contains columns key.key)) _ _ h3 in
    (
      ground (arith, positive),
      validate_keys-positive path enabled columns (suc index) keys (key.key ∷ seen) after h4,
    )

tags_within :
    (path : Text) (t : TargetConfig) (limit : ℤ) (bases : ℕ) (currencies : ℤ)
    → validate_tags path t limit bases currencies ≡ ok tt
    → t.tags.enabled ≡ true
    → IsBudgeted t limit bases currencies
unfolding validate_tags validate_enabled_tags
tags_within path t limit bases currencies h on =
    let enabled =
      subst
        (λ b.
          (if not b then ok tt else validate_enabled_tags path t limit bases currencies) ≡ ok tt)
        on h in
    let (_, h1) =
      check_passed (not t.cur.enabled && not t.cost_explorer.enabled)
        (at (path ++ text ".tags.enabled")) _ enabled in
    let (_, h2) =
      check_passed (length t.tags.keys == 0 || ltb 20 (length t.tags.keys))
        (at (path ++ text ".tags.keys")) _ h1 in
    let columns = map (λ item. item.key) t.cur.tag_columns in
    let (seen, gone, h3) =
      bind_ok (validate_keys path t.cur.enabled columns 0 t.tags.keys []) _ h2 in
    let (_, h4) =
      check_passed (t.cur.enabled && not (distinct_count columns == length seen)) _ _ h3 in
    (
      within limit _ (last_check _ _ h4),
      validate_keys-positive path t.cur.enabled columns 0 t.tags.keys [] seen gone,
    )

pub validate-IsBudgeted :
    (env : Environment) (c : Config)
    → validate env c ≡ ok tt
    → All
        (λ t.
          t.tags.enabled ≡ true
          → IsBudgeted t c.collection.tags.series_limit
              (length c.collection.cost_explorer.cost_bases)
              c.collection.cur.max_currencies)
        c.targets
unfolding validate_settings
validate-IsBudgeted env c h =
    let bases = length c.collection.cost_explorer.cost_bases in
    let currencies = c.collection.cur.max_currencies in
    All-mono
      (λ t a.
        let (index, settings) = a.settings in
        let path = at_index (text "targets") index in
        let (_, _, h1) =
          bind_ok (validate_filters (path ++ text ".cost_explorer.filters") t.cost_explorer.filters)
            _ settings in
        let (_, _, h2) = bind_ok (validate_organizations path t c) _ h1 in
        let (_, _, h3) = bind_ok (validate_budgets path t c.collection.budgets.series_limit) _ h2 in
        let (_, _, h4) =
          bind_ok (validate_cur env path t c.aws.request_timeout c.collection.cur.refresh_interval)
            _ h3 in
        let (_, tags, _) =
          bind_ok (validate_tags path t c.collection.tags.series_limit bases currencies) _ h4 in
        tags_within path t c.collection.tags.series_limit bases currencies tags)
      c.targets (targets-Loop env c h).1.accepted
