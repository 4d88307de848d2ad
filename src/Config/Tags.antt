-- ===== src/Config/Tags.antt =====
-- The settings of the cost and usage report and of the tags in internal/config/validation.go.
use aws_cost_exporter.Base.{
  ℕ, suc, ◌+◌, ◌*◌, max, Bool, false, ◌&&◌, ◌||◌, not, List, [], ◌∷◌, ◌++◌, map, if◌then◌else◌,
  ◌=?◌, length, ltb, ◌==◌, none, some,
}
use aws_cost_exporter.Base.Int.{ℤ, pos, pos_part, leb_ℤ, ltb_ℤ, ◌+ℤ◌, times}
use aws_cost_exporter.Base.Text.{Text, text, text_same, is_empty}
use aws_cost_exporter.Errors.{Result, ok, ◌>>=◌, ◌>>◌, fail_if}
use aws_cost_exporter.Snapshot.Validate.{contains}
use aws_cost_exporter.Config.Schema.{
  Duration, TargetConfig, TargetCurConfig, CurTagColumn, TagKeyConfig,
}
use aws_cost_exporter.Config.Patterns.{
  aws_region, sql_identifier, workgroup_pattern, s3_bucket, contains_text,
}
use aws_cost_exporter.Config.Checks.{beyond}
use aws_cost_exporter.Config.Strings.{at, at_index, untrimmed}
use aws_cost_exporter.Config.Credentials.{Environment}

-- minCURPollInterval, maxCURPollInterval and maxCURQueryTimeout
abbrev pub min_cur_poll_interval : Duration
min_cur_poll_interval = pos 100_000_000

abbrev pub max_cur_poll_interval : Duration
max_cur_poll_interval = pos 60_000_000_000

abbrev pub max_cur_query_timeout : Duration
max_cur_query_timeout = pos 3_600_000_000_000

-- `strings.Trim(path, "/") != ""`: is there another character than a slash?
abbrev pub not_slashes : Text → Bool
not_slashes [] = false
not_slashes (c ∷ s) = not (c == b'/') || not_slashes s

-- `validS3Prefix`
unfoldable pub valid_s3_prefix : Environment → Text → Bool
valid_s3_prefix env value = elim (env.parse_url value) [
  | none ↦ false
  | some location ↦
      if not (location.scheme =? text "s3")
        || location.has_user
        || not (is_empty location.raw_query)
        || not (is_empty location.fragment)
      then false
      else if not (s3_bucket location.host)
          || env.is_ip location.host
          || contains_text location.host (text "..")
          || contains_text location.host (text ".-")
          || contains_text location.host (text "-.")
      then false
      else not_slashes location.path
]

-- The loop of `validateCUR` over the tag columns
unfoldable pub validate_columns :
    Text → ℕ → List CurTagColumn → List Text → List Text → Result (Unit {0})
validate_columns path index [] seen seen_columns = ok tt
validate_columns path index (column ∷ columns) seen seen_columns = do
  let here = at_index (path ++ text ".cur.tag_columns") index
  fail_if (untrimmed column.key) (at (here ++ text ".key"))
  fail_if (not (sql_identifier column.column)) (at (here ++ text ".column"))
  fail_if (contains seen column.key) (at (here ++ text ".key"))
  fail_if (contains seen_columns column.column) (at (here ++ text ".column"))
  validate_columns path (suc index) columns (column.key ∷ seen) (column.column ∷ seen_columns)

-- `validateCUR` where it is enabled
unfoldable pub validate_enabled_cur :
    Environment → Text → TargetCurConfig → Duration → Duration → Result (Unit {0})
unfolding valid_s3_prefix validate_columns
validate_enabled_cur env path cur request_timeout refresh_interval = do
  fail_if (untrimmed cur.region) (at (path ++ text ".cur.region"))
  fail_if (untrimmed cur.database) (at (path ++ text ".cur.database"))
  fail_if (untrimmed cur.table) (at (path ++ text ".cur.table"))
  fail_if (untrimmed cur.workgroup) (at (path ++ text ".cur.workgroup"))
  fail_if (untrimmed cur.output_location) (at (path ++ text ".cur.output_location"))
  fail_if (not (aws_region cur.region)) (at (path ++ text ".cur.region"))
  fail_if (not (sql_identifier cur.database)) (at (path ++ text ".cur.database"))
  fail_if (not (sql_identifier cur.table)) (at (path ++ text ".cur.table"))
  fail_if (not (workgroup_pattern cur.workgroup)) (at (path ++ text ".cur.workgroup"))
  fail_if (not (valid_s3_prefix env cur.output_location)) (at (path ++ text ".cur.output_location"))
  fail_if (leb_ℤ cur.query_timeout (pos 0)) (at (path ++ text ".cur.query_timeout"))
  fail_if (leb_ℤ cur.query_timeout request_timeout) (at (path ++ text ".cur.query_timeout"))
  fail_if (ltb_ℤ max_cur_query_timeout cur.query_timeout) (at (path ++ text ".cur.query_timeout"))
  fail_if (leb_ℤ refresh_interval cur.query_timeout) (at (path ++ text ".cur.query_timeout"))
  fail_if (ltb_ℤ cur.poll_interval min_cur_poll_interval) (at (path ++ text ".cur.poll_interval"))
  fail_if (ltb_ℤ max_cur_poll_interval cur.poll_interval) (at (path ++ text ".cur.poll_interval"))
  fail_if (leb_ℤ cur.query_timeout cur.poll_interval) (at (path ++ text ".cur.poll_interval"))
  fail_if (ltb 20 (length cur.tag_columns)) (at (path ++ text ".cur.tag_columns"))
  validate_columns path 0 cur.tag_columns [] []

-- `validateCUR`
unfoldable pub validate_cur :
    Environment → Text → TargetConfig → Duration → Duration → Result (Unit {0})
validate_cur env path target request_timeout refresh_interval =
    if not target.cur.enabled
    then ok tt
    else validate_enabled_cur env path target.cur request_timeout refresh_interval

-- The loop of `tagSeriesBudget`
abbrev pub sum_values : List TagKeyConfig → ℤ
sum_values [] = pos 0
sum_values (key ∷ keys) = key.max_values +ℤ sum_values keys

-- `max(1, n)`
abbrev pub at_least_one : ℤ → ℕ
at_least_one n = max 1 (pos_part n)

-- `tagSeriesBudget`
abbrev pub tag_series_budget : TargetConfig → ℕ → ℤ → ℤ
tag_series_budget target basis_count currency_count =
    times (2 * max 1 basis_count * at_least_one currency_count) (sum_values target.tags.keys)

-- The loop of `validateTags` over the keys, which gives the set `seen` after it
unfoldable pub validate_keys :
    Text → Bool → List Text → ℕ → List TagKeyConfig → List Text → Result (List Text)
validate_keys path cur_enabled columns index [] seen = ok seen
validate_keys path cur_enabled columns index (key ∷ keys) seen = do
  let here = at_index (path ++ text ".tags.keys") index
  fail_if (untrimmed key.key) (at (here ++ text ".key"))
  fail_if (beyond 500 key.max_values) (at (here ++ text ".max_values"))
  fail_if (contains seen key.key) (at (here ++ text ".key"))
  fail_if (cur_enabled && not (contains columns key.key)) (at (here ++ text ".key"))
  validate_keys path cur_enabled columns (suc index) keys (key.key ∷ seen)

-- The size of a map with these keys
abbrev pub distinct_count : List Text → ℕ
distinct_count [] = 0
distinct_count (k ∷ ks) = (if contains ks k then 0 else 1) + distinct_count ks

-- `validateTags` where it is enabled
unfoldable pub validate_enabled_tags : Text → TargetConfig → ℤ → ℕ → ℤ → Result (Unit {0})
validate_enabled_tags path target series_limit basis_count max_currencies = do
  fail_if (not target.cur.enabled && not target.cost_explorer.enabled)
      (at (path ++ text ".tags.enabled"))
  fail_if (length target.tags.keys == 0 || ltb 20 (length target.tags.keys))
      (at (path ++ text ".tags.keys"))
  let columns = map (λ item. item.key) target.cur.tag_columns
  seen ← validate_keys path target.cur.enabled columns 0 target.tags.keys []
  fail_if (target.cur.enabled && not (distinct_count columns == length seen))
      (at (path ++ text ".cur.tag_columns"))
  let currency_count = if target.cur.enabled then max_currencies else pos 1
  fail_if (ltb_ℤ series_limit (tag_series_budget target basis_count currency_count))
      (at (path ++ text ".tags.keys"))

-- `validateTags`
unfoldable pub validate_tags : Text → TargetConfig → ℤ → ℕ → ℤ → Result (Unit {0})
validate_tags path target series_limit basis_count max_currencies =
    if not target.tags.enabled
    then ok tt
    else validate_enabled_tags path target series_limit basis_count max_currencies

-- What the cost and usage report of a target may need.
abbrev pub cur_series_budget : TargetConfig → ℕ → ℤ → ℤ
cur_series_budget target basis_count max_currencies =
    let required = pos (2 * max 1 basis_count * at_least_one max_currencies) in
    if target.tags.enabled
    then required +ℤ tag_series_budget target basis_count max_currencies
    else required

-- `validateCURSeriesBudget`
unfoldable pub validate_cur_series_budget : TargetConfig → ℤ → ℕ → ℤ → Result (Unit {0})
validate_cur_series_budget target series_limit basis_count max_currencies =
    if not target.cur.enabled
    then ok tt
    else fail_if (ltb_ℤ series_limit (cur_series_budget target basis_count max_currencies))
        (at (text "collection.cur.series_limit"))
