-- ===== src/Config/Checks.antt =====
-- ValidateServer and validateBase of internal/config/validation.go.
use Prim.Native.String.{String}
use aws_cost_exporter.Base.{
  ℕ, ◌==◌, ltb, Bool, true, false, ◌&&◌, ◌||◌, not, List, [], ◌∷◌, if◌then◌else◌, ◌=?◌, length, All,
  ◌≡◌, ◌↔◌, refl, arith, zero, suc,
}
use aws_cost_exporter.Base.Int.{ℤ, pos, leb_ℤ, ltb_ℤ}
use aws_cost_exporter.Base.Float.{Float64, is_nan, is_inf, float_lt, float_eq}
use aws_cost_exporter.Base.Text.{Text, text, text_same, is_empty, trim_space}
use aws_cost_exporter.Errors.{Result, ok, err, invalid_config}
use aws_cost_exporter.Config.Schema.{ServerConfig}
use aws_cost_exporter.Config.Collection.{Config, CollectorsConfig}
use aws_cost_exporter.Config.Patterns.{has_prefix}

-- `validationCheck`, without its message
pub record Check : Type 0 where
  pub invalid : Bool
  pub path : Text

abbrev check : Bool → String → Check
check invalid path = record { invalid = invalid; path = text path }

-- `firstValidationError`
unfoldable pub first_validation_error : List Check → Result (Unit {0})
first_validation_error [] = ok tt
first_validation_error (c ∷ cs) =
    let rest = first_validation_error cs in if c.invalid then err (invalid_config c.path) else rest

-- `x <= 0 || x > limit`
abbrev pub beyond : ℕ → ℤ → Bool
beyond limit x = leb_ℤ x (pos 0) || ltb_ℤ (pos limit) x

-- `nonFinite`
abbrev pub non_finite : Float64 → Bool
non_finite value = is_nan value || is_inf value

-- 0.5, 1 and 10
abbrev pub half : Float64
half = 0x3fe0_0000_0000_0000

abbrev pub one : Float64
one = 0x3ff0_0000_0000_0000

abbrev pub max_requests_per_sec : Float64
max_requests_per_sec = 0x4024_0000_0000_0000

-- `invalidRate`
abbrev pub invalid_rate : Float64 → Bool
invalid_rate value =
    non_finite value
    || (float_lt value 0 || float_eq value 0)
    || float_lt max_requests_per_sec value

-- `reservedMetricsPath`
unfoldable pub reserved_metrics_path : ServerConfig → Bool
reserved_metrics_path value =
    let path = value.metrics_path in
    if path =? text "/"
      || path =? text "/healthz"
      || path =? text "/ready"
      || path =? text "/version"
    then true
    else value.debug.enabled
      && (path =? text "/debug"
          || path =? text "/debug/pprof"
          || has_prefix path (text "/debug/pprof/"))

unfoldable pub server_checks : ServerConfig → List Check
unfolding reserved_metrics_path
server_checks value =
    check (is_empty (trim_space value.listen_address)) "server.listen_address"
    ∷ check (not (has_prefix value.metrics_path (text "/"))) "server.metrics_path"
    ∷ check (reserved_metrics_path value) "server.metrics_path"
    ∷ check (beyond 1000 value.max_in_flight) "server.max_in_flight"
    ∷ check (leb_ℤ value.read_header_timeout (pos 0)) "server.read_header_timeout"
    ∷ check (leb_ℤ value.read_timeout (pos 0)) "server.read_timeout"
    ∷ check (leb_ℤ value.write_timeout (pos 0)) "server.write_timeout"
    ∷ check (leb_ℤ value.idle_timeout (pos 0)) "server.idle_timeout"
    ∷ check (leb_ℤ value.shutdown_timeout (pos 0)) "server.shutdown_timeout"
    ∷ []

-- `ValidateServer`
unfoldable pub validate_server : ServerConfig → Result (Unit {0})
unfolding first_validation_error server_checks
validate_server value = first_validation_error (server_checks value)

-- `anyCollector`
abbrev pub any_collector : CollectorsConfig → Bool
any_collector c = c.total || c.service || c.region || c.account || c.forecast

unfoldable pub base_checks : Config → List Check
base_checks c =
    let collectors = c.collection.cost_explorer.collectors in
    check
      (not (c.log.level =? text "debug")
        && not (c.log.level =? text "info")
        && not (c.log.level =? text "warn")
        && not (c.log.level =? text "error"))
      "log.level"
    ∷ check (not (c.log.format =? text "json") && not (c.log.format =? text "text")) "log.format"
    ∷ check (not (c.aws.region =? text "us-east-1")) "aws.region"
    ∷ check (leb_ℤ c.aws.request_timeout (pos 0)) "aws.request_timeout"
    ∷ check (beyond 10 c.aws.retry.max_attempts) "aws.retry.max_attempts"
    ∷ check (leb_ℤ c.aws.retry.base_delay (pos 0)) "aws.retry.base_delay"
    ∷ check (ltb_ℤ c.aws.retry.max_backoff c.aws.retry.base_delay) "aws.retry.max_backoff"
    ∷ check (invalid_rate c.aws.rate_limit.global_requests_per_second)
        "aws.rate_limit.global_requests_per_second"
    ∷ check (beyond 5 c.aws.rate_limit.global_burst) "aws.rate_limit.global_burst"
    ∷ check (invalid_rate c.aws.rate_limit.target_requests_per_second)
        "aws.rate_limit.target_requests_per_second"
    ∷ check (beyond 5 c.aws.rate_limit.target_burst) "aws.rate_limit.target_burst"
    ∷ check (length c.targets == 0 || ltb 20 (length c.targets)) "targets"
    ∷ check (leb_ℤ c.collection.refresh_interval c.aws.request_timeout)
        "collection.refresh_interval"
    ∷ check (non_finite c.collection.jitter_ratio) "collection.jitter_ratio"
    ∷ check (float_lt c.collection.jitter_ratio 0 || float_lt half c.collection.jitter_ratio)
        "collection.jitter_ratio"
    ∷ check (beyond 100 c.collection.max_concurrency) "collection.max_concurrency"
    ∷ check (beyond 10 c.collection.failure_backoff.max_attempts)
        "collection.failure_backoff.max_attempts"
    ∷ check (leb_ℤ c.collection.failure_backoff.initial (pos 0))
        "collection.failure_backoff.initial"
    ∷ check (ltb_ℤ c.collection.failure_backoff.max c.collection.failure_backoff.initial)
        "collection.failure_backoff.max"
    ∷ check (non_finite c.collection.failure_backoff.multiplier)
        "collection.failure_backoff.multiplier"
    ∷ check
        (float_lt c.collection.failure_backoff.multiplier one
          || float_eq c.collection.failure_backoff.multiplier one)
        "collection.failure_backoff.multiplier"
    ∷ check (not (any_collector collectors)) "collection.cost_explorer.collectors"
    ∷ check (length c.collection.cost_explorer.cost_bases == 0)
        "collection.cost_explorer.cost_bases"
    ∷ check (beyond 200 c.collection.cost_explorer.max_pages) "collection.cost_explorer.max_pages"
    ∷ check
        (collectors.forecast
          && (ltb_ℤ c.collection.cost_explorer.prediction_interval (pos 80)
              || ltb_ℤ (pos 99) c.collection.cost_explorer.prediction_interval))
        "collection.cost_explorer.prediction_interval"
    ∷ check (beyond 2000 c.collection.cost_explorer.dimensions.series_limit)
        "collection.cost_explorer.dimensions.series_limit"
    ∷ check (not (c.collection.cost_explorer.dimensions.overflow =? text "aggregate"))
        "collection.cost_explorer.dimensions.overflow"
    ∷ check (is_empty (trim_space c.collection.cost_explorer.dimensions.overflow_label))
        "collection.cost_explorer.dimensions.overflow_label"
    ∷ check
        (not (
          c.collection.cost_explorer.dimensions.overflow_label
          =? trim_space c.collection.cost_explorer.dimensions.overflow_label))
        "collection.cost_explorer.dimensions.overflow_label"
    ∷ check (leb_ℤ c.collection.organizations.refresh_interval c.aws.request_timeout)
        "collection.organizations.refresh_interval"
    ∷ check (beyond 200 c.collection.organizations.max_pages) "collection.organizations.max_pages"
    ∷ check (beyond 2000 c.collection.organizations.series_limit)
        "collection.organizations.series_limit"
    ∷ check (leb_ℤ c.collection.budgets.refresh_interval c.aws.request_timeout)
        "collection.budgets.refresh_interval"
    ∷ check (beyond 200 c.collection.budgets.max_pages) "collection.budgets.max_pages"
    ∷ check (beyond 500 c.collection.budgets.series_limit) "collection.budgets.series_limit"
    ∷ check (leb_ℤ c.collection.commitments.refresh_interval c.aws.request_timeout)
        "collection.commitments.refresh_interval"
    ∷ check (beyond 200 c.collection.commitments.max_pages) "collection.commitments.max_pages"
    ∷ check (beyond 2000 c.collection.commitments.series_limit)
        "collection.commitments.series_limit"
    ∷ check (leb_ℤ c.collection.anomalies.refresh_interval c.aws.request_timeout)
        "collection.anomalies.refresh_interval"
    ∷ check (beyond 200 c.collection.anomalies.max_pages) "collection.anomalies.max_pages"
    ∷ check (beyond 20 c.collection.anomalies.series_limit) "collection.anomalies.series_limit"
    ∷ check (beyond 200 c.collection.tags.max_pages) "collection.tags.max_pages"
    ∷ check (leb_ℤ c.collection.tags.refresh_interval c.aws.request_timeout)
        "collection.tags.refresh_interval"
    ∷ check (beyond 500 c.collection.tags.series_limit) "collection.tags.series_limit"
    ∷ check (leb_ℤ c.collection.cur.refresh_interval c.aws.request_timeout)
        "collection.cur.refresh_interval"
    ∷ check (beyond 200 c.collection.cur.max_pages) "collection.cur.max_pages"
    ∷ check (beyond 100000 c.collection.cur.max_rows) "collection.cur.max_rows"
    ∷ check (beyond 10 c.collection.cur.max_currencies) "collection.cur.max_currencies"
    ∷ check (beyond 20000 c.collection.cur.series_limit) "collection.cur.series_limit"
    ∷ check (ltb_ℤ c.cache.freshness_ttl c.collection.refresh_interval) "cache.freshness_ttl"
    ∷ check (ltb_ℤ c.cache.stale_after c.cache.freshness_ttl) "cache.stale_after"
    ∷ []

-- `validateBase`
unfoldable pub validate_base : Config → Result (Unit {0})
unfolding first_validation_error base_checks
validate_base c = first_validation_error (base_checks c)

-- The list of checks passes exactly when none of them is invalid.
pub first_validation_error-ok :
    (checks : List Check)
    → (first_validation_error checks ≡ ok tt) ↔ All (λ c. c.invalid ≡ false) checks
unfolding first_validation_error
first_validation_error-ok [] = (λ h. tt, λ h. refl)
first_validation_error-ok (c ∷ cs) = (
  λ h. ground (arith, first_validation_error-ok cs),
  λ h. ground (arith, first_validation_error-ok cs),
)

-- The entry of a list at a place, if there is one, has what all entries have.
abbrev pub At {ℓ} : {A : Type 0} → (A → Type ℓ) → ℕ → List A → Type ℓ
At P i [] = Unit
At P zero (x ∷ xs) = P x
At P (suc i) (x ∷ xs) = At P i xs

pub All-At {ℓ} : {A : Type 0} (P : A → Type ℓ) (i : ℕ) (xs : List A) → All P xs → At P i xs
All-At P i [] h = tt
All-At P zero (x ∷ xs) h = h.0
All-At P (suc i) (x ∷ xs) h = All-At P i xs h.1
