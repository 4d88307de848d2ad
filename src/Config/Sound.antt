-- ===== src/Config/Sound.antt =====
-- What a configuration that Validate accepts promises to the rest of the program.
use aws_cost_exporter.Base.{◌≡◌, ◌||◌, false, All, arith}
use aws_cost_exporter.Base.Int.{ℤ, pos, ◌≤ℤ◌, ◌<ℤ◌, ltb_ℤ, leb_ℤ}
use aws_cost_exporter.Base.Text.{text_same}
use aws_cost_exporter.Errors.{ok, bind_ok}
use aws_cost_exporter.Config.Collection.{Config}
use aws_cost_exporter.Config.Checks.{
  Check, first_validation_error-ok, base_checks, validate_base, validate_server, All-At,
}
use aws_cost_exporter.Config.Credentials.{Environment, validate_credential_sources}
use aws_cost_exporter.Config.Targets.{validate_targets, validate}

-- The parts of a validation that succeeds.
pub validate-parts :
    (env : Environment) (c : Config)
    → validate env c ≡ ok tt
    → (validate_server c.server ≡ ok tt)
      × (validate_base c ≡ ok tt)
      × (validate_credential_sources env c.aws.credentials ≡ ok tt)
      × (validate_targets env c ≡ ok tt)
unfolding validate
validate-parts env c h =
    let (_, a, h1) = bind_ok (validate_server c.server) _ h in
    let (_, b, h2) = bind_ok (validate_base c) _ h1 in
    let (_, d, h3) = bind_ok (validate_credential_sources env c.aws.credentials) _ h2 in
    (a, b, d, h3)

pub base_passed :
    (c : Config) → validate_base c ≡ ok tt → All (λ (k : Check). k.invalid ≡ false) (base_checks c)
unfolding validate_base
base_passed c h = (first_validation_error-ok (base_checks c)).0 h

leb_false : (a b : ℤ) → leb_ℤ a b ≡ false → b <ℤ a
leb_false a b h = ground arith

ltb_false : (a b : ℤ) → ltb_ℤ a b ≡ false → b ≤ℤ a
ltb_false a b h = ground arith

-- The durations of an accepted configuration are in order: the request timeout is positive, a refresh
-- takes longer than it, and the thresholds of the cache are no shorter than a refresh.
pub durations :
    (c : Config)
    → validate_base c ≡ ok tt
    → (pos 0 <ℤ c.aws.request_timeout)
      × (c.aws.request_timeout <ℤ c.collection.refresh_interval)
      × (c.collection.refresh_interval ≤ℤ c.cache.freshness_ttl)
      × (c.cache.freshness_ttl ≤ℤ c.cache.stale_after)
unfolding base_checks
durations c h =
    let passed = base_passed c h in
    let P = λ (k : Check). k.invalid ≡ false in
    (
      leb_false c.aws.request_timeout (pos 0) (All-At P 3 (base_checks c) passed),
      leb_false c.collection.refresh_interval c.aws.request_timeout
          (All-At P 12 (base_checks c) passed),
      ltb_false c.cache.freshness_ttl c.collection.refresh_interval
          (All-At P 49 (base_checks c) passed),
      ltb_false c.cache.stale_after c.cache.freshness_ttl (All-At P 50 (base_checks c) passed),
    )

pub thresholds_fit :
    (ttl stale_after timeout refresh : ℤ)
    → pos 0 <ℤ timeout
    → timeout <ℤ refresh
    → refresh ≤ℤ ttl
    → ttl ≤ℤ stale_after
    → (leb_ℤ ttl (pos 0) || ltb_ℤ stale_after ttl) ≡ false
thresholds_fit ttl stale_after timeout refresh a b c d = ground arith
