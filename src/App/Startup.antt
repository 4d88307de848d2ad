-- ===== src/App/Startup.antt =====
-- An accepted configuration starts: the store and the runner take what Run makes of it.
use aws_cost_exporter.Base.{
  ℕ, ◌<◌, ◌==◌, ◌≡◌, refl, Bool, true, false, ◌||◌, List, [], ◌∷◌, All, arith, length, Bool-cases,
  inl, inr,
}
use aws_cost_exporter.Base.Int.{ℤ, pos, leb_ℤ, ltb_ℤ}
use aws_cost_exporter.Base.Float.{Float64, is_nan, is_inf, float_lt, float_eq}
use aws_cost_exporter.Base.Text.{Text, text_same, is_empty}
use aws_cost_exporter.Base.Dict.{put, All-put}
use aws_cost_exporter.Errors.{ok}
use aws_cost_exporter.Cache.{Store, new, apply_options}
use aws_cost_exporter.Cache.Policy.{Policy, Policies, install, with_organization_policies}
use aws_cost_exporter.Config.Schema.{TargetConfig}
use aws_cost_exporter.Config.Collection.{Config}
use aws_cost_exporter.Config.Patterns.{target_name}
use aws_cost_exporter.Config.Checks.{Check, base_checks, At, All-At, half, one}
use aws_cost_exporter.Config.Credentials.{Environment}
use aws_cost_exporter.Config.Targets.{validate}
use aws_cost_exporter.Config.Rounds.{Accepted}
use aws_cost_exporter.Config.Sound.{validate-parts, base_passed, thresholds_fit, durations}
use aws_cost_exporter.Config.Names.{targets-Loop}
use aws_cost_exporter.Scheduler.Jobs.{Job, refused}
use aws_cost_exporter.App.{organization_policies, policies_onto, runner_config}

-- A policy that the store accepts
abbrev IsPolicy : Text × Policy → Type 0
IsPolicy (target, policy) = (is_empty target || leb_ℤ policy.series_limit (pos 0)) ≡ false

install-IsPolicy :
    (values installed : Policies)
    → All IsPolicy values
    → (after : Policies) × (install values installed ≡ ok after)
unfolding install
install-IsPolicy [] installed h = (installed, refl)
install-IsPolicy ((target, policy) ∷ values) installed h =
    rw h.0 (install-IsPolicy values (put target policy installed) h.1)

named_policy :
    (target : Text) (limit : ℤ)
    → target_name target ≡ true
    → leb_ℤ limit (pos 0) ≡ false
    → (is_empty target || leb_ℤ limit (pos 0)) ≡ false
unfolding target_name
named_policy [] limit h k = cc
named_policy (c ∷ s) limit h k = k

policies_onto-IsPolicy :
    (env : Environment) (value : Config) (ts : List TargetConfig) (made : Policies)
    → leb_ℤ value.collection.organizations.series_limit (pos 0) ≡ false
    → All (Accepted env value) ts
    → All IsPolicy made
    → All IsPolicy (policies_onto value ts made)
unfolding policies_onto
policies_onto-IsPolicy env value [] made h a m = m
policies_onto-IsPolicy env value (t ∷ ts) made h a m =
    let policy : Policy = record {
      account_ids = t.organizations.account_ids;
      series_limit = value.collection.organizations.series_limit;
    } in
    elim (Bool-cases t.organizations.enabled) [
      | inl e ↦ rw e (
          policies_onto-IsPolicy env value ts (put t.name policy made) h a.1 (
            All-put IsPolicy t.name policy made
              (named_policy t.name value.collection.organizations.series_limit a.0.name h) m))
      | inr e ↦ rw e (policies_onto-IsPolicy env value ts made h a.1 m)
    ]

limit_positive :
    (limit : ℤ) (b : Bool) → (leb_ℤ limit (pos 0) || b) ≡ false → leb_ℤ limit (pos 0) ≡ false
limit_positive limit b h = ground (arith, h)

-- With an accepted configuration, the store of the snapshots is made: its thresholds and the
-- organization policies of the targets are all accepted.
pub validate-new :
    (env : Environment) (c : Config)
    → validate env c ≡ ok tt
    → (store : Store) × (new c.cache.freshness_ttl c.cache.stale_after
          (organization_policies c ∷ [])
        ≡ ok store)
unfolding new apply_options with_organization_policies organization_policies base_checks
validate-new env c h =
    let d = durations c (validate-parts env c h).1 in
    let passed = base_passed c (validate-parts env c h).1 in
    let limit = c.collection.organizations.series_limit in
    let positive =
      limit_positive limit (ltb_ℤ (pos 2000) limit)
        (All-At (λ (k : Check). k.invalid ≡ false) 31 (base_checks c) passed) in
    let (policies, installed) =
      install-IsPolicy (policies_onto c c.targets []) []
        (policies_onto-IsPolicy env c c.targets [] positive (targets-Loop env c h).1.accepted tt) in
    rw
      (thresholds_fit c.cache.freshness_ttl c.cache.stale_after c.aws.request_timeout
        c.collection.refresh_interval d.0 d.1 d.2 d.3)
      (rw installed (_, refl))

none_refused :
    (empty : Bool) (j m : Float64) (n k a b : ℤ)
    → empty ≡ false
    → (is_nan j || is_inf j) ≡ false
    → (float_lt j 0 || float_lt half j) ≡ false
    → (leb_ℤ n (pos 0) || ltb_ℤ (pos 100) n) ≡ false
    → (leb_ℤ k (pos 0) || ltb_ℤ (pos 10) k) ≡ false
    → leb_ℤ a (pos 0) ≡ false
    → ltb_ℤ b a ≡ false
    → (is_nan m || is_inf m) ≡ false
    → (float_lt m one || float_eq m one) ≡ false
    → (empty
        || leb_ℤ n (pos 0)
        || float_lt j 0
        || float_lt half j
        || is_nan j
        || is_inf j
        || leb_ℤ k (pos 0)
        || ltb_ℤ (pos 10) k
        || leb_ℤ a (pos 0)
        || ltb_ℤ b a
        || (float_lt m one || float_eq m one)
        || is_nan m
        || is_inf m)
      ≡ false
none_refused empty j m n k a b h1 h2 h3 h4 h5 h6 h7 h8 h9 =
    ground (arith, h1, h2, h3, h4, h5, h6, h7, h8, h9)

-- With an accepted configuration, NewJobs refuses no list of jobs for its settings, unless the list
-- is empty.
pub validate-refused :
    (env : Environment) (c : Config) (jobs : List Job)
    → validate env c ≡ ok tt
    → 0 < length jobs
    → refused jobs (runner_config c) ≡ false
unfolding refused runner_config base_checks
validate-refused env c jobs h some_jobs =
    let passed = base_passed c (validate-parts env c h).1 in
    let check : (i : ℕ) → At (λ (k : Check). k.invalid ≡ false) i (base_checks c) =
      λ i. All-At (λ (k : Check). k.invalid ≡ false) i (base_checks c) passed in
    none_refused (length jobs == 0) c.collection.jitter_ratio
      c.collection.failure_backoff.multiplier c.collection.max_concurrency
      c.collection.failure_backoff.max_attempts c.collection.failure_backoff.initial
      c.collection.failure_backoff.max (ground (arith, some_jobs)) (check 13) (check 14) (check 15)
      (check 16) (check 17) (check 18) (check 19) (check 20)
