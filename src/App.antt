-- ===== src/App.antt =====
-- internal/app/bootstrap.go: what Run makes of the configuration before it starts anything, and the
-- reader that it gives to the cost collectors. The AWS clients, the metrics exporter and the running of
-- the services are not modelled.
pub mod Startup
pub mod Reader
pub mod TagSeries
mod Examples
mod Readings
use aws_cost_exporter.Base.{
  ℕ, suc, ◌≤◌, ◌<◌, ◌==◌, ◌≡◌, refl, sym, ap, subst, ◌∙◌, Bool, true, false, ◌&&◌, ◌||◌, not, List,
  [], ◌∷◌, ◌++◌, All, All-mono, arith, if◌then◌else◌, length, Bool-cases, inl, inr, ◌⊎◌,
}
use aws_cost_exporter.Base.Int.{ℤ, pos, leb_ℤ, ltb_ℤ}
use aws_cost_exporter.Base.Float.{Float64, is_nan, is_inf, float_lt, float_eq}
use aws_cost_exporter.Base.Text.{Text, text, text_same, is_empty}
use aws_cost_exporter.Base.Dict.{Dict, put, All-put}
use aws_cost_exporter.Domain.Identity.{CollectorId}
use aws_cost_exporter.Errors.{Result, ok, err, ◌>>=◌, ◌>>◌, fail_if, invalid_cache_config}
use aws_cost_exporter.Cache.{Store, new, apply_options}
use aws_cost_exporter.Cache.Policy.{Policy, Policies, install, with_organization_policies}
use aws_cost_exporter.Config.Schema.{TargetConfig}
use aws_cost_exporter.Config.Collection.{Config, CollectorsConfig}
use aws_cost_exporter.Config.Patterns.{target_name}
use aws_cost_exporter.Config.Checks.{Check, base_checks, validate_base, At, All-At, half, one}
use aws_cost_exporter.Config.Credentials.{Environment}
use aws_cost_exporter.Config.Targets.{validate}
use aws_cost_exporter.Config.Rounds.{Accepted}
use aws_cost_exporter.Config.Sound.{validate-parts, base_passed, thresholds_fit, durations}
use aws_cost_exporter.Config.Names.{targets-Loop}
use aws_cost_exporter.Scheduler.Jobs.{Job, RunnerConfig, refused}

-- The loop of `organizationPolicies`, with the map so far
unfoldable pub policies_onto : Config → List TargetConfig → Policies → Policies
policies_onto value [] made = made
policies_onto value (target ∷ targets) made = policies_onto value targets (
    if target.organizations.enabled
    then put target.name
        (record {
          account_ids = target.organizations.account_ids;
          series_limit = value.collection.organizations.series_limit;
        })
        made
    else made)

-- `organizationPolicies`
unfoldable pub organization_policies : Config → Policies
organization_policies value = policies_onto value value.targets []

-- The configuration that `Run` gives to scheduler.NewJobs
unfoldable pub runner_config : Config → RunnerConfig
runner_config value = record {
  interval = pos 0;
  startup_refresh = false;
  jitter_ratio = value.collection.jitter_ratio;
  max_concurrency = value.collection.max_concurrency;
  backoff = record {
    max_attempts = value.collection.failure_backoff.max_attempts;
    initial = value.collection.failure_backoff.initial;
    max = value.collection.failure_backoff.max;
    multiplier = value.collection.failure_backoff.multiplier;
  };
}

abbrev id_if : Bool → Text → Text → List CollectorId
id_if enabled target name = if enabled then record { target = target; name = name } ∷ [] else []

-- The loop body of `configuredCollectorIDs`
unfoldable pub collector_ids : Config → TargetConfig → List CollectorId
collector_ids value target =
    let collectors = value.collection.cost_explorer.collectors in
    (if target.cost_explorer.enabled
      then id_if collectors.total target.name (text "total")
        ++ id_if collectors.service target.name (text "service")
        ++ id_if collectors.region target.name (text "region")
        ++ id_if collectors.account target.name (text "account")
        ++ id_if collectors.forecast target.name (text "forecast")
        ++ id_if target.tags.enabled target.name (text "tags")
      else [])
    ++ id_if target.organizations.enabled target.name (text "organizations")
    ++ id_if target.budgets.enabled target.name (text "budgets")
    ++ id_if target.commitments.enabled target.name (text "commitments")
    ++ id_if target.anomalies.enabled target.name (text "anomalies")
    ++ id_if target.cur.enabled target.name (text "cur")

unfoldable pub collector_ids_of : Config → List TargetConfig → List CollectorId
collector_ids_of value [] = []
collector_ids_of value (target ∷ targets) =
    collector_ids value target ++ collector_ids_of value targets

-- `configuredCollectorIDs`
unfoldable pub configured_collector_ids : Config → List CollectorId
configured_collector_ids value = collector_ids_of value value.targets
