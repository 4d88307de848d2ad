-- ===== src/Scheduler/Jobs.antt =====
-- NewJobs of internal/scheduler/runner.go: which jobs a runner accepts. A nil store or clock cannot
-- be written here; a nil collector is `none`.
use aws_cost_exporter.Base.{
  Bool, true, false, ◌||◌, not, List, [], ◌∷◌, map, if◌then◌else◌, ◌=?◌, length, ◌==◌, Option, none,
  some,
}
use aws_cost_exporter.Base.Int.{ℤ, pos, leb_ℤ, ltb_ℤ}
use aws_cost_exporter.Base.Float.{Float64, is_nan, is_inf, float_lt, float_eq}
use aws_cost_exporter.Base.Text.{text_same}
use aws_cost_exporter.Domain.Identity.{TargetId, CollectorId, collector_id_same, is_valid}
use aws_cost_exporter.Errors.{Result, ok, err, ◌>>=◌, ◌>>◌, fail_if, invalid_scheduler_config}
use aws_cost_exporter.Config.Schema.{Duration}
use aws_cost_exporter.Config.Checks.{half, one}

-- `Job`; of the collector, its identity
pub record Job : Type 0 where
  pub collector : Option CollectorId
  pub interval : Duration
  pub startup_refresh : Bool

-- `BackoffConfig`
pub record Backoff : Type 0 where
  pub max_attempts : ℤ
  pub initial : Duration
  pub max : Duration
  pub multiplier : Float64

-- `Config`, without the observer and the logger
pub record RunnerConfig : Type 0 where
  pub interval : Duration
  pub startup_refresh : Bool
  pub jitter_ratio : Float64
  pub max_concurrency : ℤ
  pub backoff : Backoff

-- `Runner`: of the maps of channels, the keys that they have, as lists whose order says nothing: the
-- code looks the channels up by their keys and never ranges over the maps.
pub record Runner : Type 0 where
  pub jobs : List Job
  pub config : RunnerConfig
  pub targets : List TargetId
  pub queues : List CollectorId

-- The condition on the jobs and the configuration as a whole
unfoldable pub refused : List Job → RunnerConfig → Bool
refused jobs config =
    let backoff = config.backoff in
    length jobs == 0
    || leb_ℤ config.max_concurrency (pos 0)
    || float_lt config.jitter_ratio 0
    || float_lt half config.jitter_ratio
    || is_nan config.jitter_ratio
    || is_inf config.jitter_ratio
    || leb_ℤ backoff.max_attempts (pos 0)
    || ltb_ℤ (pos 10) backoff.max_attempts
    || leb_ℤ backoff.initial (pos 0)
    || ltb_ℤ backoff.max backoff.initial
    || (float_lt backoff.multiplier one || float_eq backoff.multiplier one)
    || is_nan backoff.multiplier
    || is_inf backoff.multiplier

unfoldable pub is_known {ℓ} : {A : Type ℓ} → (A → A → Bool) → List A → A → Bool
is_known same [] a = false
is_known same (b ∷ bs) a = if same b a then true else is_known same bs a

-- What the loop of `NewJobs` keeps: `known` has the keys of `queues`.
pub record Known : Type 0 where
  pub ids : List CollectorId
  pub targets : List TargetId

unfoldable pub add_job : CollectorId → Known → Known
add_job id known = record {
  ids = id ∷ known.ids;
  targets =
      if is_known (λ a b. a =? b) known.targets id.target
      then known.targets
      else id.target ∷ known.targets;
}

-- The loop body of `NewJobs`
unfoldable pub know_job : Job → Known → Result Known
unfolding add_job is_known
know_job job known = elim job.collector [
  | none ↦ err invalid_scheduler_config
  | some id ↦ do
    fail_if (leb_ℤ job.interval (pos 0) || not (is_valid id)) invalid_scheduler_config
    fail_if (is_known (λ a b. a =? b) known.ids id) invalid_scheduler_config
    ok (add_job id known)
]

unfoldable pub know_jobs : List Job → Known → Result Known
know_jobs [] known = ok known
know_jobs (job ∷ jobs) known = do next ← know_job job known; know_jobs jobs next

-- `NewJobs`
unfoldable pub new_jobs : List Job → RunnerConfig → Result Runner
new_jobs jobs config = do
  fail_if (refused jobs config) invalid_scheduler_config
  known ← know_jobs jobs (record { ids = []; targets = [] })
  ok (record { jobs = jobs; config = config; targets = known.targets; queues = known.ids })

-- `New`
unfoldable pub new : List (Option CollectorId) → RunnerConfig → Result Runner
new collectors config =
    new_jobs
      (map
        (λ c. record {
          collector = c;
          interval = config.interval;
          startup_refresh = config.startup_refresh;
        })
        collectors)
      config
