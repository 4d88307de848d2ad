-- ===== src/Scheduler/Examples.antt =====
-- A runner with two jobs, and a refresh whose first attempt is throttled.
use mathlib.Core.List.{Perm}
use aws_cost_exporter.Base.{
  ℕ, ◌≡◌, refl, true, false, List, [], ◌∷◌, All, arith, some, ◌=?◌, if◌then◌else◌, ◌==◌,
}
use aws_cost_exporter.Base.Int.{pos}
use aws_cost_exporter.Base.Float.{is_nan, is_inf, float_lt, float_eq}
use aws_cost_exporter.Base.Keys.{list_same}
use aws_cost_exporter.Base.Text.{text, text_same, trim_space, is_space}
use aws_cost_exporter.Domain.Identity.{CollectorId, collector_id_same, is_valid, collector_same}
use aws_cost_exporter.Errors.{ok, err, classified, throttle}
use aws_cost_exporter.Snapshot.{no_snapshot}
use aws_cost_exporter.Cache.{Store, new, apply_options}
use aws_cost_exporter.Cache.Invariant.{IsSound, run, new-run-IsSound}
use aws_cost_exporter.Config.Defaults.{two, tenth, minutes}
use aws_cost_exporter.Scheduler.Jobs.{
  Job, Backoff, RunnerConfig, Runner, refused, is_known, add_job, know_job, know_jobs, new_jobs,
}
use aws_cost_exporter.Scheduler.Accepted.{IsJob, ids_of, Unique, new_jobs-ok}
use aws_cost_exporter.Scheduler.Collect.{Floats, Attempt, Refresh, collect, attempts_of}
use aws_cost_exporter.Scheduler.Attempts.{IsSensible, Steady, collect-Steady}
use aws_cost_exporter.Samples.{in_order, prod, dev, collector, one, noon, prod_costs}

abbrev job : CollectorId → Job
job id = record { collector = some id; interval = minutes 60; startup_refresh = true }

abbrev jobs : List Job
jobs = job (collector prod (text "total")) ∷ job (collector dev (text "total")) ∷ []

abbrev backoff : Backoff
backoff = record { max_attempts = pos 3; initial = minutes 1; max = minutes 30; multiplier = two }

abbrev settings : RunnerConfig
settings = record {
  interval = pos 0;
  startup_refresh = false;
  jitter_ratio = tenth;
  max_concurrency = pos 4;
  backoff = backoff;
}

abbrev runner : Runner
runner = record {
  jobs = jobs;
  config = settings;
  targets = dev ∷ prod ∷ [];
  queues = collector dev (text "total") ∷ collector prod (text "total") ∷ [];
}

runner_made : new_jobs jobs settings ≡ ok runner
unfolding new_jobs know_jobs know_job add_job is_known refused is_valid collector_same trim_space
    is_space is_nan is_inf float_lt float_eq list_same
runner_made = refl

new_jobs-ok_example :
    All IsJob jobs
    × Perm runner.queues (ids_of jobs)
    × Unique runner.queues
    × Unique runner.targets
    × All (λ id. is_known (λ a b. a =? b) runner.targets id.target ≡ true) runner.queues
new_jobs-ok_example = new_jobs-ok jobs settings runner runner_made

-- Floats that are 1.0 up to a minute and 2.0 from then on
abbrev coarse : Floats
coarse = record { of_duration = λ d. two; product = λ a b. one; to_duration = λ f. pos 0 }

coarse-IsSensible : IsSensible coarse backoff
unfolding is_nan
coarse-IsSensible = record { limit = refl; products = λ d. refl; truncates = λ f h. omega arith }

abbrev throttled : Attempt
throttled = record {
  takes_target = true;
  takes_slot = true;
  collected = err (classified throttle true);
  published_at = noon;
  order = in_order;
  canceled_for_observer = false;
  canceled = false;
  failed_at = noon;
  wakes = true;
}

abbrev world : ℕ → Attempt
world n = if n == 1 then throttled else record throttled { collected = ok prod_costs }

abbrev empty_store : Store
empty_store = record {
  freshness_ttl = pos 10;
  stale_after = pos 20;
  policies = [];
  current = record { snapshot = no_snapshot; parts = []; statuses = [] };
}

store_made : new (pos 10) (pos 20) [] ≡ ok empty_store
unfolding new apply_options
store_made = refl

store-IsSound : IsSound empty_store
unfolding run
store-IsSound = new-run-IsSound (pos 10) (pos 20) [] empty_store [] store_made

abbrev idle : Refresh
idle = record { target_tokens = 0; slots = 0; store = empty_store; collections = 0; events = [] }

collect-Steady_example :
    Steady
      (minutes 30)
      idle
      (attempts_of (pos 3))
      (collect coarse backoff (collector prod (text "total")) world idle)
collect-Steady_example =
    collect-Steady coarse backoff (collector prod (text "total")) world idle coarse-IsSensible
      (omega arith) refl store-IsSound
