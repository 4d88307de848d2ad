-- ===== src/Scheduler/Collect.antt =====
-- One refresh: `collect` of internal/scheduler/runner.go, with the attempts it makes. What the world
-- does in an attempt is an argument: which branch a select takes, what the collector returns, and
-- when the context is canceled. The store is that of Cache.
use aws_cost_exporter.Base.{
  ℕ, zero, suc, ◌+◌, ◌-◌, ◌==◌, Bool, true, false, ◌||◌, not, List, [], ◌∷◌, ◌++◌, if◌then◌else◌,
}
use aws_cost_exporter.Base.Int.{ℤ, pos}
use aws_cost_exporter.Base.Float.{Float64, float_lt, float_eq}
use aws_cost_exporter.Domain.Identity.{CollectorId}
use aws_cost_exporter.Domain.Period.{Time}
use aws_cost_exporter.Errors.{Result, ok, err, Error, ErrorKind, classified, unknown}
use aws_cost_exporter.Snapshot.{Snapshot}
use aws_cost_exporter.Cache.Policy.{MapOrder}
use aws_cost_exporter.Cache.{Store, publish, record_failure}
use aws_cost_exporter.Config.Schema.{Duration}
use aws_cost_exporter.Scheduler.Jobs.{Backoff}

-- The conversions and the product of floats, which the processor computes
pub record Floats : Type 0 where
  pub of_duration : Duration → Float64
  pub product : Float64 → Float64 → Float64
  pub to_duration : Float64 → Duration

-- `nextBackoff`
unfoldable pub next_backoff : Floats → Backoff → Duration → Duration
next_backoff floats backoff delay =
    let next = floats.product (floats.of_duration delay) backoff.multiplier in
    let limit = floats.of_duration backoff.max in
    if float_lt limit next || float_eq limit next then backoff.max else floats.to_duration next

pub record Attempt : Type 0 where
  -- the first two selects: is the token taken, or is the context done?
  pub takes_target : Bool
  pub takes_slot : Bool
  pub collected : Result Snapshot
  pub published_at : Time
  pub order : MapOrder
  -- `ctx.Err() != nil`, for the observer and after it
  pub canceled_for_observer : Bool
  pub canceled : Bool
  pub failed_at : Time
  -- the last select: does the backoff end, or is the context done?
  pub wakes : Bool

-- `errors.As(err, &retryable) && retryable.Retryable()`
abbrev pub can_retry : Error → Bool
can_retry (classified kind retryable) = retryable
can_retry _ = false

-- `logCollectorFailure`
abbrev pub safe_kind : Error → ErrorKind
safe_kind (classified kind retryable) = kind
safe_kind _ = unknown

pub data RefreshStatus : Type 0 where
  success error canceled : RefreshStatus

-- What the observer, the logger and the timer are told
pub data Event : Type 0 where
  refreshed : RefreshStatus → Event
  publish_failed record_failed : Event
  logged : ErrorKind → Bool → Event
  waited : Duration → Event

-- The tokens in the channel of the target and in the semaphore that this refresh holds, the store,
-- the collections so far, and the events.
pub record Refresh : Type 0 where
  pub target_tokens : ℕ
  pub slots : ℕ
  pub store : Store
  pub collections : ℕ
  pub events : List Event

abbrev pub emit : Event → Refresh → Refresh
emit e r = record r { events = r.events ++ e ∷ [] }

-- From the first select to the release of both tokens: is the refresh given up?
unfoldable pub acquire : Attempt → Refresh → Bool × Refresh
acquire a r =
    if not a.takes_target
    then (true, r)
    else let r = record r { target_tokens = r.target_tokens + 1 } in
      if not a.takes_slot
      then (true, record r { target_tokens = r.target_tokens - 1 })
      else let r = record r { slots = r.slots + 1; collections = r.collections + 1 } in
        (false, record r { slots = r.slots - 1; target_tokens = r.target_tokens - 1 })

-- `store.Publish`, if the collection succeeded, and the outcome after it
unfoldable pub publish_collected : CollectorId → Attempt → Refresh → Result (Unit {0}) × Refresh
publish_collected id a r = elim a.collected [
  | err e ↦ (err e, r)
  | ok partial ↦
      let (store, outcome) = publish r.store id partial a.order a.published_at in
      let r = record r { store = store } in
      elim outcome [ ok _ ↦ (ok tt, r) | err e ↦ (err e, emit publish_failed r) ]
]

abbrev pub refresh_status : Result (Unit {0}) → Bool → RefreshStatus
refresh_status (ok _) b = success
refresh_status (err _) true = canceled
refresh_status (err _) false = error

-- `logCollectorFailure` and `store.RecordFailure`
unfoldable pub fail_attempt : CollectorId → Error → Attempt → Refresh → Refresh
fail_attempt id e a r =
    let r = emit (logged (safe_kind e) (can_retry e)) r in
    let (store, recorded) = record_failure r.store id a.failed_at in
    let r = record r { store = store } in elim recorded [ ok _ ↦ r | err _ ↦ emit record_failed r ]

-- What follows an attempt: the refresh is over, or it waits and tries again.
pub data Next : Type 0 where
  over : Next
  again : Next

-- The end of a round whose failure is recorded; `last` is `attempt == MaxAttempts`.
unfoldable pub conclude : Bool → Bool → Duration → Bool → Refresh → Next × Refresh
conclude retry last delay wakes r =
    if not retry || last
    then (over, r)
    else if wakes
    then (again, emit (waited delay) r)
    else (over, emit (waited delay) r)

-- The round from the call of the observer on
unfoldable pub judge :
    CollectorId → Bool → Duration → Attempt → Result (Unit {0}) → Bool → Refresh → Next × Refresh
unfolding fail_attempt conclude
judge id last delay a (ok _) gone r = (over, r)
judge id last delay a (err e) true r = (over, r)
judge id last delay a (err e) false r =
    conclude (can_retry e) last delay a.wakes (fail_attempt id e a r)

-- One round of the loop of `collect`
unfoldable pub attempt_once : CollectorId → Bool → Duration → Attempt → Refresh → Next × Refresh
unfolding acquire publish_collected judge
attempt_once id last delay a r =
    let acquired = acquire a r in
    if acquired.0
    then (over, acquired.1)
    else let (outcome, after) = publish_collected id a acquired.1 in
      judge id last delay a outcome a.canceled
        (emit (refreshed (refresh_status outcome a.canceled_for_observer)) after)

-- The loop of `collect`, on the attempts that are left
unfoldable pub collect_loop :
    Floats → Backoff → CollectorId → (ℕ → Attempt) → ℕ → ℕ → Duration → Refresh → Refresh
collect_loop floats backoff id world number zero delay r = r
collect_loop floats backoff id world number (suc left) delay r =
    let after = attempt_once id (left == 0) delay (world number) r in
    let rest =
      collect_loop floats backoff id world (suc number) left (next_backoff floats backoff delay)
        after.1 in
    elim after.0 [ over ↦ after.1 | again ↦ rest ]

abbrev pub attempts_of : ℤ → ℕ
attempts_of (pos n) = n
attempts_of _ = 0

-- `collect`
unfoldable pub collect : Floats → Backoff → CollectorId → (ℕ → Attempt) → Refresh → Refresh
unfolding collect_loop
collect floats backoff id world r =
    collect_loop floats backoff id world 1 (attempts_of backoff.max_attempts) backoff.initial r
