-- ===== src/Cache.antt =====
-- internal/cache/memory/store.go: the store of the last partial snapshot of each collector. A call
-- takes the store and gives the new one; `now` is what the clock reads in the call. The mutex makes
-- the writes one after the other, and a reader sees one state whole. The order in which a write ranges
-- over the parts when it merges them is an argument too, since Go chooses it anew each time.
pub mod Policy
pub mod Age
pub mod Selection
pub mod Statuses
pub mod Invariant
pub mod Isolation
pub mod Outcome
mod Examples
use aws_cost_exporter.Base.{
  ℕ, ◌+◌, ◌-◌, ◌==◌, Bool, true, false, ◌||◌, not, List, [], ◌∷◌, map, if◌then◌else◌, ◌=?◌, length,
  select,
}
use aws_cost_exporter.Base.Int.{ℤ, pos, leb_ℤ, ltb_ℤ}
use aws_cost_exporter.Base.Text.{Text, text_same}
use aws_cost_exporter.Base.Dict.{Dict, find_or, put}
use aws_cost_exporter.Domain.Identity.{TargetId, CollectorId, collector_id_same, is_valid}
use aws_cost_exporter.Domain.Period.{Time, zero_time}
use aws_cost_exporter.Errors.{
  Result, ok, err, ◌>>=◌, ◌>>◌, fail_if, invalid_cache_config, invalid_collector,
}
use aws_cost_exporter.Snapshot.{Snapshot, no_snapshot, series_count}
use aws_cost_exporter.Snapshot.Validate.{validate_partial}
use Policy.{Policies, with_organization_policies, MapOrder, merge_parts}
use Age.{Freshness, unset, freshness_at}

-- ports.CollectorStatus
pub record Status : Type 0 where
  pub last_attempt : Time
  pub last_success : Time
  pub up : Bool
  pub freshness : Freshness
  pub series : ℕ

-- `CollectorStatus{}`
abbrev pub no_status : Status
no_status = record {
  last_attempt = zero_time;
  last_success = zero_time;
  up = false;
  freshness = unset;
  series = 0;
}

-- the published `state`
pub record State : Type 0 where
  pub snapshot : Snapshot
  pub parts : Dict CollectorId Snapshot
  pub statuses : Dict CollectorId Status

pub record Store : Type 0 where
  pub freshness_ttl : ℤ
  pub stale_after : ℤ
  pub policies : Policies
  pub current : State

-- The options of `New` are the policies given to WithOrganizationPolicies.
unfoldable pub apply_options : List Policies → Store → Result Store
apply_options [] store = ok store
apply_options (values ∷ options) store = do
  policies ← with_organization_policies values
  apply_options options (record store { policies = policies })

-- `New`, whose error hides that of an option
unfoldable pub new : ℤ → ℤ → List Policies → Result Store
new freshness_ttl stale_after options = do
  fail_if (leb_ℤ freshness_ttl (pos 0) || ltb_ℤ stale_after freshness_ttl) invalid_cache_config
  let store : Store = record {
    freshness_ttl = freshness_ttl;
    stale_after = stale_after;
    policies = [];
    current = record { snapshot = no_snapshot; parts = []; statuses = [] };
  }
  apply_options options store

-- `publishedSeries`
unfoldable pub published_series : TargetId → Snapshot → Snapshot → ℕ
published_series target partial merged =
    let series = series_count partial in
    let raw = length partial.accounts in
    if raw == 0
    then series
    else series - raw + length (select (λ a. a.target =? target) merged.accounts)

-- The loop of `Publish` that counts the series of each part anew, and one round of it.
unfoldable pub recount_one :
    Snapshot → CollectorId → Snapshot → Dict CollectorId Status → Dict CollectorId Status
recount_one merged id part statuses =
    let status = find_or no_status id statuses in
    put id (record status { series = published_series id.target part merged }) statuses

unfoldable pub recount :
    Snapshot → Dict CollectorId Snapshot → Dict CollectorId Status → Dict CollectorId Status
recount merged [] statuses = statuses
recount merged ((id, part) ∷ parts) statuses =
    recount merged parts (recount_one merged id part statuses)

-- `Publish`, up to the new state; `order` is that of the range in mergeParts.
unfoldable pub published : Store → CollectorId → Snapshot → MapOrder → Time → Result State
published store id partial order now = do
  fail_if (not (is_valid id)) invalid_collector
  validate_partial partial id.target
  let parts = put id partial store.current.parts
  merged ← merge_parts store.policies (order.visit parts)
  let fresh = record no_status { last_attempt = now; last_success = now; up = true }
  let statuses = put id fresh store.current.statuses
  ok (record { snapshot = merged; parts = parts; statuses = recount merged parts statuses })

abbrev pub stored : Store → Result State → Store × Result (Unit {0})
stored store (ok state) = (record store { current = state }, ok tt)
stored store (err e) = (store, err e)

-- `Publish`
unfoldable pub publish :
    Store → CollectorId → Snapshot → MapOrder → Time → Store × Result (Unit {0})
unfolding published
publish store id partial order now = stored store (published store id partial order now)

-- `RecordFailure`
unfoldable pub failed_state : Store → CollectorId → Time → Result State
failed_state store id now = do
  fail_if (not (is_valid id)) invalid_collector
  let status = find_or no_status id store.current.statuses
  ok (record store.current {
    statuses = put id (record status { last_attempt = now; up = false }) store.current.statuses;
  })

unfoldable pub record_failure : Store → CollectorId → Time → Store × Result (Unit {0})
unfolding failed_state
record_failure store id now = stored store (failed_state store id now)

-- ports.SnapshotView
pub record View : Type 0 where
  pub snapshot : Snapshot
  pub collectors : Dict CollectorId Status

-- `Load`
unfoldable pub load : Store → Time → View
load store now = record {
  snapshot = store.current.snapshot;
  collectors =
      map
        (λ entry.
          let status = entry.1 in
          (
            entry.0,
            record status {
              freshness =
                  freshness_at store.freshness_ttl store.stale_after now status.last_success;
            },
          ))
        store.current.statuses;
}
