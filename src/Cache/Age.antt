-- ===== src/Cache/Age.antt =====
-- The age categories of internal/ports/snapshot_store.go, and Store.freshness.
use aws_cost_exporter.Base.{ℕ, ◌+◌, ◌<◌, ◌≤◌, ◌↔◌, ◌≡◌, arith, if◌then◌else◌}
use aws_cost_exporter.Base.Int.{ℤ, pos, negsuc, sub_ℕ, leb_ℤ, ltb_ℤ, ◌≤ℤ◌}
use aws_cost_exporter.Domain.Period.{Time, is_zero}

-- `unset` is the empty string of a status that was not loaded.
pub data Freshness : Type 0 where
  unset missing fresh aging stale : Freshness

abbrev pub max_duration : ℕ
max_duration = 0x7fff_ffff_ffff_ffff

-- `Time.Sub`, which stops at the ends of the range of a Duration
unfoldable pub age : Time → Time → ℤ
age now success =
    let d = sub_ℕ now success in
    if ltb_ℤ (pos max_duration) d
    then pos max_duration
    else if ltb_ℤ d (negsuc max_duration)
    then negsuc max_duration
    else d

-- `Store.freshness`
unfoldable pub freshness_at : ℤ → ℤ → Time → Time → Freshness
freshness_at ttl stale_after now success =
    if is_zero success
    then missing
    else if leb_ℤ (age now success) ttl
    then fresh
    else if leb_ℤ (age now success) stale_after
    then aging
    else stale

-- From the newest to the oldest.
abbrev pub rank : Freshness → ℕ
rank unset = 0
rank missing = 0
rank fresh = 1
rank aging = 2
rank stale = 3

age_mono : (now later success : Time) → now ≤ later → age now success ≤ℤ age later success
unfolding age
age_mono now later success h = ground arith

-- As the clock moves on, a status grows older and never fresher, whatever the thresholds, as long
-- as the second is not below the first.
pub freshness_mono :
    (ttl stale_after : ℤ) (now later success : Time)
    → ttl ≤ℤ stale_after
    → now ≤ later
    → rank (freshness_at ttl stale_after now success)
      ≤ rank (freshness_at ttl stale_after later success)
unfolding freshness_at
freshness_mono ttl stale_after now later success h k = ground (arith, age_mono now later success k)

-- With thresholds below the longest duration, a success is fresh up to and including the first
-- threshold, aging up to and including the second, and stale from then on; without a success the
-- status is missing.
pub freshness_bounds :
    (ttl stale_after : ℕ) (now success : Time)
    → ttl ≤ stale_after
    → stale_after < max_duration
    → let f = freshness_at (pos ttl) (pos stale_after) now success in
      ((f ≡ missing) ↔ (success ≡ 0))
      × ((f ≡ fresh) ↔ ((0 < success) × (now ≤ success + ttl)))
      × ((f ≡ aging) ↔ ((0 < success) × (success + ttl < now) × (now ≤ success + stale_after)))
      × ((f ≡ stale) ↔ ((0 < success) × (success + stale_after < now)))
unfolding freshness_at age
freshness_bounds ttl stale_after now success h k = (
  (λ e. ground arith, λ e. ground arith),
  (λ e. ground arith, λ e. ground arith),
  (λ e. ground arith, λ e. ground arith),
  (λ e. ground arith, λ e. ground arith),
)
