-- ===== src/Scheduler/Attempts.antt =====
-- What the attempts of a refresh leave behind: tokens, waits, the number of collections, the store.
use aws_cost_exporter.Base.{
  ℕ, zero, suc, ◌+◌, ◌≤◌, ◌==◌, ◌≡◌, refl, sym, subst, inl, inr, Bool, true, false, ◌||◌, [], ◌∷◌,
  All, All-append, arith, Bool-cases,
}
use aws_cost_exporter.Base.Int.{◌≤ℤ◌}
use aws_cost_exporter.Base.Float.{Float64, is_nan, float_lt, float_eq}
use aws_cost_exporter.Domain.Identity.{CollectorId}
use aws_cost_exporter.Errors.{Result, ok, err, Error}
use aws_cost_exporter.Snapshot.{Snapshot}
use aws_cost_exporter.Cache.{Store, publish, record_failure}
use aws_cost_exporter.Cache.Invariant.{IsSound, publishes, fails, step, step-IsSound}
use aws_cost_exporter.Config.Schema.{Duration}
use aws_cost_exporter.Scheduler.Jobs.{Backoff}
use aws_cost_exporter.Scheduler.Collect.{
  Floats, next_backoff, Attempt, can_retry, Event, waited, Refresh, emit, acquire,
  publish_collected, refresh_status, fail_attempt, over, again, attempt_once, collect_loop,
  attempts_of, collect, refreshed, conclude, judge, publish_failed, record_failed, logged,
}

-- No wait is longer than the limit.
abbrev pub Brief : Duration → Event → Type 0
Brief limit (waited d) = d ≤ℤ limit
Brief limit _ = Unit

-- What holds of a refresh between its attempts, after a start with these tokens and collections.
pub record Steady (limit : Duration) (start : Refresh) (done : ℕ) (r : Refresh) : Type 0 where
  pub target_tokens : r.target_tokens ≡ start.target_tokens
  pub slots : r.slots ≡ start.slots
  pub collections : r.collections ≤ start.collections + done
  pub brief : All (Brief limit) r.events
  pub sound : IsSound r.store

module _ (limit : Duration) (start : Refresh) (done : ℕ) where
  emit-Steady :
      (e : Event) (r : Refresh)
      → Brief limit e
      → Steady limit start done r
      → Steady limit start done (emit e r)
  emit-Steady e r b s = record {
    target_tokens = s.target_tokens;
    slots = s.slots;
    collections = s.collections;
    brief = All-append (Brief limit) r.events (e ∷ []) s.brief (b, tt);
    sound = s.sound;
  }

  stored-Steady :
      (store : Store) (r : Refresh)
      → IsSound store
      → Steady limit start done r
      → Steady limit start done (record r { store = store })
  stored-Steady store r i s = record {
    target_tokens = s.target_tokens;
    slots = s.slots;
    collections = s.collections;
    brief = s.brief;
    sound = i;
  }

  publish_collected-Steady :
      (id : CollectorId) (a : Attempt) (r : Refresh)
      → Steady limit start done r
      → Steady limit start done (publish_collected id a r).1
  unfolding publish_collected step
  publish_collected-Steady id a r s = go a.collected
    where
      go :
          (c : Result Snapshot)
          → Steady limit start done (publish_collected id (record a { collected = c }) r).1
      go (err e) = s
      go (ok partial) =
          let kept =
            stored-Steady (publish r.store id partial a.order a.published_at).0 r
              (step-IsSound r.store (publishes id partial a.order a.published_at) s.sound) s in
          told (publish r.store id partial a.order a.published_at).1 kept
        where
          told :
              (o : Result (Unit {0})) {q : Refresh}
              → Steady limit start done q
              → Steady limit start done
                  (elim o as (λ _. Result (Unit {0}) × Refresh) [
                    | ok _ ↦ (ok tt, q)
                    | err e ↦ (err e, emit publish_failed q)
                  ]).1
          told (ok u) {q} k = k
          told (err e) {q} k = emit-Steady publish_failed q tt k

  fail_attempt-Steady :
      (id : CollectorId) (e : Error) (a : Attempt) (r : Refresh)
      → Steady limit start done r
      → Steady limit start done (fail_attempt id e a r)
  unfolding fail_attempt step
  fail_attempt-Steady id e a r s =
      let log = logged _ (can_retry e) in
      let kept =
        stored-Steady (record_failure r.store id a.failed_at).0 (emit log r)
          (step-IsSound r.store (fails id a.failed_at) s.sound) (emit-Steady log r tt s) in
      told (record_failure r.store id a.failed_at).1 kept
    where
      told :
          (o : Result (Unit {0})) {q : Refresh}
          → Steady limit start done q
          → Steady limit start done
              (elim o as (λ _. Refresh) [ ok _ ↦ q | err _ ↦ emit record_failed q ])
      told (ok u) {q} k = k
      told (err e) {q} k = emit-Steady record_failed q tt k

  -- A round that gives up has no collection; another has one, and returns both tokens.
  acquire-Steady :
      (a : Attempt) (r : Refresh)
      → Steady limit start done r
      → Steady limit start (suc done) (acquire a r).1
  unfolding acquire
  acquire-Steady a r s = go a.takes_target a.takes_slot
    where
      go :
          (t u : Bool)
          → Steady limit start
              (suc done)
              (acquire (record a { takes_target = t; takes_slot = u }) r).1
      go false u = record {
        target_tokens = s.target_tokens;
        slots = s.slots;
        collections = omega (arith, s.collections);
        brief = s.brief;
        sound = s.sound;
      }
      go true false = record {
        target_tokens = omega (arith, s.target_tokens);
        slots = s.slots;
        collections = omega (arith, s.collections);
        brief = s.brief;
        sound = s.sound;
      }
      go true true = record {
        target_tokens = omega (arith, s.target_tokens);
        slots = omega (arith, s.slots);
        collections = omega (arith, s.collections);
        brief = s.brief;
        sound = s.sound;
      }

module _ (limit : Duration) (start : Refresh) (done : ℕ) (id : CollectorId) (delay : Duration)
    (brief : delay ≤ℤ limit) where
  conclude-Steady :
      (retry last wakes : Bool) (r : Refresh)
      → Steady limit start done r
      → Steady limit start done (conclude retry last delay wakes r).1
  unfolding conclude
  conclude-Steady false last wakes r s = s
  conclude-Steady true true wakes r s = s
  conclude-Steady true false true r s = emit-Steady limit start done (waited delay) r brief s
  conclude-Steady true false false r s = emit-Steady limit start done (waited delay) r brief s

  judge-Steady :
      (last : Bool) (a : Attempt) (o : Result (Unit {0})) (gone : Bool) (r : Refresh)
      → Steady limit start done r
      → Steady limit start done (judge id last delay a o gone r).1
  unfolding judge
  judge-Steady last a (ok _) gone r s = s
  judge-Steady last a (err e) true r s = s
  judge-Steady last a (err e) false r s =
      conclude-Steady (can_retry e) last a.wakes _ (fail_attempt-Steady limit start done id e a r s)

  attempt_once-Steady :
      (last : Bool) (a : Attempt) (r : Refresh)
      → Steady limit start done (acquire a r).1
      → Steady limit start done (attempt_once id last delay a r).1
  unfolding attempt_once
  attempt_once-Steady last a r s =
      let q = (acquire a r).1 in
      let told = refreshed (refresh_status (publish_collected id a q).0 a.canceled_for_observer) in
      elim (Bool-cases (acquire a r).0) [
        | inl e ↦ rw e s
        | inr e ↦ rw e (
            judge-Steady last a (publish_collected id a q).0 a.canceled _ (
              emit-Steady limit start done told (publish_collected id a q).1 tt
                (publish_collected-Steady limit start done id a q s)))
      ]

-- What the program relies on of the floats: the limit and the products are no NaN, and what is less
-- than the limit is no longer than it as a duration.
pub record IsSensible (floats : Floats) (backoff : Backoff) : Type 0 where
  pub limit : is_nan (floats.of_duration backoff.max) ≡ false
  pub products :
      (d : Duration) → is_nan (floats.product (floats.of_duration d) backoff.multiplier) ≡ false
  pub truncates :
      (f : Float64)
      → float_lt f (floats.of_duration backoff.max) ≡ true
      → floats.to_duration f ≤ℤ backoff.max

less_or_not :
    (f m : Float64)
    → is_nan f ≡ false
    → is_nan m ≡ false
    → (float_lt m f || float_eq m f) ≡ false
    → float_lt f m ≡ true
unfolding float_lt float_eq
less_or_not f m a b h = ground (arith, a, b, h)

pub next_backoff-brief :
    (floats : Floats) (backoff : Backoff) (delay : Duration)
    → IsSensible floats backoff
    → next_backoff floats backoff delay ≤ℤ backoff.max
unfolding next_backoff
next_backoff-brief floats backoff delay s =
    let f = floats.product (floats.of_duration delay) backoff.multiplier in
    let m = floats.of_duration backoff.max in
    elim (Bool-cases (float_lt m f || float_eq m f)) [
      | inl e ↦ rw e (omega arith)
      | inr e ↦ rw e (s.truncates f (less_or_not f m (s.products delay) s.limit e))
    ]

widen :
    (limit : Duration) (start : Refresh) (done total : ℕ) (r : Refresh)
    → done ≤ total
    → Steady limit start done r
    → Steady limit start total r
widen limit start done total r h s = record {
  target_tokens = s.target_tokens;
  slots = s.slots;
  collections = omega (arith, s.collections);
  brief = s.brief;
  sound = s.sound;
}

collect_loop-Steady :
    (floats : Floats) (backoff : Backoff) (id : CollectorId) (world : ℕ → Attempt) (start : Refresh)
    (total done number left : ℕ) (delay : Duration) (r : Refresh)
    → IsSensible floats backoff
    → delay ≤ℤ backoff.max
    → done + left ≤ total
    → Steady backoff.max start done r
    → Steady backoff.max start total (collect_loop floats backoff id world number left delay r)
unfolding collect_loop
collect_loop-Steady floats backoff id world start total done number zero delay r f b h s =
    widen backoff.max start done total r (omega arith) s
collect_loop-Steady floats backoff id world start total done number (suc left) delay r f b h s =
    let a = world number in
    let one =
      attempt_once-Steady backoff.max start (suc done) id delay b (left == 0) a r
        (acquire-Steady backoff.max start done a r s) in
    let after = (attempt_once id (left == 0) delay a r).1 in
    let next = next_backoff floats backoff delay in
    let rest =
      collect_loop-Steady floats backoff id world start total (suc done) (suc number) left next
        after f (next_backoff-brief floats backoff delay f) (omega arith) one in
    elim (attempt_once id (left == 0) delay a r).0
      as (λ n. Steady backoff.max start total (elim n as (λ _. Refresh) [
        | over ↦ after
        | again ↦ collect_loop floats backoff id world (suc number) left next after
      ])) [ over ↦ widen backoff.max start (suc done) total after (omega arith) one | again ↦ rest ]

-- Whatever its attempts meet, a refresh with a sound store that starts without events returns the
-- tokens it takes, calls the collector at most MaxAttempts times, asks for no wait longer than the
-- limit of the backoff, and leaves the store sound: provided that the first wait is no longer than
-- the limit, that the limit and the products are no NaN as floats, and that a float less than the
-- limit is no longer than it as a duration.
pub collect-Steady :
    (floats : Floats) (backoff : Backoff) (id : CollectorId) (world : ℕ → Attempt) (r : Refresh)
    → IsSensible floats backoff
    → backoff.initial ≤ℤ backoff.max
    → r.events ≡ []
    → IsSound r.store
    → Steady backoff.max r (attempts_of backoff.max_attempts) (collect floats backoff id world r)
unfolding collect
collect-Steady floats backoff id world r f b quiet sound =
    let n = attempts_of backoff.max_attempts in
    collect_loop-Steady floats backoff id world r n 0 1 n backoff.initial r f b (omega arith)
      (record {
        target_tokens = refl;
        slots = refl;
        collections = omega arith;
        brief = subst (All (Brief backoff.max)) (sym quiet) tt;
        sound = sound;
      })
