-- ===== src/Scheduler/Promise.antt =====
-- What single flight promises, without the goroutines: a job is free, has an accepted refresh, or is
-- refreshing. The two goroutines implement it.
use aws_cost_exporter.Base.{
  ◌≡◌, ◌≢◌, List, [], ◌∷◌, refl, sym, subst, ap, ◌∙◌, Bool, true, false, arith,
}
use aws_cost_exporter.Scheduler.Flight.{
  WorkerPc, idle, busy, gone, Flight, launched, Effect, silent, accepted, skipped, began, completed,
  Step, cancel, startup, tick, skip, claim, send, end, take, finish, quit, Reach, here, next,
}
use aws_cost_exporter.Scheduler.SingleFlight.{Inv, launched-Inv, Reach-Inv}

pub data Promise : Type 0 where
  free pending refreshing : Promise

-- The steps of the promise, by what they mean to the outside: a tick is accepted only from `free` and
-- skipped only when it is not.
pub data Promised : Promise → Promise → Effect → Type 0 where
  stays : (p : Promise) → Promised p p silent
  accepts : Promised free pending accepted
  skips : (p : Promise) → p ≢ free → Promised p p skipped
  begins : Promised pending refreshing began
  completes : Promised refreshing free completed

-- What a state of the goroutines stands for
abbrev pub promise_of : WorkerPc → Bool → Promise
promise_of busy running = refreshing
promise_of _ true = pending
promise_of _ false = free

abbrev pub promise : Flight → Promise
promise s = promise_of s.worker s.running

promise-free : (w : WorkerPc) (b : Bool) → w ≢ busy → b ≡ false → promise_of w b ≡ free
promise-free idle false h e = refl
promise-free gone false h e = refl
promise-free w true h e = cc
promise-free busy false h e = absurd (h refl)

promise-pending : (w : WorkerPc) (b : Bool) → w ≢ busy → b ≡ true → promise_of w b ≡ pending
promise-pending idle true h e = refl
promise-pending gone true h e = refl
promise-pending w false h e = cc
promise-pending busy true h e = absurd (h refl)

running-ne-free : (w : WorkerPc) (b : Bool) → b ≡ true → promise_of w b ≢ free
running-ne-free idle true h e = cc
running-ne-free busy b h e = cc
running-ne-free gone true h e = cc
running-ne-free w false h e = cc

between :
    {a b : Promise} (s t : Flight) (e : Effect)
    → promise s ≡ a
    → promise t ≡ b
    → Promised a b e
    → Promised (promise s) (promise t) e
between s t e p q step = rw (p, q) step

module _ {startup_refresh : Bool} where
  -- Each step of the goroutines that leaves the worker alive is a step of the promise with the same
  -- meaning.
  Step-Promised :
      {s t : Flight} {e : Effect}
      → Step startup_refresh s t e
      → Inv s
      → t.worker ≢ gone
      → Promised (promise s) (promise t) e
  Step-Promised {s} (cancel q) inv alive =
      subst (λ t. Promised (promise s) (promise t) silent) (sym q) (stays (promise s))
  Step-Promised {s} (startup p q) inv alive =
      subst (λ t. Promised (promise s) (promise t) silent) (sym q) (stays (promise s))
  Step-Promised {s} (tick p q) inv alive =
      subst (λ t. Promised (promise s) (promise t) silent) (sym q) (stays (promise s))
  Step-Promised {s} (skip p r q) inv alive =
      subst (λ t. Promised (promise s) (promise t) skipped) (sym q)
        (skips (promise s) (running-ne-free s.worker s.running r))
  Step-Promised {s} {t} (claim p r q) inv alive =
      let same : t.worker ≡ s.worker = ap (λ (u : Flight). u.worker) q in
      let not_busy : s.worker ≢ busy = λ e. ground (arith, inv.counted (λ g. cc), r, e) in
      between s t accepted (promise-free s.worker s.running not_busy r)
        (promise-pending t.worker t.running (λ e. not_busy (sym same ∙ e))
          (ap (λ (u : Flight). u.running) q))
        accepts
  Step-Promised {s} (send p r q) inv alive =
      subst (λ t. Promised (promise s) (promise t) silent) (sym q) (stays (promise s))
  Step-Promised {s} (end p r q) inv alive =
      subst (λ t. Promised (promise s) (promise t) silent) (sym q) (stays (promise s))
  Step-Promised {s} {t} (take n p r q) inv alive =
      let run : s.running ≡ true = ground (arith, inv.counted (λ g. cc), p, r) in
      between s t began (promise-pending s.worker s.running (λ e. cc) run) (ap promise q) begins
  Step-Promised {s} {t} (finish p q) inv alive =
      between s t completed (ap (λ w. promise_of w s.running) p) (ap promise q) completes
  Step-Promised {s} (quit p r q) inv alive = absurd (alive (ap (λ (u : Flight). u.worker) q))

  -- A worker that has returned does not come back.
  alive_before :
      {s t : Flight} {e : Effect} → Step startup_refresh s t e → t.worker ≢ gone → s.worker ≢ gone
  alive_before (cancel q) alive g = alive (ap (λ (u : Flight). u.worker) q ∙ g)
  alive_before (startup p q) alive g = alive (ap (λ (u : Flight). u.worker) q ∙ g)
  alive_before (tick p q) alive g = alive (ap (λ (u : Flight). u.worker) q ∙ g)
  alive_before (skip p r q) alive g = alive (ap (λ (u : Flight). u.worker) q ∙ g)
  alive_before (claim p r q) alive g = alive (ap (λ (u : Flight). u.worker) q ∙ g)
  alive_before (send p r q) alive g = alive (ap (λ (u : Flight). u.worker) q ∙ g)
  alive_before (end p r q) alive g = alive (ap (λ (u : Flight). u.worker) q ∙ g)
  alive_before (take n p r q) alive g = cc
  alive_before (finish p q) alive g = cc
  alive_before (quit p r q) alive g = cc

  -- What happened on the way, the latest first
  abbrev pub events : {s t : Flight} → Reach startup_refresh s t → List Effect
  events here = []
  events (next {e = e} r step) = e ∷ events r

-- The runs of the promise from `free`, by their events, the latest first
pub data Kept : List Effect → Promise → Type 0 where
  none_yet : Kept [] free
  after :
      {es : List Effect} {p q : Promise} {e : Effect} → Kept es p → Promised p q e → Kept (e ∷ es) q

-- Whatever the two goroutines of a job have done, for as long as the worker has not returned, is a
-- run of the promise: a tick was accepted exactly from the free state and skipped otherwise, and each
-- accepted refresh began and completed before the next was accepted.
pub Reach-Kept :
    (startup_refresh : Bool) (s : Flight) (r : Reach startup_refresh launched s)
    → s.worker ≢ gone
    → Kept (events r) (promise s)
Reach-Kept b s here alive = none_yet
Reach-Kept b s (next {t = t} r step) alive =
    after (Reach-Kept b t r (alive_before step alive))
      (Step-Promised step (Reach-Inv launched-Inv r) alive)
