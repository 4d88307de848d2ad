-- ===== src/Scheduler/SingleFlight.antt =====
-- A job has at most one refresh in flight, and a dispatch never waits while its worker lives.
use aws_cost_exporter.Base.{
  ℕ, ◌+◌, ◌≤◌, ◌≡◌, ◌≢◌, refl, sym, subst, Bool, true, arith, if◌then◌else◌,
}
use aws_cost_exporter.Scheduler.Flight.{
  SchedulePc, sending, WorkerPc, busy, gone, Flight, launched, Effect, Step, cancel, startup, tick,
  skip, claim, send, end, take, finish, quit, Reach, here, next,
}

abbrev pub sends : SchedulePc → ℕ
sends sending = 1
sends _ = 0

abbrev pub works : WorkerPc → ℕ
works busy = 1
works _ = 0

-- The refreshes that are about to be queued, queued, or under way
abbrev pub in_flight : Flight → ℕ
in_flight s = sends s.schedule + s.queue + works s.worker

pub record Inv (s : Flight) : Type 0 where
  pub counted : s.worker ≢ gone → in_flight s ≡ (if s.running then 1 else 0)
  pub bounded : s.queue ≤ 1
  pub stopped : s.worker ≡ gone → s.canceled ≡ true

pub launched-Inv : Inv launched
launched-Inv = record { counted = λ _. omega arith; bounded = omega arith; stopped = λ e. cc }

module _ {startup_refresh : Bool} where
  pub Step-Inv : {s t : Flight} {e : Effect} → Step startup_refresh s t e → Inv s → Inv t
  Step-Inv (cancel q) inv = subst Inv (sym q) (record {
    counted = λ alive. ground (arith, inv.counted alive);
    bounded = ground (arith, inv.bounded);
    stopped = λ e. ground (arith, inv.stopped e);
  })
  Step-Inv (startup p q) inv = subst Inv (sym q) (record {
    counted = λ alive. ground (arith, inv.counted alive);
    bounded = ground (arith, inv.bounded);
    stopped = λ e. ground (arith, inv.stopped e);
  })
  Step-Inv (tick p q) inv = subst Inv (sym q) (record {
    counted = λ alive. ground (arith, inv.counted alive);
    bounded = ground (arith, inv.bounded);
    stopped = λ e. ground (arith, inv.stopped e);
  })
  Step-Inv (skip p r q) inv = subst Inv (sym q) (record {
    counted = λ alive. ground (arith, inv.counted alive);
    bounded = ground (arith, inv.bounded);
    stopped = λ e. ground (arith, inv.stopped e);
  })
  Step-Inv (claim p r q) inv = subst Inv (sym q) (record {
    counted = λ alive. ground (arith, inv.counted alive);
    bounded = ground (arith, inv.bounded);
    stopped = λ e. ground (arith, inv.stopped e);
  })
  Step-Inv (send p r q) inv = subst Inv (sym q) (record {
    counted = λ alive. ground (arith, inv.counted alive);
    bounded = ground (arith, inv.bounded);
    stopped = λ e. ground (arith, inv.stopped e);
  })
  Step-Inv (end p r q) inv = subst Inv (sym q) (record {
    counted = λ alive. ground (arith, inv.counted alive);
    bounded = ground (arith, inv.bounded);
    stopped = λ e. ground (arith, inv.stopped e);
  })
  Step-Inv (take n p r q) inv = subst Inv (sym q) (record {
    counted = λ _. ground (arith, inv.counted (λ e. cc));
    bounded = ground (arith, inv.bounded);
    stopped = λ e. cc;
  })
  Step-Inv (finish p q) inv = subst Inv (sym q) (record {
    counted = λ _. ground (arith, inv.counted (λ e. cc));
    bounded = ground (arith, inv.bounded);
    stopped = λ e. cc;
  })
  Step-Inv (quit p r q) inv = subst Inv (sym q) (record {
    counted = λ alive. absurd (alive refl);
    bounded = ground (arith, inv.bounded);
    stopped = λ _. r;
  })

  pub Reach-Inv : {s t : Flight} → Inv s → Reach startup_refresh s t → Inv t
  Reach-Inv inv here = inv
  Reach-Inv inv (next r st) = Step-Inv st (Reach-Inv inv r)

  -- In every reachable state whose worker has not returned, no more than one refresh of the job is
  -- about to be queued, queued or under way, exactly one when the job is marked as running and none
  -- when it is not, and a dispatch at its send finds room in the queue.
  pub Reach-single_flight :
      (s : Flight)
      → Reach startup_refresh launched s
      → s.worker ≢ gone
      → (in_flight s ≡ (if s.running then 1 else 0)) × (s.schedule ≡ sending → s.queue ≡ 0)
  Reach-single_flight s r alive =
      let inv = Reach-Inv launched-Inv r in
      (inv.counted alive, λ p. ground (arith, inv.counted alive, p))
