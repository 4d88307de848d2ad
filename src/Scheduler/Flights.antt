-- ===== src/Scheduler/Flights.antt =====
-- Runs of the two goroutines of a job: a refresh that is accepted and a tick that is skipped, a
-- cancellation during a refresh, and one that leaves a reference in the queue.
use aws_cost_exporter.Base.{◌≡◌, ◌≢◌, refl, true, false, arith, if◌then◌else◌}
use aws_cost_exporter.Scheduler.Flight.{
  sending, waiting, ended, idle, busy, gone, Flight, launched, cancel, startup, tick, skip, claim,
  send, take, quit, Reach, here, next,
}
use aws_cost_exporter.Scheduler.SingleFlight.{in_flight, Reach-single_flight}
use aws_cost_exporter.Scheduler.Promise.{promise, events, Kept, Reach-Kept}
use aws_cost_exporter.Scheduler.Shutdown.{CanEnd, Reach-CanEnd, late_tick_blocks}

abbrev at : Flight
at = record { schedule = waiting; worker = idle; running = true; queue = 1; canceled = false }

-- The startup refresh is queued.
queued : Reach true launched at
queued =
    next (next (next here (startup refl refl)) (claim refl refl refl))
      (send refl (omega arith) refl)

abbrev skipping : Flight
skipping = record { schedule = waiting; worker = busy; running = true; queue = 0; canceled = false }

refreshing_skips : Reach true launched skipping
refreshing_skips =
    next (next (next queued (take 0 refl refl refl)) (tick refl refl)) (skip refl refl refl)

Reach-single_flight_example :
    (in_flight at ≡ (if at.running then 1 else 0)) × (at.schedule ≡ sending → at.queue ≡ 0)
Reach-single_flight_example = Reach-single_flight at queued (λ e. cc)

Reach-Kept_example : Kept (events refreshing_skips) (promise skipping)
Reach-Kept_example = Reach-Kept true skipping refreshing_skips (λ e. cc)

abbrev canceled_busy : Flight
canceled_busy = record skipping { canceled = true }

Reach-CanEnd_example : CanEnd true canceled_busy
Reach-CanEnd_example =
    Reach-CanEnd true canceled_busy (next refreshing_skips (cancel refl)) (λ e. cc) refl

abbrev left_behind : Flight
left_behind = record {
  schedule = waiting;
  worker = gone;
  running = false;
  queue = 1;
  canceled = true;
}

-- The state from which a late tick blocks is reachable.
left_behind_reached : Reach true launched left_behind
left_behind_reached = next (next queued (cancel refl)) (quit refl refl refl)

late_tick_blocks_example :
    (t : Flight) × Reach true left_behind t × ((u : Flight) → Reach true t u → u.schedule ≢ ended)
late_tick_blocks_example = late_tick_blocks left_behind refl refl refl refl
