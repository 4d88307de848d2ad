-- ===== src/Scheduler/Flight.antt =====
-- internal/scheduler/runner.go: one job's two goroutines, `schedule` and `worker`, with `dispatch` and
-- `clearRunning` between them. A step is what one goroutine does between two points where the other
-- may see it; a channel receives and sends as Go's do, and a select takes any case that is ready.
use aws_cost_exporter.Base.{ℕ, suc, ◌+◌, ◌<◌, ◌≡◌, Bool, true, false, if◌then◌else◌}

-- Where `schedule` is: before the startup refresh, at the head of dispatch, at the send of dispatch,
-- at its select, or returned.
pub data SchedulePc : Type 0 where
  starting dispatching sending waiting ended : SchedulePc

-- Where `worker` is: at its select, in collect, or returned.
pub data WorkerPc : Type 0 where
  idle busy gone : WorkerPc

-- `running[id]`, the length of `queues[id]`, and whether the context is done
pub record Flight : Type 0 where
  pub schedule : SchedulePc
  pub worker : WorkerPc
  pub running : Bool
  pub queue : ℕ
  pub canceled : Bool

-- As `Run` starts the two
abbrev pub launched : Flight
launched = record {
  schedule = starting;
  worker = idle;
  running = false;
  queue = 0;
  canceled = false;
}

-- What a step means to the outside
pub data Effect : Type 0 where
  silent accepted skipped began completed : Effect

module _ (startup_refresh : Bool) where
  pub data Step (s t : Flight) : Effect → Type 0 where
    -- the context ends
    cancel : t ≡ record s { canceled = true } → Step s t silent
    -- `if job.StartupRefresh`, and the timer
    startup :
        s.schedule ≡ starting
        → t ≡ record s { schedule = if startup_refresh then dispatching else waiting }
        → Step s t silent
    -- `case <-timer.Chan()`
    tick : s.schedule ≡ waiting → t ≡ record s { schedule = dispatching } → Step s t silent
    -- dispatch with `running[id]`
    skip :
        s.schedule ≡ dispatching
        → s.running ≡ true
        → t ≡ record s { schedule = waiting }
        → Step s t skipped
    -- dispatch without it
    claim :
        s.schedule ≡ dispatching
        → s.running ≡ false
        → t ≡ record s { schedule = sending; running = true }
        → Step s t accepted
    -- `runner.queues[id] <- reference`, on a channel of capacity 1
    send :
        s.schedule ≡ sending
        → s.queue < 1
        → t ≡ record s { schedule = waiting; queue = s.queue + 1 }
        → Step s t silent
    -- `case <-ctx.Done()` of schedule
    end :
        s.schedule ≡ waiting
        → s.canceled ≡ true
        → t ≡ record s { schedule = ended }
        → Step s t silent
    -- `case reference := <-runner.queues[id]`
    take :
        (n : ℕ)
        → s.worker ≡ idle
        → s.queue ≡ suc n
        → t ≡ record s { worker = busy; queue = n }
        → Step s t began
    -- collect returns, and `clearRunning`
    finish : s.worker ≡ busy → t ≡ record s { worker = idle; running = false } → Step s t completed
    -- `case <-ctx.Done()` of worker, and the deferred clearRunning
    quit :
        s.worker ≡ idle
        → s.canceled ≡ true
        → t ≡ record s { worker = gone; running = false }
        → Step s t silent

  pub data Reach (s : Flight) : Flight → Type 0 where
    here : Reach s s
    next : {t u : Flight} {e : Effect} → Reach s t → Step t u e → Reach s u
