-- ===== src/Scheduler/Shutdown.antt =====
-- How the two goroutines of a job end once the context is done, and how they may fail to.
use aws_cost_exporter.Base.{
  ◌+◌, ◌≡◌, ◌≢◌, refl, sym, subst, Bool, true, false, arith, if◌then◌else◌,
}
use aws_cost_exporter.Scheduler.Flight.{
  SchedulePc, starting, dispatching, sending, waiting, ended, WorkerPc, idle, busy, gone, Flight,
  launched, Effect, Step, cancel, startup, tick, skip, claim, send, end, take, finish, quit, Reach,
  here, next,
}
use aws_cost_exporter.Scheduler.SingleFlight.{Inv, launched-Inv, Reach-Inv}

-- A dispatch waits to send to a full queue that no worker will empty.
pub record IsBlocked (s : Flight) : Type 0 where
  pub at_send : s.schedule ≡ sending
  pub full : s.queue ≡ 1
  pub alone : s.worker ≡ gone

module _ {startup_refresh : Bool} where
  join :
      {s t u : Flight}
      → Reach startup_refresh s t
      → Reach startup_refresh t u
      → Reach startup_refresh s u
  join r here = r
  join r (next q step) = next (join r q) step

  abbrev one : {s t : Flight} {e : Effect} → Step startup_refresh s t e → Reach startup_refresh s t
  one step = next here step

  -- A blocked dispatch stays blocked.
  Step-IsBlocked :
      {s t : Flight} {e : Effect} → Step startup_refresh s t e → IsBlocked s → IsBlocked t
  Step-IsBlocked (cancel q) b =
      subst IsBlocked (sym q) (record { at_send = b.at_send; full = b.full; alone = b.alone })
  Step-IsBlocked (startup p q) b = cc (p, b.at_send)
  Step-IsBlocked (tick p q) b = cc (p, b.at_send)
  Step-IsBlocked (skip p r q) b = cc (p, b.at_send)
  Step-IsBlocked (claim p r q) b = cc (p, b.at_send)
  Step-IsBlocked (send p r q) b = absurd (omega (arith, r, b.full))
  Step-IsBlocked (end p r q) b = cc (p, b.at_send)
  Step-IsBlocked (take n p r q) b = cc (p, b.alone)
  Step-IsBlocked (finish p q) b = cc (p, b.alone)
  Step-IsBlocked (quit p r q) b = cc (p, b.alone)

  Reach-IsBlocked : {s t : Flight} → Reach startup_refresh s t → IsBlocked s → IsBlocked t
  Reach-IsBlocked here b = b
  Reach-IsBlocked (next r step) b = Step-IsBlocked step (Reach-IsBlocked r b)

  -- If the worker returns while a reference is in its queue, and the timer is the case that the
  -- select of schedule takes next, the dispatch blocks: the state it leads to never ends.
  pub late_tick_blocks :
      (s : Flight)
      → s.worker ≡ gone
      → s.running ≡ false
      → s.queue ≡ 1
      → s.schedule ≡ waiting
      → (t : Flight) × Reach startup_refresh s t
        × ((u : Flight) → Reach startup_refresh t u → u.schedule ≢ ended)
  late_tick_blocks s w r q p =
      let claimed : Flight = record s { schedule = sending; running = true } in
      (
        claimed,
        next (one (tick p refl)) (claim refl r refl),
        λ u reach e.
            let blocked = Reach-IsBlocked reach (record { at_send = refl; full = q; alone = w }) in
            cc (blocked.at_send, e),
      )

-- A state from which both goroutines can return
abbrev pub CanEnd : Bool → Flight → Type 0
CanEnd startup_refresh s =
    (t : Flight) × Reach startup_refresh s t × (t.schedule ≡ ended) × (t.worker ≡ gone)

module _ (startup_refresh : Bool) where
  earlier :
      {s t : Flight}
      → Reach startup_refresh s t
      → CanEnd startup_refresh t
      → CanEnd startup_refresh s
  earlier r (u, q, e, g) = (u, join r q, e, g)

  from_ended :
      (s : Flight) (w : WorkerPc)
      → s.worker ≡ w
      → s.schedule ≡ ended
      → s.canceled ≡ true
      → CanEnd startup_refresh s
  from_ended s gone w p c = (s, here, p, w)
  from_ended s idle w p c =
      (record s { worker = gone; running = false }, one (quit w c refl), p, refl)
  from_ended s busy w p c = (
    record s { worker = gone; running = false },
    next (one (finish w refl)) (quit refl c refl),
    p,
    refl,
  )

  from_waiting : (s : Flight) → s.schedule ≡ waiting → s.canceled ≡ true → CanEnd startup_refresh s
  from_waiting s p c =
      let stopped : Flight = record s { schedule = ended } in
      earlier (one (end p c refl)) (from_ended stopped s.worker refl refl c)

  from_sending :
      (s : Flight)
      → s.schedule ≡ sending
      → s.queue ≡ 0
      → s.canceled ≡ true
      → CanEnd startup_refresh s
  from_sending s p q c =
      let sent : Flight = record s { schedule = waiting; queue = s.queue + 1 } in
      earlier (one (send p (omega (arith, q)) refl)) (from_waiting sent refl c)

  from_dispatching :
      (s : Flight) (b : Bool)
      → s.running ≡ b
      → s.schedule ≡ dispatching
      → (s.running ≡ false → s.queue ≡ 0)
      → s.canceled ≡ true
      → CanEnd startup_refresh s
  from_dispatching s true r p q c =
      let skipping : Flight = record s { schedule = waiting } in
      earlier (one (skip p r refl)) (from_waiting skipping refl c)
  from_dispatching s false r p q c =
      let claimed : Flight = record s { schedule = sending; running = true } in
      earlier (one (claim p r refl)) (from_sending claimed refl (q r) c)

  from_starting :
      (b : Bool) (s : Flight)
      → startup_refresh ≡ b
      → s.schedule ≡ starting
      → (s.running ≡ false → s.queue ≡ 0)
      → s.canceled ≡ true
      → CanEnd startup_refresh s
  from_starting b s e p q c =
      let started : Flight = record s {
        schedule = if startup_refresh then dispatching else waiting;
      } in
      earlier (one (startup p refl)) (from_started b e)
    where
      from_started :
          (b : Bool)
          → startup_refresh ≡ b
          → CanEnd startup_refresh
              (record s { schedule = if startup_refresh then dispatching else waiting })
      from_started true e =
          from_dispatching
            (record s { schedule = if startup_refresh then dispatching else waiting }) s.running
            refl (rw e refl) q c
      from_started false e =
          from_waiting (record s { schedule = if startup_refresh then dispatching else waiting })
            (rw e refl) c

  from_any :
      (s : Flight) (pc : SchedulePc)
      → s.schedule ≡ pc
      → Inv s
      → s.worker ≢ gone
      → s.canceled ≡ true
      → CanEnd startup_refresh s
  from_any s starting p inv alive c =
      from_starting startup_refresh s refl p (λ r. ground (arith, inv.counted alive, r)) c
  from_any s dispatching p inv alive c =
      from_dispatching s s.running refl p (λ r. ground (arith, inv.counted alive, r)) c
  from_any s sending p inv alive c = from_sending s p (ground (arith, inv.counted alive, p)) c
  from_any s waiting p inv alive c = from_waiting s p c
  from_any s ended p inv alive c = from_ended s s.worker refl p c

  -- From every reachable state in which the context is done and the worker has not returned, the two
  -- goroutines have a way to return both.
  pub Reach-CanEnd :
      (s : Flight)
      → Reach startup_refresh launched s
      → s.worker ≢ gone
      → s.canceled ≡ true
      → CanEnd startup_refresh s
  Reach-CanEnd s r alive c = from_any s s.schedule refl (Reach-Inv launched-Inv r) alive c
