-- ===== src/Cache/Outcome.antt =====
-- When a write to the store succeeds, and what it does to the statuses.
use aws_cost_exporter.Base.{
  ◌≡◌, ◌≢◌, ◌↔◌, refl, sym, ap, subst, ◌∙◌, true, false, same_ne, same_refl,
}
use aws_cost_exporter.Base.Dict.{find_or, put}
use aws_cost_exporter.Domain.Identity.{CollectorId, collector_id_same, is_valid}
use aws_cost_exporter.Domain.Period.{Time}
use aws_cost_exporter.Errors.{Result, Error, ok, err, ◌>>=◌, invalid_collector}
use aws_cost_exporter.Snapshot.{Snapshot}
use aws_cost_exporter.Snapshot.Owned.{OwnedBy, validate_partial_iff}
use aws_cost_exporter.Cache.Policy.{MapOrder, merge_parts}
use aws_cost_exporter.Cache.{
  Store, State, Status, no_status, published, publish, failed_state, record_failure, stored,
}
use aws_cost_exporter.Cache.Statuses.{published-ok, SameRun, recount-SameRun, find_or-put}

abbrev pub status_of : Store → CollectorId → Status
status_of store id = find_or no_status id store.current.statuses

-- A call that stores its state succeeded with it; one that does not leaves the store.
stored_ok :
    (store : Store) (r : Result State)
    → (stored store r).1 ≡ ok tt
    → (state : State) × (r ≡ ok state) × ((stored store r).0 ≡ record store { current = state })
stored_ok store (ok state) h = (state, refl, refl)
stored_ok store (err e) h = cc

stored_err :
    (store : Store) (r : Result State) (e : Error)
    → (stored store r).1 ≡ err e
    → (stored store r).0 ≡ store
stored_err store (ok state) e h = cc
stored_err store (err x) e h = refl

abbrev done : Result State → Result (Unit {0})
done r = r >>= λ _. ok tt

published_succeeds :
    (store : Store) (id : CollectorId) (partial : Snapshot) (order : MapOrder) (now : Time)
    (merged : Snapshot)
    → is_valid id ≡ true
    → OwnedBy id.target partial
    → merge_parts store.policies (order.visit (put id partial store.current.parts)) ≡ ok merged
    → done (published store id partial order now) ≡ ok tt
unfolding published
published_succeeds store id partial order now merged valid own built =
    rw valid (rw ((validate_partial_iff partial id.target).1 own) (rw built refl))

stored_same : (store : Store) (r : Result State) → (stored store r).1 ≡ done r
stored_same store (ok state) = refl
stored_same store (err e) = refl

-- Publish succeeds exactly for a valid collector whose partial snapshot is all its target's own and
-- merges with the parts of the other collectors; it then holds that merge as its snapshot, and if it
-- fails the store is as it was.
pub publish-ok_iff :
    (store : Store) (id : CollectorId) (partial : Snapshot) (order : MapOrder) (now : Time)
    → let r = publish store id partial order now in
      ((r.1 ≡ ok tt) ↔ (
        (is_valid id ≡ true)
        × OwnedBy id.target partial
        × (merged : Snapshot) × (merge_parts store.policies
              (order.visit (put id partial store.current.parts))
            ≡ ok merged)))
      × (r.1 ≡ ok tt
          → merge_parts store.policies (order.visit (put id partial store.current.parts))
            ≡ ok r.0.current.snapshot)
      × ((e : Error) → r.1 ≡ err e → r.0 ≡ store)
unfolding publish
publish-ok_iff store id partial order now = (
  (
    λ h.
        let (state, made, _) = stored_ok store (published store id partial order now) h in
        let parts = published-ok store id partial order now state made in
        (parts.0, parts.1, state.snapshot, parts.2),
    λ (valid, own, merged, built).
        stored_same store (published store id partial order now)
        ∙ published_succeeds store id partial order now merged valid own built,
  ),
  λ h.
      let (state, made, after) = stored_ok store (published store id partial order now) h in
      (published-ok store id partial order now state made).2
      ∙ ap (λ (s : Store). ok s.current.snapshot) (sym after),
  stored_err store (published store id partial order now),
)

-- A successful publication marks its collector as up, with the call's time as that of its last
-- attempt and success, and leaves what the status of every other collector says of its runs.
pub publish-statuses :
    (store : Store) (id other : CollectorId) (partial : Snapshot) (order : MapOrder) (now : Time)
    → (publish store id partial order now).1 ≡ ok tt
    → let after = (publish store id partial order now).0 in
      ((status_of after id).last_attempt ≡ now)
      × ((status_of after id).last_success ≡ now)
      × ((status_of after id).up ≡ true)
      × (id ≢ other → SameRun (status_of after other) (status_of store other))
unfolding publish
publish-statuses store id other partial order now h =
    let (state, made, after) = stored_ok store (published store id partial order now) h in
    let statuses = (published-ok store id partial order now state made).4 in
    let fresh = record no_status { last_attempt = now; last_success = now; up = true } in
    let before = put id fresh store.current.statuses in
    let run : (j : CollectorId)
        → SameRun (status_of (record store { current = state }) j) (find_or no_status j before) =
      λ j.
        subst (λ m. SameRun (find_or no_status j m) (find_or no_status j before)) (sym statuses)
          (recount-SameRun state.snapshot j (put id partial store.current.parts) before) in
    let own : find_or no_status id before ≡ fresh =
      find_or-put id id fresh store.current.statuses ∙ rw (same_refl id) refl in
    let other_before : (j : CollectorId) → id ≢ j → find_or no_status j before ≡ status_of store j =
      λ j ne. find_or-put id j fresh store.current.statuses ∙ rw (same_ne id j ne) refl in
    subst
      (λ (s : Store).
        ((status_of s id).last_attempt ≡ now)
        × ((status_of s id).last_success ≡ now)
        × ((status_of s id).up ≡ true)
        × (id ≢ other → SameRun (status_of s other) (status_of store other)))
      (sym after)
      (
        (run id).last_attempt ∙ ap (λ (s : Status). s.last_attempt) own,
        (run id).last_success ∙ ap (λ (s : Status). s.last_success) own,
        (run id).up ∙ ap (λ (s : Status). s.up) own,
        λ ne.
            subst (λ s. SameRun (status_of (record store { current = state }) other) s)
              (other_before other ne) (run other),
      )

-- A failure of a valid collector keeps the snapshot, the parts and the other statuses, and sets
-- only the last attempt and `up` in its own status; that of an invalid collector is refused.
pub record_failure_lem :
    (store : Store) (id : CollectorId) (now : Time)
    → let r = record_failure store id now in
      (is_valid id ≡ false → r ≡ (store, err invalid_collector))
      × (is_valid id ≡ true
          → (r.1 ≡ ok tt)
            × (r.0.current.snapshot ≡ store.current.snapshot)
            × (r.0.current.parts ≡ store.current.parts)
            × (status_of r.0 id ≡ record (status_of store id) { last_attempt = now; up = false })
            × ((other : CollectorId) → id ≢ other → status_of r.0 other ≡ status_of store other))
unfolding record_failure failed_state
record_failure_lem store id now = (
  λ h. rw h refl,
  λ h. rw h (
    refl,
    refl,
    refl,
    find_or-put id id _ store.current.statuses ∙ rw (same_refl id) refl,
    λ other ne. find_or-put id other _ store.current.statuses ∙ rw (same_ne id other ne) refl,
  ),
)
