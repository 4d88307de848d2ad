-- ===== src/Cache/Invariant.antt =====
-- The store over any history of writes.
use mathlib.Core.List.{Perm}
use mathlib.Core.List.Perm
use aws_cost_exporter.Base.{
  ◌≡◌, refl, sym, ap, subst, ◌∙◌, true, false, not, List, [], ◌∷◌, ◌=?◌, All, All-mono, Bool-cases,
  inl, inr, ◌||◌,
}
use aws_cost_exporter.Base.Int.{ℤ, pos, leb_ℤ, ltb_ℤ}
use aws_cost_exporter.Base.Dict.{Dict, find_or, put, All-put, UniqueKeys, put-UniqueKeys}
use aws_cost_exporter.Domain.Identity.{CollectorId, collector_id_same, is_valid}
use aws_cost_exporter.Domain.Period.{Time}
use aws_cost_exporter.Errors.{
  Result, ok, err, fail_if, fail_if-not, bind_ok, ok_injective, invalid_collector,
  invalid_cache_config,
}
use aws_cost_exporter.Base.Sort.{sort_by}
use aws_cost_exporter.Domain.Records.{
  sort_budgets, sort_accounts, sort_commitments, sort_anomalies, sort_tags,
}
use aws_cost_exporter.Snapshot.{Snapshot, no_snapshot, merge, append_parts, new_with_data}
use aws_cost_exporter.Snapshot.Validate.{
  validate_unique, identities_valid, mark_snapshot, mark_costs, mark_forecasts, mark_budgets,
  mark_accounts, mark_tags, mark_commitments, mark_anomalies,
}
use aws_cost_exporter.Snapshot.Owned.{OwnedBy}
use aws_cost_exporter.Cache.Policy.{
  MapOrder, Policies, merge_parts, bound_accounts, chosen_accounts, choose, exceeded,
  with_organization_policies,
}
use aws_cost_exporter.Cache.{
  Store, State, Status, no_status, published_series, published, publish, failed_state,
  record_failure, stored, new, apply_options,
}
use aws_cost_exporter.Cache.Statuses.{series_of, find_or-put, recount-counted, published-ok}

-- Each part belongs to the target of its valid collector, no collector has two parts, the snapshot
-- is what the parts merge to under the policies in some order of them, and each part's status counts what it publishes.
pub record IsSound (store : Store) : Type 0 where
  pub owned : All (λ p. (is_valid p.0 ≡ true) × OwnedBy p.0.target p.1) store.current.parts
  pub keyed : UniqueKeys store.current.parts
  pub built :
      (ranged : Dict CollectorId Snapshot) × Perm ranged store.current.parts
      × (merge_parts store.policies ranged ≡ ok store.current.snapshot)
  pub counted :
      All
        (λ p.
          series_of p.0 store.current.statuses
          ≡ published_series p.0.target p.1 store.current.snapshot)
        store.current.parts

pub data Call : Type 0 where
  publishes : CollectorId → Snapshot → MapOrder → Time → Call
  fails : CollectorId → Time → Call

unfoldable pub step : Store → Call → Store
step store (publishes id partial order now) = (publish store id partial order now).0
step store (fails id now) = (record_failure store id now).0

unfoldable pub run : Store → List Call → Store
run store [] = store
run store (call ∷ calls) = run (step store call) calls

empty-built : (policies : Policies) → merge_parts policies [] ≡ ok no_snapshot
unfolding merge_parts merge append_parts new_with_data sort_by sort_budgets sort_accounts
    sort_commitments sort_anomalies sort_tags validate_unique identities_valid mark_snapshot
    mark_costs mark_forecasts mark_budgets mark_accounts mark_tags mark_commitments mark_anomalies
    bound_accounts chosen_accounts choose exceeded
empty-built [] = refl
empty-built (p ∷ ps) = refl

pub published-IsSound :
    (store : Store) (id : CollectorId) (partial : Snapshot) (order : MapOrder) (now : Time)
    (state : State)
    → IsSound store
    → published store id partial order now ≡ ok state
    → IsSound (record store { current = state })
published-IsSound store id partial order now state s h =
    let (valid, own, built, parts, statuses) = published-ok store id partial order now state h in
    let now_parts = put id partial store.current.parts in
    let kept = All-put _ id partial store.current.parts (valid, own) s.owned in
    let keyed = put-UniqueKeys id partial store.current.parts s.keyed in
    record {
      owned = subst (All _) (sym parts) kept;
      keyed = subst UniqueKeys (sym parts) keyed;
      built = (order.visit now_parts, rw parts (order.same_entries now_parts), built);
      counted = rw (parts, statuses) (recount-counted state.snapshot _ _ keyed);
    }

publish-IsSound :
    (store : Store) (id : CollectorId) (partial : Snapshot) (order : MapOrder) (now : Time)
    → IsSound store
    → IsSound (publish store id partial order now).0
unfolding publish
publish-IsSound store id partial order now s = go (published store id partial order now) refl
  where
    go : (r : Result State) → published store id partial order now ≡ r → IsSound (stored store r).0
    go (ok state) e = published-IsSound store id partial order now state s e
    go (err x) e = s

-- Counts of the parts stay right when a status changes in all but its count.
recounted :
    (id : CollectorId) (status : Status) (statuses : Dict CollectorId Status) (snapshot : Snapshot)
    → status.series ≡ series_of id statuses
    → (parts : Dict CollectorId Snapshot)
    → All (λ p. series_of p.0 statuses ≡ published_series p.0.target p.1 snapshot) parts
    → All
        (λ p. series_of p.0 (put id status statuses) ≡ published_series p.0.target p.1 snapshot)
        parts
recounted id status statuses snapshot h parts c =
    All-mono
      (λ p e. elim (Bool-cases (id =? p.0)) [
        | inl same ↦
            ap (λ (s : Status). s.series) (find_or-put id p.0 status statuses)
            ∙ rw same (
                h ∙ ap (λ i. series_of i statuses) ((collector_id_same.same_iff id p.0).0 same) ∙ e)
        | inr other ↦
            ap (λ (s : Status). s.series) (find_or-put id p.0 status statuses) ∙ rw other e
      ])
      parts c

-- What a failure that is recorded changes: one status, in its last attempt and `up`.
pub failed_state-ok :
    (store : Store) (id : CollectorId) (now : Time) (state : State)
    → failed_state store id now ≡ ok state
    → let status = find_or no_status id store.current.statuses in
      (is_valid id ≡ true)
      × (state ≡ record store.current {
        statuses = put id (record status { last_attempt = now; up = false }) store.current.statuses;
      })
unfolding failed_state
failed_state-ok store id now state h =
    let (_, valid, made) = bind_ok (fail_if (not (is_valid id)) invalid_collector) _ h in
    ((fail_if-not _ _).0 valid, sym (ok_injective made))

record_failure-IsSound :
    (store : Store) (id : CollectorId) (now : Time)
    → IsSound store
    → IsSound (record_failure store id now).0
unfolding record_failure
record_failure-IsSound store id now s = go (failed_state store id now) refl
  where
    go : (r : Result State) → failed_state store id now ≡ r → IsSound (stored store r).0
    go (err x) e = s
    go (ok state) e =
        subst (λ t. IsSound (record store { current = t }))
          (sym (failed_state-ok store id now state e).1)
          (record {
            owned = s.owned;
            keyed = s.keyed;
            built = s.built;
            counted = recounted id _ store.current.statuses _ refl store.current.parts s.counted;
          })

pub step-IsSound : (store : Store) (call : Call) → IsSound store → IsSound (step store call)
unfolding step
step-IsSound store (publishes id partial order now) s = publish-IsSound store id partial order now s
step-IsSound store (fails id now) s = record_failure-IsSound store id now s

pub run-IsSound : (store : Store) (calls : List Call) → IsSound store → IsSound (run store calls)
unfolding run
run-IsSound store [] s = s
run-IsSound store (call ∷ calls) s = run-IsSound (step store call) calls (step-IsSound store call s)

apply_options-current :
    (options : List Policies) (store made : Store)
    → apply_options options store ≡ ok made
    → made.current ≡ store.current
unfolding apply_options
apply_options-current [] store made h = ap (λ (s : Store). s.current) (sym (ok_injective h))
apply_options-current (values ∷ options) store made h =
    let (policies, _, rest) = bind_ok (with_organization_policies values) _ h in
    apply_options-current options _ made rest

new-IsSound :
    (ttl stale_after : ℤ) (options : List Policies) (store : Store)
    → new ttl stale_after options ≡ ok store
    → IsSound store
unfolding new
new-IsSound ttl stale_after options store h =
    let (_, _, rest) =
      bind_ok (fail_if (leb_ℤ ttl (pos 0) || ltb_ℤ stale_after ttl) invalid_cache_config) _ h in
    let start = apply_options-current options _ store rest in
    record {
      owned = rw start tt;
      keyed = rw start tt;
      built = ([], rw start (Perm.refl []), rw start (empty-built store.policies));
      counted = rw start tt;
    }

pub new-run-IsSound :
    (ttl stale_after : ℤ) (options : List Policies) (store : Store) (calls : List Call)
    → new ttl stale_after options ≡ ok store
    → IsSound (run store calls)
new-run-IsSound ttl stale_after options store calls h =
    run-IsSound store calls (new-IsSound ttl stale_after options store h)
