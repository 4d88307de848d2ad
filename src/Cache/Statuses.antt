-- ===== src/Cache/Statuses.antt =====
-- What Publish does to the statuses, and what a successful call of it consists of.
use aws_cost_exporter.Base.{
  ℕ, ◌≡◌, refl, sym, ap, subst, ◌∙◌, true, false, not, [], ◌∷◌, arith, same_refl, if◌then◌else◌,
  ◌=?◌, All, Bool-cases, inl, inr,
}
use aws_cost_exporter.Base.Dict.{Dict, find, find_or, put, find-put, UniqueKeys}
use aws_cost_exporter.Domain.Identity.{CollectorId, collector_id_same, is_valid}
use aws_cost_exporter.Domain.Period.{Time}
use aws_cost_exporter.Errors.{ok, fail_if, fail_if-not, bind_ok, ok_injective, invalid_collector}
use aws_cost_exporter.Snapshot.{Snapshot}
use aws_cost_exporter.Snapshot.Validate.{validate_partial}
use aws_cost_exporter.Snapshot.Owned.{OwnedBy, validate_partial_iff}
use aws_cost_exporter.Cache.Policy.{MapOrder, merge_parts}
use aws_cost_exporter.Cache.{
  Store, State, Status, no_status, recount_one, recount, published_series, published,
}
use mathlib.Core.Option
use mathlib.Core.Option.{Option, none, some}

abbrev pub series_of : CollectorId → Dict CollectorId Status → ℕ
series_of id statuses = (find_or no_status id statuses).series

pub find_or-put :
    (k j : CollectorId) (v : Status) (m : Dict CollectorId Status)
    → find_or no_status j (put k v m) ≡ (if k =? j then v else find_or no_status j m)
unfolding find_or
find_or-put k j v m =
    rw (find-put k j v m)
      (elim (k =? j)
        as (λ b.
          Option.get_or (if b then some v else find j m) no_status
          ≡ (if b then v else Option.get_or (find j m) no_status)) [ true ↦ refl | false ↦ refl ])

-- Two statuses that agree but for their count of series.
pub record SameRun (s t : Status) : Type 0 where
  pub last_attempt : s.last_attempt ≡ t.last_attempt
  pub last_success : s.last_success ≡ t.last_success
  pub up : s.up ≡ t.up
  pub freshness : s.freshness ≡ t.freshness

pub SameRun-trans : (s t u : Status) → SameRun s t → SameRun t u → SameRun s u
SameRun-trans s t u p q = record {
  last_attempt = p.last_attempt ∙ q.last_attempt;
  last_success = p.last_success ∙ q.last_success;
  up = p.up ∙ q.up;
  freshness = p.freshness ∙ q.freshness;
}

pub SameRun-refl : (s : Status) → SameRun s s
SameRun-refl s = record { last_attempt = refl; last_success = refl; up = refl; freshness = refl }

module _ (merged : Snapshot) where
  module _ (j : CollectorId) (part : Snapshot) (statuses : Dict CollectorId Status) where
    recount_one_at :
        find_or no_status j (recount_one merged j part statuses)
        ≡ record (find_or no_status j statuses) { series = published_series j.target part merged }
    unfolding recount_one
    recount_one_at = find_or-put j j _ statuses ∙ rw (same_refl j) refl

    recount_one_other :
        (id : CollectorId)
        → (j =? id) ≡ false
        → find_or no_status id (recount_one merged j part statuses) ≡ find_or no_status id statuses
    unfolding recount_one
    recount_one_other id e = rw (find_or-put j id _ statuses) (rw e refl)

    recount_one-SameRun :
        (id : CollectorId)
        → SameRun
            (find_or no_status id (recount_one merged j part statuses))
            (find_or no_status id statuses)
    recount_one-SameRun id = elim (Bool-cases (j =? id)) [
      | inl e ↦
          subst
            (λ i.
              SameRun (find_or no_status i (recount_one merged j part statuses))
                (find_or no_status i statuses))
            ((collector_id_same.same_iff j id).0 e)
            (rw recount_one_at
              (record { last_attempt = refl; last_success = refl; up = refl; freshness = refl }))
      | inr e ↦ rw (recount_one_other id e) (SameRun-refl _)
    ]

  -- Counting anew touches no status but those of the parts.
  pub recount_absent :
      (id : CollectorId) (parts : Dict CollectorId Snapshot) (statuses : Dict CollectorId Status)
      → find id parts ≡ none
      → find_or no_status id (recount merged parts statuses) ≡ find_or no_status id statuses
  unfolding recount find
  recount_absent id [] statuses h = refl
  recount_absent id ((j, part) ∷ parts) statuses h = elim (Bool-cases (j =? id)) [
    | inl e ↦ cc (e, h)
    | inr e ↦
        recount_absent id parts _ (ground (arith, e, h)) ∙ recount_one_other j part statuses id e
  ]

  pub recount-counted :
      (parts : Dict CollectorId Snapshot) (statuses : Dict CollectorId Status)
      → UniqueKeys parts
      → All
          (λ p.
            series_of p.0 (recount merged parts statuses) ≡ published_series p.0.target p.1 merged)
          parts
  unfolding recount
  recount-counted [] statuses u = tt
  recount-counted ((j, part) ∷ parts) statuses u = (
    ap (λ (s : Status). s.series) (recount_absent j parts _ u.0)
        ∙ ap (λ (s : Status). s.series) (recount_one_at j part statuses),
    recount-counted parts _ u.1,
  )

  -- What a status says of the last attempt and success is not touched.
  pub recount-SameRun :
      (id : CollectorId) (parts : Dict CollectorId Snapshot) (statuses : Dict CollectorId Status)
      → SameRun
          (find_or no_status id (recount merged parts statuses))
          (find_or no_status id statuses)
  unfolding recount
  recount-SameRun id [] statuses = SameRun-refl _
  recount-SameRun id ((j, part) ∷ parts) statuses =
      SameRun-trans _ _ _ (recount-SameRun id parts (recount_one merged j part statuses))
        (recount_one-SameRun j part statuses id)

-- The parts of a successful publication, and what the call checked.
pub published-ok :
    (store : Store) (id : CollectorId) (partial : Snapshot) (order : MapOrder) (now : Time)
    (state : State)
    → published store id partial order now ≡ ok state
    → let parts = put id partial store.current.parts in
      let fresh = record no_status { last_attempt = now; last_success = now; up = true } in
      (is_valid id ≡ true)
      × OwnedBy id.target partial
      × (merge_parts store.policies (order.visit parts) ≡ ok state.snapshot)
      × (state.parts ≡ parts)
      × (state.statuses ≡ recount state.snapshot parts (put id fresh store.current.statuses))
unfolding published
published-ok store id partial order now state h =
    let parts = put id partial store.current.parts in
    let (_, valid, h1) = bind_ok (fail_if (not (is_valid id)) invalid_collector) _ h in
    let (_, own, h2) = bind_ok (validate_partial partial id.target) _ h1 in
    let (merged, built, made) = bind_ok (merge_parts store.policies (order.visit parts)) _ h2 in
    let snapshot = ap (λ (s : State). s.snapshot) (ok_injective made) in
    (
      (fail_if-not _ _).0 valid,
      (validate_partial_iff partial id.target).0 own,
      built ∙ ap ok snapshot,
      sym (ap (λ (s : State). s.parts) (ok_injective made)),
      sym (ap (λ (s : State). s.statuses) (ok_injective made))
          ∙ ap
              (λ m. recount m parts (
                put id (record no_status { last_attempt = now; last_success = now; up = true })
                  store.current.statuses))
              snapshot,
    )
