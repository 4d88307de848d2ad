-- ===== src/Cache/Isolation.antt =====
-- What a write to the store leaves alone: the records of other targets, the last snapshot on a
-- failure, and the other statuses.
use mathlib.Core.List.{Perm}
use mathlib.Core.List.Perm
use aws_cost_exporter.Base.{
  ◌≡◌, ◌≢◌, refl, sym, ap, subst, ◌∙◌, Bool, true, false, List, [], ◌∷◌, map, if◌then◌else◌, ◌=?◌,
  same_ne, select, All, All-mono, Bool-cases, inl, inr,
}
use aws_cost_exporter.Base.Text.{text_same}
use aws_cost_exporter.Base.Dict.{Dict, put}
use aws_cost_exporter.Domain.Identity.{TargetId, CollectorId, collector_id_same, is_valid}
use aws_cost_exporter.Domain.Period.{Time}
use aws_cost_exporter.Errors.{Result, ok, err, ok_injective, bind_ok}
use aws_cost_exporter.Snapshot.{Snapshot, merge}
use aws_cost_exporter.Snapshot.Validate.{validate_unique}
use aws_cost_exporter.Snapshot.Owned.{OwnedBy}
use aws_cost_exporter.Snapshot.Isolated.{parts_of, values, merge-parts_of}
use aws_cost_exporter.Snapshot.Bags.{select-perm, merge-bags}
use aws_cost_exporter.Snapshot.Deterministic.{merge-perm}
use aws_cost_exporter.Snapshot.Stable.{SameButAccounts}
use aws_cost_exporter.Cache.Policy.{MapOrder, Policies, merge_parts, bound_accounts}
use aws_cost_exporter.Cache.Selection.{merge_parts-accounts}
use aws_cost_exporter.Cache.{Store, State, published, publish, failed_state, record_failure, stored}
use aws_cost_exporter.Cache.Statuses.{published-ok}
use aws_cost_exporter.Cache.Invariant.{
  IsSound, Call, publishes, fails, step, failed_state-ok, published-IsSound,
}

unit_ok : (r : Result (Unit {0})) {u : Unit {0}} → r ≡ ok u → r ≡ ok tt
unit_ok r h = h

merge_parts-SameButAccounts :
    (policies : Policies) (parts : Dict CollectorId Snapshot) (s : Snapshot)
    → merge_parts policies parts ≡ ok s
    → SameButAccounts s (merge (map (λ part. part.1) parts))
unfolding merge_parts bound_accounts
merge_parts-SameButAccounts [] parts s h =
    let merged = merge (map (λ part. part.1) parts) in
    let (_, _, made) = bind_ok (validate_unique merged) _ h in
    subst (λ u. SameButAccounts u merged) (ok_injective made)
      (record {
        costs = refl;
        forecasts = refl;
        budgets = refl;
        commitments = refl;
        anomalies = refl;
        tag_costs = refl;
      })
merge_parts-SameButAccounts (p ∷ ps) parts s h = (merge_parts-accounts p ps parts s h).2

abbrev target_of : CollectorId → TargetId
target_of id = id.target

-- The two snapshots have the same records of a target, accounts aside, in the same order but for the
-- budgets and the commitments.
pub record SameFor (t : TargetId) (s u : Snapshot) : Type 0 where
  pub costs : select (λ r. r.target =? t) s.costs ≡ select (λ r. r.target =? t) u.costs
  pub forecasts : select (λ r. r.target =? t) s.forecasts ≡ select (λ r. r.target =? t) u.forecasts
  pub budgets : Perm (select (λ r. r.target =? t) s.budgets) (select (λ r. r.target =? t) u.budgets)
  pub commitments :
      Perm (select (λ r. r.target =? t) s.commitments) (select (λ r. r.target =? t) u.commitments)
  pub anomalies : select (λ r. r.target =? t) s.anomalies ≡ select (λ r. r.target =? t) u.anomalies
  pub tag_costs : select (λ r. r.target =? t) s.tag_costs ≡ select (λ r. r.target =? t) u.tag_costs

parts_of-put :
    (t : TargetId) (id : CollectorId) (partial : Snapshot) (parts : Dict CollectorId Snapshot)
    → id.target ≢ t
    → parts_of target_of t (put id partial parts) ≡ parts_of target_of t parts
unfolding put
parts_of-put t id partial [] h = rw (same_ne id.target t h) refl
parts_of-put t id partial ((j, part) ∷ parts) h = elim (Bool-cases (j =? id)) [
  | inl e ↦ rw e (
      rw (same_ne id.target t h) (
        rw
          (subst (λ i. (i.target =? t) ≡ false) (sym ((collector_id_same.same_iff j id).0 e))
            (same_ne id.target t h))
          refl))
  | inr e ↦
      rw e
        (ap (λ l. if j.target =? t then (j, part) ∷ l else l) (parts_of-put t id partial parts h))
]

pick_chain :
    {A : Type 0} {xs ys xs' ys' l m : List A} (p : A → Bool)
    → xs ≡ xs'
    → select p xs' ≡ l
    → l ≡ m
    → select p ys' ≡ m
    → ys ≡ ys'
    → select p xs ≡ select p ys
pick_chain p e f g h k = ap (select p) e ∙ f ∙ g ∙ sym h ∙ ap (select p) (sym k)

bag_chain :
    {A : Type 0} {xs ys xs' ys' us vs l m : List A} (p : A → Bool)
    → xs ≡ us
    → Perm us xs'
    → select p xs' ≡ l
    → l ≡ m
    → select p ys' ≡ m
    → Perm vs ys'
    → ys ≡ vs
    → Perm (select p xs) (select p ys)
bag_chain {ys = ys} {us = us} {vs = vs} p e v f g h w k =
    let left = subst (λ l. Perm (select p us) l) (f ∙ g ∙ sym h) (select-perm p v) in
    subst (λ l. Perm (select p l) (select p ys)) (sym e)
      (subst (λ l. Perm (select p us) (select p l)) (sym k)
        (Perm.trans left (Perm.symm (select-perm p w))))

-- A merge that succeeded, over the same parts in another order
module _ (policies : Policies) (ranged parts : Dict CollectorId Snapshot) (s : Snapshot)
    (order : Perm ranged parts) (made : merge_parts policies ranged ≡ ok s) where
  fixed :
      let u = merge (map (λ part. part.1) parts) in
      (s.costs ≡ u.costs)
      × (s.forecasts ≡ u.forecasts)
      × (s.tag_costs ≡ u.tag_costs)
      × (s.anomalies ≡ u.anomalies)
  unfolding merge_parts
  fixed =
      let same = merge_parts-SameButAccounts policies ranged s made in
      let (_, unique, _) = bind_ok (validate_unique (merge (map (λ part. part.1) ranged))) _ made in
      let moved = merge-perm _ _ (Perm.map (λ part. part.1) order) (unit_ok _ unique) in
      (
        same.costs ∙ moved.0,
        same.forecasts ∙ moved.1,
        same.tag_costs ∙ moved.2,
        same.anomalies ∙ moved.3,
      )

-- Two sound merges whose parts of a target agree have the same records of that target, whatever the
-- orders of the two.
same_parts :
    (t : TargetId) (policies : Policies) (xs ys ranged_xs ranged_ys : Dict CollectorId Snapshot)
    (s u : Snapshot)
    → All (λ p. OwnedBy p.0.target p.1) xs
    → All (λ p. OwnedBy p.0.target p.1) ys
    → Perm ranged_xs xs
    → Perm ranged_ys ys
    → merge_parts policies ranged_xs ≡ ok s
    → merge_parts policies ranged_ys ≡ ok u
    → parts_of target_of t xs ≡ parts_of target_of t ys
    → SameFor t s u
same_parts t policies xs ys ranged_xs ranged_ys s u ox oy vx vy hs hu e =
    let a = fixed policies ranged_xs xs s vx hs in
    let b = fixed policies ranged_ys ys u vy hu in
    let c = merge_parts-SameButAccounts policies ranged_xs s hs in
    let d = merge_parts-SameButAccounts policies ranged_ys u hu in
    let v = merge-bags _ _ (Perm.map (λ part. part.1) vx) in
    let w = merge-bags _ _ (Perm.map (λ part. part.1) vy) in
    let p = merge-parts_of target_of t xs ox in
    let q = merge-parts_of target_of t ys oy in
    let m = ap (λ l. merge (values target_of l)) e in
    record {
      costs = pick_chain _ a.0 p.0 (ap (λ (v : Snapshot). v.costs) m) q.0 b.0;
      forecasts = pick_chain _ a.1 p.1 (ap (λ (v : Snapshot). v.forecasts) m) q.1 b.1;
      budgets =
          bag_chain _ c.budgets v.0 p.2 (ap (λ (v : Snapshot). v.budgets) m) q.2 w.0 d.budgets;
      commitments =
          bag_chain _ c.commitments v.1 p.4 (ap (λ (v : Snapshot). v.commitments) m) q.4 w.1
            d.commitments;
      anomalies = pick_chain _ a.3 p.5 (ap (λ (v : Snapshot). v.anomalies) m) q.5 b.3;
      tag_costs = pick_chain _ a.2 p.6 (ap (λ (v : Snapshot). v.tag_costs) m) q.6 b.2;
    }

owned_only :
    (parts : Dict CollectorId Snapshot)
    → All (λ p. (is_valid p.0 ≡ true) × OwnedBy p.0.target p.1) parts
    → All (λ p. OwnedBy p.0.target p.1) parts
owned_only parts o = All-mono (λ p h. h.1) parts o

SameFor-refl : (t : TargetId) (s : Snapshot) → SameFor t s s
SameFor-refl t s = record {
  costs = refl;
  forecasts = refl;
  budgets = Perm.refl _;
  commitments = Perm.refl _;
  anomalies = refl;
  tag_costs = refl;
}

publish-SameFor :
    (store : Store) (id : CollectorId) (partial : Snapshot) (order : MapOrder) (now : Time)
    (t : TargetId)
    → IsSound store
    → id.target ≢ t
    → SameFor t (publish store id partial order now).0.current.snapshot store.current.snapshot
unfolding publish
publish-SameFor store id partial order now t sound ne =
    go (published store id partial order now) refl
  where
    go :
        (r : Result State)
        → published store id partial order now ≡ r
        → SameFor t (stored store r).0.current.snapshot store.current.snapshot
    go (err x) e = SameFor-refl t store.current.snapshot
    go (ok state) e =
        let after = published-IsSound store id partial order now state sound e in
        let parts = (published-ok store id partial order now state e).3 in
        let (ranged, order_after, built_after) = after.built in
        let (ranged_before, order_before, built_before) = sound.built in
        same_parts t store.policies state.parts store.current.parts ranged ranged_before
          state.snapshot store.current.snapshot (owned_only _ after.owned)
          (owned_only _ sound.owned) order_after order_before built_after built_before
          (ap (parts_of target_of t) parts ∙ parts_of-put t id partial _ ne)

record_failure-parts :
    (store : Store) (id : CollectorId) (now : Time)
    → ((record_failure store id now).0.current.snapshot ≡ store.current.snapshot)
      × ((record_failure store id now).0.current.parts ≡ store.current.parts)
unfolding record_failure
record_failure-parts store id now = go (failed_state store id now) refl
  where
    go :
        (r : Result State)
        → failed_state store id now ≡ r
        → ((stored store r).0.current.snapshot ≡ store.current.snapshot)
          × ((stored store r).0.current.parts ≡ store.current.parts)
    go (err x) e = (refl, refl)
    go (ok state) e =
        let made = (failed_state-ok store id now state e).1 in
        (ap (λ (s : State). s.snapshot) made, ap (λ (s : State). s.parts) made)

abbrev pub caller : Call → CollectorId
caller (publishes id partial order now) = id
caller (fails id now) = id

-- In a sound store, a write by a collector of one target, whether it succeeds or not and whatever
-- the order of its range over the parts, leaves the published costs, forecasts, anomalies and tag
-- costs of every other target as they were, in their order, and its budgets and commitments as they
-- were but for their order.
pub step-SameFor :
    (store : Store) (call : Call) (t : TargetId)
    → IsSound store
    → (caller call).target ≢ t
    → SameFor t (step store call).current.snapshot store.current.snapshot
unfolding step
step-SameFor store (publishes id partial order now) t sound ne =
    publish-SameFor store id partial order now t sound ne
step-SameFor store (fails id now) t sound ne =
    rw (record_failure-parts store id now).0 (SameFor-refl t _)
