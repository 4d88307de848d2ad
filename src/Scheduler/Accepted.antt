-- ===== src/Scheduler/Accepted.antt =====
-- What NewJobs has checked of the jobs it accepts.
use mathlib.Core.List.{Perm, perm_middle, append-nil}
use mathlib.Core.List.Perm
use aws_cost_exporter.Base.{
  ◌≡◌, inl, inr, refl, sym, ap, subst, ◌∙◌, Bool, true, false, ◌||◌, not, List, [], ◌∷◌, ◌++◌, ◌=?◌,
  same_refl, All, All-mono, arith, Option, none, some, Bool-cases, Eq,
}
use aws_cost_exporter.Base.Int.{ℤ, pos, leb_ℤ, ◌<ℤ◌}
use aws_cost_exporter.Base.Text.{text_same}
use aws_cost_exporter.Domain.Identity.{CollectorId, collector_id_same, is_valid}
use aws_cost_exporter.Errors.{
  Result, ok, err, ◌>>◌, fail_if, bind_ok, check_passed, ok_injective, invalid_scheduler_config,
}
use aws_cost_exporter.Scheduler.Jobs.{
  Job, RunnerConfig, Runner, refused, is_known, Known, add_job, know_job, know_jobs, new_jobs,
}

module _ {ℓ} {A : Type ℓ} ⦃e : Eq A⦄ where
  abbrev knows : List A → A → Bool
  knows = is_known (λ a b. a =? b)

  -- No item comes twice.
  abbrev pub Unique : List A → Type 0
  Unique [] = Unit
  Unique (a ∷ rest) = (knows rest a ≡ false) × Unique rest

-- Is the target of each known collector known?
abbrev Covered : Known → Type 0
Covered known = All (λ id. knows known.targets id.target ≡ true) known.ids

-- The identities of the jobs that have a collector
abbrev pub ids_of : List Job → List CollectorId
ids_of [] = []
ids_of (job ∷ jobs) = elim job.collector [ none ↦ ids_of jobs | some id ↦ id ∷ ids_of jobs ]

abbrev reverse_onto : List CollectorId → List CollectorId → List CollectorId
reverse_onto [] acc = acc
reverse_onto (id ∷ ids) acc = reverse_onto ids (id ∷ acc)

reverse_onto-perm : (ids acc : List CollectorId) → Perm (reverse_onto ids acc) (ids ++ acc)
reverse_onto-perm [] acc = Perm.refl acc
reverse_onto-perm (id ∷ ids) acc =
    Perm.trans (reverse_onto-perm ids (id ∷ acc)) (perm_middle ids acc)

pushed :
    (jobs : List Job) (job : Job) (id : CollectorId) (known : Known)
    → job.collector ≡ some id
    → reverse_onto (ids_of jobs) (add_job id known).ids
      ≡ reverse_onto (ids_of (job ∷ jobs)) known.ids
unfolding add_job
pushed jobs job id known e = rw e refl

-- A job that has a collector with a valid identity, and a positive interval.
abbrev pub IsJob : Job → Type 0
IsJob job =
    (id : CollectorId) × (job.collector ≡ some id) × (is_valid id ≡ true) × (pos 0 <ℤ job.interval)

abbrev IsKnown : Known → Type 0
IsKnown known = Unique known.ids × Unique known.targets × Covered known

still_known :
    (id other : CollectorId) (known : Known)
    → knows known.targets other.target ≡ true
    → knows (add_job id known).targets other.target ≡ true
unfolding add_job is_known
still_known id other known h = ground (arith, h)

now_known : (id : CollectorId) (known : Known) → knows (add_job id known).targets id.target ≡ true
unfolding add_job is_known
now_known id known = ground (arith, same_refl id.target)

add_job-Unique :
    (id : CollectorId) (known : Known) → Unique known.targets → Unique (add_job id known).targets
unfolding add_job
add_job-Unique id known u = elim (Bool-cases (knows known.targets id.target)) [
  | inl e ↦ rw e u
  | inr e ↦ rw e (e, u)
]

know_job-ok :
    (job : Job) (known after : Known)
    → know_job job known ≡ ok after
    → IsKnown known
    → IsJob job
      × IsKnown after
      × ((id : CollectorId) × (job.collector ≡ some id) × (after ≡ add_job id known))
unfolding know_job add_job
know_job-ok job known after h k = go job.collector refl
  where
    interval_positive :
        (i : ℤ) (b : Bool) → (leb_ℤ i (pos 0) || not b) ≡ false → (b ≡ true) × (pos 0 <ℤ i)
    interval_positive i b h = (ground (arith, h), ground (arith, h))

    go :
        (o : Option CollectorId)
        → job.collector ≡ o
        → IsJob job
          × IsKnown after
          × ((id : CollectorId) × (job.collector ≡ some id) × (after ≡ add_job id known))
    go none e = ground (arith, h, e)
    go (some id) e =
        let chain =
          subst
            (λ o.
              elim o as (λ _. Result Known) [
                | none ↦ err invalid_scheduler_config
                | some id ↦
                    (fail_if (leb_ℤ job.interval (pos 0) || not (is_valid id))
                        invalid_scheduler_config
                      >> (fail_if (is_known (λ a b. a =? b) known.ids id) invalid_scheduler_config
                          >> ok (add_job id known)))
              ]
              ≡ ok after)
            e h in
        let (fits, h1) = check_passed (leb_ℤ job.interval (pos 0) || not (is_valid id)) _ _ chain in
        let (new, made) = check_passed (knows known.ids id) _ _ h1 in
        let (valid, positive) = interval_positive job.interval (is_valid id) fits in
        (
          (id, e, valid, positive),
          subst IsKnown (ok_injective made) (
            (new, k.0),
            add_job-Unique id known k.1,
            (now_known id known, All-mono (λ other c. still_known id other known c) known.ids k.2),
          ),
          (id, e, sym (ok_injective made)),
        )

know_jobs-ok :
    (jobs : List Job) (known after : Known)
    → know_jobs jobs known ≡ ok after
    → IsKnown known
    → All IsJob jobs × IsKnown after × (after.ids ≡ reverse_onto (ids_of jobs) known.ids)
unfolding know_jobs
know_jobs-ok [] known after h k =
    let e = ok_injective h in (tt, subst IsKnown e k, ap (λ (n : Known). n.ids) (sym e))
know_jobs-ok (job ∷ jobs) known after h k =
    let (next, one, rest) = bind_ok (know_job job known) _ h in
    let (is_job, next_known, (id, e, made)) = know_job-ok job known next one k in
    let (all, after_known, ids) = know_jobs-ok jobs next after rest next_known in
    (
      (is_job, all),
      after_known,
      ids ∙ ap (λ (n : Known). reverse_onto (ids_of jobs) n.ids) made ∙ pushed jobs job id known e,
    )

-- A runner that NewJobs makes has a positive interval and a valid identity for every job. The keys of
-- its queues are the identities of its jobs in some order, and none comes twice, so that no two jobs
-- share one. The keys of its channels of targets do not come twice either, and the target of every job
-- is among them.
pub new_jobs-ok :
    (jobs : List Job) (config : RunnerConfig) (runner : Runner)
    → new_jobs jobs config ≡ ok runner
    → All IsJob jobs
      × Perm runner.queues (ids_of jobs)
      × Unique runner.queues
      × Unique runner.targets
      × All (λ id. is_known (λ a b. a =? b) runner.targets id.target ≡ true) runner.queues
unfolding new_jobs
new_jobs-ok jobs config runner h =
    let (fits, h1) = check_passed (refused jobs config) _ _ h in
    let start : Known = record { ids = []; targets = [] } in
    let (known, checked, made) = bind_ok (know_jobs jobs start) _ h1 in
    let (all, (ids, targets, covered), queues) =
      know_jobs-ok jobs start known checked (tt, tt, tt) in
    let each =
      subst (λ l. Perm l (ids_of jobs)) (sym queues)
        (subst (Perm (reverse_onto (ids_of jobs) [])) (append-nil (ids_of jobs))
          (reverse_onto-perm (ids_of jobs) [])) in
    rw (← ok_injective made) (all, each, ids, targets, covered)
