-- ===== src/Server/Ready.antt =====
-- When no required collector stands in the way of readiness.
use aws_cost_exporter.Base.{
  ℕ, ◌<◌, ◌≡◌, ◌↔◌, ◌⊎◌, inl, inr, refl, sym, subst, List, [], ◌∷◌, map, ◌=?◌, All, Option, none,
  some, arith, Bool-cases,
}
use mathlib.Core.Option
use aws_cost_exporter.Base.Int.{◌≤ℤ◌}
use aws_cost_exporter.Base.Text.{text_same}
use aws_cost_exporter.Base.Dict.{Dict, find, find_or}
use aws_cost_exporter.Domain.Identity.{CollectorId, collector_id_same}
use aws_cost_exporter.Domain.Period.{Time, is_zero}
use aws_cost_exporter.Cache.{Store, Status, no_status, View, load}
use aws_cost_exporter.Cache.Age.{Freshness, unset, missing, fresh, aging, stale, age, freshness_at}
use aws_cost_exporter.Cache.Outcome.{status_of}
use aws_cost_exporter.Server.Response.{StatusResponse}
use aws_cost_exporter.Server.Routes.{status_answer, answer_for, unready, readiness, readiness_of}

-- The collector has had a success, no longer ago than the second threshold.
abbrev pub IsCurrent : Store → Time → CollectorId → Type 0
IsCurrent store now id =
    let success = (status_of store id).last_success in
    (0 < success) × (age now success ≤ℤ store.stale_after)

abbrev aged : Store → Time → Status → Status
aged store now status = record status {
  freshness = freshness_at store.freshness_ttl store.stale_after now status.last_success;
}

abbrev entry_aged : Store → Time → CollectorId × Status → CollectorId × Status
entry_aged store now entry = (entry.0, aged store now entry.1)

find-aged :
    (store : Store) (now : Time) (id : CollectorId) (statuses : Dict CollectorId Status)
    → find id (map (entry_aged store now) statuses) ≡ Option.map (aged store now) (find id statuses)
unfolding find
find-aged store now id [] = refl
find-aged store now id ((j, status) ∷ statuses) = elim (Bool-cases (j =? id)) [
  | inl same ↦ rw same refl
  | inr other ↦ rw other (find-aged store now id statuses)
]

status_current :
    (store : Store) (now : Time) (status : Status)
    → store.freshness_ttl ≤ℤ store.stale_after
    → (status_answer (aged store now status) ≡ none)
      ↔ ((0 < status.last_success) × (age now status.last_success ≤ℤ store.stale_after))
unfolding status_answer freshness_at
status_current store now status h = (λ e. ground arith, λ e. ground arith)

answer_for-current :
    (store : Store) (now : Time) (found : Option Status)
    → store.freshness_ttl ≤ℤ store.stale_after
    → let success = (Option.get_or found no_status).last_success in
      (answer_for (Option.map (aged store now) found) ≡ none)
      ↔ ((0 < success) × (age now success ≤ℤ store.stale_after))
answer_for-current store now none h = (λ e. cc, λ e. ground arith)
answer_for-current store now (some status) h = status_current store now status h

pub unready-IsCurrent :
    (store : Store) (now : Time) (id : CollectorId)
    → store.freshness_ttl ≤ℤ store.stale_after
    → (unready (load store now) id ≡ none) ↔ IsCurrent store now id
unfolding unready load find_or
unready-IsCurrent store now id h =
    subst (λ found. (answer_for found ≡ none) ↔ IsCurrent store now id)
      (sym (find-aged store now id store.current.statuses))
      (answer_for-current store now (find id store.current.statuses) h)

abbrev answer_list : Option (ℕ × StatusResponse) → List (ℕ × StatusResponse)
answer_list none = []
answer_list (some answer) = answer ∷ []

readiness_of-not_ready :
    (freshness : Freshness) → All (λ answer. answer.0 ≡ 503) (answer_list (readiness_of freshness))
readiness_of-not_ready unset = (refl, tt)
readiness_of-not_ready missing = (refl, tt)
readiness_of-not_ready fresh = tt
readiness_of-not_ready aging = tt
readiness_of-not_ready stale = (refl, tt)

-- An answer that is given at all is one of not being ready.
answer_for-not_ready :
    (found : Option Status) → All (λ answer. answer.0 ≡ 503) (answer_list (answer_for found))
unfolding status_answer
answer_for-not_ready none = (refl, tt)
answer_for-not_ready (some status) = elim (Bool-cases (is_zero status.last_success)) [
  | inl never ↦ rw never (refl, tt)
  | inr once ↦ rw once (readiness_of-not_ready status.freshness)
]

code_after :
    (first : Option (ℕ × StatusResponse)) (rest : ℕ × StatusResponse) (P : Type 0)
    → All (λ answer. answer.0 ≡ 503) (answer_list first)
    → ((rest.0 ≡ 200) ↔ P) × ((rest.0 ≡ 200) ⊎ (rest.0 ≡ 503))
    → let code = (Option.get_or first rest).0 in
      ((code ≡ 200) ↔ ((first ≡ none) × P)) × ((code ≡ 200) ⊎ (code ≡ 503))
code_after none rest P h k = ((λ e. (refl, k.0.0 e), λ e. k.0.1 e.1), k.1)
code_after (some answer) rest P h k = ((λ e. ground (arith, h.0), λ e. cc), inr h.0)

-- The code is that of success when no identity stands in the way, and else 503.
pub readiness-code :
    (view : View) (ids : List CollectorId)
    → (((readiness view ids).0 ≡ 200) ↔ All (λ id. unready view id ≡ none) ids)
      × (((readiness view ids).0 ≡ 200) ⊎ ((readiness view ids).0 ≡ 503))
unfolding readiness unready
readiness-code view [] = ((λ e. tt, λ e. refl), inl refl)
readiness-code view (id ∷ ids) =
    code_after (unready view id) (readiness view ids) (All (λ i. unready view i ≡ none) ids)
      (answer_for-not_ready (find id view.collectors)) (readiness-code view ids)
