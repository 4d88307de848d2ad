-- ===== src/Collector/Commitments.antt =====
-- internal/collector/commitment/collector.go: the two summaries of a target, and their series.
use aws_cost_exporter.Base.{
  ℕ, ◌≡◌, ◌≤◌, All, refl, sym, subst, ◌∙◌, true, false, ◌||◌, not, [], ◌∷◌, map, Option, arith,
  ◌=?◌, same_refl,
}
use aws_cost_exporter.Base.Int.{ℤ, pos, negsuc, leb_ℤ, ltb_ℤ, pos_part}
use aws_cost_exporter.Base.Keys.{list_same, lex_lt}
use aws_cost_exporter.Base.Sort.{sort_by_two}
use aws_cost_exporter.Base.Text.{Text, text, text_same, text_lt, is_empty}
use aws_cost_exporter.Domain.Identity.{TargetId, CollectorId}
use aws_cost_exporter.Domain.Period.{Time}
use aws_cost_exporter.Domain.Records.{
  Commitment, savings_plan, reservation, commitment_before, sort_commitments,
}
use aws_cost_exporter.Errors.{
  Result, ok, ◌>>=◌, ◌>>◌, fail_if, or_fail, bind_ok, check_passed, ok_injective, nil_reader,
  invalid_series_limit, inconsistent_summary, commitment_series_limit,
}
use aws_cost_exporter.Snapshot.{Snapshot, no_snapshot, new_with_data, series_count}
use aws_cost_exporter.Snapshot.Owned.{OwnedBy, new_with_data-OwnedBy}

-- ports.CommitmentReader
pub record CommitmentReader : Type 0 where
  pub read_savings_plans_utilization : Time → Result Commitment
  pub read_savings_plans_coverage : Time → Result Commitment
  pub read_reservation_utilization : Time → Result Commitment
  pub read_reservation_coverage : Time → Result Commitment

-- commitment.Collector
pub record CommitmentCollector : Type 0 where
  pub id : CollectorId
  pub reader : CommitmentReader
  pub series_limit : ℤ

-- commitment.New
unfoldable pub new_commitments : TargetId → Option CommitmentReader → ℤ → Result CommitmentCollector
new_commitments target reader series_limit = do
  given ← or_fail reader nil_reader
  fail_if (leb_ℤ series_limit (pos 0)) invalid_series_limit
  ok (record {
    id = record { target = target; name = text "commitments" };
    reader = given;
    series_limit = series_limit;
  })

-- The composite literal of mergeSummaries
abbrev pub merged_summary : TargetId → Text → Commitment → Commitment → Commitment
merged_summary target kind utilization coverage = record {
  target = target;
  kind = kind;
  time_unit = utilization.time_unit;
  utilization_ratio = utilization.utilization_ratio;
  has_utilization = utilization.has_utilization;
  unused_hours = utilization.unused_hours;
  has_unused_hours = utilization.has_unused_hours;
  net_savings = utilization.net_savings;
  has_net_savings = utilization.has_net_savings;
  coverage_ratio = coverage.coverage_ratio;
  has_coverage = coverage.has_coverage;
  covered_spend = coverage.covered_spend;
  has_covered_spend = coverage.has_covered_spend;
  on_demand_cost = coverage.on_demand_cost;
  has_on_demand_cost = coverage.has_on_demand_cost;
}

-- `mergeSummaries`
unfoldable pub merge_summaries : TargetId → Text → Commitment → Commitment → Result Commitment
merge_summaries target kind utilization coverage = do
  fail_if
      (not (utilization.target =? target)
        || not (coverage.target =? target)
        || not (utilization.kind =? kind)
        || not (coverage.kind =? kind)
        || is_empty utilization.time_unit
        || not (utilization.time_unit =? coverage.time_unit))
      inconsistent_summary
  ok (merged_summary target kind utilization coverage)

-- The end of Collect: the snapshot of the two summaries, within the limit
unfoldable pub bounded_commitments : ℤ → Commitment → Commitment → Result Snapshot
bounded_commitments series_limit sp ri = do
  let result = new_with_data (record no_snapshot { commitments = sp ∷ ri ∷ [] })
  fail_if (ltb_ℤ series_limit (pos (series_count result))) commitment_series_limit
  ok result

-- commitment.Collect
unfoldable pub collect_commitments : CommitmentCollector → Time → Result Snapshot
collect_commitments c reference = do
  sp_utilization ← c.reader.read_savings_plans_utilization reference
  sp_coverage ← c.reader.read_savings_plans_coverage reference
  sp ← merge_summaries c.id.target savings_plan sp_utilization sp_coverage
  ri_utilization ← c.reader.read_reservation_utilization reference
  ri_coverage ← c.reader.read_reservation_coverage reference
  ri ← merge_summaries c.id.target reservation ri_utilization ri_coverage
  bounded_commitments c.series_limit sp ri

merge_summaries-identity :
    (target : TargetId) (kind : Text) (utilization coverage made : Commitment)
    → merge_summaries target kind utilization coverage ≡ ok made
    → (made.target ≡ target) × (made.kind ≡ kind) × (is_empty made.time_unit ≡ false)
unfolding merge_summaries
merge_summaries-identity target kind utilization coverage made h = ground arith

reservation_first : text_lt reservation savings_plan ≡ true
unfolding text_lt lex_lt list_same
reservation_first = refl

reservation-ne : (reservation =? savings_plan) ≡ false
unfolding list_same
reservation-ne = refl

-- The reservations come before the Savings Plans.
commitments_sorted :
    (sp ri : Commitment)
    → ri.target ≡ sp.target
    → sp.kind ≡ savings_plan
    → ri.kind ≡ reservation
    → sort_commitments (sp ∷ ri ∷ []) ≡ ri ∷ sp ∷ []
unfolding sort_commitments
commitments_sorted sp ri t k l = sort_by_two commitment_before sp ri before
  where
    before : commitment_before ri sp ≡ true
    before =
        unfold commitment_before in
        rw (t, k, l, same_refl sp.target, reservation-ne) reservation_first

pub within_limit :
    (limit : ℤ) (count : ℕ) → ltb_ℤ limit (pos count) ≡ false → count ≤ pos_part limit
within_limit (pos n) count h = ground (arith, h)
within_limit (negsuc n) count h = ground (arith, h)

bounded_commitments-ok :
    (target : TargetId) (series_limit : ℤ) (sp ri : Commitment) (s : Snapshot)
    → sp.target ≡ target
    → sp.kind ≡ savings_plan
    → ri.target ≡ target
    → ri.kind ≡ reservation
    → bounded_commitments series_limit sp ri ≡ ok s
    → OwnedBy target s × (s.commitments ≡ ri ∷ sp ∷ []) × (series_count s ≤ pos_part series_limit)
unfolding bounded_commitments
bounded_commitments-ok target series_limit sp ri s st sk rt rk h =
    let both = record no_snapshot { commitments = sp ∷ ri ∷ [] } in
    let result = new_with_data both in
    let (fits, made) = check_passed (ltb_ℤ series_limit (pos (series_count result))) _ _ h in
    subst
      (λ s.
        OwnedBy target s
        × (s.commitments ≡ ri ∷ sp ∷ [])
        × (series_count s ≤ pos_part series_limit))
      (ok_injective made)
      (
        new_with_data-OwnedBy target both (record {
          costs = tt;
          forecasts = tt;
          budgets = tt;
          accounts = tt;
          commitments = (st, (rt, tt));
          anomalies = tt;
          tag_costs = tt;
        }),
        unfold new_with_data in commitments_sorted sp ri (rt ∙ sym st) sk rk,
        within_limit series_limit (series_count result) fits,
      )

-- A snapshot of the commitment collector holds exactly one summary of the target's reservations and
-- one of its Savings Plans, both with a time unit, and no more series than the limit, and
-- ValidatePartial accepts its records.
pub collect_commitments-ok :
    (c : CommitmentCollector) (reference : Time) (s : Snapshot)
    → collect_commitments c reference ≡ ok s
    → OwnedBy c.id.target s
      × (map (λ r. r.kind) s.commitments ≡ reservation ∷ savings_plan ∷ [])
      × All (λ r. is_empty r.time_unit ≡ false) s.commitments
      × (series_count s ≤ pos_part c.series_limit)
unfolding collect_commitments
collect_commitments-ok c reference s h =
    let (su, _, h1) = bind_ok (c.reader.read_savings_plans_utilization reference) _ h in
    let (sc, _, h2) = bind_ok (c.reader.read_savings_plans_coverage reference) _ h1 in
    let (sp, merged, h3) = bind_ok (merge_summaries c.id.target savings_plan su sc) _ h2 in
    let (ru, _, h4) = bind_ok (c.reader.read_reservation_utilization reference) _ h3 in
    let (rc, _, h5) = bind_ok (c.reader.read_reservation_coverage reference) _ h4 in
    let (ri, merged', h6) = bind_ok (merge_summaries c.id.target reservation ru rc) _ h5 in
    let (st, sk, su') = merge_summaries-identity c.id.target savings_plan su sc sp merged in
    let (rt, rk, ru') = merge_summaries-identity c.id.target reservation ru rc ri merged' in
    let (owned, both, few) =
      bounded_commitments-ok c.id.target c.series_limit sp ri s st sk rt rk h6 in
    (
      owned,
      subst (λ l. map (λ (r : Commitment). r.kind) l ≡ reservation ∷ savings_plan ∷ []) (sym both)
          (rw (rk, sk) refl),
      subst (All (λ (r : Commitment). is_empty r.time_unit ≡ false)) (sym both) (ru', (su', tt)),
      few,
    )
