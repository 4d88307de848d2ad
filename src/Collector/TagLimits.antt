-- ===== src/Collector/TagLimits.antt =====
-- What the limit on tag values lets through, and what the tag collector publishes.
use aws_cost_exporter.Base.{
  ℕ, suc, ◌-◌, ◌≤◌, ◌≡◌, refl, sym, subst, true, false, List, [], ◌∷◌, All, All-append, All-take,
  All-drop, arith, inl, inr, Bool-cases, length, length-append, take, drop,
}
use aws_cost_exporter.Base.Int.{ℤ, pos, negsuc, leb_ℤ, pos_part}
use aws_cost_exporter.Base.Float.{Float64}
use aws_cost_exporter.Base.Sort.{sort_by, length-sort_by, All-sort_by}
use aws_cost_exporter.Base.Text.{Text, text_same}
use aws_cost_exporter.Domain.Money.{new_money}
use aws_cost_exporter.Domain.Records.{TagCost}
use aws_cost_exporter.Errors.{ok, bind_ok, check_passed, ok_injective, tag_values_limit}
use aws_cost_exporter.Collector.Limits.{length-take}
use aws_cost_exporter.Collector.Tags.{
  LimitedTags, tag_ranks_before, sum_of_tags, aggregate_tags, cut_values, limit_values,
}

-- The same but for the value and the amount
pub record SameGroup (a b : TagCost) : Type 0 where
  pub target : a.target ≡ b.target
  pub provider : a.provider ≡ b.provider
  pub basis : a.basis ≡ b.basis
  pub window : a.window ≡ b.window
  pub tag_key : a.tag_key ≡ b.tag_key

cut_bound :
    (limit : ℤ) (all out taken : ℕ)
    → leb_ℤ (pos all) limit ≡ false
    → leb_ℤ limit (pos 0) ≡ false
    → (pos_part limit - 1 ≤ all → taken ≡ pos_part limit - 1)
    → out ≤ suc taken
    → out ≤ pos_part limit
cut_bound (pos n) all out taken m s t o = ground (arith, m, s, t)
cut_bound (negsuc n) all out taken m s t o = ground (arith, s)

fits_limit : (limit : ℤ) (count : ℕ) → leb_ℤ (pos count) limit ≡ true → count ≤ pos_part limit
fits_limit (pos n) count h = ground (arith, h)
fits_limit (negsuc n) count h = ground (arith, h)

module _ (plus : Float64 → Float64 → Float64) (overflow : Text) where
  aggregate_tags-length :
      (kept dropped : List TagCost) (count : ℕ) (made : LimitedTags)
      → aggregate_tags plus overflow kept count dropped ≡ ok made
      → length made.values ≤ suc (length kept)
  unfolding aggregate_tags
  aggregate_tags-length kept [] count made h =
      subst (λ (m : LimitedTags). length m.values ≤ suc (length kept)) (ok_injective h)
        (omega arith)
  aggregate_tags-length kept (current ∷ rest) count made h =
      let (total, _, h1) = bind_ok (sum_of_tags plus current (current ∷ rest) 0) _ h in
      let (amount, _, h2) = bind_ok (new_money total current.amount.currency) _ h1 in
      subst (λ (m : LimitedTags). length m.values ≤ suc (length kept)) (ok_injective h2)
        (omega (
          arith,
          length-append kept (record current { tag_value = overflow; amount = amount } ∷ []),
        ))

  cut_values-length :
      (values : List TagCost) (limit : ℤ) (made : LimitedTags)
      → leb_ℤ (pos (length values)) limit ≡ false
      → cut_values plus values limit overflow ≡ ok made
      → length made.values ≤ pos_part limit
  unfolding cut_values
  cut_values-length values limit made more h =
      let (some_limit, h1) = check_passed (leb_ℤ limit (pos 0)) tag_values_limit _ h in
      let ranked = sort_by tag_ranks_before values in
      let keep = pos_part limit - 1 in
      cut_bound limit (length values) (length made.values) (length (take keep ranked)) more
        some_limit
        (λ fits.
          length-take keep ranked
            (subst (λ n. keep ≤ n) (sym (length-sort_by tag_ranks_before values)) fits))
        (aggregate_tags-length (take keep ranked) (drop keep ranked) _ made h1)

  -- However many values there are, LimitValues returns no more than its limit.
  pub limit_values-length :
      (values : List TagCost) (limit : ℤ) (made : LimitedTags)
      → limit_values plus values limit overflow ≡ ok made
      → length made.values ≤ pos_part limit
  unfolding limit_values
  limit_values-length values limit made h = elim (Bool-cases (leb_ℤ (pos (length values)) limit)) [
    | inl e ↦
        subst (λ (m : LimitedTags). length m.values ≤ pos_part limit) (ok_injective (rw e at h))
          (fits_limit limit (length values) e)
    | inr e ↦ cut_values-length values limit made e (rw e at h)
  ]

  -- What depends only on the group of a tag cost passes from the values to what comes out.
  module _ (P : TagCost → Type 0) (passes : (a b : TagCost) → SameGroup a b → P a → P b) where
    aggregate_tags-All :
        (kept dropped : List TagCost) (count : ℕ) (made : LimitedTags)
        → All P kept
        → All P dropped
        → aggregate_tags plus overflow kept count dropped ≡ ok made
        → All P made.values
    unfolding aggregate_tags
    aggregate_tags-All kept [] count made k d h =
        subst (λ (m : LimitedTags). All P m.values) (ok_injective h) k
    aggregate_tags-All kept (current ∷ rest) count made k d h =
        let (total, _, h1) = bind_ok (sum_of_tags plus current (current ∷ rest) 0) _ h in
        let (amount, _, h2) = bind_ok (new_money total current.amount.currency) _ h1 in
        let left : TagCost = record current { tag_value = overflow; amount = amount } in
        subst (λ (m : LimitedTags). All P m.values) (ok_injective h2)
          (All-append P kept (left ∷ []) k (
            passes current left
                (record {
                  target = refl;
                  provider = refl;
                  basis = refl;
                  window = refl;
                  tag_key = refl;
                })
                d.0,
            tt,
          ))

    cut_values-All :
        (values : List TagCost) (limit : ℤ) (made : LimitedTags)
        → All P values
        → cut_values plus values limit overflow ≡ ok made
        → All P made.values
    unfolding cut_values
    cut_values-All values limit made a h =
        let (_, h1) = check_passed (leb_ℤ limit (pos 0)) tag_values_limit _ h in
        let ranked = sort_by tag_ranks_before values in
        let sorted = All-sort_by tag_ranks_before P values a in
        let keep = pos_part limit - 1 in
        aggregate_tags-All (take keep ranked) (drop keep ranked) _ made
          (All-take P keep ranked sorted) (All-drop P keep ranked sorted) h1

    pub limit_values-All :
        (values : List TagCost) (limit : ℤ) (made : LimitedTags)
        → All P values
        → limit_values plus values limit overflow ≡ ok made
        → All P made.values
    unfolding limit_values
    limit_values-All values limit made a h = elim (Bool-cases (leb_ℤ (pos (length values)) limit)) [
      | inl e ↦ subst (λ (m : LimitedTags). All P m.values) (ok_injective (rw e at h)) a
      | inr e ↦ cut_values-All values limit made a (rw e at h)
    ]
