-- ===== src/Collector/Bounded.antt =====
-- What LimitDimensions leaves as it is: a condition on costs that the overflow inherits from the
-- first cost that it stands for holds of all that come out.
use aws_cost_exporter.Base.{
  ℕ, ◌-◌, ◌≡◌, subst, true, ◌||◌, not, List, [], ◌∷◌, ◌++◌, All, All-append, All-take, All-drop,
  arith, ◌=?◌, length, leb, ltb, take, drop, Bool-cases, inl, inr,
}
use aws_cost_exporter.Base.Int.{ℤ, pos, leb_ℤ, pos_part}
use aws_cost_exporter.Base.Float.{Float64}
use aws_cost_exporter.Base.Text.{Text, text_same, trim_space, is_empty}
use aws_cost_exporter.Base.Dict.{Dict, find_or, find_or-All, put, All-put}
use aws_cost_exporter.Base.Sort.{sort_by, All-sort_by}
use aws_cost_exporter.Domain.Money.{Money, new_money}
use aws_cost_exporter.Domain.Dimension.{Dimension, new_dimension, valid_provider, valid_basis}
use aws_cost_exporter.Domain.Cost.{Cost}
use aws_cost_exporter.Errors.{ok, bind_ok, check_passed, ok_injective}
use aws_cost_exporter.Snapshot.Validate.{known_source}
use aws_cost_exporter.Collector.Cardinality.{
  Limited, ranks_before, sum_of, overflow_of, aggregate, limit_dimension_group, group_key,
  group_values, limit_groups, limit_grouped, limit_dimensions,
}

-- The overflow keeps all of its first cost but the value of the dimension and the amount.
pub overflow_of-ok :
    (plus : Float64 → Float64 → Float64) (other : Text) (first : Cost) (rest : List Cost)
    (made : Cost)
    → overflow_of plus other first rest ≡ ok made
    → (dimension : Dimension) × (amount : Money) × (new_dimension first.dimension.kind other
        ≡ ok dimension)
      × (record first { dimension = dimension; amount = amount } ≡ made)
unfolding overflow_of
overflow_of-ok plus other first rest made h =
    let (total, _, h1) = bind_ok (sum_of plus first.amount.currency (first ∷ rest) 0) _ h in
    let (amount, _, h2) = bind_ok (new_money total first.amount.currency) _ h1 in
    let (dimension, named, h3) = bind_ok (new_dimension first.dimension.kind other) _ h2 in
    (dimension, amount, named, ok_injective h3)

module _ (plus : Float64 → Float64 → Float64) (other : Text) (P : Cost → Type 0)
    (inherits : (first : Cost) (rest : List Cost) (made : Cost)
      → P first
      → overflow_of plus other first rest ≡ ok made
      → P made) where
  aggregate-All :
      (kept dropped : List Cost) (count : ℕ) (made : Limited)
      → All P kept
      → All P dropped
      → aggregate plus other kept count dropped ≡ ok made
      → All P made.values
  unfolding aggregate
  aggregate-All kept [] count made k d h =
      subst (λ (m : Limited). All P m.values) (ok_injective h) k
  aggregate-All kept (first ∷ rest) count made k d h =
      let (overflow, one, h1) = bind_ok (overflow_of plus other first rest) _ h in
      subst (λ (m : Limited). All P m.values) (ok_injective h1)
        (All-append P kept (overflow ∷ []) k (inherits first rest overflow d.0 one, tt))

  limit_dimension_group-All :
      (values : List Cost) (limit : ℕ) (made : Limited)
      → All P values
      → limit_dimension_group plus values limit other ≡ ok made
      → All P made.values
  unfolding limit_dimension_group
  limit_dimension_group-All values limit made a h =
      let ranked = sort_by ranks_before values in
      let sorted = All-sort_by ranks_before P values a in
      elim (Bool-cases (leb (length values) limit)) [
        | inl e ↦
            let kept = rw e at h in subst (λ (m : Limited). All P m.values) (ok_injective kept) a
        | inr e ↦
            let cut = rw e at h in
            aggregate-All (take (limit - 1) ranked) (drop (limit - 1) ranked) _ made
              (All-take P (limit - 1) ranked sorted) (All-drop P (limit - 1) ranked sorted) cut
      ]

  group_values-All :
      (values : List Cost) (groups made : Dict Text (List Cost))
      → All P values
      → All (λ entry. All P entry.1) groups
      → group_values other values groups ≡ ok made
      → All (λ entry. All P entry.1) made
  unfolding group_values
  group_values-All [] groups made a g h = subst (All (λ entry. All P entry.1)) (ok_injective h) g
  group_values-All (value ∷ values) groups made a g h =
      let (_, h1) =
        check_passed (not (valid_provider value.provider) || not (valid_basis value.basis)) _ _ h in
      let (_, h2) = check_passed (value.dimension.value =? other) _ _ h1 in
      let key = group_key value in
      let before = find_or [] key groups in
      group_values-All values (put key (before ++ value ∷ []) groups) made a.1
        (All-put (λ entry. All P entry.1) key (before ++ value ∷ []) groups
          (All-append P before (value ∷ []) (find_or-All P key groups g) (a.0, tt)) g)
        h2

  limit_groups-All :
      (groups : Dict Text (List Cost)) (limit : ℕ) (keys : List Text) (made : Limited)
      → All (λ entry. All P entry.1) groups
      → limit_groups plus groups limit other keys ≡ ok made
      → All P made.values
  unfolding limit_groups
  limit_groups-All groups limit [] made g h =
      subst (λ (m : Limited). All P m.values) (ok_injective h) tt
  limit_groups-All groups limit (key ∷ keys) made g h =
      let (bounded, one, h1) =
        bind_ok (limit_dimension_group plus (find_or [] key groups) limit other) _ h in
      let (rest, others, h2) = bind_ok (limit_groups plus groups limit other keys) _ h1 in
      subst (λ (m : Limited). All P m.values) (ok_injective h2)
        (All-append P bounded.values rest.values
          (limit_dimension_group-All (find_or [] key groups) limit bounded
            (find_or-All P key groups g) one)
          (limit_groups-All groups limit keys rest g others))

  limit_grouped-All :
      (values : List Cost) (groups : Dict Text (List Cost)) (limit : ℕ) (made : Limited)
      → All P values
      → All (λ entry. All P entry.1) groups
      → limit_grouped plus values groups limit other ≡ ok made
      → All P made.values
  unfolding limit_grouped
  limit_grouped-All values groups limit made a g h = elim (Bool-cases (ltb 1 (length groups))) [
    | inl e ↦ limit_groups-All groups limit _ made g (rw e at h)
    | inr e ↦ limit_dimension_group-All values limit made a (rw e at h)
  ]

-- The checks of the grouping loop passed for each value.
group_values-known :
    (other : Text) (values : List Cost) (groups made : Dict Text (List Cost))
    → group_values other values groups ≡ ok made
    → All (λ c. known_source c.provider c.basis ≡ true) values
unfolding group_values
group_values-known other [] groups made h = tt
group_values-known other (value ∷ values) groups made h =
    let (known, h1) =
      check_passed (not (valid_provider value.provider) || not (valid_basis value.basis)) _ _ h in
    let (_, h2) = check_passed (value.dimension.value =? other) _ _ h1 in
    (ground (arith, known), group_values-known other values _ made h2)

module _ (plus : Float64 → Float64 → Float64) (limit : ℤ) (other : Text) where
  -- What holds of the values, and passes from a cost to an overflow, holds of what comes out.
  pub limit_dimensions-All :
      (P : Cost → Type 0) (values : List Cost) (made : Limited)
      → ((first : Cost) (rest : List Cost) (overflow : Cost)
          → P first
          → overflow_of plus (trim_space other) first rest ≡ ok overflow
          → P overflow)
      → All P values
      → limit_dimensions plus values limit other ≡ ok made
      → All P made.values
  unfolding limit_dimensions
  limit_dimensions-All P values made inherits a h =
      let (_, h1) = check_passed (leb_ℤ limit (pos 0)) _ _ h in
      let (_, h2) = check_passed (is_empty (trim_space other)) _ _ h1 in
      let (groups, grouped, h3) = bind_ok (group_values (trim_space other) values []) _ h2 in
      limit_grouped-All plus (trim_space other) P inherits values groups (pos_part limit) made a
        (group_values-All plus (trim_space other) P inherits values [] groups a tt grouped) h3

  -- All that comes out has a known provider and basis.
  pub limit_dimensions-known :
      (values : List Cost) (made : Limited)
      → limit_dimensions plus values limit other ≡ ok made
      → All (λ c. known_source c.provider c.basis ≡ true) made.values
  unfolding limit_dimensions
  limit_dimensions-known values made h =
      let (_, h1) = check_passed (leb_ℤ limit (pos 0)) _ _ h in
      let (_, h2) = check_passed (is_empty (trim_space other)) _ _ h1 in
      let (groups, grouped, h3) = bind_ok (group_values (trim_space other) values []) _ h2 in
      limit_dimensions-All (λ c. known_source c.provider c.basis ≡ true) values made
        (λ first rest overflow k e.
          let (_, _, _, same) = overflow_of-ok plus (trim_space other) first rest overflow e in
          subst (λ c. known_source c.provider c.basis ≡ true) same k)
        (group_values-known (trim_space other) values [] groups grouped) h
