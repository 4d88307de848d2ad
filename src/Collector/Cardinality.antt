-- ===== src/Collector/Cardinality.antt =====
-- internal/collector/cardinality.go. The sum of two floats is a parameter. Each observer that is not
-- nil is told of the same overflows, which a successful call returns here beside its result.
use aws_cost_exporter.Base.{
  ℕ, ◌-◌, Bool, ◌||◌, not, List, [], ◌∷◌, ◌++◌, map, if◌then◌else◌, ◌=?◌, length, take, drop, leb,
  ltb,
}
use aws_cost_exporter.Base.Int.{ℤ, pos, leb_ℤ, pos_part}
use aws_cost_exporter.Base.Float.{Float64, float_eq, float_lt}
use aws_cost_exporter.Base.Text.{Text, text_same, text_lt, trim_space, is_empty}
use aws_cost_exporter.Base.Dict.{Dict, find_or, put}
use aws_cost_exporter.Base.Sort.{sort_by}
use aws_cost_exporter.Domain.Money.{new_money}
use aws_cost_exporter.Domain.Dimension.{DimensionKind, new_dimension, valid_provider, valid_basis}
use aws_cost_exporter.Domain.Cost.{Cost}
use aws_cost_exporter.Errors.{
  Result, ok, ◌>>=◌, ◌>>◌, fail_if, invalid_series_limit, invalid_overflow_label,
  invalid_cost_identity, reserved_dimension, mixed_currency,
}

-- What ObserveOverflow is called with
pub record Overflow : Type 0 where
  pub dimension : DimensionKind
  pub count : ℕ

pub record Limited : Type 0 where
  pub values : List Cost
  pub overflows : List Overflow

-- The larger amount comes first, then the smaller text.
unfoldable pub ranks_before : Cost → Cost → Bool
ranks_before l r =
    if not (float_eq l.amount.amount r.amount.amount)
    then float_lt r.amount.amount l.amount.amount
    else text_lt l.dimension.value r.dimension.value

-- The loop that adds the amounts of one currency
unfoldable pub sum_of : (Float64 → Float64 → Float64) → Text → List Cost → Float64 → Result Float64
sum_of plus currency [] total = ok total
sum_of plus currency (value ∷ values) total = do
  fail_if (not (value.amount.currency =? currency)) mixed_currency
  sum_of plus currency values (plus total value.amount.amount)

-- The one record that stands for the values from the place `keep` on, `first` being the first.
unfoldable pub overflow_of : (Float64 → Float64 → Float64) → Text → Cost → List Cost → Result Cost
overflow_of plus other first rest = do
  total ← sum_of plus first.amount.currency (first ∷ rest) 0
  amount ← new_money total first.amount.currency
  dimension ← new_dimension first.dimension.kind other
  ok (record first { dimension = dimension; amount = amount })

-- The second half of `limitDimensionGroup`; there is a value at the place `keep`, since there are
-- more than `limit` of them.
unfoldable pub aggregate :
    (Float64 → Float64 → Float64) → Text → List Cost → ℕ → List Cost → Result Limited
aggregate plus other kept count [] = ok (record { values = kept; overflows = [] })
aggregate plus other kept count (first ∷ rest) = do
  overflow ← overflow_of plus other first rest
  ok (record {
    values = kept ++ overflow ∷ [];
    overflows = record { dimension = overflow.dimension.kind; count = count } ∷ [];
  })

-- `limitDimensionGroup`
unfoldable pub limit_dimension_group :
    (Float64 → Float64 → Float64) → List Cost → ℕ → Text → Result Limited
limit_dimension_group plus values limit other =
    let ranked = sort_by ranks_before values in
    let keep = limit - 1 in
    if leb (length values) limit
    then ok (record { values = values; overflows = [] })
    else aggregate plus other (take keep ranked) (length values - keep) (drop keep ranked)

-- The key of a group: the provider and the basis around a zero byte
abbrev pub group_key : Cost → Text
group_key value = value.provider ++ 0 ∷ value.basis

-- The loop that checks and groups the values
unfoldable pub group_values :
    Text → List Cost → Dict Text (List Cost) → Result (Dict Text (List Cost))
group_values other [] groups = ok groups
group_values other (value ∷ values) groups = do
  fail_if (not (valid_provider value.provider) || not (valid_basis value.basis))
      invalid_cost_identity
  fail_if (value.dimension.value =? other) reserved_dimension
  let key = group_key value
  group_values other values (put key (find_or [] key groups ++ value ∷ []) groups)

-- The loop over the sorted keys
unfoldable pub limit_groups :
    (Float64 → Float64 → Float64) → Dict Text (List Cost) → ℕ → Text → List Text → Result Limited
limit_groups plus groups limit other [] = ok (record { values = []; overflows = [] })
limit_groups plus groups limit other (key ∷ keys) = do
  bounded ← limit_dimension_group plus (find_or [] key groups) limit other
  rest ← limit_groups plus groups limit other keys
  ok (record {
    values = bounded.values ++ rest.values;
    overflows = bounded.overflows ++ rest.overflows;
  })

abbrev pub keys_of : Dict Text (List Cost) → List Text
keys_of = map (λ entry. entry.0)

-- `LimitDimensions` once the values are grouped
unfoldable pub limit_grouped :
    (Float64 → Float64 → Float64) → List Cost → Dict Text (List Cost) → ℕ → Text → Result Limited
limit_grouped plus values groups limit other =
    if ltb 1 (length groups)
    then limit_groups plus groups limit other (sort_by text_lt (keys_of groups))
    else limit_dimension_group plus values limit other

-- `LimitDimensions`
unfoldable pub limit_dimensions :
    (Float64 → Float64 → Float64) → List Cost → ℤ → Text → Result Limited
limit_dimensions plus values limit other = do
  fail_if (leb_ℤ limit (pos 0)) invalid_series_limit
  fail_if (is_empty (trim_space other)) invalid_overflow_label
  groups ← group_values (trim_space other) values []
  limit_grouped plus values groups (pos_part limit) (trim_space other)
