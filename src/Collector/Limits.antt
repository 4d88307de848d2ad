-- ===== src/Collector/Limits.antt =====
-- How many series LimitDimensions lets through.
use aws_cost_exporter.Base.{ℕ, zero, suc, ◌≤◌, ◌≡◌, refl, ap, List, [], ◌∷◌, length, take, arith}
use aws_cost_exporter.Base.Text.{Text, text_same}
use aws_cost_exporter.Base.Dict.{Dict}
use aws_cost_exporter.Domain.Cost.{Cost}

module _ {A : Type 0} where
  pub length-take : (n : ℕ) (xs : List A) → n ≤ length xs → length (take n xs) ≡ n
  length-take zero xs h = refl
  length-take (suc n) [] h = omega arith
  length-take (suc n) (x ∷ xs) h = ap suc (length-take n xs (omega arith))
