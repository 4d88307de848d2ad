-- ===== src/Domain/Examples.antt =====
-- The amounts, dimensions and periods of internal/domain/cost on concrete values.
use aws_cost_exporter.Base.{◌≡◌, refl}
use aws_cost_exporter.Base.Text.{text, trim_space, is_space}
use aws_cost_exporter.Base.Keys.{list_same}
use aws_cost_exporter.Base.Float.{is_nan, is_inf}
use aws_cost_exporter.Errors.{ok}
use aws_cost_exporter.Domain.Money.{IsMoney, new_money, new_money-IsMoney, add}
use aws_cost_exporter.Domain.Dimension.{
  Dimension, IsDimension, dimension_region, new_dimension, new_dimension-IsDimension,
}
use aws_cost_exporter.Samples.{one, two, usd}

new_usd : new_money one (text " USD ") ≡ ok (usd one)
unfolding new_money trim_space is_space is_nan is_inf
new_usd = refl

new_money-IsMoney_example : IsMoney (usd one)
new_money-IsMoney_example = new_money-IsMoney one (text " USD ") (usd one) new_usd

one_and_one : add (λ a b. two) (usd one) (usd one) ≡ ok (usd two)
unfolding add is_nan is_inf list_same
one_and_one = refl

usd-IsMoney : IsMoney (usd one)
usd-IsMoney = new_money-IsMoney one (text " USD ") (usd one) new_usd

abbrev worldwide : Dimension
worldwide = record { kind = dimension_region; value = text "global" }

no_region : new_dimension dimension_region (text "  ") ≡ ok worldwide
unfolding new_dimension trim_space is_space list_same
no_region = refl

new_dimension-IsDimension_example : IsDimension worldwide × (worldwide.kind ≡ dimension_region)
new_dimension-IsDimension_example =
    new_dimension-IsDimension dimension_region (text "  ") worldwide no_region
