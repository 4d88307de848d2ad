-- ===== src/Domain/Cost.antt =====
-- The records of internal/domain/cost/snapshot.go, and the order in which they are published.
use aws_cost_exporter.Base.{◌≡◌, Bool, List, [], ◌∷◌, if◌then◌else◌, not, ◌=?◌, ltb, ◌==◌}
use aws_cost_exporter.Base.Text.{
  Text, text, text_same, text_lt, key_lt, key_lt-text, key_lt-number, key_lt_last,
  key_lt_last_number,
}
use aws_cost_exporter.Domain.Identity.{TargetId}
use aws_cost_exporter.Domain.Money.{Money}
use aws_cost_exporter.Domain.Period.{Period}
use aws_cost_exporter.Domain.Dimension.{Dimension, Provider, Basis}

abbrev pub Window : Type 0
Window = Text

abbrev pub daily : Window
daily = text "daily"

abbrev pub month_to_date : Window
month_to_date = text "month_to_date"

pub record Cost : Type 0 where
  pub target : TargetId
  pub provider : Provider
  pub basis : Basis
  pub window : Window
  pub period : Period
  pub dimension : Dimension
  pub amount : Money

pub record Forecast : Type 0 where
  pub target : TargetId
  pub provider : Provider
  pub basis : Basis
  pub period : Period
  pub mean : Money
  pub lower_bound : Money
  pub upper_bound : Money

-- `costLess`, exported as `Less`
unfoldable pub cost_less : Cost → Cost → Bool
cost_less l r =
    if not (l.provider =? r.provider)
    then text_lt l.provider r.provider
    else if not (l.basis =? r.basis)
    then text_lt l.basis r.basis
    else if not (l.window =? r.window)
    then text_lt l.window r.window
    else if not (l.dimension.kind =? r.dimension.kind)
    then text_lt l.dimension.kind r.dimension.kind
    else if not (l.dimension.value =? r.dimension.value)
    then text_lt l.dimension.value r.dimension.value
    else if not (l.amount.currency =? r.amount.currency)
    then text_lt l.amount.currency r.amount.currency
    else ltb l.period.start r.period.start

-- The comparison of costs in snapshot.NewWithData
unfoldable pub cost_before : Cost → Cost → Bool
cost_before l r = if not (l.target =? r.target) then text_lt l.target r.target else cost_less l r

-- The comparison of forecasts in snapshot.NewWithData
unfoldable pub forecast_before : Forecast → Forecast → Bool
forecast_before l r =
    if not (l.target =? r.target)
    then text_lt l.target r.target
    else if not (l.provider =? r.provider)
    then text_lt l.provider r.provider
    else if not (l.basis =? r.basis)
    then text_lt l.basis r.basis
    else if not (l.period.start == r.period.start)
    then ltb l.period.start r.period.start
    else text_lt l.mean.currency r.mean.currency

-- What costs are ordered by.
abbrev pub cost_key : Cost → List Text
cost_key c =
    c.target
    ∷ c.provider
    ∷ c.basis
    ∷ c.window
    ∷ c.dimension.kind
    ∷ c.dimension.value
    ∷ c.amount.currency
    ∷ (c.period.start ∷ [])
    ∷ []

abbrev pub forecast_key : Forecast → List Text
forecast_key f = f.target ∷ f.provider ∷ f.basis ∷ (f.period.start ∷ []) ∷ f.mean.currency ∷ []

pub cost_before-key_lt : (l r : Cost) → cost_before l r ≡ key_lt (cost_key l) (cost_key r)
unfolding cost_before cost_less
cost_before-key_lt l r = simp (key_lt_last_number, key_lt-text)

pub forecast_before-key_lt :
    (l r : Forecast) → forecast_before l r ≡ key_lt (forecast_key l) (forecast_key r)
unfolding forecast_before
forecast_before-key_lt l r = simp (key_lt-number, key_lt_last, key_lt-text)
