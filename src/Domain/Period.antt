-- ===== src/Domain/Period.antt =====
-- internal/domain/cost/period.go. A `time.Time` in UTC is the number of nanoseconds since Go's zero
-- time, midnight of 1 January of year 1. The calendar is that of Go's `time` package.
use aws_cost_exporter.Base.{
  ℕ, ◌+◌, ◌-◌, ◌*◌, ◌/◌, ◌%◌, ◌≤◌, ◌<◌, ◌≡◌, ◌≢◌, ◌⊎◌, refl, sym, subst, Bool, true, false, ◌&&◌,
  ◌||◌, not, List, [], ◌∷◌, arith, ltb, ◌==◌, if◌then◌else◌, min,
}
use native.Mathlib.Nat.{le_trans}
use aws_cost_exporter.Errors.{Result, ok, err, invalid_period}

abbrev pub Time : Type 0
Time = ℕ

-- `time.Time{}`, and `IsZero`
abbrev pub zero_time : Time
zero_time = 0

abbrev pub is_zero : Time → Bool
is_zero t = t == 0

pub record Period : Type 0 where
  pub start : Time
  pub end : Time

unfoldable pub new_period : Time → Time → Result Period
new_period start end =
    if not (ltb start end) then err invalid_period else ok (record { start = start; end = end })

abbrev pub day_length : ℕ
day_length = 86_400_000_000_000

-- `time.Date(year, month, day, 0, 0, 0, 0, UTC)` of the day of an instant, and `AddDate(0, 0, 1)`.
unfoldable pub day_containing : Time → Period
day_containing reference =
    let start = reference / day_length * day_length in
    record { start = start; end = start + day_length }

-- The year of a day, counted from 0, and the day within it, as `time` finds them: by cycles of 400,
-- 100 and 4 years, where the last year of a cycle is one day longer.
pub record YearDay : Type 0 where
  pub cycles : ℕ
  pub centuries : ℕ
  pub fours : ℕ
  pub years : ℕ
  pub day : ℕ

unfoldable pub year_day : ℕ → YearDay
year_day d0 =
    let d1 = d0 % 146_097 in
    let n100 = min 3 (d1 / 36_524) in
    let d2 = d1 - n100 * 36_524 in
    let n4 = d2 / 1461 in
    let d3 = d2 % 1461 in
    let n = min 3 (d3 / 365) in
    record { cycles = d0 / 146_097; centuries = n100; fours = n4; years = n; day = d3 - n * 365 }

-- The year begins after `400 * cycles + 100 * centuries + 4 * fours + years` years.
unfoldable pub is_leap : YearDay → Bool
is_leap y = y.years == 3 && (not (y.fours == 24) || y.centuries == 3)

unfoldable pub month_lengths : Bool → List ℕ
month_lengths leap =
    31 ∷ (if leap then 29 else 28) ∷ 31 ∷ 30 ∷ 31 ∷ 30 ∷ 31 ∷ 31 ∷ 30 ∷ 31 ∷ 30 ∷ 31 ∷ []

-- How far into its month a day is, and how long that month is.
unfoldable pub month_day : List ℕ → ℕ → ℕ × ℕ
month_day [] day = (day, day)
month_day (length ∷ rest) day =
    let next = month_day rest (day - length) in if ltb day length then (day, length) else next

-- `reference.Year()`, `Month()` and `Day()`: the days before this one in its month, and the month's
-- length.
unfoldable pub month_place : ℕ → ℕ × ℕ
unfolding year_day is_leap month_lengths month_day
month_place day = month_day (month_lengths (is_leap (year_day day))) (year_day day).day

-- `time.Date(year, month, 1, 0, 0, 0, 0, UTC)`, and `AddDate(0, 1, 0)`: the first of the next month.
unfoldable pub month_containing : Time → Period
month_containing reference =
    let day = reference / day_length in
    let (into, length) = month_place day in
    record { start = (day - into) * day_length; end = (day - into + length) * day_length }

-- The day begins at midnight, and holds the instant.
pub day_containing-bounds :
    (t : Time)
    → let p = day_containing t in
      (p.start ≤ t) × (t < p.end) × (p.end ≡ p.start + day_length) × (p.start % day_length ≡ 0)
unfolding day_containing
day_containing-bounds t = (omega arith, omega arith, refl, omega arith)

module _ (d1 : ℕ) (h : d1 < 146_097) where
  century-bounds :
      let n = min 3 (d1 / 36_524) in
      (d1 - n * 36_524 < 36_524) ⊎ ((n ≡ 3) × (d1 - n * 36_524 ≡ 36_524))
  century-bounds = omega arith

four-bounds :
    (d2 : ℕ)
    → d2 ≤ 36_524
    → let n4 = d2 / 1461 in
      let n = min 3 (d2 % 1461 / 365) in
      (d2 % 1461 - n * 365 < 365)
      ⊎ ((n ≡ 3) × (d2 % 1461 - n * 365 ≡ 365) × (n4 ≢ 24 ⊎ d2 ≡ 36_524))
four-bounds d2 h = omega arith

-- A day lies within its year, which is one day longer in a leap year.
year_day-bounds :
    (d : ℕ) → let y = year_day d in (y.day < (if is_leap y then 366 else 365)) × (y.day ≤ d)
unfolding year_day is_leap
year_day-bounds d =
    let d1 = d % 146_097 in
    let n100 = min 3 (d1 / 36_524) in
    ground (arith, century-bounds d1 (omega arith), four-bounds (d1 - n100 * 36_524))

pub total_days : List ℕ → ℕ
total_days [] = 0
total_days (length ∷ rest) = length + total_days rest

-- A day of the year lies within its month.
month_day-bounds :
    (lengths : List ℕ) (day : ℕ)
    → day < total_days lengths
    → ((month_day lengths day).0 < (month_day lengths day).1) × ((month_day lengths day).0 ≤ day)
unfolding month_day total_days
month_day-bounds [] day h = absurd (omega arith)
month_day-bounds (length ∷ rest) day h = ground (arith, month_day-bounds rest (day - length))

total_days-month_lengths :
    (leap : Bool) → total_days (month_lengths leap) ≡ (if leap then 366 else 365)
unfolding total_days month_lengths
total_days-month_lengths true = refl
total_days-month_lengths false = refl

pub month_place-bounds : (d : ℕ) → ((month_place d).0 < (month_place d).1) × ((month_place d).0 ≤ d)
unfolding month_place
month_place-bounds d =
    let b = year_day-bounds d in
    let leap = is_leap (year_day d) in
    let w =
      month_day-bounds (month_lengths leap) (year_day d).day
        (subst (λ n. (year_day d).day < n) (sym (total_days-month_lengths leap)) b.0) in
    (w.0, le_trans w.1 b.1)

-- The month holds the whole day of the instant, and it begins and ends at a midnight.
pub month_containing-bounds :
    (t : Time)
    → let month = month_containing t in
      let day = day_containing t in
      (month.start ≤ day.start)
      × (day.end ≤ month.end)
      × (month.start % day_length ≡ 0)
      × (month.end % day_length ≡ 0)
unfolding month_containing day_containing
month_containing-bounds t =
    let w = month_place-bounds (t / day_length) in
    (omega arith, omega arith, omega arith, omega arith)
