-- ===== src/Domain/Month.antt =====
-- The start of MonthContaining is the first day of the month of its argument: it is no day after the
-- argument's, it is day one of a month, and no later day up to the argument's is.
use native.Mathlib.Nat.{le_trans}
use aws_cost_exporter.Base.{
  ℕ, ◌-◌, ◌*◌, ◌/◌, ◌%◌, ◌≤◌, ◌<◌, ◌≡◌, ◌≢◌, refl, sym, ap, subst, ◌∙◌, List, [], ◌∷◌, arith, min,
}
use aws_cost_exporter.Domain.Period.{
  Time, YearDay, year_day, is_leap, month_lengths, month_day, month_place, month_containing,
  day_length,
}

-- Going back from a number within its last cycle keeps the cycle.
module _ (d j : ℕ) where
  back_cycle :
      j ≤ d % 146_097 → ((d - j) / 146_097 ≡ d / 146_097) × ((d - j) % 146_097 ≡ d % 146_097 - j)
  back_cycle h = (omega arith, omega arith)

  back_four : j ≤ d % 1461 → ((d - j) / 1461 ≡ d / 1461) × ((d - j) % 1461 ≡ d % 1461 - j)
  back_four h = (omega arith, omega arith)

  back_century :
      d < 146_097
      → j ≤ d - min 3 (d / 36_524) * 36_524
      → min 3 ((d - j) / 36_524) ≡ min 3 (d / 36_524)
  back_century b h = omega arith

  back_year : d < 1461 → j ≤ d - min 3 (d / 365) * 365 → min 3 ((d - j) / 365) ≡ min 3 (d / 365)
  back_year b h = omega arith

-- The stages of `year_day`: within four years, within a century, within four centuries
abbrev in_four : ℕ → ℕ → ℕ → ℕ → YearDay
in_four cycles centuries fours d = record {
  cycles = cycles;
  centuries = centuries;
  fours = fours;
  years = min 3 (d / 365);
  day = d - min 3 (d / 365) * 365;
}

abbrev in_century : ℕ → ℕ → ℕ → YearDay
in_century cycles centuries d = in_four cycles centuries (d / 1461) (d % 1461)

abbrev in_cycle : ℕ → ℕ → YearDay
in_cycle cycles d = in_century cycles (min 3 (d / 36_524)) (d - min 3 (d / 36_524) * 36_524)

abbrev earlier : YearDay → ℕ → YearDay
earlier y j = record y { day = y.day - j }

swap_minus : (a b c : ℕ) → a - b - c ≡ a - c - b
swap_minus a b c = omega arith

in_four-back :
    (c n f d j : ℕ)
    → d < 1461
    → j ≤ (in_four c n f d).day
    → in_four c n f (d - j) ≡ earlier (in_four c n f d) j
in_four-back c n f d j b h = rw (back_year d j b h) (
    ap (λ day. record { cycles = c; centuries = n; fours = f; years = min 3 (d / 365); day = day })
      (swap_minus d j (min 3 (d / 365) * 365)))

in_century-back :
    (c n d j : ℕ)
    → j ≤ (in_century c n d).day
    → in_century c n (d - j) ≡ earlier (in_century c n d) j
in_century-back c n d j h =
    let (q, r) = back_four d j (omega (arith, h)) in
    ap (λ x. in_four c n x ((d - j) % 1461)) q
    ∙ ap (in_four c n (d / 1461)) r
    ∙ in_four-back c n (d / 1461) (d % 1461) j (omega arith) h

in_cycle-back :
    (c d j : ℕ)
    → d < 146_097
    → j ≤ (in_cycle c d).day
    → in_cycle c (d - j) ≡ earlier (in_cycle c d) j
in_cycle-back c d j b h =
    let n = min 3 (d / 36_524) in
    ap (λ m. in_century c m (d - j - m * 36_524)) (back_century d j b (omega (arith, h)))
    ∙ ap (in_century c n) (swap_minus d j (n * 36_524))
    ∙ in_century-back c n (d - n * 36_524) j h

year_day-back : (d j : ℕ) → j ≤ (year_day d).day → year_day (d - j) ≡ earlier (year_day d) j
unfolding year_day
year_day-back d j h =
    let (q, r) = back_cycle d j (omega (arith, h)) in
    ap (λ x. in_cycle x ((d - j) % 146_097)) q
    ∙ ap (in_cycle (d / 146_097)) r
    ∙ in_cycle-back (d / 146_097) (d % 146_097) j (omega arith) h

month_day-below : (lengths : List ℕ) (day : ℕ) → (month_day lengths day).0 ≤ day
unfolding month_day
month_day-below [] day = omega arith
month_day-below (length ∷ rest) day = ground (arith, month_day-below rest (day - length))

month_day-back :
    (lengths : List ℕ) (day j : ℕ)
    → j ≤ (month_day lengths day).0
    → (month_day lengths (day - j)).0 ≡ (month_day lengths day).0 - j
unfolding month_day
month_day-back [] day j h = refl
month_day-back (length ∷ rest) day j h = ground (
  arith,
  month_day-below rest (day - length),
  month_day-back rest (day - length) j,
  swap_minus day j length,
)

-- The day of the month goes back with the day, up to the first.
month_place-back :
    (d j : ℕ) → j ≤ (month_place d).0 → (month_place (d - j)).0 ≡ (month_place d).0 - j
unfolding month_place is_leap
month_place-back d j h =
    let y = year_day d in
    let lengths = month_lengths (is_leap y) in
    let within = year_day-back d j (le_trans h (month_day-below lengths y.day)) in
    ap (λ (z : YearDay). (month_day (month_lengths (is_leap z)) z.day).0) within
    ∙ month_day-back lengths y.day j h

-- The day of an instant, and the place of a day in its month, which is 0 for the first
abbrev pub day_of : Time → ℕ
day_of t = t / day_length

abbrev pub day_in_month : ℕ → ℕ
day_in_month day = (month_place day).0

-- The instant is the midnight of day one of the month of the other.
abbrev pub BeginsMonthOf : Time → Time → Type 0
BeginsMonthOf start t =
    (start ≡ day_of start * day_length)
    × (day_of start ≤ day_of t)
    × (day_in_month (day_of start) ≡ 0)
    × ((day : ℕ) → day_of start < day → day ≤ day_of t → day_in_month day ≢ 0)

later_day : (d k : ℕ) → d - day_in_month d < k → k ≤ d → day_in_month k ≢ 0
later_day d k above below zeroth =
    let j = d - k in
    let same = month_place-back d j (omega (arith, above, below)) in
    let back : d - j ≡ k = omega (arith, below) in
    absurd (
      omega
        (arith, above, below, subst (λ n. day_in_month n ≡ day_in_month d - j) back same, zeroth))

pub month_containing-BeginsMonthOf : (t : Time) → BeginsMonthOf (month_containing t).start t
unfolding month_containing
month_containing-BeginsMonthOf t =
    let d = t / day_length in
    let first = d - day_in_month d in
    let exact : first * day_length / day_length ≡ first = omega arith in
    (
      ap (λ n. n * day_length) (sym exact),
      omega arith,
      ap day_in_month exact ∙ month_place-back d (day_in_month d) (omega arith) ∙ omega arith,
      λ k above below. later_day d k (subst (λ n. n < k) exact above) below,
    )
