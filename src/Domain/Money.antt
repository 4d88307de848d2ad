-- ===== src/Domain/Money.antt =====
-- internal/domain/cost/money.go. The sum of two floats is a parameter, and so is the reader of
-- decimal numbers (strconv.ParseFloat), which fails or returns a float.
use aws_cost_exporter.Base.{◌≡◌, false, [], ◌||◌, not, Option, arith, ◌=?◌}
use aws_cost_exporter.Base.Float.{Float64, is_nan, is_inf}
use aws_cost_exporter.Base.Text.{Text, text_same, is_empty, trim_space, trim_space_idem}
use aws_cost_exporter.Errors.{
  Result, ok, ◌>>=◌, ◌>>◌, fail_if, or_fail, bind_ok, invalid_amount, empty_currency,
  mismatched_currency,
}

pub record Money : Type 0 where
  pub amount : Float64
  pub currency : Text

-- `Money{}`
abbrev pub no_money : Money
no_money = record { amount = 0; currency = [] }

unfoldable pub new_money : Float64 → Text → Result Money
new_money amount currency = do
  fail_if (is_nan amount || is_inf amount) invalid_amount
  let trimmed = trim_space currency
  fail_if (is_empty trimmed) empty_currency
  ok (record { amount = amount; currency = trimmed })

unfoldable pub parse_money : (Text → Option Float64) → Text → Text → Result Money
parse_money parse_float amount currency = do
  value ← or_fail (parse_float (trim_space amount)) invalid_amount
  new_money value currency

-- `Money.Add`
unfoldable pub add : (Float64 → Float64 → Float64) → Money → Money → Result Money
add plus money other = do
  fail_if (not (money.currency =? other.currency)) mismatched_currency
  let sum = plus money.amount other.amount
  fail_if (is_nan sum || is_inf sum) invalid_amount
  ok (record { amount = sum; currency = money.currency })

-- A finite amount in a trimmed currency that is not empty.
pub record IsMoney (m : Money) : Type 0 where
  pub number : is_nan m.amount ≡ false
  pub finite : is_inf m.amount ≡ false
  pub trimmed : trim_space m.currency ≡ m.currency
  pub named : is_empty m.currency ≡ false

-- Every amount that new_money accepts is a well-formed amount: finite, with a currency that is
-- trimmed and not empty.
pub new_money-IsMoney :
    (amount : Float64) (currency : Text) (m : Money) → new_money amount currency ≡ ok m → IsMoney m
unfolding new_money
new_money-IsMoney amount currency m h = ground (arith, trim_space_idem currency)

pub parse_money-IsMoney :
    (parse_float : Text → Option Float64) (amount currency : Text) (m : Money)
    → parse_money parse_float amount currency ≡ ok m
    → IsMoney m
unfolding parse_money
parse_money-IsMoney parse_float amount currency m h =
    let (value, _, made) = bind_ok (or_fail (parse_float (trim_space amount)) invalid_amount) _ h in
    new_money-IsMoney value currency m made

-- A sum of well-formed amounts that add accepts is well formed, in the currency of both.
pub add-IsMoney :
    (plus : Float64 → Float64 → Float64) (a b m : Money)
    → IsMoney a
    → add plus a b ≡ ok m
    → IsMoney m × (m.currency ≡ a.currency) × (m.currency ≡ b.currency)
unfolding add
add-IsMoney plus a b m va h = ground (arith, text_same.same_iff a.currency b.currency)
