-- ===== src/Aws/Failures.antt =====
-- ClassifyError of internal/aws/common/errors.go, IsThrottleCode of instrumentation.go and the backoff
-- of retry.go. What errors.Is and errors.As find in an error is its Failure; strings.ToLower and the
-- jitter are not part of the repository.
use aws_cost_exporter.Base.{
  ltb, ◌-◌, ◌%◌, ◌^◌, ℕ, zero, suc, ◌/◌, Bool, true, false, ◌||◌, if◌then◌else◌, ◌=?◌, Option, none,
  some,
}
use aws_cost_exporter.Base.Int.{ℤ, pos, negsuc, ltb_ℤ, sub_ℕ, times}
use aws_cost_exporter.Base.Text.{Text, text, text_same}
use aws_cost_exporter.Errors.{
  Error, classified, canceled, timeout, throttle, authorization, validation, transient, unknown,
}
use aws_cost_exporter.Config.Patterns.{contains_text}

pub record Failure : Type 0 where
  -- `errors.Is` with context.Canceled and with context.DeadlineExceeded
  pub is_canceled : Bool
  pub is_late : Bool
  -- a net.Error, with its `Timeout()`
  pub network : Option Bool
  -- a smithy.APIError, with its `ErrorCode()`
  pub code : Option Text

-- `IsThrottleCode`
unfoldable pub is_throttle_code : Text → Bool
is_throttle_code code =
    code =? text "Throttling"
    || code =? text "ThrottlingException"
    || code =? text "TooManyRequestsException"
    || code =? text "RequestLimitExceeded"
    || code =? text "LimitExceededException"

-- The switch over the code of an API error
unfoldable pub classify_code : (Text → Text) → Text → Error
unfolding is_throttle_code
classify_code to_lower given =
    let code = to_lower given in
    if is_throttle_code given
    then classified throttle true
    else if contains_text code (text "accessdenied")
        || contains_text code (text "unauthorized")
        || contains_text code (text "notauthorized")
    then classified authorization false
    else if contains_text code (text "validation") || contains_text code (text "invalid")
    then classified validation false
    else if contains_text code (text "unavailable")
        || contains_text code (text "internal")
        || contains_text code (text "serviceexception")
    then classified transient true
    else classified unknown false

abbrev pub classify_api : (Text → Text) → Option Text → Error
classify_api to_lower none = classified unknown false
classify_api to_lower (some code) = classify_code to_lower code

abbrev pub classify_network : (Text → Text) → Option Bool → Option Text → Error
classify_network to_lower none code = classify_api to_lower code
classify_network to_lower (some late) code = classified (if late then timeout else transient) true

-- `ClassifyError`, of an error that is not nil
unfoldable pub classify_error : (Text → Text) → Failure → Error
unfolding classify_code
classify_error to_lower failure =
    if failure.is_canceled
    then classified canceled false
    else if failure.is_late
    then classified timeout true
    else classify_network to_lower failure.network failure.code

-- What the library finds in the errors of the calls: errors.Is and errors.As, and strings.ToLower
pub record ErrorReader : Type 0 where
  pub failure_of : Error → Failure
  pub to_lower : Text → Text

-- ClassifyError, of the error of a call
unfoldable pub classified_by : ErrorReader → Error → Error
unfolding classify_error
classified_by errors e = classify_error errors.to_lower (errors.failure_of e)

abbrev half_limit : ℤ → ℤ
half_limit (pos n) = pos (n / 2)
half_limit (negsuc n) = sub_ℕ 0 (suc n / 2)

-- A signed number of 64 bits, as multiplication leaves it
unfoldable pub wrap : ℤ → ℤ
wrap (pos n) = sub_ℕ (n % 2 ^ 64) (if ltb (n % 2 ^ 64) (2 ^ 63) then 0 else 2 ^ 64)
wrap (negsuc n) =
    let low = n % 2 ^ 64 in if ltb low (2 ^ 63) then negsuc low else pos (2 ^ 64 - 1 - low)

-- The loop of `BackoffDelay`, on the steps that are left
unfoldable pub backoff_steps : ℤ → ℕ → ℤ → ℤ
unfolding wrap
backoff_steps max zero delay = delay
backoff_steps max (suc left) delay =
    let rest = backoff_steps max left (wrap (times 2 delay)) in
    if ltb_ℤ delay max then if ltb_ℤ (half_limit max) delay then max else rest else delay

abbrev pub capped : ℤ → ℤ → ℤ
capped max delay = if ltb_ℤ max delay then max else delay

abbrev pub steps_of : ℤ → ℕ
steps_of (pos (suc n)) = n
steps_of _ = 0

-- `BackoffDelay`; `jitter` is what `time.Duration(rand.Float64() * float64(delay))` gives in the call.
unfoldable pub backoff_delay : (ℤ → ℤ) → ℤ → ℤ → ℤ → ℤ
unfolding backoff_steps
backoff_delay jitter base max attempt =
    jitter (capped max (backoff_steps max (steps_of attempt) base))
