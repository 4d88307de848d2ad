-- ===== src/Errors.antt =====
-- The sentinel errors of the packages, and the outcome of a call that returns `(value, error)`.
-- What fmt.Errorf adds around a sentinel is text that no caller reads.
use aws_cost_exporter.Base.{
  ℕ, List, if◌then◌else◌, Bool, true, false, not, ◌≡◌, ◌↔◌, refl, Option, none, some, arith,
}

-- internal/aws/common/errors.go
pub data ErrorKind : Type 0 where
  canceled timeout throttle authorization validation transient unknown : ErrorKind

pub data Error : Type 0 where
  -- internal/domain/cost
  invalid_amount empty_currency mismatched_currency invalid_period invalid_dimension : Error
  -- internal/domain/snapshot: the three texts under ErrInvalidSnapshot
  identity_mismatch invalid_identity duplicate_labels : Error
  -- internal/cache/memory
  invalid_cache_config invalid_collector organization_series_limit : Error
  -- internal/collector
  invalid_series_limit mixed_currency reserved_dimension invalid_cost_identity : Error
  invalid_overflow_label invalid_registration duplicate_registration unknown_collector : Error
  -- the collectors below internal/collector
  nil_reader invalid_account_id invalid_target : Error
  invalid_prediction_interval anomaly_series_limit : Error
  inconsistent_summary commitment_series_limit : Error
  invalid_tag_collector tag_series_limit tag_values_limit tag_boundary tag_currency : Error
  cur_limits cur_currency_limit cur_tag_series_limit cur_series_limit cur_tag_key : Error
  -- internal/httpserver
  invalid_http_config : Error
  -- internal/scheduler
  invalid_scheduler_config : Error
  -- internal/aws/costexplorer
  duplicate_page_token invalid_page page_limit_exceeded invalid_page_limit : Error
  invalid_response : Error
  -- internal/aws/organizations
  invalid_organizations_config account_limit_exceeded : Error
  -- internal/config: what a message is about, by its path
  invalid_config : List ℕ → Error
  -- a failure that AWS or the context reports, as `*common.ClassifiedError` does
  classified : ErrorKind → Bool → Error

pub data Result {ℓ} (A : Type ℓ) : Type ℓ where
  ok : A → Result A
  err : Error → Result A

-- `if c { return err }`
abbrev pub fail_if : Bool → Error → Result (Unit {0})
fail_if cond e = if cond then err e else ok tt

-- `if err != nil { return err }` after a call, and then the rest of the function.
infixl 5 ◌>>=◌ ◌>>◌
abbrev pub ◌>>=◌ {ℓ κ} : {V : Type ℓ} {W : Type κ} → Result V → (V → Result W) → Result W
err failure >>= rest = err failure
ok value >>= rest = rest value

abbrev pub ◌>>◌ {κ} : {W : Type κ} → Result (Unit {0}) → Result W → Result W
check >> rest = check >>= λ _. rest

abbrev pub or_fail {ℓ} : {A : Type ℓ} → Option A → Error → Result A
or_fail none e = err e
or_fail (some a) e = ok a

-- A chain that succeeds took a value from its first call.
pub bind_ok {κ ℓ} :
    {W : Type κ} {w : W} {V : Type ℓ} (first : Result V) (rest : V → Result W)
    (made : (first >>= rest) ≡ ok w)
    → (v : V) × (first ≡ ok v) × (rest v ≡ ok w)
bind_ok (err failure) rest made = cc
bind_ok (ok v) rest made = (v, refl, made)

abbrev pub is_ok {ℓ} : {A : Type ℓ} → Result A → Bool
is_ok (ok _) = true
is_ok (err _) = false

pub fail_if-not : (b : Bool) (e : Error) → (fail_if (not b) e ≡ ok tt) ↔ (b ≡ true)
fail_if-not b e = (λ h. ground arith, λ h. ground arith)

pub ok_injective {ℓ} : {A : Type ℓ} {a b : A} → ok a ≡ ok b → a ≡ b
ok_injective h = cc

-- A check before the rest of a chain that succeeds let it through.
pub check_passed {κ} :
    {W : Type κ} {w : W} (b : Bool) (e : Error) (rest : Result W)
    → (fail_if b e >> rest) ≡ ok w
    → (b ≡ false) × (rest ≡ ok w)
check_passed true e rest h = cc
check_passed false e rest h = (refl, h)
