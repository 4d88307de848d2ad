-- ===== src/Aws/Retries.antt =====
-- What ClassifyError marks as retryable, and the delays of the retries.
use aws_cost_exporter.Base.{
  ◌<◌, ◌/◌, ℕ, zero, suc, ◌*◌, ◌^◌, ◌≤◌, ◌≡◌, ◌≢◌, ◌↔◌, ◌⊎◌, inl, inr, refl, min, Bool, true, false,
  if◌then◌else◌, Option, none, some, arith, Bool-cases,
}
use aws_cost_exporter.Base.Int.{ℤ, ◌≤ℤ◌, ltb_ℤ, times, pos}
use aws_cost_exporter.Base.Text.{Text, text_same}
use aws_cost_exporter.Errors.{
  Error, ErrorKind, classified, canceled, timeout, throttle, authorization, validation, transient,
  unknown,
}
use aws_cost_exporter.Aws.Failures.{
  wrap, Failure, classify_code, classify_network, classify_error, backoff_steps, capped,
  backoff_delay,
}

power_positive : (n : ℕ) → 1 ≤ 2 ^ n
power_positive zero = omega arith
power_positive (suc n) = omega (arith, power_positive n)

grows : (d p : ℕ) → 1 ≤ p → d ≤ d * p
grows zero p h = omega arith
grows (suc d) p h = omega (arith, grows d p h, h)

doubled : (d p : ℕ) → d * (2 * p) ≡ (2 * d) * p
doubled zero p = omega arith
doubled (suc d) p = omega (arith, doubled d p)

doubled_exact : (n : ℕ) → 2 * n < 2 ^ 63 → wrap (times 2 (pos n)) ≡ pos (2 * n)
unfolding wrap
doubled_exact n h = ground arith

steps_double :
    (max left delay : ℕ)
    → max < 2 ^ 63
    → capped (pos max) (backoff_steps (pos max) left (pos delay)) ≡ pos (min max (delay * 2 ^ left))
unfolding backoff_steps
steps_double max zero delay bound = ground arith
steps_double max (suc left) delay bound =
    let p = 2 ^ left in
    elim (Bool-cases (ltb_ℤ (pos (max / 2)) (pos delay))) [
      | inl large ↦
          rw large (ground (arith, grows (2 * delay) p (power_positive left), doubled delay p))
      | inr small ↦ rw small (
          rw (doubled_exact delay (ground (arith, bound, small))) (
            ground (
              arith,
              grows (2 * delay) p (power_positive left),
              doubled delay p,
              steps_double max left (2 * delay) bound,
            )))
    ]

-- What a product with a fraction of the unit interval is: between 0 and the delay
abbrev pub IsJitter : (ℤ → ℤ) → Type 0
IsJitter jitter = (n : ℕ) → (pos 0 ≤ℤ jitter (pos n)) × (jitter (pos n) ≤ℤ pos n)

-- With a base delay and a maximum that are not negative, and a maximum of 63 bits, the number that
-- the jitter scales before retry n + 1 is the base doubled n times, or the maximum if that is less: the
-- loop never doubles past the range of 64 bits, whatever the number of attempts is. The delay is then
-- not negative, no longer than the maximum, and no longer than the base doubled n times.
pub backoff_delay_lem :
    (jitter : ℤ → ℤ) (base max n : ℕ)
    → IsJitter jitter
    → max < 2 ^ 63
    → let delay = backoff_delay jitter (pos base) (pos max) (pos (suc n)) in
      (delay ≡ jitter (pos (min max (base * 2 ^ n))))
      × (pos 0 ≤ℤ delay)
      × (delay ≤ℤ pos max)
      × (delay ≤ℤ pos (base * 2 ^ n))
unfolding backoff_delay
backoff_delay_lem jitter base max n scaled bound = rw (steps_double max n base bound) (
    let (low, high) = scaled (min max (base * 2 ^ n)) in
    (refl, low, ground (arith, high), ground (arith, high)))

abbrev IsTransient : ErrorKind → Type 0
IsTransient kind = (kind ≡ timeout) ⊎ (kind ≡ throttle) ⊎ (kind ≡ transient)

-- What a classification says of retries
abbrev Sorted : Bool → Error → Type 0
Sorted is_canceled error =
    (kind : ErrorKind) × (retryable : Bool) × (error ≡ classified kind retryable)
    × ((retryable ≡ true) ↔ IsTransient kind)
    × ((kind ≡ canceled) ↔ (is_canceled ≡ true))

abbrev IsRegular : Error → Type 0
IsRegular error =
    (kind : ErrorKind) × (retryable : Bool) × (error ≡ classified kind retryable)
    × ((retryable ≡ true) ↔ IsTransient kind)
    × (kind ≢ canceled)

picked : (b : Bool) (x y : Error) → IsRegular x → IsRegular y → IsRegular (if b then x else y)
picked true x y h k = h
picked false x y h k = k

refused_kind :
    (kind : ErrorKind) → kind ≢ timeout → kind ≢ throttle → kind ≢ transient → IsTransient kind → ⊥
refused_kind kind a b c (inl e) = a e
refused_kind kind a b c (inr (inl e)) = b e
refused_kind kind a b c (inr (inr e)) = c e

final_kind :
    (kind : ErrorKind)
    → kind ≢ timeout
    → kind ≢ throttle
    → kind ≢ transient
    → kind ≢ canceled
    → IsRegular (classified kind false)
final_kind kind a b c d = (kind, false, refl, (λ e. cc, λ t. absurd (refused_kind kind a b c t)), d)

passing_kind :
    (kind : ErrorKind) → IsTransient kind → kind ≢ canceled → IsRegular (classified kind true)
passing_kind kind t d = (kind, true, refl, (λ e. t, λ u. refl), d)

classify_code-IsRegular :
    (to_lower : Text → Text) (code : Text) → IsRegular (classify_code to_lower code)
unfolding classify_code
classify_code-IsRegular to_lower code =
    picked _ _ _ (passing_kind throttle (inr (inl refl)) (λ e. cc)) (
      picked _ _ _ (final_kind authorization (λ e. cc) (λ e. cc) (λ e. cc) (λ e. cc)) (
        picked _ _ _ (final_kind validation (λ e. cc) (λ e. cc) (λ e. cc) (λ e. cc)) (
          picked _ _ _ (passing_kind transient (inr (inr refl)) (λ e. cc))
            (final_kind unknown (λ e. cc) (λ e. cc) (λ e. cc) (λ e. cc)))))

classify_network-IsRegular :
    (to_lower : Text → Text) (network : Option Bool) (code : Option Text)
    → IsRegular (classify_network to_lower network code)
classify_network-IsRegular to_lower none none =
    final_kind unknown (λ e. cc) (λ e. cc) (λ e. cc) (λ e. cc)
classify_network-IsRegular to_lower none (some code) = classify_code-IsRegular to_lower code
classify_network-IsRegular to_lower (some true) code = passing_kind timeout (inl refl) (λ e. cc)
classify_network-IsRegular to_lower (some false) code =
    passing_kind transient (inr (inr refl)) (λ e. cc)

IsRegular→Sorted : (error : Error) → IsRegular error → Sorted false error
IsRegular→Sorted error (kind, retryable, e, t, d) =
    (kind, retryable, e, t, (λ k. absurd (d k), λ k. cc))

-- Whatever an error is, ClassifyError gives it one kind; it is retryable exactly as a timeout, as
-- throttling or as transient, and of the kind canceled exactly when the context was canceled.
classify_error-Sorted :
    (to_lower : Text → Text) (failure : Failure)
    → Sorted failure.is_canceled (classify_error to_lower failure)
unfolding classify_error
classify_error-Sorted to_lower failure = elim (Bool-cases failure.is_canceled) [
  | inl on ↦ rw on (
    canceled,
    false,
    refl,
    (λ e. cc, λ t. absurd (refused_kind canceled (λ e. cc) (λ e. cc) (λ e. cc) t)),
    (λ e. refl, λ e. refl),
  )
  | inr off ↦ rw off (
      IsRegular→Sorted _ (
        picked failure.is_late _ _ (passing_kind timeout (inl refl) (λ e. cc))
          (classify_network-IsRegular to_lower failure.network failure.code)))
]
