-- ===== src/Tests/Retries.antt =====
-- Delays and policies of retries (internal/platform/backoff/backoff.go).
use Prim.Native.Nat.{min}
use cross_border_ecommerce.Base.{ℕ, ◌-◌, ◌*◌, ◌^◌, ◌≡◌, ◌↔◌, arith, ok}
use cross_border_ecommerce.Platform.Backoff.{exponential, validate_retry_policy}
use cross_border_ecommerce.Platform.Backoff.Delay.{exponential-min}
use cross_border_ecommerce.Platform.Backoff.Policy.{IsSafePolicy, validate_retry_policy_iff}

exponential-min_example : exponential 3 100 5000 ≡ min 5000 (100 * 2 ^ 3)
exponential-min_example =
    exponential-min 3 100 5000 (omega arith) (omega arith) (omega arith) (omega arith) (omega arith)

-- A source of random numbers.
abbrev largest : ℕ → ℕ
largest n = n - 1

validate_retry_policy_iff_example :
    (validate_retry_policy 5 100 5000 1000 60000 ≡ ok tt) ↔ IsSafePolicy 5 100 5000 1000 60000
validate_retry_policy_iff_example =
    validate_retry_policy_iff 5 100 5000 1000 60000 (omega arith) (omega arith) (omega arith)
      (omega arith) (omega arith)
