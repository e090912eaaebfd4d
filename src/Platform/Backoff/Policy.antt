-- ===== src/Platform/Backoff/Policy.antt =====
-- The retry policy check (ValidateRetryPolicy): it bounds the true retry window.
use native.Mathlib.Nat.{le-div_iff_mul-le}
use cross_border_ecommerce.Base.{
  ℕ, ◌+◌, ◌-◌, ◌*◌, ◌≤◌, ◌<◌, ◌≡◌, refl, ◌↔◌, arith, sign_bit, max_int64, IsWord, Result, ok, err,
}
use cross_border_ecommerce.Platform.Backoff.{
  max_retry_attempts, max_retry_window, validate_retry_policy,
}

abbrev window : ℕ → ℕ → ℕ → ℕ
window attempts handler max_backoff = attempts * handler + (attempts - 1) * max_backoff

max_retry_window_ok :
    (n handler limit w : ℕ)
    → 0 < n
    → n ≤ 100
    → 0 < handler
    → handler < sign_bit
    → 0 < limit
    → limit < sign_bit
    → max_retry_window n handler limit ≡ ok w
    → (w ≡ window n handler limit) × (w < sign_bit)
unfolding max_retry_window
max_retry_window_ok n handler limit w hn hn' hh hh' hc hc' h = ground (
  arith,
  (le-div_iff_mul-le {k = n} {x = handler} {y = max_int64} hn).0,
  (le-div_iff_mul-le {k = n - 1} {x = limit} {y = max_int64 - n * handler}),
)

max_retry_window_fits :
    (n handler limit : ℕ)
    → 0 < n
    → n ≤ 100
    → 0 < handler
    → 0 < limit
    → window n handler limit < sign_bit
    → max_retry_window n handler limit ≡ ok (window n handler limit)
unfolding max_retry_window
max_retry_window_fits n handler limit hn hn' hh hc h = ground (
  arith,
  (le-div_iff_mul-le {k = n} {x = handler} {y = max_int64} hn).1,
  (le-div_iff_mul-le {k = n - 1} {x = limit} {y = max_int64 - n * handler}),
)

-- What the policy promises, in exact arithmetic.
abbrev pub IsSafePolicy : ℕ → ℕ → ℕ → ℕ → ℕ → Type 0
IsSafePolicy attempts base max_backoff handler claim =
    (0 < attempts)
    × (attempts ≤ max_retry_attempts)
    × (0 < base)
    × (base ≤ max_backoff)
    × (max_backoff < sign_bit)
    × (0 < handler)
    × (handler < sign_bit)
    × (window attempts handler max_backoff < claim)
    × (claim < sign_bit)

module _ (attempts base max_backoff handler claim : ℕ) (ha : IsWord attempts) (hb : IsWord base)
    (hm : IsWord max_backoff) (hh : IsWord handler) (hc : IsWord claim)
    (h : validate_retry_policy attempts base max_backoff handler claim ≡ ok tt) where
  accepted_window :
      (r : Result ℕ)
      → max_retry_window attempts handler max_backoff ≡ r
      → IsSafePolicy attempts base max_backoff handler claim
  unfolding validate_retry_policy
  accepted_window (ok w) e = ground (arith, max_retry_window_ok attempts handler max_backoff w)
  accepted_window (err x) e = ground arith

  accepted-IsSafePolicy : IsSafePolicy attempts base max_backoff handler claim
  accepted-IsSafePolicy = accepted_window (max_retry_window attempts handler max_backoff) refl

IsSafePolicy-accepted :
    (attempts base max_backoff handler claim : ℕ)
    → IsSafePolicy attempts base max_backoff handler claim
    → validate_retry_policy attempts base max_backoff handler claim ≡ ok tt
unfolding validate_retry_policy
IsSafePolicy-accepted attempts base max_backoff handler claim s =
    rw (max_retry_window_fits attempts handler max_backoff s.0 s.1 s.5 (omega arith) (omega arith))
      (ground arith)

-- Over 64-bit arguments the check accepts exactly the policies with 1 to 100 attempts, a positive
-- base not above the cap, a positive handler timeout, and a window of all attempts and sleeps that
-- is, in exact arithmetic, below the claim idle time: an overflow is never accepted.
pub validate_retry_policy_iff :
    (attempts base max_backoff handler claim : ℕ)
    → IsWord attempts
    → IsWord base
    → IsWord max_backoff
    → IsWord handler
    → IsWord claim
    → (validate_retry_policy attempts base max_backoff handler claim ≡ ok tt)
      ↔ IsSafePolicy attempts base max_backoff handler claim
validate_retry_policy_iff attempts base max_backoff handler claim ha hb hm hh hc = (
  λ h. accepted-IsSafePolicy attempts base max_backoff handler claim ha hb hm hh hc h,
  IsSafePolicy-accepted attempts base max_backoff handler claim,
)
