-- ===== src/Platform/Backoff.antt =====
-- internal/platform/backoff/backoff.go. Durations and attempt counts are 64-bit words.
pub mod Delay
pub mod Policy
use cross_border_ecommerce.Base.{
  ℕ, suc, ◌+◌, ◌-◌, ◌*◌, ◌/◌, ◌%◌, ◌^◌, Bool, true, false, not, ◌&&◌, ◌||◌, Option, none, some, ltb,
  leb, ◌==◌, if◌then◌else◌, is_negative, sign_bit, word_mod, max_int64, slt, sle, add64, sub64,
  mul64, Result, ok, err, Error, invalid_retry_policy, ◌>>=◌, ◌>>◌, fail_if,
}

-- MaxRetryAttempts.
abbrev pub max_retry_attempts : ℕ
max_retry_attempts = 100

-- `base * multiplier` in 64 bits, or the cap where the product is not positive, exceeds the cap, or
-- does not divide back to `base`.
pub capped_product : ℕ → ℕ → ℕ → ℕ
capped_product base multiplier max_backoff =
    let res = mul64 base multiplier in
    if sle res 0 || (slt max_backoff res || not (res / multiplier == base))
    then max_backoff
    else res

-- Exponential.
unfoldable pub exponential : ℕ → ℕ → ℕ → ℕ
unfolding capped_product
exponential attempt base max_backoff =
    if sle base 0
    then 0
    else if sle max_backoff 0
    then 0
    else let attempt' = if is_negative attempt then 0 else attempt in
      if leb 62 attempt' then max_backoff else capped_product base (2 ^ attempt') max_backoff

-- FullJitter, over `rand.Int64N` as a function of its bound. `none` is the panic of `Int64N` on a
-- bound that is not positive.
unfoldable pub full_jitter : (ℕ → ℕ) → ℕ → ℕ → ℕ → Option ℕ
full_jitter int64_n attempt base max_backoff =
    let ceiling = exponential attempt base max_backoff in
    if sle ceiling 0
    then some 0
    else let bound = add64 ceiling 1 in if sle bound 0 then none else some (int64_n bound)

-- The sleeps between the attempts, added to the time of the handlers.
abbrev add_sleeps : ℕ → ℕ → ℕ → Result ℕ
add_sleeps window sleeps max_backoff =
    if slt 0 sleeps && slt 0 max_backoff
    then (if slt (sub64 max_int64 window / sleeps) max_backoff
        then err invalid_retry_policy
        else ok (add64 window (mul64 sleeps max_backoff)))
    else ok window

-- maxRetryWindow. The divisions are between numbers that are not negative where it is called.
unfoldable pub max_retry_window : ℕ → ℕ → ℕ → Result ℕ
max_retry_window attempts handler_timeout max_backoff =
    if slt (max_int64 / attempts) handler_timeout
    then err invalid_retry_policy
    else add_sleeps (mul64 attempts handler_timeout) (sub64 attempts 1) max_backoff

-- ValidateRetryPolicy.
unfoldable pub validate_retry_policy : ℕ → ℕ → ℕ → ℕ → ℕ → Result (Unit {0})
validate_retry_policy attempts base_backoff max_backoff handler_timeout claim_min_idle = do
  fail_if (slt attempts 1 || slt max_retry_attempts attempts) invalid_retry_policy
  fail_if (sle base_backoff 0) invalid_retry_policy
  fail_if (slt max_backoff base_backoff) invalid_retry_policy
  fail_if (sle handler_timeout 0) invalid_retry_policy
  window ← max_retry_window attempts handler_timeout max_backoff
  fail_if (sle claim_min_idle window) invalid_retry_policy
