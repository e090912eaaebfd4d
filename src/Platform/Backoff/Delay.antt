-- ===== src/Platform/Backoff/Delay.antt =====
-- The delay of an attempt (Exponential, FullJitter): the capped exponential, whatever overflows.
use Prim.Native.Nat.{min}
use native.Mathlib.Nat.{mul-div_cancel, pow-le-pow_right, one-le-pow, mul-le-mul_left, mul-pos}
use cross_border_ecommerce.Base.{
  ℕ, ◌+◌, ◌*◌, ◌^◌, ◌≤◌, ◌<◌, ◌≡◌, inl, inr, some, arith, ltb, Bool-cases, sign_bit, max_int64,
}
use cross_border_ecommerce.Platform.Backoff.{capped_product, exponential, full_jitter}

capped_product_fits :
    (base m limit : ℕ)
    → 0 < base
    → 0 < m
    → limit < sign_bit
    → base * m ≤ limit
    → capped_product base m limit ≡ base * m
unfolding capped_product
capped_product_fits base m limit hb hm hc h = grind (arith, mul-div_cancel base hm)

capped_product_over :
    (base m limit : ℕ)
    → 0 < base
    → 0 < m
    → 0 < limit
    → limit < sign_bit
    → limit < base * m
    → capped_product base m limit ≡ limit
unfolding capped_product
capped_product_over base m limit hb hm hp hc h = grind arith

pow_pos : (n : ℕ) → 0 < 2 ^ n
pow_pos n = one-le-pow n 2 (omega arith)

-- Below 62 attempts no limit is in the way of the product.
exponential_small :
    (attempt base limit : ℕ)
    → attempt < 62
    → 0 < base
    → base < sign_bit
    → 0 < limit
    → limit < sign_bit
    → exponential attempt base limit ≡ min limit (base * 2 ^ attempt)
unfolding exponential
exponential_small attempt base limit ha hb hb' hc hc' = ground (
  arith,
  pow_pos attempt,
  capped_product_fits base (2 ^ attempt) limit,
  capped_product_over base (2 ^ attempt) limit,
)

exponential_large :
    (attempt base limit : ℕ)
    → 62 ≤ attempt
    → attempt < sign_bit
    → 0 < base
    → base < sign_bit
    → 0 < limit
    → limit < sign_bit
    → exponential attempt base limit ≡ limit
unfolding exponential
exponential_large attempt base limit ha ha' hb hb' hc hc' = ground arith

le-product :
    (attempt base limit : ℕ) → 62 ≤ attempt → 0 < base → limit ≤ 2 ^ 62 → limit ≤ base * 2 ^ attempt
le-product attempt base limit ha hb hc =
    let h : 2 ^ 62 ≤ 2 ^ attempt = pow-le-pow_right {n = 2} (omega arith) ha in grind (arith, h)

-- For a base and a limit that are positive, a limit of at most 2 ^ 62 and every attempt count that is
-- not negative, the delay is exactly min(cap, base * 2 ^ attempt), in spite of 64-bit overflow.
pub exponential-min :
    (attempt base limit : ℕ)
    → attempt < sign_bit
    → 0 < base
    → base < sign_bit
    → 0 < limit
    → limit ≤ 2 ^ 62
    → exponential attempt base limit ≡ min limit (base * 2 ^ attempt)
exponential-min attempt base limit ha hb hb' hc hc' = elim (Bool-cases (ltb attempt 62)) [
  | inl small ↦ exponential_small attempt base limit (ground arith) hb hb' hc (omega arith)
  | inr large ↦ ground (arith, exponential_large attempt base limit, le-product attempt base limit)
]

-- For a positive base and a positive limit the delay is positive, never above the limit, and it does not
-- fall as the attempt count grows.
pub exponential_mono :
    (attempt later base limit : ℕ)
    → attempt ≤ later
    → later < sign_bit
    → 0 < base
    → base < sign_bit
    → 0 < limit
    → limit < sign_bit
    → (0 < exponential attempt base limit)
      × (exponential attempt base limit ≤ exponential later base limit)
      × (exponential later base limit ≤ limit)
exponential_mono attempt later base limit h hl hb hb' hc hc' =
    let grows : 2 ^ attempt ≤ 2 ^ later = pow-le-pow_right {n = 2} (omega arith) h in
    let scaled : base * 2 ^ attempt ≤ base * 2 ^ later = mul-le-mul_left base grows in
    let positive : 0 < base * 2 ^ attempt = mul-pos hb (pow_pos attempt) in
    ground (
      arith,
      exponential_small attempt base limit,
      exponential_small later base limit,
      exponential_large attempt base limit,
      exponential_large later base limit,
    )

-- With a limit below the largest int64, and a source whose number below a positive bound is below that
-- bound, the jittered delay exists and is at most the delay of the attempt.
pub full_jitter-le :
    (int64_n : ℕ → ℕ) (attempt base limit : ℕ)
    → ((n : ℕ) → 0 < n → n < sign_bit → int64_n n < n)
    → attempt < sign_bit
    → 0 < base
    → base < sign_bit
    → 0 < limit
    → limit < max_int64
    → (d : ℕ) × (full_jitter int64_n attempt base limit ≡ some d)
      × (d ≤ exponential attempt base limit)
unfolding full_jitter
full_jitter-le int64_n attempt base limit hr ha hb hb' hc hc' =
    let shape =
      exponential_mono attempt attempt base limit (omega arith) ha hb hb' hc (omega arith) in
    let e = exponential attempt base limit in
    (int64_n (e + 1), ground arith, ground (arith, hr (e + 1)))
