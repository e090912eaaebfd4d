-- ===== src/Base/Int64.antt =====
-- Go's int, int64 and time.Duration: 64-bit words in two's complement. A value is its bit pattern,
-- a number below 2 ^ 64 that stands for a negative integer from 2 ^ 63 on.
use Prim.Native.Nat.{ℕ, ◌+◌, ◌-◌, ◌*◌, ◌%◌, ◌<◌}
use mathlib.Core.Path.{◌≡◌}
use mathlib.Core.Logic.{◌↔◌}
use mathlib.Core.Bool.{Bool, true, false}
use native.Mathlib.Omega.{arith}
use cross_border_ecommerce.Base.Tests.{ltb, leb}

-- 2 ^ 63 and 2 ^ 64.
abbrev pub sign_bit : ℕ
sign_bit = 9223372036854775808

abbrev pub word_mod : ℕ
word_mod = 18446744073709551616

abbrev pub max_int64 : ℕ
max_int64 = 9223372036854775807

abbrev pub IsWord : ℕ → Type 0
IsWord x = x < word_mod

abbrev pub is_negative : ℕ → Bool
is_negative x = leb sign_bit x

abbrev pub add64 : ℕ → ℕ → ℕ
add64 a b = (a + b) % word_mod

abbrev pub sub64 : ℕ → ℕ → ℕ
sub64 a b = (a + word_mod - b) % word_mod

abbrev pub mul64 : ℕ → ℕ → ℕ
mul64 a b = (a * b) % word_mod

-- The order of the signed values.
abbrev pub slt : ℕ → ℕ → Bool
slt a b = ltb ((a + sign_bit) % word_mod) ((b + sign_bit) % word_mod)

abbrev pub sle : ℕ → ℕ → Bool
sle a b = leb ((a + sign_bit) % word_mod) ((b + sign_bit) % word_mod)

pub slt_iff_nonneg : (a b : ℕ) → a < sign_bit → b < sign_bit → (slt a b ≡ true) ↔ (a < b)
slt_iff_nonneg a b ha hb = ground arith

pub sle_zero_iff : (a : ℕ) → a < word_mod → (sle a 0 ≡ false) ↔ ((0 < a) × (a < sign_bit))
sle_zero_iff a ha = ground arith
