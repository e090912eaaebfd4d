-- ===== src/Base/Decimal.antt =====
-- strconv.Itoa and strconv.ParseInt with base 10 on the numbers below 2 ^ 63.
use Prim.Native.Nat.{ℕ, zero, suc, ◌+◌, ◌-◌, ◌*◌, ◌/◌, ◌%◌, ◌^◌, ◌≤◌, ◌<◌}
use mathlib.Core.Path.{◌≡◌, refl, ap, ◌∙◌}
use mathlib.Core.Logic.{inl, inr}
use mathlib.Core.Bool.{Bool, true, false, ◌&&◌}
use mathlib.Core.Option.{Option, none, some}
use mathlib.Core.List.{[], ◌∷◌}
use native.Mathlib.Omega.{arith}
use cross_border_ecommerce.Base.Tests.{◌==◌, leb, if◌then◌else◌, Bool-cases}
use cross_border_ecommerce.Base.Lists.{All}
use cross_border_ecommerce.Base.Strings.{Text, is_space}

-- The digits of a number before a text; the number itself is fuel for the divisions by ten.
unfoldable digits : ℕ → ℕ → Text → Text
digits zero n out = out
digits (suc fuel) n out =
    let rest = digits fuel (n / 10) ((b'0' + n % 10) ∷ out) in if n == 0 then out else rest

-- Itoa and %d, on a number that is not negative.
unfoldable pub itoa : ℕ → Text
unfolding digits
itoa n = if n == 0 then b'0' ∷ [] else digits n n []

unfoldable read_digits : ℕ → Text → Option ℕ
read_digits n [] = some n
read_digits n (c ∷ s) =
    let rest = read_digits (n * 10 + (c - b'0')) s in
    if leb b'0' c && leb c b'9' then rest else none

abbrev some_below : ℕ → Option ℕ → Option ℕ
some_below limit none = none
some_below limit (some n) = if leb n limit then some n else none

unfoldable unsigned : ℕ → Text → Option ℕ
unfolding read_digits
unsigned limit [] = none
unsigned limit (c ∷ s) = some_below limit (read_digits 0 (c ∷ s))

abbrev signed : Bool → Option ℕ → Option (Bool × ℕ)
signed negative none = none
signed negative (some n) = some (negative, n)

-- ParseInt(s, 10, 64) and Atoi: the sign and the magnitude.
unfoldable pub parse_int : Text → Option (Bool × ℕ)
unfolding unsigned
parse_int [] = none
parse_int (c ∷ s) =
    if c == b'-'
    then signed true (unsigned (2 ^ 63) s)
    else if c == b'+'
    then signed false (unsigned (2 ^ 63 - 1) s)
    else signed false (unsigned (2 ^ 63 - 1) (c ∷ s))

abbrev IsDigit : ℕ → Type 0
IsDigit c = (b'0' ≤ c) × (c ≤ b'9')

read_digits-digit :
    (n c : ℕ) (s : Text) → IsDigit c → read_digits n (c ∷ s) ≡ read_digits (n * 10 + (c - b'0')) s
unfolding read_digits
read_digits-digit n c s h = ground arith

below_ten : (n : ℕ) → IsDigit (b'0' + n % 10)
below_ten n = (omega arith, omega arith)

-- Reading the digits of a number continues from the number.
read_digits-digits :
    (fuel n : ℕ) (out : Text) → n ≤ fuel → read_digits 0 (digits fuel n out) ≡ read_digits n out
unfolding digits
read_digits-digits zero n out h = ap (λ k. read_digits k out) (omega arith)
read_digits-digits (suc fuel) n out h = elim (Bool-cases (n == 0)) [
  | inl e ↦ rw e (ap (λ k. read_digits k out) (ground arith))
  | inr e ↦ rw e (
      read_digits-digits fuel (n / 10) _ (ground arith)
      ∙ read_digits-digit (n / 10) (b'0' + n % 10) out (below_ten n)
      ∙ ap (λ k. read_digits k out) (omega arith))
]

digits-AreDigits : (fuel n : ℕ) (out : Text) → All IsDigit out → All IsDigit (digits fuel n out)
unfolding digits
digits-AreDigits zero n out h = h
digits-AreDigits (suc fuel) n out h = elim (Bool-cases (n == 0)) [
  | inl e ↦ rw e h
  | inr e ↦ rw e (digits-AreDigits fuel (n / 10) _ (below_ten n, h))
]

abbrev Nonempty : Text → Type 0
Nonempty [] = ⊥
Nonempty (_ ∷ _) = Unit

digits-Nonempty : (fuel n c : ℕ) (out : Text) → Nonempty (digits fuel n (c ∷ out))
unfolding digits
digits-Nonempty zero n c out = tt
digits-Nonempty (suc fuel) n c out = elim (Bool-cases (n == 0)) [
  | inl e ↦ rw e tt
  | inr e ↦ rw e (digits-Nonempty fuel (n / 10) (b'0' + n % 10) (c ∷ out))
]

positive-Nonempty : (fuel n : ℕ) → n ≤ fuel → (n == 0) ≡ false → Nonempty (digits fuel n [])
unfolding digits
positive-Nonempty zero n h e = absurd (ground arith)
positive-Nonempty (suc fuel) n h e = rw e (digits-Nonempty fuel (n / 10) (b'0' + n % 10) [])

parse_int-digits :
    (n : ℕ) (s : Text)
    → Nonempty s
    → All IsDigit s
    → read_digits 0 s ≡ some n
    → n < 2 ^ 63
    → parse_int s ≡ some (false, n)
unfolding parse_int unsigned
parse_int-digits n [] f h e b = elim f [ ]
parse_int-digits n (c ∷ s) f h e b =
    rw (not_sign c b'-' h.0.0 (omega arith), not_sign c b'+' h.0.0 (omega arith), e, below) refl
  where
    not_sign : (c k : ℕ) → b'0' ≤ c → k < b'0' → (c == k) ≡ false
    not_sign c k h l = ground arith

    below : leb n (2 ^ 63 - 1) ≡ true
    below = ground arith

-- ParseInt reads back what Itoa wrote.
pub parse_int-itoa : (n : ℕ) → n < 2 ^ 63 → parse_int (itoa n) ≡ some (false, n)
unfolding itoa
parse_int-itoa n b = elim (Bool-cases (n == 0)) [
  | inl e ↦ rw e (zero_reads ∙ ap (λ k. some (false, k)) (ground arith))
  | inr e ↦ rw e (
      parse_int-digits n (digits n n []) (positive-Nonempty n n (omega arith) e)
        (digits-AreDigits n n [] tt) (read_digits-digits n n [] (omega arith) ∙ read_nil n) b)
]
  where
    zero_reads : parse_int (b'0' ∷ []) ≡ some (false, 0)
    zero_reads = unfold parse_int unsigned read_digits in refl

    read_nil : (n : ℕ) → read_digits n [] ≡ some n
    read_nil n = unfold read_digits in refl

digit-unspaced : (c : ℕ) → IsDigit c → is_space c ≡ false
unfolding is_space
digit-unspaced c h = ground arith

digits-Unspaced : (s : Text) → All IsDigit s → All (λ c. is_space c ≡ false) s
digits-Unspaced [] h = tt
digits-Unspaced (c ∷ s) h = (digit-unspaced c h.0, digits-Unspaced s h.1)

pub itoa-Unspaced : (n : ℕ) → All (λ c. is_space c ≡ false) (itoa n)
unfolding itoa is_space
itoa-Unspaced n = elim (Bool-cases (n == 0)) [
  | inl e ↦ rw e (refl, tt)
  | inr e ↦ rw e (digits-Unspaced (digits n n []) (digits-AreDigits n n [] tt))
]
