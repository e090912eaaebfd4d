-- ===== src/Base/Trim.antt =====
-- strings.TrimSpace on what is trimmed already.
use Prim.Native.Nat.{ℕ}
use mathlib.Core.Path.{◌≡◌, refl, ap, ◌∙◌}
use mathlib.Core.Logic.{inl, inr}
use mathlib.Core.Bool.{false}
use mathlib.Core.List.{[], ◌∷◌, ◌++◌}
use cross_border_ecommerce.Base.Tests.{Bool-cases}
use cross_border_ecommerce.Base.Lists.{All}
use cross_border_ecommerce.Base.Strings.{
  Text, is_space, trim_left, trim_right, trim_cons, trim_space,
}

trim_right-trim_cons :
    (c : ℕ) (u : Text) → trim_right u ≡ u → trim_right (trim_cons c u) ≡ trim_cons c u
unfolding trim_right
trim_right-trim_cons c [] h = elim (Bool-cases (is_space c)) [
  | inl e ↦ rw e refl
  | inr e ↦ rw e (rw e refl)
]
trim_right-trim_cons c (d ∷ u) h = ap (trim_cons c) h

trim_right_idem : (s : Text) → trim_right (trim_right s) ≡ trim_right s
unfolding trim_right
trim_right_idem [] = refl
trim_right_idem (c ∷ s) = trim_right-trim_cons c (trim_right s) (trim_right_idem s)

-- The text does not start with a space.
abbrev Starts : Text → Type 0
Starts [] = Unit
Starts (c ∷ s) = (is_space c ≡ false)

trim_left-Starts : (s : Text) → Starts (trim_left s)
unfolding trim_left
trim_left-Starts [] = tt
trim_left-Starts (c ∷ s) = elim (Bool-cases (is_space c)) [
  | inl e ↦ rw e (trim_left-Starts s)
  | inr e ↦ rw e e
]

trim_cons-Starts : (c : ℕ) (u : Text) → is_space c ≡ false → Starts (trim_cons c u)
trim_cons-Starts c [] h = rw h h
trim_cons-Starts c (d ∷ u) h = h

trim_right-Starts : (s : Text) → Starts s → Starts (trim_right s)
unfolding trim_right
trim_right-Starts [] h = tt
trim_right-Starts (c ∷ s) h = trim_cons-Starts c (trim_right s) h

Starts-trim_left : (s : Text) → Starts s → trim_left s ≡ s
unfolding trim_left
Starts-trim_left [] h = refl
Starts-trim_left (c ∷ s) h = rw h refl

pub trim_space_idem : (s : Text) → trim_space (trim_space s) ≡ trim_space s
unfolding trim_space
trim_space_idem s =
    ap trim_right (
      Starts-trim_left (trim_right (trim_left s))
        (trim_right-Starts (trim_left s) (trim_left-Starts s)))
    ∙ trim_right_idem (trim_left s)

trim_cons_keeps : (c : ℕ) (s : Text) → is_space c ≡ false → trim_cons c s ≡ c ∷ s
trim_cons_keeps c [] h = rw h refl
trim_cons_keeps c (d ∷ s) h = refl

-- What stands in front of a trimmed text without a space stays.
trim_right-prefix :
    (p s : Text) → All (λ c. is_space c ≡ false) p → trim_right s ≡ s → trim_right (p ++ s) ≡ p ++ s
unfolding trim_right
trim_right-prefix [] s h e = e
trim_right-prefix (c ∷ p) s h e =
    ap (trim_cons c) (trim_right-prefix p s h.1 e) ∙ trim_cons_keeps c (p ++ s) h.0

pub trim_space-prefix :
    (c : ℕ) (p s : Text)
    → All (λ c. is_space c ≡ false) (c ∷ p)
    → trim_right s ≡ s
    → trim_space ((c ∷ p) ++ s) ≡ (c ∷ p) ++ s
unfolding trim_space
trim_space-prefix c p s h e =
    ap trim_right (Starts-trim_left ((c ∷ p) ++ s) h.0) ∙ trim_right-prefix (c ∷ p) s h e

pub trim_right-trim_space : (s : Text) → trim_right (trim_space s) ≡ trim_space s
unfolding trim_space
trim_right-trim_space s = trim_right_idem (trim_left s)

pub Unspaced-trim_right : (s : Text) → All (λ c. is_space c ≡ false) s → trim_right s ≡ s
unfolding trim_right
Unspaced-trim_right [] h = refl
Unspaced-trim_right (c ∷ s) h =
    ap (trim_cons c) (Unspaced-trim_right s h.1) ∙ trim_cons_keeps c s h.0

pub Unspaced-trim_space : (s : Text) → All (λ c. is_space c ≡ false) s → trim_space s ≡ s
unfolding trim_space
Unspaced-trim_space [] h = unfold trim_left trim_right in refl
Unspaced-trim_space (c ∷ s) h =
    ap trim_right (Starts-trim_left (c ∷ s) h.0) ∙ Unspaced-trim_right (c ∷ s) h
