-- ===== src/Regulatory/Tariff/Counting.antt =====
-- How many candidates rival a measure: the yardstick for "most specific".
use Prim.Native.Nat.{compare, Ordering}
use cross_border_ecommerce.Base.{
  ℕ, ◌+◌, ◌≤◌, ◌≡◌, refl, Bool, true, false, ◌&&◌, not, List, [], ◌∷◌, arith, if◌then◌else◌, length,
  text_eq_refl, text_eq→eq, first_difference, Bool-cases, inl, inr,
}
use cross_border_ecommerce.Regulatory.Tariff.Query.{TariffQuery}
use cross_border_ecommerce.Regulatory.Tariff.{
  TariffMeasure, MeasureType, MeasureKey, mfn, additional_duty, other_type, type_eq, key_eq, key_of,
  compare_specificity, origin_rank,
}

type_eq→eq : (a b : MeasureType) → type_eq a b ≡ true → a ≡ b
unfolding type_eq
type_eq→eq mfn mfn h = refl
type_eq→eq additional_duty additional_duty h = refl
type_eq→eq (other_type s) (other_type t) h = ground (arith, text_eq→eq s t h)
type_eq→eq mfn additional_duty h = ground arith
type_eq→eq mfn (other_type t) h = ground arith
type_eq→eq additional_duty mfn h = ground arith
type_eq→eq additional_duty (other_type t) h = ground arith
type_eq→eq (other_type s) mfn h = ground arith
type_eq→eq (other_type s) additional_duty h = ground arith

type_eq_refl : (a : MeasureType) → type_eq a a ≡ true
unfolding type_eq
type_eq_refl mfn = refl
type_eq_refl additional_duty = refl
type_eq_refl (other_type t) = text_eq_refl t

pub key_eq→eq : (a b : MeasureKey) → key_eq a b ≡ true → a ≡ b
unfolding key_eq
key_eq→eq a b h = ground (arith, type_eq→eq a.measure_type b.measure_type, text_eq→eq a.code b.code)

pub key_eq_refl : (a : MeasureKey) → key_eq a a ≡ true
unfolding key_eq
key_eq_refl a = ground (arith, type_eq_refl a.measure_type, text_eq_refl a.code)

abbrev pub is_gt : Ordering → Bool
is_gt Ordering.gt = true
is_gt _ = false

abbrev pub is_lt : Ordering → Bool
is_lt Ordering.lt = true
is_lt _ = false

-- Lexicographic comparison of two pairs of numbers.
abbrev lexicographic : ℕ → ℕ → ℕ → ℕ → Ordering
lexicographic a x b y = first_difference (compare a b) (compare x y)

lexicographic_trans :
    (a x b y c z : ℕ)
    → is_gt (lexicographic b y c z) ≡ true
    → is_lt (lexicographic a x b y) ≡ false
    → is_gt (lexicographic a x c z) ≡ true
lexicographic_trans a x b y c z h k = ground arith

lexicographic_refl : (a x : ℕ) → is_lt (lexicographic a x a x) ≡ false
lexicographic_refl a x = ground arith

module _ {D : Type 0} where
  -- `c` is of the measure of `m`, and more specific.
  unfoldable pub beats : TariffQuery → TariffMeasure D → TariffMeasure D → Bool
  beats q c m = key_eq (key_of c) (key_of m) && is_gt (compare_specificity q c m)

  -- `c` is of the measure of `m`, and not less specific.
  unfoldable pub rivals : TariffQuery → TariffMeasure D → TariffMeasure D → Bool
  rivals q c m = key_eq (key_of c) (key_of m) && not (is_lt (compare_specificity q c m))

  unfoldable pub count_beats : TariffQuery → TariffMeasure D → List (TariffMeasure D) → ℕ
  count_beats q m [] = 0
  count_beats q m (c ∷ cs) = (if beats q c m then 1 else 0) + count_beats q m cs

  -- The candidates that are of the measure of `m` and not less specific, `m` itself among them.
  unfoldable pub count_rivals : TariffQuery → TariffMeasure D → List (TariffMeasure D) → ℕ
  count_rivals q m [] = 0
  count_rivals q m (c ∷ cs) = (if rivals q c m then 1 else 0) + count_rivals q m cs

  -- `new` beats `old`: what rivals `new` beats `old`.
  rivals→beats :
      (q : TariffQuery) (c new old : TariffMeasure D)
      → beats q new old ≡ true
      → rivals q c new ≡ true
      → beats q c old ≡ true
  unfolding beats rivals compare_specificity
  rivals→beats q c new old h r = ground (
    arith,
    key_eq→eq (key_of new) (key_of old),
    lexicographic_trans (origin_rank q c) (length c.hs_code) (origin_rank q new)
        (length new.hs_code) (origin_rank q old) (length old.hs_code),
  )

  rivals_self : (q : TariffQuery) (m : TariffMeasure D) → rivals q m m ≡ true
  unfolding rivals compare_specificity
  rivals_self q m =
      ground
        (arith, key_eq_refl (key_of m), lexicographic_refl (origin_rank q m) (length m.hs_code))

  beats_self : (q : TariffQuery) (m : TariffMeasure D) → beats q m m ≡ false
  unfolding beats compare_specificity
  beats_self q m = ground arith

  pub count_rivals-le :
      (q : TariffQuery) (new old : TariffMeasure D) (cs : List (TariffMeasure D))
      → beats q new old ≡ true
      → count_rivals q new cs ≤ count_beats q old cs
  unfolding count_rivals count_beats
  count_rivals-le q new old [] h = omega arith
  count_rivals-le q new old (c ∷ cs) h =
      ground (arith, rivals→beats q c new old h, count_rivals-le q new old cs h)

  beats→rivals :
      (q : TariffQuery) (c m : TariffMeasure D) → beats q c m ≡ true → rivals q c m ≡ true
  unfolding beats rivals
  beats→rivals q c m h = ground arith

  pub count_beats-le :
      (q : TariffQuery) (m : TariffMeasure D) (cs : List (TariffMeasure D))
      → count_beats q m cs ≤ count_rivals q m cs
  unfolding count_rivals count_beats
  count_beats-le q m [] = omega arith
  count_beats-le q m (c ∷ cs) = ground (arith, beats→rivals q c m, count_beats-le q m cs)

  -- What one more candidate does to the counts, by its comparison with the measure.
  pub count_self :
      (q : TariffQuery) (m : TariffMeasure D) (cs : List (TariffMeasure D))
      → (count_rivals q m (m ∷ cs) ≡ 1 + count_rivals q m cs)
        × (count_beats q m (m ∷ cs) ≤ count_rivals q m cs)
  unfolding count_rivals count_beats
  count_self q m cs = (rw (rivals_self q m), ground (arith, beats_self q m, count_beats-le q m cs))

  pub count_other :
      (q : TariffQuery) (c m : TariffMeasure D) (cs : List (TariffMeasure D))
      → rivals q c m ≡ false
      → (count_rivals q m (c ∷ cs) ≡ count_rivals q m cs)
        × (count_beats q m (c ∷ cs) ≡ count_beats q m cs)
  unfolding count_rivals count_beats
  count_other q c m cs h = ground (arith, beats→rivals q c m)

  pub count_equal :
      (q : TariffQuery) (c m : TariffMeasure D) (cs : List (TariffMeasure D))
      → rivals q c m ≡ true
      → beats q c m ≡ false
      → (count_rivals q m (c ∷ cs) ≡ 1 + count_rivals q m cs)
        × (count_beats q m (c ∷ cs) ≡ count_beats q m cs)
  unfolding count_rivals count_beats
  count_equal q c m cs h k = ground arith

pub key_eq_sym : (a b : MeasureKey) → key_eq a b ≡ key_eq b a
key_eq_sym a b = elim (Bool-cases (key_eq a b)) [
  | inl e ↦ ground (arith, key_eq→eq a b e, key_eq_refl a)
  | inr e ↦ elim (Bool-cases (key_eq b a)) [
    | inl f ↦ ground (arith, key_eq→eq b a f, key_eq_refl b)
    | inr f ↦ rw (e, f)
  ]
]
