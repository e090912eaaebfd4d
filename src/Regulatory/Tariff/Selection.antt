-- ===== src/Regulatory/Tariff/Selection.antt =====
-- What mostSpecific computes: one entry for each measure among the candidates, which holds the most
-- specific candidate and whether another is as specific.
use Prim.Native.Nat.{Ordering}
use cross_border_ecommerce.Base.{
  ℕ, ◌≤◌, ◌≡◌, refl, inl, inr, Bool, true, false, ◌||◌, List, [], ◌∷◌, arith, All, Any, here, there,
  Bool-cases, ◌∙◌,
}
use cross_border_ecommerce.Regulatory.Tariff.Query.{TariffQuery}
use cross_border_ecommerce.Regulatory.Tariff.{
  TariffMeasure, MeasureKey, Entry, key_eq, key_of, compare_specificity, replace, replace_by,
  add_candidate, has_key,
}
use cross_border_ecommerce.Regulatory.Tariff.Counting.{
  key_eq→eq, key_eq_sym, beats, rivals, count_beats, count_rivals, count_rivals-le, count_self,
  count_other, count_equal,
}

abbrev pub TieFits : Bool → ℕ → Type 0
TieFits false n = n ≡ 1
TieFits true n = 2 ≤ n

ties : (b : Bool) (n : ℕ) → TieFits b n → 1 ≤ n
ties false n h = omega arith
ties true n h = omega arith

module _ {D : Type 0} where
  -- The entry's candidate is one of `cs`, none beats it, and it is marked as tied exactly if it has
  -- a rival besides itself.
  pub record IsBest (q : TariffQuery) (cs : List (TariffMeasure D)) (e : Entry D) : Type 0 where
    pub member : Any (λ c. c ≡ e.best) cs
    pub unbeaten : count_beats q e.best cs ≡ 0
    pub tie : TieFits e.tied (count_rivals q e.best cs)

  pub replace_by-IsBest :
      (q : TariffQuery) (cs : List (TariffMeasure D)) (m : TariffMeasure D) (e : Entry D)
      (o : Ordering)
      → compare_specificity q m e.best ≡ o
      → key_eq (key_of m) (key_of e.best) ≡ true
      → IsBest q cs e
      → IsBest q (m ∷ cs) (replace_by o m e)
  unfolding replace_by
  replace_by-IsBest q cs m e Ordering.gt h k v =
      let wins : beats q m e.best ≡ true = unfold beats in rw (k, h) in
      let none_left = count_rivals-le q m e.best cs wins in
      let self = count_self q m cs in
      record { member = here refl; unbeaten = omega arith; tie = omega arith }
  replace_by-IsBest q cs m e Ordering.eq h k v =
      let equal =
        count_equal q m e.best cs (unfold rivals in rw (k, h)) (unfold beats in rw (k, h)) in
      record {
        member = there v.member;
        unbeaten = omega arith;
        tie = omega (arith, ties e.tied (count_rivals q e.best cs) v.tie);
      }
  replace_by-IsBest q cs m e Ordering.lt h k v =
      let other = count_other q m e.best cs (unfold rivals in rw (k, h)) in
      record { member = there v.member; unbeaten = omega arith; tie = rw (other.0) v.tie }

  keep-IsBest :
      (q : TariffQuery) (cs : List (TariffMeasure D)) (m : TariffMeasure D) (e : Entry D)
      → key_eq (key_of m) (key_of e.best) ≡ false
      → IsBest q cs e
      → IsBest q (m ∷ cs) e
  keep-IsBest q cs m e k v =
      let other = count_other q m e.best cs (unfold rivals in rw k) in
      record { member = there v.member; unbeaten = omega arith; tie = rw (other.0) v.tie }

  keep_all-IsBest :
      (q : TariffQuery) (cs : List (TariffMeasure D)) (m : TariffMeasure D) (es : List (Entry D))
      → has_key (key_of m) es ≡ false
      → All (IsBest q cs) es
      → All (IsBest q (m ∷ cs)) es
  unfolding has_key
  keep_all-IsBest q cs m [] k v = tt
  keep_all-IsBest q cs m (e ∷ es) k v = elim (Bool-cases (key_eq (key_of m) (key_of e.best))) [
    | inl same ↦ absurd (cc (rw same at k))
    | inr other ↦ (keep-IsBest q cs m e other v.0, keep_all-IsBest q cs m es (rw other at k) v.1)
  ]

  -- No two entries have one key.
  abbrev pub IsDistinct : List (Entry D) → Type 0
  IsDistinct [] = Unit {0}
  IsDistinct (e ∷ es) = (has_key (key_of e.best) es ≡ false) × IsDistinct es

  pub has_key-eq :
      (a b : MeasureKey) (es : List (Entry D)) → key_eq a b ≡ true → has_key a es ≡ has_key b es
  has_key-eq a b es h = rw (key_eq→eq a b h)

  pub add_candidate-IsBest :
      (q : TariffQuery) (cs : List (TariffMeasure D)) (m : TariffMeasure D) (es : List (Entry D))
      → (has_key (key_of m) es ≡ false → count_rivals q m cs ≡ 0)
      → IsDistinct es
      → All (IsBest q cs) es
      → All (IsBest q (m ∷ cs)) (add_candidate q m es)
  unfolding add_candidate has_key
  add_candidate-IsBest q cs m [] fresh d v =
      let self = count_self q m cs in
      let alone = fresh refl in
      (record { member = here refl; unbeaten = omega arith; tie = omega arith }, tt)
  add_candidate-IsBest q cs m (e ∷ es) fresh d v =
      elim (Bool-cases (key_eq (key_of m) (key_of e.best))) [
        | inl same ↦ rw same (
          unfold replace in
              replace_by-IsBest q cs m e (compare_specificity q m e.best) refl same v.0,
          keep_all-IsBest q cs m es (has_key-eq (key_of m) (key_of e.best) es same ∙ d.0) v.1,
        )
        | inr other ↦ rw other (
          keep-IsBest q cs m e other v.0,
          add_candidate-IsBest q cs m es (rw other at fresh) d.1 v.1,
        )
      ]

  key_of-replace :
      (q : TariffQuery) (m : TariffMeasure D) (e : Entry D)
      → key_eq (key_of m) (key_of e.best) ≡ true
      → key_of (replace q m e).best ≡ key_of e.best
  unfolding replace
  key_of-replace q m e h = by_outcome (compare_specificity q m e.best)
    where
      by_outcome : (o : Ordering) → key_of (replace_by o m e).best ≡ key_of e.best
      by_outcome Ordering.gt = key_eq→eq (key_of m) (key_of e.best) h
      by_outcome Ordering.eq = refl
      by_outcome Ordering.lt = refl

  pub has_key-add_candidate :
      (q : TariffQuery) (k : MeasureKey) (m : TariffMeasure D) (es : List (Entry D))
      → has_key k (add_candidate q m es) ≡ (has_key k es || key_eq k (key_of m))
  unfolding has_key add_candidate
  has_key-add_candidate q k m [] = ground arith
  has_key-add_candidate q k m (e ∷ es) = elim (Bool-cases (key_eq (key_of m) (key_of e.best))) [
    | inl same ↦
        rw (same, key_of-replace q m e same, key_eq→eq (key_of m) (key_of e.best) same)
          (ground arith)
    | inr other ↦ rw other (ground (arith, has_key-add_candidate q k m es))
  ]

  pub add_candidate-IsDistinct :
      (q : TariffQuery) (m : TariffMeasure D) (es : List (Entry D))
      → IsDistinct es
      → IsDistinct (add_candidate q m es)
  unfolding add_candidate
  add_candidate-IsDistinct q m [] d = unfold has_key in (refl, tt)
  add_candidate-IsDistinct q m (e ∷ es) d = elim (Bool-cases (key_eq (key_of m) (key_of e.best))) [
    | inl same ↦ rw same (rw (key_of-replace q m e same) d)
    | inr other ↦ rw other (
      has_key-add_candidate q (key_of e.best) m es
          ∙ ground (arith, d.0, key_eq_sym (key_of e.best) (key_of m)),
      add_candidate-IsDistinct q m es d.1,
    )
  ]

  pub uncovered :
      (q : TariffQuery) (m : TariffMeasure D) (es : List (Entry D)) (cs : List (TariffMeasure D))
      → All (λ c. has_key (key_of c) es ≡ true) cs
      → has_key (key_of m) es ≡ false
      → count_rivals q m cs ≡ 0
  unfolding count_rivals
  uncovered q m es [] v h = refl
  uncovered q m es (c ∷ cs) v h = elim (Bool-cases (key_eq (key_of c) (key_of m))) [
    | inl same ↦ absurd (cc (v.0, h, has_key-eq (key_of c) (key_of m) es same))
    | inr other ↦
        let same_count = count_other q c m cs (unfold rivals in rw other) in
        same_count.0 ∙ uncovered q m es cs v.1 h
  ]
