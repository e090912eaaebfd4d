-- ===== src/Regulatory/Tariff/Fold.antt =====
-- The fold of mostSpecific over all candidates: its entries are a selection of them.
use cross_border_ecommerce.Base.{
  ◌+◌, ◌≡◌, ◌⊎◌, inl, inr, true, List, [], ◌∷◌, arith, All, Any, here, there, ◌∙◌, subst,
}
use cross_border_ecommerce.Regulatory.Tariff.Query.{TariffQuery}
use cross_border_ecommerce.Regulatory.Tariff.{
  TariffMeasure, Entry, key_of, add_candidate, most_specific_from, most_specific, has_key,
}
use cross_border_ecommerce.Regulatory.Tariff.Counting.{key_eq_refl, count_beats, count_rivals}
use cross_border_ecommerce.Regulatory.Tariff.Selection.{
  IsBest, IsDistinct, TieFits, add_candidate-IsBest, has_key-add_candidate,
  add_candidate-IsDistinct, uncovered,
}

module _ {D : Type 0} where
  -- Every candidate so far has an entry for its measure.
  abbrev pub Covers : List (Entry D) → List (TariffMeasure D) → Type 0
  Covers es cs = All (λ c. has_key (key_of c) es ≡ true) cs

  add_candidate-Covers :
      (q : TariffQuery) (m : TariffMeasure D) (es : List (Entry D)) (cs : List (TariffMeasure D))
      → Covers es cs
      → Covers (add_candidate q m es) cs
  add_candidate-Covers q m es [] v = tt
  add_candidate-Covers q m es (c ∷ cs) v = (
    has_key-add_candidate q (key_of c) m es ∙ ground (arith, v.0),
    add_candidate-Covers q m es cs v.1,
  )

  pub record IsSelection (q : TariffQuery) (cs : List (TariffMeasure D)) (es : List (Entry D))
      : Type 0 where
    pub best : All (IsBest q cs) es
    pub distinct : IsDistinct es
    pub covers : Covers es cs

  add_candidate-IsSelection :
      (q : TariffQuery) (m : TariffMeasure D) (cs : List (TariffMeasure D)) (es : List (Entry D))
      → IsSelection q cs es
      → IsSelection q (m ∷ cs) (add_candidate q m es)
  add_candidate-IsSelection q m cs es v = record {
    best = add_candidate-IsBest q cs m es (uncovered q m es cs v.covers) v.distinct v.best;
    distinct = add_candidate-IsDistinct q m es v.distinct;
    covers = (
      has_key-add_candidate q (key_of m) m es ∙ ground (arith, key_eq_refl (key_of m)),
      add_candidate-Covers q m es cs v.covers,
    );
  }

  -- The candidates in the order in which the counts have met them, the last one first.
  abbrev pub rev_onto : List (TariffMeasure D) → List (TariffMeasure D) → List (TariffMeasure D)
  rev_onto [] seen = seen
  rev_onto (c ∷ cs) seen = rev_onto cs (c ∷ seen)

  most_specific_from-IsSelection :
      (q : TariffQuery) (seen cs : List (TariffMeasure D)) (es : List (Entry D))
      → IsSelection q seen es
      → IsSelection q (rev_onto cs seen) (most_specific_from q es cs)
  unfolding most_specific_from
  most_specific_from-IsSelection q seen [] es v = v
  most_specific_from-IsSelection q seen (c ∷ cs) es v =
      most_specific_from-IsSelection q (c ∷ seen) cs (add_candidate q c es)
        (add_candidate-IsSelection q c seen es v)

  count_rivals-rev_onto :
      (q : TariffQuery) (m : TariffMeasure D) (cs seen : List (TariffMeasure D))
      → count_rivals q m (rev_onto cs seen) ≡ count_rivals q m cs + count_rivals q m seen
  unfolding count_rivals
  count_rivals-rev_onto q m [] seen = omega arith
  count_rivals-rev_onto q m (c ∷ cs) seen = omega (arith, count_rivals-rev_onto q m cs (c ∷ seen))

  count_beats-rev_onto :
      (q : TariffQuery) (m : TariffMeasure D) (cs seen : List (TariffMeasure D))
      → count_beats q m (rev_onto cs seen) ≡ count_beats q m cs + count_beats q m seen
  unfolding count_beats
  count_beats-rev_onto q m [] seen = omega arith
  count_beats-rev_onto q m (c ∷ cs) seen = omega (arith, count_beats-rev_onto q m cs (c ∷ seen))

  Any-rev_onto :
      (P : TariffMeasure D → Type 0) (cs seen : List (TariffMeasure D))
      → Any P (rev_onto cs seen)
      → Any P cs ⊎ Any P seen
  Any-rev_onto P [] seen h = inr h
  Any-rev_onto P (c ∷ cs) seen h = elim (Any-rev_onto P cs (c ∷ seen) h) [
    | inl in_rest ↦ inl (there in_rest)
    | inr (here p) ↦ inl (here p)
    | inr (there p) ↦ inr p
  ]

  All-rev_onto :
      (P : TariffMeasure D → Type 0) (cs seen : List (TariffMeasure D))
      → All P (rev_onto cs seen)
      → All P cs × All P seen
  All-rev_onto P [] seen h = (tt, h)
  All-rev_onto P (c ∷ cs) seen h =
      let rest = All-rev_onto P cs (c ∷ seen) h in ((rest.1.0, rest.0), rest.1.1)

  forget_order :
      (q : TariffQuery) (cs : List (TariffMeasure D)) (e : Entry D)
      → IsBest q (rev_onto cs []) e
      → IsBest q cs e
  unfolding count_beats count_rivals
  forget_order q cs e v = record {
    member = elim (Any-rev_onto (λ c. c ≡ e.best) cs [] v.member) [
      | inl found ↦ found
      | inr nowhere ↦ elim nowhere [ ]
    ];
    unbeaten = omega (arith, count_beats-rev_onto q e.best cs [], v.unbeaten);
    tie =
        let same : count_rivals q e.best (rev_onto cs []) ≡ count_rivals q e.best cs =
          omega (arith, count_rivals-rev_onto q e.best cs []) in
        subst (TieFits e.tied) same v.tie;
  }

  -- mostSpecific selects, for each measure among the candidates, one entry: a candidate that none
  -- beats, marked as tied exactly if another candidate rivals it.
  pub most_specific-IsSelection :
      (q : TariffQuery) (cs : List (TariffMeasure D)) → IsSelection q cs (most_specific q cs)
  unfolding most_specific
  most_specific-IsSelection q cs =
      let v =
        most_specific_from-IsSelection q [] cs []
          (record { best = tt; distinct = tt; covers = tt }) in
      record {
        best = entries_best (most_specific_from q [] cs) v.best;
        distinct = v.distinct;
        covers =
            (All-rev_onto (λ c. has_key (key_of c) (most_specific_from q [] cs) ≡ true) cs []
              v.covers).0;
      }
    where
      entries_best :
          (es : List (Entry D)) → All (IsBest q (rev_onto cs [])) es → All (IsBest q cs) es
      entries_best [] v = tt
      entries_best (e ∷ es) v = (forget_order q cs e v.0, entries_best es v.1)
