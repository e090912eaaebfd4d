-- ===== src/Regulatory/Tariff/Holds.antt =====
-- ResolveTariff as a whole: what a resolution is, and what each error means.
use cross_border_ecommerce.Base.{
  ◌≤◌, ◌≡◌, refl, ◌⊎◌, inl, inr, Bool, true, false, List, [], ◌∷◌, arith, All, Any, here, there,
  Bool-cases, sym, ◌∙◌, subst, map, Result, ok, err, Error, no_tariff_rate, ambiguous_tariff,
  unsupported_measure,
}
use cross_border_ecommerce.Regulatory.Dataset.{Dataset}
use cross_border_ecommerce.Regulatory.Tariff.Query.{TariffQuery}
use cross_border_ecommerce.Regulatory.Tariff.{
  TariffMeasure, TariffResolution, MeasureKey, Entry, key_eq, key_of, mfn_key, most_specific,
  has_key, sort_entries, collect, resolve_tariff, is_unsupported,
}
use cross_border_ecommerce.Regulatory.Tariff.Counting.{key_eq→eq, count_beats, count_rivals}
use cross_border_ecommerce.Regulatory.Tariff.Selection.{IsBest, TieFits}
use cross_border_ecommerce.Regulatory.Tariff.Fold.{Covers, most_specific-IsSelection}
use cross_border_ecommerce.Regulatory.Tariff.Sorting.{
  has_key-sort_entries, All-sort_entries, sort_entries-IsDistinct,
}
use cross_border_ecommerce.Regulatory.Tariff.Resolution.{
  collect-ok, collect-err, Blocks, has_measure, has_measure-map, OneOfEach-map, IsDecisive-entries,
  IsResolved,
}

module _ {D : Type 0} (q : TariffQuery) (ds : List Dataset) (cs : List (TariffMeasure D)) where
  abbrev sorted : List (Entry D)
  sorted = sort_entries (most_specific q cs)

  covered :
      (xs : List (TariffMeasure D))
      → Covers (most_specific q cs) xs
      → All (λ c. has_measure (key_of c) (map (λ e. e.best) sorted) ≡ true) xs
  covered [] v = tt
  covered (c ∷ xs) v = (
    has_measure-map (key_of c) sorted ∙ has_key-sort_entries (key_of c) (most_specific q cs) ∙ v.0,
    covered xs v.1,
  )

  resolution :
      (r : TariffResolution D) (collected : Result (List (TariffMeasure D)))
      → collect sorted ≡ collected
      → resolve_tariff q ds cs ≡ ok r
      → IsResolved q ds cs r
  unfolding resolve_tariff
  resolution r (err x) e h = absurd (ground arith)
  resolution r (ok ms) e h =
      let (same, clear) = collect-ok sorted ms e in
      let v = most_specific-IsSelection q cs in
      let here_mfn : has_key mfn_key (most_specific q cs) ≡ true = ground arith in
      let shape : r.measures ≡ map (λ e. e.best) sorted = ground arith in
      record {
        same_query = ground arith;
        same_datasets = ground arith;
        decisive = rw shape (
            IsDecisive-entries q cs sorted
              (All-sort_entries (IsBest q cs) (most_specific q cs) v.best) clear);
        complete = rw shape (covered cs v.covers);
        distinct =
            rw shape
              (OneOfEach-map sorted (sort_entries-IsDistinct (most_specific q cs) v.distinct));
        has_mfn = rw shape (
            has_measure-map mfn_key sorted
            ∙ has_key-sort_entries mfn_key (most_specific q cs)
            ∙ here_mfn);
      }

  -- A resolution keeps the query and the datasets, and its measures are decisive: each is a supported
  -- candidate that no other candidate of its measure equals or beats in specificity. Every measure
  -- that occurs among the candidates, the MFN rate among them, is there exactly once.
  pub resolve_tariff-IsResolved :
      (r : TariffResolution D) → resolve_tariff q ds cs ≡ ok r → IsResolved q ds cs r
  resolve_tariff-IsResolved r h = resolution r (collect sorted) refl h

Any-at : {A : Type 0} (P : A → Type 0) (m : A) (xs : List A) → Any (λ c. c ≡ m) xs → P m → Any P xs
Any-at P m [] h p = elim h [ ]
Any-at P m (x ∷ xs) (here e) p = here (subst P (sym e) p)
Any-at P m (x ∷ xs) (there h) p = there (Any-at P m xs h p)

module _ {D : Type 0} where
  -- Why a resolution fails.
  abbrev pub IsHold : TariffQuery → List (TariffMeasure D) → Error → Type 0
  IsHold q cs x =
      (x ≡ no_tariff_rate) × (has_measure mfn_key cs ≡ false)
      ⊎ (x ≡ ambiguous_tariff) × Any (λ m. (count_beats q m cs ≡ 0) × (2 ≤ count_rivals q m cs)) cs
      ⊎ (x ≡ unsupported_measure)
        × Any
            (λ m.
              (count_beats q m cs ≡ 0)
              × (count_rivals q m cs ≡ 1)
              × (is_unsupported m.rate_type ≡ true))
            cs

  blocked :
      (q : TariffQuery) (cs : List (TariffMeasure D)) (x : Error) (es : List (Entry D))
      → All (IsBest q cs) es
      → Any (Blocks x) es
      → IsHold q cs x
  blocked q cs x [] v h = elim h [ ]
  blocked q cs x (e ∷ es) v (here (inl (same, t))) = inr (
      inl (
        same,
        Any-at _ e.best cs v.0.member
            (v.0.unbeaten, subst (λ b. TieFits b (count_rivals q e.best cs)) t v.0.tie),
      ))
  blocked q cs x (e ∷ es) v (here (inr (same, t, u))) = inr (
      inr (
        same,
        Any-at _ e.best cs v.0.member
            (v.0.unbeaten, subst (λ b. TieFits b (count_rivals q e.best cs)) t v.0.tie, u),
      ))
  blocked q cs x (e ∷ es) v (there h) = blocked q cs x es v.1 h

  uncovered_key :
      (k : MeasureKey) (es : List (Entry D)) (cs : List (TariffMeasure D))
      → has_key k es ≡ false
      → Covers es cs
      → has_measure k cs ≡ false
  uncovered_key k es [] h v = refl
  uncovered_key k es (c ∷ cs) h v = elim (Bool-cases (key_eq k (key_of c))) [
    | inl same ↦ absurd (cc (v.0, h, key_eq→eq k (key_of c) same))
    | inr other ↦ rw other (uncovered_key k es cs h v.1)
  ]

  IsHold-by :
      (q : TariffQuery) (ds : List Dataset) (cs : List (TariffMeasure D)) (x : Error) (found : Bool)
      (collected : Result (List (TariffMeasure D)))
      → has_key mfn_key (most_specific q cs) ≡ found
      → collect (sort_entries (most_specific q cs)) ≡ collected
      → resolve_tariff q ds cs ≡ err x
      → IsHold q cs x
  unfolding resolve_tariff
  IsHold-by q ds cs x false collected f e h = inl (
    ground arith,
    uncovered_key mfn_key (most_specific q cs) cs f (most_specific-IsSelection q cs).covers,
  )
  IsHold-by q ds cs x true (ok ms) f e h = absurd (ground arith)
  IsHold-by q ds cs x true (err y) f e h =
      let same : y ≡ x = ground arith in
      blocked q cs x (sort_entries (most_specific q cs))
        (All-sort_entries (IsBest q cs) (most_specific q cs) (most_specific-IsSelection q cs).best)
        (collect-err (sort_entries (most_specific q cs)) x (rw (← same) e))

  -- A resolution fails for one of three reasons, and its error names the one that is there: no
  -- candidate for the MFN rate, two equally specific candidates that none beats, or a decisive rule
  -- that cannot be evaluated.
  pub resolve_tariff-IsHold :
      (q : TariffQuery) (ds : List Dataset) (cs : List (TariffMeasure D)) (x : Error)
      → resolve_tariff q ds cs ≡ err x
      → IsHold q cs x
  resolve_tariff-IsHold q ds cs x h =
      IsHold-by q ds cs x (has_key mfn_key (most_specific q cs))
        (collect (sort_entries (most_specific q cs))) refl refl h
