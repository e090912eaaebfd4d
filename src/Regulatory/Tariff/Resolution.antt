-- ===== src/Regulatory/Tariff/Resolution.antt =====
-- What ResolveTariff promises: the unique most specific rule of every measure, or an error.
use cross_border_ecommerce.Base.{
  ◌≡◌, refl, ◌⊎◌, inl, inr, Bool, true, false, List, [], ◌∷◌, arith, if◌then◌else◌, All, Any, here,
  there, ◌∙◌, subst, map, Result, ok, err, Error, ambiguous_tariff, unsupported_measure,
}
use cross_border_ecommerce.Regulatory.Dataset.{Dataset}
use cross_border_ecommerce.Regulatory.Tariff.Query.{TariffQuery}
use cross_border_ecommerce.Regulatory.Tariff.{
  TariffMeasure, TariffResolution, MeasureKey, Entry, key_eq, key_of, mfn_key, has_key, collect,
  is_unsupported,
}
use cross_border_ecommerce.Regulatory.Tariff.Counting.{count_beats, count_rivals}
use cross_border_ecommerce.Regulatory.Tariff.Selection.{IsBest, IsDistinct, TieFits}

module _ {D : Type 0} where
  -- The loop over the sorted keys: all entries pass, or the first that does not gives its error.
  abbrev pub IsClear : Entry D → Type 0
  IsClear e = (e.tied ≡ false) × (is_unsupported e.best.rate_type ≡ false)

  pub collect-ok :
      (es : List (Entry D)) (ms : List (TariffMeasure D))
      → collect es ≡ ok ms
      → (ms ≡ map (λ e. e.best) es) × All IsClear es
  unfolding collect
  collect-ok [] ms h = (ground arith, tt)
  collect-ok (e ∷ es) ms h = step (collect es) refl (λ rest. collect-ok es rest)
    where
      step :
          (r : Result (List (TariffMeasure D)))
          → collect es ≡ r
          → ((rest : List (TariffMeasure D))
              → collect es ≡ ok rest
              → (rest ≡ map (λ e. e.best) es) × All IsClear es)
          → (ms ≡ e.best ∷ map (λ e. e.best) es) × All IsClear (e ∷ es)
      step (ok rest) q ih =
          let (same, clear) = ih rest q in (ground arith, ((ground arith, ground arith), clear))
      step (err x) q ih = absurd (ground arith)

  -- Some measure of the list has the key.
  abbrev pub has_measure : MeasureKey → List (TariffMeasure D) → Bool
  has_measure k [] = false
  has_measure k (m ∷ ms) = if key_eq k (key_of m) then true else has_measure k ms

  abbrev pub OneOfEach : List (TariffMeasure D) → Type 0
  OneOfEach [] = Unit {0}
  OneOfEach (m ∷ ms) = (has_measure (key_of m) ms ≡ false) × OneOfEach ms

  pub has_measure-map :
      (k : MeasureKey) (es : List (Entry D)) → has_measure k (map (λ e. e.best) es) ≡ has_key k es
  unfolding has_key
  has_measure-map k [] = refl
  has_measure-map k (e ∷ es) = ground (arith, has_measure-map k es)

  pub OneOfEach-map : (es : List (Entry D)) → IsDistinct es → OneOfEach (map (λ e. e.best) es)
  OneOfEach-map [] d = tt
  OneOfEach-map (e ∷ es) d = (has_measure-map (key_of e.best) es ∙ d.0, OneOfEach-map es d.1)

  -- A rule that the duty rests on: a candidate, supported, that no candidate of its measure beats
  -- and only itself rivals.
  pub record IsDecisive (q : TariffQuery) (cs : List (TariffMeasure D)) (m : TariffMeasure D)
      : Type 0 where
    pub candidate : Any (λ c. c ≡ m) cs
    pub unbeaten : count_beats q m cs ≡ 0
    pub unrivalled : count_rivals q m cs ≡ 1
    pub supported : is_unsupported m.rate_type ≡ false

  pub IsDecisive-entries :
      (q : TariffQuery) (cs : List (TariffMeasure D)) (es : List (Entry D))
      → All (IsBest q cs) es
      → All IsClear es
      → All (IsDecisive q cs) (map (λ e. e.best) es)
  IsDecisive-entries q cs [] v w = tt
  IsDecisive-entries q cs (e ∷ es) v w = (
    record {
      candidate = v.0.member;
      unbeaten = v.0.unbeaten;
      unrivalled = subst (λ b. TieFits b (count_rivals q e.best cs)) w.0.0 v.0.tie;
      supported = w.0.1;
    },
    IsDecisive-entries q cs es v.1 w.1,
  )

  pub record IsResolved (q : TariffQuery) (ds : List Dataset) (cs : List (TariffMeasure D))
      (r : TariffResolution D) : Type 0 where
    pub same_query : r.query ≡ q
    pub same_datasets : r.datasets ≡ ds
    pub decisive : All (IsDecisive q cs) r.measures
    pub complete : All (λ c. has_measure (key_of c) r.measures ≡ true) cs
    pub distinct : OneOfEach r.measures
    pub has_mfn : has_measure mfn_key r.measures ≡ true

  -- What the failing entry of the loop says.
  abbrev pub Blocks : Error → Entry D → Type 0
  Blocks x e =
      (x ≡ ambiguous_tariff) × (e.tied ≡ true)
      ⊎ (x ≡ unsupported_measure) × (e.tied ≡ false) × (is_unsupported e.best.rate_type ≡ true)

  pub collect-err : (es : List (Entry D)) (x : Error) → collect es ≡ err x → Any (Blocks x) es
  unfolding collect
  collect-err [] x h = absurd (ground arith)
  collect-err (e ∷ es) x h =
      step e.tied refl (is_unsupported e.best.rate_type) refl (collect es) refl (collect-err es x)
    where
      step :
          (b : Bool)
          → e.tied ≡ b
          → (u : Bool) → is_unsupported e.best.rate_type ≡ u
          → (r : Result (List (TariffMeasure D))) → collect es ≡ r
          → (collect es ≡ err x → Any (Blocks x) es)
          → Any (Blocks x) (e ∷ es)
      step true t u s r p ih = here (inl (ground arith, t))
      step false t true s r p ih = here (inr (ground arith, t, s))
      step false t false s (ok ms) p ih = absurd (ground arith)
      step false t false s (err y) p ih = there (ih (ground arith))
