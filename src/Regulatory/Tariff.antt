-- ===== src/Regulatory/Tariff.antt =====
-- internal/domain/regulatory/tariff.go. Decimals are the values of a type that the third-party
-- package gives; a map from measure key to index is an association list from key to the candidate at
-- that index, in order of insertion.
pub mod Query
pub mod Counting
pub mod Selection
pub mod Fold
pub mod Sorting
pub mod Resolution
pub mod Holds
use Prim.Native.Nat.{compare, Ordering}
use Query.{TariffQuery}
use cross_border_ecommerce.Base.{
  ℕ, suc, Bool, true, false, ◌&&◌, List, [], ◌∷◌, Option, none, some, if◌then◌else◌, length, Text,
  text_eq, first_difference, compare_text, Result, ok, err, no_tariff_rate, ambiguous_tariff,
  unsupported_measure, ◌>>=◌, ◌>>◌,
}
use cross_border_ecommerce.Regulatory.Dataset.{Dataset}

pub data MeasureType : Type 0 where
  mfn additional_duty : MeasureType
  other_type : Text → MeasureType

pub data RateType : Type 0 where
  ad_valorem specific compound unsupported : RateType
  other_rate : Text → RateType

pub record SpecificDuty (D : Type 0) : Type 0 where
  pub amount : D
  pub currency : Text
  pub unit : Text

pub record TariffMeasure (D : Type 0) : Type 0 where
  pub id : Text
  pub dataset_id : Text
  pub hs_code : Text
  pub origin_country : Text
  pub measure_type : MeasureType
  pub measure_code : Text
  pub rate_type : RateType
  pub ad_valorem_rate : Option D
  pub specific_duty : Option (SpecificDuty D)
  pub rate_expression : Text

pub record TariffResolution (D : Type 0) : Type 0 where
  pub query : TariffQuery
  pub datasets : List Dataset
  pub measures : List (TariffMeasure D)

unfoldable pub type_eq : MeasureType → MeasureType → Bool
type_eq mfn mfn = true
type_eq additional_duty additional_duty = true
type_eq (other_type a) (other_type b) = text_eq a b
type_eq _ _ = false

-- measureKey.
pub record MeasureKey : Type 0 where
  pub measure_type : MeasureType
  pub code : Text

unfoldable pub key_eq : MeasureKey → MeasureKey → Bool
unfolding type_eq
key_eq a b = type_eq a.measure_type b.measure_type && text_eq a.code b.code

abbrev pub mfn_key : MeasureKey
mfn_key = record { measure_type = mfn; code = [] }

abbrev pub is_unsupported : RateType → Bool
is_unsupported unsupported = true
is_unsupported _ = false

-- boolRank.
abbrev pub bool_rank : Bool → ℕ
bool_rank true = 1
bool_rank false = 0

-- What the maps `best` and `tied` hold for one key.
pub record Entry (D : Type 0) : Type 0 where
  pub best : TariffMeasure D
  pub tied : Bool

-- compareMeasureKeys.
unfoldable pub compare_measure_keys : MeasureKey → MeasureKey → Ordering
unfolding type_eq
compare_measure_keys a b =
    first_difference
      (compare (bool_rank (type_eq b.measure_type mfn)) (bool_rank (type_eq a.measure_type mfn)))
      (compare_text a.code b.code)

module _ {D : Type 0} where
  abbrev pub key_of : TariffMeasure D → MeasureKey
  key_of m = record { measure_type = m.measure_type; code = m.measure_code }

  -- AdValoremPercent, over the decimals' zero and addition.
  unfoldable pub ad_valorem_percent : D → (D → D → D) → List (TariffMeasure D) → D
  ad_valorem_percent total add [] = total
  ad_valorem_percent total add (m ∷ ms) =
      ad_valorem_percent (elim m.ad_valorem_rate [ none ↦ total | some d ↦ add total d ]) add ms

  abbrev pub origin_rank : TariffQuery → TariffMeasure D → ℕ
  origin_rank q m = bool_rank (text_eq m.origin_country q.origin)

  -- compareSpecificity: `gt` where the first is more specific.
  unfoldable pub compare_specificity : TariffQuery → TariffMeasure D → TariffMeasure D → Ordering
  compare_specificity q a b =
      first_difference (compare (origin_rank q a) (origin_rank q b))
        (compare (length a.hs_code) (length b.hs_code))

  -- The `switch` of mostSpecific, by the outcome of the comparison.
  unfoldable pub replace_by : Ordering → TariffMeasure D → Entry D → Entry D
  replace_by Ordering.gt m e = record { best = m; tied = false }
  replace_by Ordering.eq m e = record { best = e.best; tied = true }
  replace_by Ordering.lt m e = e

  unfoldable pub replace : TariffQuery → TariffMeasure D → Entry D → Entry D
  unfolding replace_by compare_specificity
  replace q m e = replace_by (compare_specificity q m e.best) m e

  -- One candidate of the loop of mostSpecific.
  unfoldable pub add_candidate : TariffQuery → TariffMeasure D → List (Entry D) → List (Entry D)
  add_candidate q m [] = record { best = m; tied = false } ∷ []
  add_candidate q m (e ∷ es) =
      if key_eq (key_of m) (key_of e.best) then replace q m e ∷ es else e ∷ add_candidate q m es

  unfoldable pub most_specific_from :
      TariffQuery → List (Entry D) → List (TariffMeasure D) → List (Entry D)
  most_specific_from q es [] = es
  most_specific_from q es (m ∷ ms) = most_specific_from q (add_candidate q m es) ms

  -- mostSpecific.
  unfoldable pub most_specific : TariffQuery → List (TariffMeasure D) → List (Entry D)
  most_specific q candidates = most_specific_from q [] candidates

  -- Where the entry `e` goes in the sorted list `f ∷ fs`; `rest` is `fs` with `e` put in.
  unfoldable pub place_by :
      Ordering → Entry D → Entry D → List (Entry D) → List (Entry D) → List (Entry D)
  place_by Ordering.gt e f fs rest = f ∷ rest
  place_by Ordering.lt e f fs rest = e ∷ f ∷ fs
  place_by Ordering.eq e f fs rest = e ∷ f ∷ fs

  unfoldable pub insert_entry : Entry D → List (Entry D) → List (Entry D)
  insert_entry e [] = e ∷ []
  insert_entry e (f ∷ fs) =
      place_by (compare_measure_keys (key_of e.best) (key_of f.best)) e f fs (insert_entry e fs)

  -- slices.SortedFunc over the keys of `best`, which are distinct: an insertion sort.
  unfoldable pub sort_entries : List (Entry D) → List (Entry D)
  unfolding insert_entry place_by compare_measure_keys compare_text
  sort_entries [] = []
  sort_entries (e ∷ es) = insert_entry e (sort_entries es)

  -- `best[measureKey{measureType: MeasureMFN}]` is there.
  unfoldable pub has_key : MeasureKey → List (Entry D) → Bool
  has_key k [] = false
  has_key k (e ∷ es) = if key_eq k (key_of e.best) then true else has_key k es

  -- The loop over the sorted keys.
  unfoldable pub collect : List (Entry D) → Result (List (TariffMeasure D))
  collect [] = ok []
  collect (e ∷ es) =
      let rest = collect es in
      if e.tied
      then err ambiguous_tariff
      else if is_unsupported e.best.rate_type
      then err unsupported_measure
      else rest >>= λ ms. ok (e.best ∷ ms)

  -- ResolveTariff.
  unfoldable pub resolve_tariff :
      TariffQuery → List Dataset → List (TariffMeasure D) → Result (TariffResolution D)
  resolve_tariff q datasets candidates = do
    let best = most_specific q candidates
    if has_key mfn_key best then ok tt else err no_tariff_rate
    measures ← collect (sort_entries best)
    ok (record { query = q; datasets = datasets; measures = measures })
