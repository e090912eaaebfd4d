-- ===== src/Tests/Rules.antt =====
-- Datasets, coverage and tariffs at concrete inputs (internal/domain/regulatory).
use cross_border_ecommerce.Regulatory.Tariff.{replace}
use cross_border_ecommerce.Regulatory.Tariff.{sort_entries}
use cross_border_ecommerce.Regulatory.Tariff.{collect}
use cross_border_ecommerce.Regulatory.Tariff.{has_key}
use cross_border_ecommerce.Regulatory.Tariff.{key_eq}
use cross_border_ecommerce.Regulatory.Tariff.{most_specific_from}
use cross_border_ecommerce.Regulatory.Tariff.{add_candidate}
use cross_border_ecommerce.Regulatory.Tariff.{most_specific}
use cross_border_ecommerce.Base.{text_eq}
use cross_border_ecommerce.Regulatory.Dataset.Codes.{parse_category}
use cross_border_ecommerce.Regulatory.Dataset.Codes.{parse_jurisdiction}
use cross_border_ecommerce.Base.{to_upper}
use cross_border_ecommerce.Base.{trim_space}
use cross_border_ecommerce.Base.{
  ℕ, refl, true, List, [], ◌∷◌, none, some, Text, codes, ascii_table, ok, no_tariff_rate,
}
use cross_border_ecommerce.Regulatory.Dataset.Codes.{tariff}
use cross_border_ecommerce.Regulatory.Dataset.{
  Dataset, DatasetParams, loaded, rejected, new_dataset,
}
use cross_border_ecommerce.Regulatory.Dataset.Lifecycle.{
  Operation, reviews, activates, supersedes, run, IsLawful, history-IsLawful,
}
use cross_border_ecommerce.Regulatory.Coverage.{Slas}
use cross_border_ecommerce.Regulatory.Tariff.Query.{TariffQuery}
use cross_border_ecommerce.Regulatory.Tariff.{
  TariffMeasure, TariffResolution, mfn, additional_duty, ad_valorem, MeasureType, resolve_tariff,
}
use cross_border_ecommerce.Regulatory.Tariff.Resolution.{IsResolved}
use cross_border_ecommerce.Regulatory.Tariff.Holds.{
  IsHold, resolve_tariff-IsResolved, resolve_tariff-IsHold,
}

abbrev params : DatasetParams
params = record {
  jurisdiction = codes "us";
  category = codes "tariff";
  source = codes "HTS";
  version = codes "1";
  fetched_at = 5;
  content_sha256 = 1 ∷ [];
  licence = codes "CC0";
  attribution = codes "USITC";
  loaded_by = codes "ann";
  requires_review = true;
}

abbrev dataset : Dataset
dataset = record {
  id = codes "d1";
  jurisdiction = codes "US";
  category = tariff;
  source = codes "HTS";
  version = codes "1";
  fetched_at = 5;
  content_sha256 = 1 ∷ [];
  licence = codes "CC0";
  attribution = codes "USITC";
  loaded_by = codes "ann";
  requires_review = true;
  status = loaded;
  review = none;
  activated_at = none;
  superseded_at = none;
  rejected_reason = [];
}

abbrev operations : List Operation
operations =
    activates 6
    ∷ reviews (codes "Ann") (codes "ok") 7
    ∷ reviews (codes "bob") (codes "ok") 8
    ∷ activates 9
    ∷ supersedes 12
    ∷ []

history-IsLawful_example : IsLawful ascii_table (run ascii_table dataset operations)
unfolding new_dataset parse_category parse_jurisdiction text_eq to_upper trim_space
history-IsLawful_example =
    history-IsLawful ascii_table params (ok (codes "d1")) dataset operations refl

abbrev refused : Dataset
refused = record dataset { status = rejected; rejected_reason = codes "typo" }

abbrev slas : Slas
slas c = 10

abbrev none_active : List Dataset
none_active = []

abbrev query : TariffQuery
query = record {
  jurisdiction = codes "US";
  origin = codes "CN";
  hs_code = codes "9405";
  transaction_at = 10;
  evaluated_at = 11;
}

abbrev measure : MeasureType → Text → Text → Text → TariffMeasure ℕ
measure type code hs origin = record {
  id = codes "m";
  dataset_id = codes "d1";
  hs_code = hs;
  origin_country = origin;
  measure_type = type;
  measure_code = code;
  rate_type = ad_valorem;
  ad_valorem_rate = some 4;
  specific_duty = none;
  rate_expression = [];
}

abbrev candidates : List (TariffMeasure ℕ)
candidates =
    measure mfn [] (codes "94") []
    ∷ measure mfn [] (codes "9405") []
    ∷ measure additional_duty (codes "301") (codes "94") (codes "CN")
    ∷ []

abbrev resolution : TariffResolution ℕ
resolution = record {
  query = query;
  datasets = dataset ∷ [];
  measures =
      measure mfn [] (codes "9405") []
      ∷ measure additional_duty (codes "301") (codes "94") (codes "CN")
      ∷ [];
}

resolve_tariff-IsResolved_example : IsResolved query (dataset ∷ []) candidates resolution
unfolding add_candidate collect has_key key_eq most_specific most_specific_from replace
    resolve_tariff sort_entries text_eq
resolve_tariff-IsResolved_example =
    resolve_tariff-IsResolved query (dataset ∷ []) candidates resolution refl

abbrev duties : List (TariffMeasure ℕ)
duties = measure additional_duty (codes "301") (codes "94") (codes "CN") ∷ []

resolve_tariff-IsHold_example : IsHold query duties no_tariff_rate
unfolding add_candidate has_key key_eq most_specific most_specific_from resolve_tariff
resolve_tariff-IsHold_example =
    resolve_tariff-IsHold query (dataset ∷ []) duties no_tariff_rate refl
