-- ===== src/Tests/Activations.antt =====
-- An activation that supersedes a version (internal/application/regulatory/service.go).
use cross_border_ecommerce.Regulatory.Service.{find_active}
use cross_border_ecommerce.Base.{text_eq}
use cross_border_ecommerce.Regulatory.Service.{supersede_previous}
use cross_border_ecommerce.Regulatory.Dataset.Codes.{category_name}
use cross_border_ecommerce.Regulatory.Dataset.{supersede}
use cross_border_ecommerce.Regulatory.Service.{save_lifecycle}
use cross_border_ecommerce.Regulatory.Dataset.{activate}
use cross_border_ecommerce.Regulatory.Service.{has_target}
use cross_border_ecommerce.Regulatory.Service.{update_rows}
use cross_border_ecommerce.Regulatory.Service.{find_id}
use cross_border_ecommerce.Regulatory.Service.{same_key}
use cross_border_ecommerce.Base.{
  ℕ, ◌≤◌, refl, false, List, [], ◌∷◌, Option, none, some, arith, Text, codes, Result, ok, err,
}
use cross_border_ecommerce.Regulatory.Dataset.Codes.{tariff}
use cross_border_ecommerce.Regulatory.Dataset.{Dataset, loaded, active, Status}
use cross_border_ecommerce.Regulatory.Service.{Session, DatasetActivated, activate_dataset}
use cross_border_ecommerce.Regulatory.Service.Counting.{count_active, count_id}
use cross_border_ecommerce.Regulatory.Service.OneActive.{activate_dataset-one}

abbrev version : Text → Status → Option ℕ → Dataset
version id status activated_at = record {
  id = id;
  jurisdiction = codes "US";
  category = tariff;
  source = codes "HTS";
  version = id;
  fetched_at = 5;
  content_sha256 = 1 ∷ [];
  licence = codes "CC0";
  attribution = codes "USITC";
  loaded_by = codes "ann";
  requires_review = false;
  status = status;
  review = none;
  activated_at = activated_at;
  superseded_at = none;
  rejected_reason = [];
}

abbrev rows : List Dataset
rows = version (codes "d1") active (some 6) ∷ version (codes "d2") loaded none ∷ []

abbrev session : Session
session = record {
  now = 9;
  event_id = ok (codes "e1");
  get_fault = none;
  active_fault = none;
  outbox_fault = none;
  commit_fault = none;
  save_fault = λ r. none;
}

abbrev activated : DatasetActivated
activated = record {
  event_id = codes "e1";
  dataset = version (codes "d2") active (some 9);
  previous_dataset_id = codes "d1";
}

abbrev rows_of : Result (List Dataset × DatasetActivated) → List Dataset
rows_of (ok x) = x.0
rows_of (err e) = []

abbrev rows_after : List Dataset
rows_after = rows_of (activate_dataset session (codes "d2") rows)

activate_dataset-one_example : count_active activated.dataset rows_after ≤ 1
unfolding activate activate_dataset category_name count_active count_id find_active find_id
    has_target same_key save_lifecycle supersede supersede_previous text_eq update_rows
activate_dataset-one_example =
    activate_dataset-one session (codes "d2") rows rows_after activated refl (omega arith)
      (omega arith)
