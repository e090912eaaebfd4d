-- ===== src/Regulatory/Service.antt =====
-- Activate of internal/application/regulatory/service.go, over the rows of regulatory_datasets. The
-- repository is internal/infrastructure/postgres/regulatory_repository.go with the statements of
-- queries/regulatory_datasets.sql; the errors of the database are arguments.
pub mod Counting
pub mod OneActive
use cross_border_ecommerce.Base.{
  ℕ, Bool, true, false, not, ◌&&◌, List, [], ◌∷◌, Option, none, some, if◌then◌else◌, Text, text_eq,
  Error, Result, ok, err, ◌>>=◌, ◌>>◌, fail_if, dataset_not_found, invalid_transition,
}
use cross_border_ecommerce.Regulatory.Dataset.Codes.{category_name}
use cross_border_ecommerce.Regulatory.Dataset.{
  Dataset, Status, loaded, active, superseded, rejected, is_loaded, is_active, activate, supersede,
}

-- DatasetActivated.
pub record DatasetActivated : Type 0 where
  pub event_id : Text
  pub dataset : Dataset
  pub previous_dataset_id : Text

-- What one activation meets: the clock, the event's id, and the errors of the database; the last is what
-- the constraints say of the rows that a statement leaves.
pub record Session : Type 0 where
  pub now : ℕ
  pub event_id : Result Text
  pub get_fault : Option Error
  pub active_fault : Option Error
  pub outbox_fault : Option Error
  pub commit_fault : Option Error
  pub save_fault : List Dataset → Option Error

abbrev pub fault : Option Error → Result (Unit {0})
fault none = ok tt
fault (some e) = err e

unfoldable pub find_id : Text → List Dataset → Result Dataset
find_id id [] = err dataset_not_found
find_id id (d ∷ ds) = let rest = find_id id ds in if text_eq d.id id then ok d else rest

-- Jurisdiction, category and source.
unfoldable pub same_key : Dataset → Dataset → Bool
same_key d e =
    text_eq d.jurisdiction e.jurisdiction
    && (text_eq (category_name d.category) (category_name e.category) && text_eq d.source e.source)

abbrev pub in_force : Dataset → Dataset → Bool
in_force d e = same_key d e && is_active e.status

-- ActiveForUpdate, by the key of a dataset.
unfoldable pub find_active : Dataset → List Dataset → Option Dataset
find_active d [] = none
find_active d (e ∷ es) = let rest = find_active d es in if in_force d e then some e else rest

abbrev pub status_eq : Status → Status → Bool
status_eq loaded loaded = true
status_eq active active = true
status_eq superseded superseded = true
status_eq rejected rejected = true
status_eq _ _ = false

abbrev pub is_target : Dataset → Status → Dataset → Bool
is_target d expected e = text_eq e.id d.id && status_eq e.status expected

-- The SET clause of UpdateRegulatoryDatasetLifecycle.
abbrev pub set_lifecycle : Dataset → Dataset → Dataset
set_lifecycle d e = record e {
  status = d.status;
  review = d.review;
  activated_at = d.activated_at;
  superseded_at = d.superseded_at;
  rejected_reason = d.rejected_reason;
}

unfoldable pub update_rows : Dataset → Status → List Dataset → List Dataset
update_rows d expected [] = []
update_rows d expected (e ∷ es) =
    (if is_target d expected e then set_lifecycle d e else e) ∷ update_rows d expected es

unfoldable pub has_target : Dataset → Status → List Dataset → Bool
has_target d expected [] = false
has_target d expected (e ∷ es) = if is_target d expected e then true else has_target d expected es

-- SaveLifecycle.
unfoldable pub save_lifecycle : Session → Dataset → Status → List Dataset → Result (List Dataset)
save_lifecycle db d expected rows = do
  fault (db.save_fault (update_rows d expected rows))
  fail_if (not (has_target d expected rows)) invalid_transition
  ok (update_rows d expected rows)

-- The supersession of the previous version, where there is one, and its id.
unfoldable pub supersede_previous :
    Session → Option Dataset → List Dataset → Result (List Dataset × Text)
supersede_previous db none rows = ok (rows, [])
supersede_previous db (some previous) rows = do
  previous' ← supersede db.now previous
  rows' ← save_lifecycle db previous' active rows
  ok (rows', previous.id)

-- Activate: the rows and the event that its transaction commits.
unfoldable pub activate_dataset :
    Session → Text → List Dataset → Result (List Dataset × DatasetActivated)
activate_dataset db id rows = do
  event_id ← db.event_id
  fault db.get_fault
  d ← find_id id rows
  d' ← activate db.now d
  fault db.active_fault
  previous ← supersede_previous db (find_active d' rows) rows
  rows' ← save_lifecycle db d' loaded previous.0
  fault db.outbox_fault
  fault db.commit_fault
  ok (rows', record { event_id = event_id; dataset = d'; previous_dataset_id = previous.1 })
