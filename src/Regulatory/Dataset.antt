-- ===== src/Regulatory/Dataset.antt =====
-- internal/domain/regulatory/dataset.go. Instants are numbers, 0 the zero time; a generated id is an
-- argument, the result of uuid.NewString.
pub mod Codes
pub mod Lifecycle
use Codes.{Category, parse_category, parse_jurisdiction}
use cross_border_ecommerce.Base.{
  ℕ, ltb, ◌==◌, Bool, true, false, ◌||◌, ◌&&◌, List, [], ◌∷◌, Option, none, some, if◌then◌else◌,
  Text, trim_space, is_empty, text_eq, CaseTable, equal_fold, Result, ok, err, Error,
  invalid_dataset, invalid_transition, panic, invalid_review, review_required, reviewer_is_loader,
  ◌>>=◌, ◌>>◌, fail_if,
}

pub data Status : Type 0 where
  loaded active superseded rejected : Status

pub record Review : Type 0 where
  pub by : Text
  pub note : Text
  pub at : ℕ

pub record Dataset : Type 0 where
  pub id : Text
  pub jurisdiction : Text
  pub category : Category
  pub source : Text
  pub version : Text
  pub fetched_at : ℕ
  pub content_sha256 : List ℕ
  pub licence : Text
  pub attribution : Text
  pub loaded_by : Text
  pub requires_review : Bool
  pub status : Status
  pub review : Option Review
  pub activated_at : Option ℕ
  pub superseded_at : Option ℕ
  pub rejected_reason : Text

-- NewDatasetParams. The category is still a string, the hash a list of bytes.
pub record DatasetParams : Type 0 where
  pub jurisdiction : Text
  pub category : Text
  pub source : Text
  pub version : Text
  pub fetched_at : ℕ
  pub content_sha256 : List ℕ
  pub licence : Text
  pub attribution : Text
  pub loaded_by : Text
  pub requires_review : Bool

all_zero : List ℕ → Bool
all_zero [] = true
all_zero (b ∷ bs) = b == 0 && all_zero bs

-- validateProvenance.
validate_provenance : Dataset → ℕ → Result (Unit {0})
unfolding all_zero
validate_provenance d fetched_at = do
  fail_if (is_empty d.source) invalid_dataset
  fail_if (is_empty d.version) invalid_dataset
  fail_if (is_empty d.licence) invalid_dataset
  fail_if (is_empty d.attribution) invalid_dataset
  fail_if (is_empty d.loaded_by) invalid_dataset
  fail_if (fetched_at == 0) invalid_dataset
  fail_if (all_zero d.content_sha256) invalid_dataset

-- The dataset before its id is known.
abbrev unnamed : DatasetParams → Text → Category → Dataset
unnamed p jurisdiction category = record {
  id = [];
  jurisdiction = jurisdiction;
  category = category;
  source = trim_space p.source;
  version = trim_space p.version;
  fetched_at = p.fetched_at;
  content_sha256 = p.content_sha256;
  licence = trim_space p.licence;
  attribution = trim_space p.attribution;
  loaded_by = trim_space p.loaded_by;
  requires_review = p.requires_review;
  status = loaded;
  review = none;
  activated_at = none;
  superseded_at = none;
  rejected_reason = [];
}

abbrev named : Dataset → Text → Dataset
named d id = record d { id = id }

-- NewDataset.
unfoldable pub new_dataset : CaseTable → DatasetParams → Result Text → Result Dataset
unfolding validate_provenance
new_dataset t p generated = do
  jurisdiction ← parse_jurisdiction t p.jurisdiction
  category ← parse_category t p.category
  let d = unnamed p jurisdiction category
  validate_provenance d p.fetched_at
  id ← generated
  ok (named d id)

abbrev pub is_loaded : Status → Bool
is_loaded loaded = true
is_loaded _ = false

abbrev pub is_active : Status → Bool
is_active active = true
is_active _ = false

abbrev pub is_none {ℓ} : {A : Type ℓ} → Option A → Bool
is_none none = true
is_none (some _) = false

-- RecordReview.
unfoldable pub record_review : CaseTable → Text → Text → ℕ → Dataset → Result Dataset
record_review t by note now d = do
  if is_loaded d.status && is_none d.review then ok tt else err invalid_transition
  fail_if (is_empty (trim_space by) || is_empty (trim_space note)) invalid_review
  fail_if (equal_fold t (trim_space by) d.loaded_by) reviewer_is_loader
  ok (record d { review = some (record { by = trim_space by; note = trim_space note; at = now }) })

-- Activate.
unfoldable pub activate : ℕ → Dataset → Result Dataset
activate now d = do
  if is_loaded d.status then ok tt else err invalid_transition
  fail_if (d.requires_review && is_none d.review) review_required
  ok (record d { status = active; activated_at = some now })

-- `at.Before(*d.ActivatedAt)`, which panics without an activation time.
abbrev check_activation : ℕ → Option ℕ → Result (Unit {0})
check_activation now none = err panic
check_activation now (some at) = fail_if (ltb now at) invalid_transition

-- Supersede.
unfoldable pub supersede : ℕ → Dataset → Result Dataset
supersede now d = do
  if is_active d.status then ok tt else err invalid_transition
  check_activation now d.activated_at
  ok (record d { status = superseded; superseded_at = some now })

-- Reject.
unfoldable pub reject : Text → Dataset → Result Dataset
reject reason d = do
  if is_loaded d.status then ok tt else err invalid_transition
  fail_if (is_empty (trim_space reason)) invalid_dataset
  ok (record d { status = rejected; rejected_reason = trim_space reason })
