-- ===== src/Product/Batch/Plan.antt =====
-- The rows and counters of a plan (BatchPlan and the types of its rows: internal/domain/product/
-- batch.go, change.go, entity.go, events.go, source.go).
use cross_border_ecommerce.Base.{ℕ, List, [], Option, Text}
use cross_border_ecommerce.Product.Metrics.{BatchMetrics}
use cross_border_ecommerce.Product.Canonical.{ProductVersion}

pub data ChangeType : Type 0 where
  change_new change_changed : ChangeType

pub record ProductChange : Type 0 where
  pub id : Text
  pub product_id : Text
  pub from_version_id : Option Text
  pub to_version_id : Text
  pub change_type : ChangeType
  pub changed_fields : List Text
  pub ingestion_run_id : Option Text
  pub raw_record_id : Option Text
  pub detected_at : ℕ

pub record ProductChanged : Type 0 where
  pub event_id : Text
  pub product_id : Text
  pub version_id : Text
  pub version_number : ℕ
  pub fingerprint : Text
  pub change_type : ChangeType
  pub changed_fields : List Text

-- Product; its status is DRAFT.
pub record Product : Type 0 where
  pub id : Text
  pub canonical_name : Text
  pub description : Text
  pub brand : Text
  pub origin_country : Text
  pub current_version_id : Option Text
  pub current_fingerprint : Text
  pub created_at : ℕ
  pub updated_at : ℕ

pub record ProductSource : Type 0 where
  pub id : Text
  pub product_id : Text
  pub source_id : Text
  pub external_product_id : Text
  pub first_seen_at : ℕ
  pub last_changed_at : ℕ
  pub last_source_updated_at : Option ℕ
  pub last_received_at : ℕ

pub record ProductGuardedUpdate : Type 0 where
  pub product_id : Text
  pub expected_version_id : Option Text
  pub to_version_id : Text
  pub current_fingerprint : Text
  pub canonical_name : Text
  pub description : Text
  pub brand : Text
  pub origin_country : Text
  pub updated_at : ℕ

pub record ProductFingerprintUpdate : Type 0 where
  pub product_id : Text
  pub expected_version_id : Option Text
  pub current_fingerprint : Text
  pub updated_at : ℕ

pub record SourceWatermarkUpdate : Type 0 where
  pub product_source_id : Text
  pub source_updated_at : Option ℕ
  pub received_at : ℕ

pub record SourceChangedUpdate : Type 0 where
  pub product_source_id : Text
  pub last_changed_at : ℕ
  pub source_updated_at : Option ℕ
  pub received_at : ℕ

pub record BatchPlan : Type 0 where
  pub products_to_insert : List Product
  pub product_sources_to_insert : List ProductSource
  pub product_versions_to_insert : List ProductVersion
  pub product_changes_to_insert : List ProductChange
  pub events : List ProductChanged
  pub products_to_update : List ProductGuardedUpdate
  pub products_to_update_fingerprint : List ProductFingerprintUpdate
  pub sources_to_update_watermark : List SourceWatermarkUpdate
  pub sources_to_update_changed : List SourceChangedUpdate
  pub metrics : BatchMetrics

abbrev pub empty_plan : ℕ → BatchPlan
empty_plan seen = record {
  products_to_insert = [];
  product_sources_to_insert = [];
  product_versions_to_insert = [];
  product_changes_to_insert = [];
  events = [];
  products_to_update = [];
  products_to_update_fingerprint = [];
  sources_to_update_watermark = [];
  sources_to_update_changed = [];
  metrics = record { seen = seen; new = 0; changed = 0; unchanged = 0; failures = 0 };
}
