-- ===== src/Product/Batch/Versions.antt =====
-- The state of a fold and its new versions (identityFold, addVersion of internal/domain/product/
-- batch.go). A generated id is the answer of an identifier source to the number of the call.
use cross_border_ecommerce.Base.{
  ℕ, ◌+◌, ltb, Bool, true, false, List, [], ◌∷◌, ◌++◌, Option, none, some, if◌then◌else◌, Text,
  is_blank, Result, ok, ◌>>=◌,
}
use cross_border_ecommerce.Product.Metrics.{BatchMetrics}
use cross_border_ecommerce.Product.Canonical.{ProductVersion}
use cross_border_ecommerce.Product.Transition.{TransitionType, new, TransitionResult, Snapshot}
use cross_border_ecommerce.Product.Batch.Plan.{ChangeType, change_new, change_changed, BatchPlan}
use cross_border_ecommerce.Product.Batch.Grouping.{BatchIncomingRecord, IdentityGroup}

-- identityFold, with the plan that it writes to and the number of the next generated id.
pub record IdentityFold : Type 0 where
  pub plan : BatchPlan
  pub group : IdentityGroup
  pub now : ℕ
  pub start : Option Snapshot
  pub cur : Option Snapshot
  pub versioned : Bool
  pub touched : Bool
  pub next_id : ℕ

-- newIdentityFold.
unfoldable pub new_identity_fold :
    BatchPlan → IdentityGroup → Option Snapshot → ℕ → ℕ → IdentityFold
new_identity_fold plan group start now next_id = record {
  plan = plan;
  group = group;
  now = now;
  start = start;
  cur = start;
  versioned = false;
  touched = false;
  next_id = next_id;
}

-- greatestTimestamptz.
abbrev pub greatest_timestamptz : Option ℕ → Option ℕ → Option ℕ
greatest_timestamptz none b = b
greatest_timestamptz (some a) none = some a
greatest_timestamptz (some a) (some b) = if ltb b a then some a else some b

-- greatestTime.
abbrev pub greatest_time : ℕ → ℕ → ℕ
greatest_time a b = if ltb b a then a else b

-- optionalString.
abbrev pub optional_string : Text → Option Text
optional_string s = if is_blank s then none else some s

-- The running snapshot that addVersion starts from, with the number of the next id.
unfoldable pub snapshot_of :
    (ℕ → Result Text) → IdentityFold → ℕ → Option Snapshot → Result (Snapshot × ℕ)
snapshot_of gen f received_at (some s) = ok (s, f.next_id)
snapshot_of gen f received_at none = do
  product_id ← gen f.next_id
  product_source_id ← gen (f.next_id + 1)
  ok (
    record {
      product_source_id = product_source_id;
      product_id = product_id;
      current_version_id = none;
      current_fingerprint = [];
      last_source_updated_at = none;
      last_received_at = received_at;
      stored_current_version = none;
    },
    f.next_id + 2,
  )

abbrev pub next_number : Option ProductVersion → ℕ
next_number none = 1
next_number (some v) = v.version_number + 1

abbrev pub change_type_of : TransitionType → ChangeType
change_type_of new = change_new
change_type_of _ = change_changed

abbrev fields_of : TransitionType → List Text → List Text
fields_of new fields = []
fields_of _ fields = fields

abbrev pub count_version : ChangeType → BatchMetrics → BatchMetrics
count_version change_new m = record m { new = m.new + 1 }
count_version change_changed m = record m { changed = m.changed + 1 }

abbrev pub count_unchanged : BatchPlan → BatchPlan
count_unchanged p = record p {
  metrics = record (p.metrics) { unchanged = p.metrics.unchanged + 1 };
}

abbrev pub version_of : BatchIncomingRecord → Snapshot → Text → ℕ → ProductVersion
version_of r s id now = record {
  id = id;
  product_id = s.product_id;
  version_number = next_number s.stored_current_version;
  fingerprint = r.fingerprint;
  canonical_name = r.normalized.canonical_name;
  description = r.normalized.description;
  brand = r.normalized.brand;
  origin_country = r.normalized.origin_country;
  attributes = r.normalized.attributes;
  ingestion_run_id = optional_string r.ingestion_run_id;
  created_at = now;
}

-- The appends of addVersion: a version, its change and its event, and one count.
unfoldable pub append_version :
    BatchPlan
    → BatchIncomingRecord
    → Snapshot
    → TransitionResult
    → ProductVersion
    → Text
    → Text
    → ℕ
    → BatchPlan
append_version p r s t version change_id event_id now = record p {
  product_versions_to_insert = p.product_versions_to_insert ++ (version ∷ []);
  product_changes_to_insert =
      p.product_changes_to_insert
      ++ (record {
        id = change_id;
        product_id = s.product_id;
        from_version_id = s.current_version_id;
        to_version_id = version.id;
        change_type = change_type_of t.type;
        changed_fields = fields_of t.type t.changed_fields;
        ingestion_run_id = version.ingestion_run_id;
        raw_record_id = some r.raw_record_id;
        detected_at = now;
      }
          ∷ []);
  events =
      p.events
      ++ (record {
        event_id = event_id;
        product_id = version.product_id;
        version_id = version.id;
        version_number = version.version_number;
        fingerprint = version.fingerprint;
        change_type = change_type_of t.type;
        changed_fields = fields_of t.type t.changed_fields;
      }
          ∷ []);
  metrics = count_version (change_type_of t.type) p.metrics;
}

-- The fold after addVersion has built on snapshot `s`, with the number of the next id.
unfoldable pub added :
    BatchIncomingRecord
    → TransitionResult
    → IdentityFold
    → Snapshot
    → ℕ
    → Text
    → Text
    → Text
    → IdentityFold
added r t f s next_id version_id change_id event_id =
    let version = version_of r s version_id f.now in
    record f {
      plan = append_version f.plan r s t version change_id event_id f.now;
      cur = some (record s {
        current_version_id = some version_id;
        current_fingerprint = r.fingerprint;
        stored_current_version = some version;
      });
      versioned = true;
      next_id = next_id;
    }

-- addVersion.
unfoldable pub add_version :
    (ℕ → Result Text) → BatchIncomingRecord → TransitionResult → IdentityFold → Result IdentityFold
add_version gen r t f = do
  (s, k) ← snapshot_of gen f r.received_at f.cur
  version_id ← gen k
  change_id ← gen (k + 1)
  event_id ← gen (k + 2)
  ok (added r t f s (k + 3) version_id change_id event_id)
