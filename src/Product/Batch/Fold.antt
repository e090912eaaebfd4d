-- ===== src/Product/Batch/Fold.antt =====
-- The fold of one identity and of a page (apply, emit, DecideBatch of internal/domain/product/batch.go).
use cross_border_ecommerce.Base.{
  ℕ, ◌==◌, ◌||◌, Bool, true, false, List, [], ◌∷◌, ◌++◌, Option, none, some, if◌then◌else◌, length,
  Text, text_eq, Result, ok, err, panic, invalid_product_state, ◌>>=◌, ◌>>◌, fail_if,
}
use cross_border_ecommerce.Product.Canonical.{ProductVersion, Codec}
use cross_border_ecommerce.Product.Transition.{
  TransitionType, new, changed, unchanged, stale, version_mismatch, TransitionResult, Snapshot,
  IncomingRecord, decide_transition,
}
use cross_border_ecommerce.Product.Batch.Plan.{BatchPlan, empty_plan}
use cross_border_ecommerce.Product.Batch.Grouping.{
  BatchIncomingRecord, IdentityGroup, group_by_identity,
}
use cross_border_ecommerce.Product.Batch.Versions.{
  IdentityFold, new_identity_fold, greatest_timestamptz, greatest_time, add_version,
  count_unchanged,
}

abbrev pub incoming_of : BatchIncomingRecord → IncomingRecord
incoming_of r = record {
  normalized = r.normalized;
  fingerprint = r.fingerprint;
  source_updated_at = r.source_updated_at;
  received_at = r.received_at;
  raw_record_id = r.raw_record_id;
}

-- The watermarks of the snapshot after a record.
abbrev pub advance : BatchIncomingRecord → Snapshot → Snapshot
advance r s = record s {
  last_source_updated_at = greatest_timestamptz s.last_source_updated_at r.source_updated_at;
  last_received_at = greatest_time s.last_received_at r.received_at;
}

-- A write through `f.cur`.
unfoldable pub on_cur : (Snapshot → Snapshot) → IdentityFold → Option Snapshot → Result IdentityFold
on_cur g f none = err panic
on_cur g f (some s) = ok (record f { cur = some (g s) })

-- The lines behind the `switch` of apply.
unfoldable pub touch : BatchIncomingRecord → IdentityFold → Result IdentityFold
unfolding on_cur
touch r f = do f' ← on_cur (advance r) f f.cur; ok (record f' { touched = true })

abbrev pub count_one_unchanged : IdentityFold → IdentityFold
count_one_unchanged f = record f { plan = count_unchanged f.plan }

abbrev pub with_fingerprint : Text → Snapshot → Snapshot
with_fingerprint s c = record c { current_fingerprint = s }

-- The `switch` of apply, by the type of the transition. Its default case has no type left.
unfoldable pub apply_as :
    (ℕ → Result Text)
    → BatchIncomingRecord
    → TransitionResult
    → TransitionType
    → IdentityFold
    → Result IdentityFold
unfolding touch
apply_as gen r t stale f = ok (count_one_unchanged f)
apply_as gen r t new f = add_version gen r t f >>= touch r
apply_as gen r t changed f = add_version gen r t f >>= touch r
apply_as gen r t version_mismatch f = do
  f' ← on_cur (with_fingerprint r.fingerprint) f f.cur
  touch r (count_one_unchanged f')
apply_as gen r t unchanged f = touch r (count_one_unchanged f)

-- apply.
unfoldable pub apply :
    Codec → (ℕ → Result Text) → BatchIncomingRecord → IdentityFold → Result IdentityFold
apply c gen r f = let t = decide_transition c f.cur (incoming_of r) in apply_as gen r t t.type f

unfoldable pub apply_all :
    Codec → (ℕ → Result Text) → List BatchIncomingRecord → IdentityFold → Result IdentityFold
apply_all c gen [] f = ok f
apply_all c gen (r ∷ rs) f = apply c gen r f >>= apply_all c gen rs

-- emitInsert, for the fold's snapshot and its version.
unfoldable pub emit_insert : IdentityFold → Snapshot → ProductVersion → BatchPlan
emit_insert f s v = record (f.plan) {
  products_to_insert =
      f.plan.products_to_insert
      ++ (record {
        id = s.product_id;
        canonical_name = v.canonical_name;
        description = v.description;
        brand = v.brand;
        origin_country = v.origin_country;
        current_version_id = s.current_version_id;
        current_fingerprint = s.current_fingerprint;
        created_at = f.now;
        updated_at = f.now;
      }
          ∷ []);
  product_sources_to_insert =
      f.plan.product_sources_to_insert
      ++ (record {
        id = s.product_source_id;
        product_id = s.product_id;
        source_id = f.group.source_id;
        external_product_id = f.group.external_product_id;
        first_seen_at = f.now;
        last_changed_at = f.now;
        last_source_updated_at = s.last_source_updated_at;
        last_received_at = s.last_received_at;
      }
          ∷ []);
}

-- emitVersionUpdate.
unfoldable pub emit_version_update : IdentityFold → Snapshot → Snapshot → ProductVersion → BatchPlan
emit_version_update f start s v = record (f.plan) {
  products_to_update =
      f.plan.products_to_update
      ++ (record {
        product_id = s.product_id;
        expected_version_id = start.current_version_id;
        to_version_id = v.id;
        current_fingerprint = s.current_fingerprint;
        canonical_name = v.canonical_name;
        description = v.description;
        brand = v.brand;
        origin_country = v.origin_country;
        updated_at = f.now;
      }
          ∷ []);
  sources_to_update_changed =
      f.plan.sources_to_update_changed
      ++ (record {
        product_source_id = s.product_source_id;
        last_changed_at = f.now;
        source_updated_at = s.last_source_updated_at;
        received_at = s.last_received_at;
      }
          ∷ []);
}

-- The third case of emit: the fingerprint where it moved, and the watermarks.
unfoldable pub emit_touch : IdentityFold → Snapshot → Snapshot → BatchPlan
emit_touch f start s = record (f.plan) {
  products_to_update_fingerprint =
      if text_eq s.current_fingerprint start.current_fingerprint
      then f.plan.products_to_update_fingerprint
      else f.plan.products_to_update_fingerprint
        ++ (record {
          product_id = s.product_id;
          expected_version_id = start.current_version_id;
          current_fingerprint = s.current_fingerprint;
          updated_at = f.now;
        }
            ∷ []);
  sources_to_update_watermark =
      f.plan.sources_to_update_watermark
      ++ (record {
        product_source_id = s.product_source_id;
        source_updated_at = s.last_source_updated_at;
        received_at = s.last_received_at;
      }
          ∷ []);
}

abbrev pub with_version : Option ProductVersion → (ProductVersion → BatchPlan) → Result BatchPlan
with_version none k = err panic
with_version (some v) k = ok (k v)

-- emit, by the fold's start, snapshot and flags; a nil pointer that the code would follow panics.
unfoldable pub emit_by :
    IdentityFold → Option Snapshot → Option Snapshot → Bool → Bool → Result BatchPlan
unfolding emit_insert emit_version_update emit_touch
emit_by f none none versioned touched = err panic
emit_by f none (some s) versioned touched = with_version s.stored_current_version (emit_insert f s)
emit_by f (some start) none versioned touched =
    if versioned || touched then err panic else ok f.plan
emit_by f (some start) (some s) true touched =
    with_version s.stored_current_version (emit_version_update f start s)
emit_by f (some start) (some s) false true = ok (emit_touch f start s)
emit_by f (some start) (some s) false false = ok f.plan

-- emit.
unfoldable pub emit : IdentityFold → Result BatchPlan
emit f = emit_by f f.start f.cur f.versioned f.touched

-- The loop of DecideBatch over the groups; the plan and the number of the next id go on from one
-- group to the next.
unfoldable pub decide_groups :
    Codec
    → (ℕ → Result Text)
    → (Text → Option Snapshot)
    → ℕ
    → BatchPlan
    → ℕ
    → List IdentityGroup
    → Result BatchPlan
decide_groups c gen snapshots now plan next_id [] = ok plan
decide_groups c gen snapshots now plan next_id (g ∷ gs) = do
  f ← apply_all c gen g.records (new_identity_fold plan g (snapshots g.key) now next_id)
  plan' ← emit f
  decide_groups c gen snapshots now plan' f.next_id gs

-- DecideBatch.
unfoldable pub decide_batch :
    Codec
    → (ℕ → Result Text)
    → (Text → Option Snapshot)
    → List BatchIncomingRecord
    → ℕ
    → Result BatchPlan
decide_batch c gen snapshots incoming now = do
  fail_if (now == 0) invalid_product_state
  decide_groups c gen snapshots now (empty_plan (length incoming)) 0 (group_by_identity incoming)
