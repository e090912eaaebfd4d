-- ===== src/Tests/Products.antt =====
-- A page of three records of two products (internal/domain/product/batch.go).
use cross_border_ecommerce.Product.Batch.Grouping.{compare_processing_order}
use cross_border_ecommerce.Product.Batch.Versions.{snapshot_of}
use cross_border_ecommerce.Product.Batch.Fold.{on_cur}
use cross_border_ecommerce.Product.Canonical.{same_value}
use cross_border_ecommerce.Product.Batch.Versions.{add_version}
use cross_border_ecommerce.Base.{is_space}
use cross_border_ecommerce.Product.Canonical.{insert}
use cross_border_ecommerce.Product.Canonical.{fingerprint_from_version}
use cross_border_ecommerce.Product.Batch.Fold.{emit_version_update}
use cross_border_ecommerce.Product.Batch.Grouping.{sort_records}
use cross_border_ecommerce.Base.{to_lower}
use cross_border_ecommerce.Product.Canonical.{canonicalize}
use cross_border_ecommerce.Base.{text_eq}
use cross_border_ecommerce.Product.Batch.Fold.{apply_as}
use cross_border_ecommerce.Product.Batch.Grouping.{add_record}
use cross_border_ecommerce.Base.{trim_left}
use cross_border_ecommerce.Base.{trim_right}
use cross_border_ecommerce.Product.Batch.Versions.{added}
use cross_border_ecommerce.Product.Batch.Fold.{emit_touch}
use cross_border_ecommerce.Product.Canonical.{sort_strings}
use cross_border_ecommerce.Product.Batch.Grouping.{sort_groups}
use cross_border_ecommerce.Product.Batch.Grouping.{group_from}
use cross_border_ecommerce.Product.Batch.Fold.{emit}
use cross_border_ecommerce.Product.Canonical.{changed_fields}
use cross_border_ecommerce.Base.{compare_text}
use cross_border_ecommerce.Product.Transition.{is_upgrade}
use cross_border_ecommerce.Product.Batch.Fold.{touch}
use cross_border_ecommerce.Product.Batch.Versions.{append_version}
use cross_border_ecommerce.Product.Canonical.{agrees}
use cross_border_ecommerce.Product.Batch.Fold.{emit_by}
use cross_border_ecommerce.Product.Batch.Grouping.{place_record}
use cross_border_ecommerce.Product.Transition.{is_stale}
use cross_border_ecommerce.Product.Batch.Grouping.{insert_record}
use cross_border_ecommerce.Product.Canonical.{detect_field_changes}
use cross_border_ecommerce.Product.Canonical.{attributes_changed}
use cross_border_ecommerce.Product.Canonical.{fold_text}
use cross_border_ecommerce.Product.Canonical.{lookup}
use cross_border_ecommerce.Base.{trim_space}
use cross_border_ecommerce.Product.Batch.Fold.{emit_insert}
use cross_border_ecommerce.Product.Canonical.{insert_text}
use cross_border_ecommerce.Product.Canonical.{fold_attributes}
use cross_border_ecommerce.Base.{has_prefix}
use cross_border_ecommerce.Product.Batch.Fold.{decide_groups}
use cross_border_ecommerce.Base.{
  ℕ, ◌≡◌, refl, List, [], ◌∷◌, ◌++◌, Option, none, some, arith, Text, codes, ascii_table, Result,
  ok, err,
}
use cross_border_ecommerce.Product.Canonical.{NormalizedProduct, Codec, fingerprint}
use cross_border_ecommerce.Product.Transition.{Snapshot, decide_transition}
use cross_border_ecommerce.Product.Batch.Plan.{BatchPlan, empty_plan}
use cross_border_ecommerce.Product.Batch.Grouping.{
  BatchIncomingRecord, IdentityGroup, identity_key, group_by_identity,
}
use cross_border_ecommerce.Product.Batch.Partition.{IsPartition, group_by_identity-IsPartition}
use cross_border_ecommerce.Product.Batch.Versions.{IdentityFold, new_identity_fold}
use cross_border_ecommerce.Product.Batch.Fold.{apply, apply_all, decide_batch}
use cross_border_ecommerce.Product.Batch.Accounting.{IsAccounted}
use cross_border_ecommerce.Product.Batch.Running.{Answers}
use cross_border_ecommerce.Product.Batch.History.{Extends, apply_all-Extends}
use cross_border_ecommerce.Product.Batch.Unchanged.{FoldsForNothing}
use cross_border_ecommerce.Product.Batch.Redelivery.{apply-redelivered}
use cross_border_ecommerce.Product.Batch.Outcome.{decide_batch-IsAccounted, decide_batch-total}

abbrev codec : Codec
codec = record { cases = ascii_table; nfc = λ s. s; digest = λ p. p.canonical_name }

abbrev ids : ℕ → Result Text
ids k = ok (k ∷ [])

abbrev lamp : Text → NormalizedProduct
lamp name = record {
  canonical_name = name;
  description = codes "A lamp";
  brand = codes "Lux";
  origin_country = codes "DE";
  attributes = [];
}

abbrev record_of : Text → Text → ℕ → BatchIncomingRecord
record_of external name at = record {
  raw_record_id = codes "raw";
  source_id = codes "s";
  external_product_id = external;
  normalized = lamp name;
  fingerprint = codes "v1:" ++ name;
  source_updated_at = none;
  received_at = at;
  ingestion_run_id = codes "run";
}

abbrev page : List BatchIncomingRecord
page =
    record_of (codes "p") (codes "Lamp") 5
    ∷ record_of (codes "q") (codes "Desk") 6
    ∷ record_of (codes "p") (codes "Lamp 2") 7
    ∷ []

abbrev unknown_products : Text → Option Snapshot
unknown_products key = none

abbrev plan_of : Result BatchPlan → BatchPlan
plan_of (ok p) = p
plan_of (err e) = empty_plan 0

abbrev planned : BatchPlan
planned = plan_of (decide_batch codec ids unknown_products page 9)

decide_batch-IsAccounted_example : IsAccounted 3 3 planned
unfolding add_record add_version added agrees append_version apply apply_all apply_as
    attributes_changed canonicalize changed_fields compare_processing_order compare_text
    decide_batch decide_groups decide_transition detect_field_changes emit emit_by emit_insert
    emit_touch emit_version_update fingerprint fingerprint_from_version fold_attributes fold_text
    group_by_identity group_from has_prefix identity_key insert insert_record insert_text is_space
    is_stale is_upgrade lookup new_identity_fold on_cur place_record same_value snapshot_of
    sort_groups sort_records sort_strings text_eq to_lower touch trim_left trim_right trim_space
decide_batch-IsAccounted_example =
    decide_batch-IsAccounted codec ids unknown_products page 9 planned refl

ids-answer : Answers ids
ids-answer k = (k ∷ [], refl)

decide_batch-total_example :
    (p : BatchPlan) × (decide_batch codec ids unknown_products page 9 ≡ ok p)
decide_batch-total_example =
    decide_batch-total codec ids unknown_products page 9 ids-answer (λ e. ground arith)

group_by_identity-IsPartition_example : IsPartition page (group_by_identity page)
group_by_identity-IsPartition_example = group_by_identity-IsPartition page

abbrev group : IdentityGroup
group = record {
  key = identity_key (codes "s") (codes "p");
  source_id = codes "s";
  external_product_id = codes "p";
  records = record_of (codes "p") (codes "Lamp") 5 ∷ record_of (codes "p") (codes "Lamp 2") 7 ∷ [];
}

abbrev started : IdentityFold
started = new_identity_fold (empty_plan 2) group none 9 0

abbrev fold_of : Result IdentityFold → IdentityFold
fold_of (ok f) = f
fold_of (err e) = started

abbrev folded : IdentityFold
folded = fold_of (apply_all codec ids group.records started)

apply_all-Extends_example : Extends started.plan started.cur folded.plan folded.cur
unfolding add_version added apply apply_all apply_as decide_transition has_prefix is_stale
    is_upgrade new_identity_fold snapshot_of text_eq
apply_all-Extends_example = apply_all-Extends codec ids group.records started folded refl

abbrev first_record : BatchIncomingRecord
first_record = record_of (codes "p") (codes "Lamp") 5

abbrev applied : IdentityFold
applied = fold_of (apply codec ids first_record started)

apply-redelivered_example : FoldsForNothing applied (apply codec ids first_record applied)
unfolding add_version added apply apply_as decide_transition has_prefix new_identity_fold
    snapshot_of
apply-redelivered_example = apply-redelivered codec ids first_record started applied refl refl

abbrev stored : Snapshot
stored = record {
  product_source_id = codes "ps";
  product_id = codes "pr";
  current_version_id = none;
  current_fingerprint = codes "v1:Lamp";
  last_source_updated_at = some 4;
  last_received_at = 8;
  stored_current_version = none;
}
