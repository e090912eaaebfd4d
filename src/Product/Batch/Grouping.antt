-- ===== src/Product/Batch/Grouping.antt =====
-- The grouping of a page by identity (IdentityKey, groupByIdentity, compareProcessingOrder of
-- internal/domain/product/batch.go).
use Prim.Native.Nat.{compare, Ordering}
use cross_border_ecommerce.Base.{
  ℕ, List, [], ◌∷◌, ◌++◌, Option, none, some, if◌then◌else◌, Text, text_eq, first_difference,
  compare_text,
}
use cross_border_ecommerce.Product.Canonical.{NormalizedProduct}

pub record BatchIncomingRecord : Type 0 where
  pub raw_record_id : Text
  pub source_id : Text
  pub external_product_id : Text
  pub normalized : NormalizedProduct
  pub fingerprint : Text
  pub source_updated_at : Option ℕ
  pub received_at : ℕ
  pub ingestion_run_id : Text

-- IdentityKey.
unfoldable pub identity_key : Text → Text → Text
identity_key source_id external_product_id = source_id ++ (0 ∷ external_product_id)

abbrev pub key_of : BatchIncomingRecord → Text
key_of r = identity_key r.source_id r.external_product_id

pub record IdentityGroup : Type 0 where
  pub key : Text
  pub source_id : Text
  pub external_product_id : Text
  pub records : List BatchIncomingRecord

-- One round of the first loop: the record goes to the end of the group of its key, and a new group
-- to the end of the groups.
unfoldable pub add_record : BatchIncomingRecord → List IdentityGroup → List IdentityGroup
add_record r [] =
    record {
      key = key_of r;
      source_id = r.source_id;
      external_product_id = r.external_product_id;
      records = r ∷ [];
    }
    ∷ []
add_record r (g ∷ gs) =
    if text_eq g.key (key_of r)
    then record g { records = g.records ++ (r ∷ []) } ∷ gs
    else g ∷ add_record r gs

unfoldable pub group_from : List IdentityGroup → List BatchIncomingRecord → List IdentityGroup
group_from gs [] = gs
group_from gs (r ∷ rs) = group_from (add_record r gs) rs

-- The comparison of two optional source times: a missing one comes first.
abbrev pub compare_source_time : Option ℕ → Option ℕ → Ordering
compare_source_time none none = Ordering.eq
compare_source_time none (some b) = Ordering.lt
compare_source_time (some a) none = Ordering.gt
compare_source_time (some a) (some b) = compare a b

-- compareProcessingOrder.
unfoldable pub compare_processing_order : BatchIncomingRecord → BatchIncomingRecord → Ordering
compare_processing_order a b =
    first_difference (compare_source_time a.source_updated_at b.source_updated_at) (
      first_difference (compare a.received_at b.received_at)
        (compare_text a.raw_record_id b.raw_record_id))

-- Where a record that stood before `s ∷ ss` goes among them; equal ones keep their order.
unfoldable pub place_record :
    Ordering
    → BatchIncomingRecord
    → BatchIncomingRecord
    → List BatchIncomingRecord
    → List BatchIncomingRecord
    → List BatchIncomingRecord
place_record Ordering.gt r s ss rest = s ∷ rest
place_record Ordering.eq r s ss rest = r ∷ s ∷ ss
place_record Ordering.lt r s ss rest = r ∷ s ∷ ss

unfoldable pub insert_record :
    BatchIncomingRecord → List BatchIncomingRecord → List BatchIncomingRecord
insert_record r [] = r ∷ []
insert_record r (s ∷ ss) = place_record (compare_processing_order r s) r s ss (insert_record r ss)

-- slices.SortStableFunc.
unfoldable pub sort_records : List BatchIncomingRecord → List BatchIncomingRecord
sort_records [] = []
sort_records (r ∷ rs) = insert_record r (sort_records rs)

unfoldable pub sort_groups : List IdentityGroup → List IdentityGroup
sort_groups [] = []
sort_groups (g ∷ gs) = record g { records = sort_records g.records } ∷ sort_groups gs

-- groupByIdentity.
unfoldable pub group_by_identity : List BatchIncomingRecord → List IdentityGroup
group_by_identity rs = sort_groups (group_from [] rs)
