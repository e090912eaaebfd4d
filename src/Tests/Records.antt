-- ===== src/Tests/Records.antt =====
-- A raw record at a concrete input (internal/domain/ingestion/raw_record.go).
use cross_border_ecommerce.Base.{trim_space}
use cross_border_ecommerce.Ingestion.RawRecord.{validate}
use cross_border_ecommerce.Ingestion.RawRecord.{assemble}
use cross_border_ecommerce.Base.{refl, Bool, true, [], ◌∷◌, some, Text, codes, Result, ok, err}
use cross_border_ecommerce.Ingestion.RawRecord.{RawRecord, RawRecordParams, new_raw_record}
use cross_border_ecommerce.Ingestion.RawRecord.Validity.{IsComplete, new_raw_record-IsComplete}

abbrev params : RawRecordParams
params = record {
  id = [];
  source_id = codes " s1";
  external_product_id = codes "p1 ";
  payload = codes "{}";
  payload_raw = [];
  payload_sha256 = [];
  source_version = [];
  etag = [];
  source_updated_at = some 0;
  ingestion_run_id = codes "r1";
  received_at = 0;
}

abbrev every : Text → Bool
every s = true

abbrev first_byte : Text → Text
first_byte [] = []
first_byte (b ∷ bs) = b ∷ []

abbrev record_of : Result RawRecord → RawRecord
record_of (ok r) = r
record_of (err e) = params

abbrev made : RawRecord
made = record_of (new_raw_record every first_byte (ok (codes "u1")) 9 params)

new_raw_record-IsComplete_example : IsComplete every first_byte params made
unfolding assemble new_raw_record trim_space validate
new_raw_record-IsComplete_example =
    new_raw_record-IsComplete every first_byte (ok (codes "u1")) 9 params made refl
