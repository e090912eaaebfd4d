-- ===== src/Ingestion/RawRecord.antt =====
-- internal/domain/ingestion/raw_record.go. Bytes are texts of byte values, instants numbers with 0 for the
-- zero time; uuid.NewString, json.Valid, and SHA-256 in hex are arguments.
pub mod Validity
use cross_border_ecommerce.Base.{
  ℕ, ◌==◌, ◌≡◌, ◌≢◌, refl, sym, ap, ◌∙◌, subst, ◌⊎◌, inl, inr, Bool, true, false, not, ◌&&◌, Option,
  none, some, if◌then◌else◌, arith, Bool-cases, Text, trim_space, is_blank, is_empty, [], ◌∷◌,
  Error, Result, ok, err, ◌>>=◌, ◌>>◌, fail_if, >>=-eq-ok, ok-injective, invalid_record_id,
  invalid_source_id, invalid_external_product_id, empty_payload, invalid_payload_json,
}

pub record RawRecord : Type 0 where
  pub id : Text
  pub source_id : Text
  pub external_product_id : Text
  pub payload : Text
  pub payload_raw : Text
  pub payload_sha256 : Text
  pub source_version : Text
  pub etag : Text
  pub source_updated_at : Option ℕ
  pub ingestion_run_id : Text
  pub received_at : ℕ

-- RawRecordParams has the fields of a RawRecord.
abbrev pub RawRecordParams : Type 0
RawRecordParams = RawRecord

-- Validate, on a record that is not nil.
unfoldable pub validate : (Text → Bool) → RawRecord → Result (Unit {0})
validate json_valid r =
    fail_if (is_blank r.id) invalid_record_id
    >> fail_if (is_blank r.source_id) invalid_source_id
    >> fail_if (is_blank r.external_product_id) invalid_external_product_id
    >> fail_if (is_empty r.payload) empty_payload
    >> fail_if (not (json_valid r.payload)) invalid_payload_json

-- A zero time of the source counts as none.
unfoldable pub known_time : Option ℕ → Option ℕ
known_time none = none
known_time (some t) = if t == 0 then none else some t

-- The raw bytes, or the payload where there are none.
unfoldable pub raw_bytes : Text → Text → Text
raw_bytes [] payload = payload
raw_bytes (b ∷ bs) payload = b ∷ bs

-- The given hash, or the hash of the raw bytes where there are some.
unfoldable pub payload_hash : (Text → Text) → Text → Text → Text
payload_hash digest sha raw =
    if is_blank sha && not (is_empty raw) then digest raw else trim_space sha

-- The record that NewRawRecord builds at the instant `now`.
unfoldable pub assemble : (Text → Text) → ℕ → Text → RawRecordParams → RawRecord
assemble digest now id p = record {
  id = id;
  source_id = trim_space p.source_id;
  external_product_id = trim_space p.external_product_id;
  payload = p.payload;
  payload_raw = raw_bytes p.payload_raw p.payload;
  payload_sha256 = payload_hash digest p.payload_sha256 (raw_bytes p.payload_raw p.payload);
  source_version = trim_space p.source_version;
  etag = trim_space p.etag;
  source_updated_at = known_time p.source_updated_at;
  ingestion_run_id = trim_space p.ingestion_run_id;
  received_at = if p.received_at == 0 then now else p.received_at;
}

-- NewRawRecord.
unfoldable pub new_raw_record :
    (Text → Bool) → (Text → Text) → Result Text → ℕ → RawRecordParams → Result RawRecord
new_raw_record json_valid digest generated now p = do
  id ← if is_blank p.id then generated else ok (trim_space p.id)
  let r = assemble digest now id p
  validate json_valid r
  ok r
