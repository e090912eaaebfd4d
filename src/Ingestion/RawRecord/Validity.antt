-- ===== src/Ingestion/RawRecord/Validity.antt =====
-- What a raw record that NewRawRecord returns is (internal/domain/ingestion/raw_record.go).
use cross_border_ecommerce.Base.{
  ℕ, ◌≡◌, ◌≢◌, refl, subst, ◌⊎◌, inl, inr, Bool, true, false, not, Option, none, some,
  if◌then◌else◌, arith, Bool-cases, Text, trim_space, is_blank, is_empty, [], ◌∷◌, Error, Result,
  ok, ◌>>◌, fail_if, >>=-eq-ok, ok-injective, invalid_record_id, invalid_source_id,
  invalid_external_product_id, empty_payload, invalid_payload_json,
}
use cross_border_ecommerce.Ingestion.RawRecord.{
  RawRecord, RawRecordParams, validate, known_time, raw_bytes, payload_hash, assemble,
  new_raw_record,
}

passed : (b : Bool) (e : Error) (u : Unit {0}) → fail_if b e ≡ ok u → b ≡ false
passed true e u h = cc
passed false e u h = refl

-- A record whose identifiers are there, whose payload is valid JSON, whose raw bytes are there, whose
-- hash is the given one or the one of its raw bytes, and which has no zero time of the source.
pub record IsComplete (json_valid : Text → Bool) (digest : Text → Text) (p : RawRecordParams)
    (r : RawRecord) : Type 0 where
  pub has_id : is_blank r.id ≡ false
  pub has_source : is_blank r.source_id ≡ false
  pub has_external : is_blank r.external_product_id ≡ false
  pub is_json : json_valid r.payload ≡ true
  pub same_payload : r.payload ≡ p.payload
  pub has_raw : r.payload_raw ≢ []
  pub hashed :
      ((is_blank p.payload_sha256 ≡ false) × (r.payload_sha256 ≡ trim_space p.payload_sha256))
      ⊎ ((is_blank p.payload_sha256 ≡ true) × (r.payload_sha256 ≡ digest r.payload_raw))
  pub no_zero_time : r.source_updated_at ≢ some 0

known_time-nonzero : (t : Option ℕ) → known_time t ≢ some 0
unfolding known_time
known_time-nonzero none h = cc
known_time-nonzero (some t) h = ground arith

raw_bytes-filled : (raw payload : Text) → is_empty payload ≡ false → raw_bytes raw payload ≢ []
unfolding raw_bytes
raw_bytes-filled [] [] e h = cc
raw_bytes-filled [] (b ∷ bs) e h = cc
raw_bytes-filled (b ∷ bs) payload e h = cc

payload_hash-cases :
    (digest : Text → Text) (sha raw : Text)
    → raw ≢ []
    → ((is_blank sha ≡ false) × (payload_hash digest sha raw ≡ trim_space sha))
      ⊎ ((is_blank sha ≡ true) × (payload_hash digest sha raw ≡ digest raw))
unfolding payload_hash
payload_hash-cases digest sha [] n = elim (n refl) [ ]
payload_hash-cases digest sha (b ∷ bs) n = elim (Bool-cases (is_blank sha)) [
  | inl e ↦ rw e (inr (refl, refl))
  | inr e ↦ rw e (inl (refl, refl))
]

not-false : (b : Bool) → not b ≡ false → b ≡ true
not-false true h = refl
not-false false h = cc

assemble-IsComplete :
    (json_valid : Text → Bool) (digest : Text → Text) (now : ℕ) (id : Text) (p : RawRecordParams)
    (u : Unit {0})
    → validate json_valid (assemble digest now id p) ≡ ok u
    → IsComplete json_valid digest p (assemble digest now id p)
unfolding validate assemble
assemble-IsComplete json_valid digest now id p u h =
    let (u4, e4, h4) = >>=-eq-ok (_ >> fail_if (is_empty p.payload) empty_payload) _ h in
    let (u3, e3, h3) =
      >>=-eq-ok
        (_ >> fail_if (is_blank (trim_space p.external_product_id)) invalid_external_product_id) _
        e4 in
    let (u2, e2, h2) =
      >>=-eq-ok (_ >> fail_if (is_blank (trim_space p.source_id)) invalid_source_id) _ e3 in
    let (u1, e1, h1) = >>=-eq-ok (fail_if (is_blank id) invalid_record_id) _ e2 in
    let raw =
      raw_bytes-filled p.payload_raw p.payload (passed (is_empty p.payload) empty_payload u4 h3) in
    record {
      has_id = passed (is_blank id) invalid_record_id u1 e1;
      has_source = passed (is_blank (trim_space p.source_id)) invalid_source_id u2 h1;
      has_external =
          passed (is_blank (trim_space p.external_product_id)) invalid_external_product_id u3 h2;
      is_json = not-false (json_valid p.payload) (passed _ invalid_payload_json u h4);
      same_payload = refl;
      has_raw = raw;
      hashed = payload_hash-cases digest p.payload_sha256 _ raw;
      no_zero_time = known_time-nonzero p.source_updated_at;
    }

-- A raw record that NewRawRecord returns is complete: its three identifiers are not blank, its payload is
-- the given one and valid JSON, it has raw bytes, its hash is the given one if that is not blank and
-- the hash of its raw bytes otherwise, and it carries no zero time of the source.
pub new_raw_record-IsComplete :
    (json_valid : Text → Bool) (digest : Text → Text) (generated : Result Text) (now : ℕ)
    (p : RawRecordParams) (r : RawRecord)
    → new_raw_record json_valid digest generated now p ≡ ok r
    → IsComplete json_valid digest p r
unfolding new_raw_record
new_raw_record-IsComplete json_valid digest generated now p r h =
    let (id, e, h0) = >>=-eq-ok (if is_blank p.id then generated else ok (trim_space p.id)) _ h in
    let (u, e1, h1) = >>=-eq-ok (validate json_valid (assemble digest now id p)) _ h0 in
    subst (IsComplete json_valid digest p) (ok-injective h1)
      (assemble-IsComplete json_valid digest now id p u e1)
