-- ===== src/Idempotency/Store.antt =====
-- The table idempotency_keys under the statements of internal/infrastructure/postgres/queries/
-- idempotency_keys.sql, and the repository above it (idempotency_repository.go). Instants are
-- microseconds of the database's clock, and a duration is an int64 of nanoseconds.
use cross_border_ecommerce.Base.{
  ℕ, ◌+◌, ◌*◌, ◌/◌, leb, ◌==◌, Bool, true, false, not, ◌&&◌, [], Option, none, some, if◌then◌else◌,
  length, Text, text_eq, is_blank, sle, Error, Result, ok, err, invalid_scope, invalid_key,
  invalid_payload_hash, invalid_lease_ttl, key_in_progress, payload_mismatch, lease_lost,
}

pub data RowStatus : Type 0 where
  in_progress completed : RowStatus

pub record Row : Type 0 where
  pub status : RowStatus
  pub payload_hash : Text
  pub lease_token : Option Text
  pub lease_expires_at : Option ℕ
  pub attempts : ℕ
  pub created_at : ℕ
  pub completed_at : Option ℕ

-- The rows by their primary key, the scope and the key.
abbrev pub Table : Type 0
Table = Text → Text → Option Row

unfoldable pub put : Text → Text → Row → Table → Table
put scope key row table = λ s k. if text_eq s scope && text_eq k key then some row else table s k

-- `lease_expires_at <= NOW()`, which a NULL does not satisfy.
abbrev pub is_expired : Option ℕ → ℕ → Bool
is_expired none now = false
is_expired (some at) now = leb at now

-- `lease_token = $3`, which a NULL does not satisfy.
abbrev pub has_token : Option Text → Text → Bool
has_token none token = false
has_token (some t) token = text_eq t token

abbrev pub is_in_progress : RowStatus → Bool
is_in_progress in_progress = true
is_in_progress completed = false

-- The WHERE clause of ClaimIdempotencyKey.
unfoldable pub can_reclaim : Row → Text → ℕ → Bool
can_reclaim r hash now =
    is_in_progress r.status && (is_expired r.lease_expires_at now && text_eq r.payload_hash hash)

abbrev pub new_row : Text → Text → ℕ → ℕ → Row
new_row hash token lease_ms now = record {
  status = in_progress;
  payload_hash = hash;
  lease_token = some token;
  lease_expires_at = some (now + lease_ms * 1000);
  attempts = 1;
  created_at = now;
  completed_at = none;
}

-- The SET clause of ClaimIdempotencyKey.
abbrev pub reclaimed : Row → Text → ℕ → ℕ → Row
reclaimed r token lease_ms now = record r {
  lease_token = some token;
  lease_expires_at = some (now + lease_ms * 1000);
  attempts = r.attempts + 1;
}

-- The row that ClaimIdempotencyKey writes and returns, for the row that it meets.
unfoldable pub claimed_row : Option Row → Text → Text → ℕ → ℕ → Option Row
claimed_row none hash token lease_ms now = some (new_row hash token lease_ms now)
claimed_row (some r) hash token lease_ms now =
    if can_reclaim r hash now then some (reclaimed r token lease_ms now) else none

-- The row that CompleteIdempotencyKey writes, where it writes one.
unfoldable pub completed_row : Option Row → Text → ℕ → Option Row
completed_row none token now = none
completed_row (some r) token now =
    if has_token r.lease_token token && is_in_progress r.status
    then some (record r {
      status = completed;
      completed_at = some now;
      lease_token = none;
      lease_expires_at = none;
    })
    else none

-- The row that ReleaseIdempotencyKey writes, where it writes one.
unfoldable pub released_row : Option Row → Text → ℕ → Option Row
released_row none token now = none
released_row (some r) token now =
    if has_token r.lease_token token && is_in_progress r.status
    then some (record r { lease_expires_at = some now })
    else none

pub data ClaimStatus : Type 0 where
  acquired already_completed : ClaimStatus

pub record Claim : Type 0 where
  pub scope : Text
  pub key : Text
  pub status : ClaimStatus
  pub lease_token : Text
  pub attempts : ℕ

-- The database around one call: the clock, the errors of the driver, what other sessions do between
-- the two statements of ClaimKey, and parseUUID, which reads a text into a UUID's canonical text.
pub record Session : Type 0 where
  pub now : ℕ
  pub uuid_of : Text → Result Text
  pub claim_fault : Option Error
  pub meanwhile : Table → Table
  pub get_fault : Option Error
  pub write_fault : Option Error

-- The answer of ClaimKey to the row that GetIdempotencyKey returns.
abbrev pub inspect : Text → Text → Text → Option Error → Option Row → Result Claim
inspect scope key hash (some e) row = err e
inspect scope key hash none none = err key_in_progress
inspect scope key hash none (some r) =
    if text_eq r.payload_hash hash
    then if is_in_progress r.status
      then err key_in_progress
      else ok (record {
        scope = scope;
        key = key;
        status = already_completed;
        lease_token = [];
        attempts = 0;
      })
    else err payload_mismatch

-- ClaimKey behind the answer of ClaimIdempotencyKey.
unfoldable pub claim_answer :
    Session → Text → Text → Text → Text → Option Row → Table → Table × Result Claim
claim_answer db scope key hash token (some row) table = (
  put scope key row table,
  ok (record {
    scope = scope;
    key = key;
    status = acquired;
    lease_token = token;
    attempts = row.attempts;
  }),
)
claim_answer db scope key hash token none table =
    let table' = db.meanwhile table in
    (table', inspect scope key hash db.get_fault (table' scope key))

unfoldable pub claim_statement :
    Session → Text → Text → Text → Text → ℕ → Option Error → Table → Table × Result Claim
claim_statement db scope key hash token ttl (some e) table = (table, err e)
claim_statement db scope key hash token ttl none table =
    claim_answer db scope key hash token
      (claimed_row (table scope key) hash token (ttl / 1000000) db.now) table

abbrev pub with_token : Result Text → Table → (Text → Table × Result Claim) → Table × Result Claim
with_token (ok token) table k = k token
with_token (err e) table k = (table, err e)

-- IdempotencyRepository.ClaimKey.
unfoldable pub claim_key : Session → Text → Text → Text → Text → ℕ → Table → Table × Result Claim
claim_key db scope key hash token ttl table =
    if is_blank scope
    then (table, err invalid_scope)
    else if is_blank key
    then (table, err invalid_key)
    else if not (length hash == 32)
    then (table, err invalid_payload_hash)
    else if sle ttl 0
    then (table, err invalid_lease_ttl)
    else with_token (db.uuid_of token) table
        (λ t. claim_statement db scope key hash t ttl db.claim_fault table)

-- An UPDATE, and the answer where it meets no row.
abbrev pub update_statement :
    Text → Text → Option Error → Result (Unit {0}) → Option Row → Table → Table × Result (Unit {0})
update_statement scope key (some e) missing row table = (table, err e)
update_statement scope key none missing none table = (table, missing)
update_statement scope key none missing (some row) table = (put scope key row table, ok tt)

abbrev pub update_token :
    Text
    → Text
    → Result Text
    → Option Error
    → Result (Unit {0})
    → (Text → Option Row)
    → Table
    → Table × Result (Unit {0})
update_token scope key (err e) fault missing row table = (table, err e)
update_token scope key (ok t) fault missing row table =
    update_statement scope key fault missing (row t) table

abbrev pub update_key :
    Text
    → Text
    → Result Text
    → Option Error
    → Result (Unit {0})
    → (Text → Option Row)
    → Table
    → Table × Result (Unit {0})
update_key scope key token fault missing row table =
    if is_blank scope
    then (table, err invalid_scope)
    else if is_blank key
    then (table, err invalid_key)
    else update_token scope key token fault missing row table

-- IdempotencyRepository.CompleteKey.
unfoldable pub complete_key : Session → Text → Text → Text → Table → Table × Result (Unit {0})
complete_key db scope key token table =
    update_key scope key (db.uuid_of token) db.write_fault (err lease_lost)
      (λ t. completed_row (table scope key) t db.now) table

-- IdempotencyRepository.ReleaseKey.
unfoldable pub release_key : Session → Text → Text → Text → Table → Table × Result (Unit {0})
release_key db scope key token table =
    update_key scope key (db.uuid_of token) db.write_fault (ok tt)
      (λ t. released_row (table scope key) t db.now) table
