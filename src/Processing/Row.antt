-- ===== src/Processing/Row.antt =====
-- The row of a run in ingestion_run_processing, and the statements of
-- internal/infrastructure/postgres/queries/run_processing.sql on it. A statement gives `none` where its
-- WHERE refuses the row. Counters are numbers without a bound, instants are numbers.
use cross_border_ecommerce.Base.{
  ℕ, ◌+◌, ltb, Bool, true, false, ◌&&◌, ◌||◌, Option, none, some, if◌then◌else◌, Text, text_eq,
}
use cross_border_ecommerce.Product.Metrics.{BatchMetrics, no_metrics, sum_metrics}

pub data ProcessingStatus : Type 0 where
  pending running completed failed : ProcessingStatus

-- The columns that the processing reads. A raw record's id, a UUID, is the number of its bytes.
pub record RunProcessing : Type 0 where
  pub status : ProcessingStatus
  pub claim_token : Option Text
  pub lease_expires_at : Option ℕ
  pub cursor_raw_record_id : Option ℕ
  pub metrics : BatchMetrics

abbrev pub is_running : ProcessingStatus → Bool
is_running running = true
is_running _ = false

-- `claim_token = $1`, which a NULL never satisfies.
unfoldable pub is_held_by : Text → Option Text → Bool
is_held_by token none = false
is_held_by token (some other) = text_eq other token

-- `lease_expires_at < NOW()`.
abbrev pub is_expired : ℕ → Option ℕ → Bool
is_expired now none = false
is_expired now (some t) = ltb t now

abbrev pub leased : ℕ → Text → ℕ → RunProcessing → RunProcessing
leased now token lease r = record r {
  status = running;
  claim_token = some token;
  lease_expires_at = some (now + lease);
}

-- Whether ClaimNextRunProcessing may take the row.
abbrev claimable : ℕ → RunProcessing → Bool
claimable now r = elim r.status [
  | pending ↦ true
  | running ↦ is_expired now r.lease_expires_at
  | completed ↦ false
  | failed ↦ false
]

-- ClaimNextRunProcessing on the row that it picked.
unfoldable pub claim_next : ℕ → Text → ℕ → RunProcessing → Option RunProcessing
claim_next now token lease r = if claimable now r then some (leased now token lease r) else none

-- ClaimSpecificRunProcessing.
unfoldable pub claim_specific : ℕ → Text → ℕ → RunProcessing → Option RunProcessing
claim_specific now token lease r =
    if not_running r.status || (is_expired now r.lease_expires_at || is_held_by token r.claim_token)
    then some (leased now token lease r)
    else none
  where
    not_running : ProcessingStatus → Bool
    not_running running = false
    not_running _ = true

abbrev pub fresh_row : RunProcessing
fresh_row = record {
  status = pending;
  claim_token = none;
  lease_expires_at = none;
  cursor_raw_record_id = none;
  metrics = no_metrics;
}

-- EnsureRunProcessingExists.
unfoldable pub ensure_exists : Option RunProcessing → Option RunProcessing
ensure_exists none = some fresh_row
ensure_exists (some r) = some r

-- UpdateRunProcessingProgress.
unfoldable pub update_progress :
    ℕ → Text → BatchMetrics → ℕ → ℕ → RunProcessing → Option RunProcessing
update_progress now token metrics cursor lease r =
    if is_running r.status && is_held_by token r.claim_token
    then some (record r {
      cursor_raw_record_id = some cursor;
      metrics = sum_metrics r.metrics metrics;
      lease_expires_at = some (now + lease);
    })
    else none

abbrev unclaimed : ProcessingStatus → RunProcessing → RunProcessing
unclaimed status r = record r { status = status; claim_token = none; lease_expires_at = none }

-- ReleaseRunProcessingClaim.
unfoldable pub release_claim : Text → RunProcessing → Option RunProcessing
release_claim token r = if is_held_by token r.claim_token then some (unclaimed pending r) else none

-- CompleteRunProcessing.
unfoldable pub complete_processing : Text → RunProcessing → Option RunProcessing
complete_processing token r =
    if is_held_by token r.claim_token then some (unclaimed completed r) else none

-- FailRunProcessing, whose token is not blank where it is called.
unfoldable pub fail_processing : Text → RunProcessing → Option RunProcessing
fail_processing token r = if is_held_by token r.claim_token then some (unclaimed failed r) else none

-- ResetRunProcessingFromStart.
unfoldable pub reset_from_start : ℕ → RunProcessing → Option RunProcessing
reset_from_start now r = elim r.status [
  | running ↦ if is_expired now r.lease_expires_at then some fresh_row else none
  | pending ↦ some fresh_row
  | completed ↦ some fresh_row
  | failed ↦ some fresh_row
]
