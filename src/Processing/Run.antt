-- ===== src/Processing/Run.antt =====
-- RunProcessor of internal/application/product/process_run.go on the row of one run. Of errors that are
-- joined or wrapped the first sentinel stands for all.
pub mod Counts
pub mod Pages
pub mod Whole
use cross_border_ecommerce.Base.{
  Fault, works, fails, loses, ℕ, zero, suc, Bool, true, false, not, ◌||◌, List, [], ◌∷◌, Option,
  none, some, if◌then◌else◌, length, sle, Text, is_blank, trim_space, Error, error_eq, Result, ok,
  err, ◌>>=◌, ◌>>◌, fail_if, other, invalid_run_id, invalid_claim_token, invalid_lease_duration,
  invalid_batch_size, invalid_error_budget, invalid_run_state, lease_held, lease_lost,
  run_processing_not_found, missing_field_mapping, context_canceled, error_budget_exceeded,
  identity_conflict, version_conflict, deadlock_conflict,
}
use cross_border_ecommerce.Product.Metrics.{BatchMetrics}
use cross_border_ecommerce.Product.Canonical.{NormalizedProduct, Codec, fingerprint}
use cross_border_ecommerce.Product.Transition.{Snapshot}
use cross_border_ecommerce.Product.Batch.Plan.{BatchPlan}
use cross_border_ecommerce.Product.Batch.Grouping.{BatchIncomingRecord}
use cross_border_ecommerce.Product.Batch.Fold.{decide_batch}
use cross_border_ecommerce.Ingestion.Run.{IngestionRun, processable}
use cross_border_ecommerce.Ingestion.RawRecord.{RawRecord}
use cross_border_ecommerce.Processing.Row.{
  RunProcessing, claim_next, claim_specific, ensure_exists, update_progress, release_claim,
  complete_processing, fail_processing, reset_from_start,
}
use cross_border_ecommerce.Processing.Keyset.{Stored, list_keyset, last_key}
pub use cross_border_ecommerce.Processing.Session.{
  Call, claiming_next, ensuring, resetting, claiming, releasing, failing, completing, progressing,
  Row, World, fault_of, matched, written, guard_failure, release_run, fail_run, is_conflict,
  incoming, collected, page_metrics,
}
unfoldable pub use cross_border_ecommerce.Processing.Session.{
  answer, exec, ensure_row, normalize_page, apply_page,
}

-- ProcessRunOptions.
pub record ProcessRunOptions : Type 0 where
  pub claim_token : Text
  pub lease_duration : ℕ
  pub batch_size : ℕ
  pub from_start : Bool

-- How ProcessRun ends; with the rounds of the loop as fuel it might run out of them.
pub data Ending : Type 0 where
  finished : BatchMetrics → Ending
  stopped : Error → Ending
  out_of_fuel : Ending

pub record Outcome : Type 0 where
  pub ending : Ending
  pub row : Row

abbrev pub stops : Error → Row → Outcome
stops e s = record { ending = stopped e; row = s }

module _ (w : World) (o : ProcessRunOptions) (run_id token : Text) where
  abbrev pub progress_result : Result (Option RunProcessing) × Row → Result RunProcessing × Row
  progress_result (err e, s) = (err e, s)
  progress_result (ok none, s) = (err lease_lost, s)
  progress_result (ok (some r), s) = (ok r, s)

  -- The transaction of a page: UpdateProgress comes last, and commits with the rest or not at all.
  unfoldable pub in_transaction : ℕ → ℕ → ℕ → Result BatchMetrics → Row → Result RunProcessing × Row
  in_transaction page attempt last (err e) s = (err e, s)
  in_transaction page attempt last (ok m) s =
      let call = progressing page attempt in
      progress_result (exec w call (update_progress (w.now call) token m last o.lease_duration) s)

  unfoldable pub check_budget : RunProcessing → Result RunProcessing
  check_budget r =
      if w.over_budget r.metrics.seen r.metrics.failures then err error_budget_exceeded else ok r

  -- What follows an attempt, for what another attempt would give.
  unfoldable pub after_attempt :
      (Error → Row → Result RunProcessing × Row)
      → Result RunProcessing × Row
      → Result RunProcessing × Row
  unfolding check_budget
  after_attempt next (ok r, s) = (check_budget r, s)
  after_attempt next (err e, s) = if is_conflict e then next e s else (err e, s)

  -- processPageWithRetry, with the attempts that are left and the last conflict.
  unfoldable pub process_page :
      ℕ → List BatchIncomingRecord → ℕ → ℕ → ℕ → ℕ → ℕ → Error → Row → Result RunProcessing × Row
  process_page page valid total failures last zero attempt conflict s = (err conflict, s)
  process_page page valid total failures last (suc left) attempt conflict s =
      after_attempt (process_page page valid total failures last left (suc attempt))
        (in_transaction page attempt last (apply_page w page attempt valid total failures) s)

  -- The end of ProcessRun.
  abbrev pub complete_result : Result (Option RunProcessing) × Row → Outcome
  complete_result (err e, s) = stops e s
  complete_result (ok none, s) = stops lease_lost s
  complete_result (ok (some r), s) = record { ending = finished r.metrics; row = s }

  unfoldable pub complete_run : Row → Outcome
  complete_run s = complete_result (exec w completing (complete_processing token) s)

  -- The round behind the page, for the rounds behind it.
  unfoldable pub after_page : ℕ → (Row → Outcome) → Result RunProcessing × Row → Outcome
  after_page page next (ok r, s) = next s
  after_page page next (err e, s) =
      if w.page_cancelled page
      then stops context_canceled (release_run w token s)
      else if error_eq e lease_lost
      then stops e s
      else stops e (fail_run w token s)

  unfoldable pub list_failed : ℕ → Error → Row → Outcome
  list_failed page e s =
      if w.list_cancelled page
      then stops context_canceled (release_run w token s)
      else stops e (fail_run w token s)

  -- The round behind a listing.
  unfoldable pub with_page : ℕ → (Option ℕ → Row → Outcome) → List Stored → Row → Outcome
  unfolding complete_run
  with_page page next [] s = complete_run s
  with_page page next (r ∷ rs) s =
      let (valid, failures) = normalize_page w run_id (r ∷ rs) in
      let last = last_key r.key rs in
      after_page page (next (some last))
        (process_page page valid (length (r ∷ rs)) failures last 2 0 (other 0) s)

  unfoldable pub with_listing :
      ℕ → (Option ℕ → Row → Outcome) → Option Error → List Stored → Row → Outcome
  unfolding list_failed with_page
  with_listing page next (some e) rs s = list_failed page e s
  with_listing page next none rs s = with_page page next rs s

  -- The loop of ProcessRun from a cursor on.
  unfoldable pub process_pages : ℕ → ℕ → Option ℕ → Row → Outcome
  process_pages zero page cursor s = record { ending = out_of_fuel; row = s }
  process_pages (suc fuel) page cursor s =
      let round =
        with_listing page (process_pages fuel (suc page)) (w.list_fault page)
          (list_keyset cursor o.batch_size w.records) s in
      if w.cancelled page then stops context_canceled (release_run w token s) else round

  -- ProcessRun behind the claim; a round for each record and one for the end are enough.
  unfoldable pub with_mapping : Result Bool → Option ℕ → Row → Outcome
  with_mapping (err e) cursor s = stops e (fail_run w token s)
  with_mapping (ok false) cursor s = stops missing_field_mapping (fail_run w token s)
  with_mapping (ok true) cursor s = process_pages (suc (length w.records)) 0 cursor s

  unfoldable pub with_source : Option Error → Option ℕ → Row → Outcome
  unfolding with_mapping
  with_source none cursor s = with_mapping w.field_mapping cursor s
  with_source (some e) cursor s =
      if w.source_cancelled
      then stops context_canceled (release_run w token s)
      else stops e (fail_run w token s)

  unfoldable pub with_claim : Result (Option RunProcessing) × Row → Outcome
  unfolding with_source
  with_claim (err e, s) = stops e s
  with_claim (ok none, s) = stops (guard_failure lease_held s) s
  with_claim (ok (some r), s) = with_source w.find_source r.cursor_raw_record_id s

  unfoldable pub claim_run : Row → Outcome
  unfolding with_claim
  claim_run s =
      with_claim (exec w claiming (claim_specific (w.now claiming) token o.lease_duration) s)

  unfoldable pub with_reset : Result (Option RunProcessing) × Row → Outcome
  unfolding claim_run
  with_reset (err e, s) = stops e s
  with_reset (ok none, s) = stops (guard_failure lease_held s) s
  with_reset (ok (some r), s) = claim_run s

  unfoldable pub with_row : Result (Option RunProcessing) × Row → Outcome
  unfolding with_reset claim_run
  with_row (err e, s) = stops e s
  with_row (ok r, s) =
      if o.from_start
      then with_reset (exec w resetting (reset_from_start (w.now resetting)) s)
      else claim_run s

-- The checks of ProcessRun before its first statement.
unfoldable pub check_options : World → ProcessRunOptions → Text → Result (Unit {0})
check_options w o run_id = do
  fail_if (is_blank run_id) invalid_run_id
  fail_if (is_blank o.claim_token) invalid_claim_token
  fail_if (sle o.lease_duration 0) invalid_lease_duration
  fail_if (sle o.batch_size 0) invalid_batch_size
  fail_if (not w.budget_valid) invalid_error_budget
  run ← w.find_run
  fail_if (not (processable run.status)) invalid_run_state

-- ProcessRun.
unfoldable pub process_run : World → ProcessRunOptions → Text → Row → Outcome
unfolding check_options with_row
process_run w o run_id s = elim (check_options w o run_id) [
  | err e ↦ stops e s
  | ok u ↦ with_row w o (trim_space run_id) (trim_space o.claim_token) (ensure_row w s)
]

-- ProcessNext, where ClaimNext picks this run or none; `none` where there is none to claim.
unfoldable pub after_claim_next :
    World → ProcessRunOptions → Text → Result (Option RunProcessing) × Row → Option Outcome
after_claim_next w o run_id (err e, s) = some (stops e s)
after_claim_next w o run_id (ok none, s) = none
after_claim_next w o run_id (ok (some r), s) = some (process_run w o run_id s)

unfoldable pub process_next : World → ProcessRunOptions → Text → Row → Option Outcome
unfolding after_claim_next
process_next w o run_id s =
    after_claim_next w o run_id
      (exec w claiming_next (claim_next (w.now claiming_next) o.claim_token o.lease_duration) s)
