-- ===== src/Ingestion/Service.antt =====
-- internal/application/ingestion/service.go over the row of one run (IngestionRepository of
-- internal/infrastructure/postgres/ingestion_repository.go with its statements). A statement may fail, and
-- its answer may be lost although it took effect. Of errors that are joined or wrapped the first
-- sentinel stands for all.
pub mod Moved
pub mod Closed
pub mod Started
use cross_border_ecommerce.Base.{
  ℕ, Bool, true, false, not, ◌||◌, List, [], ◌∷◌, ◌++◌, Option, none, some, if◌then◌else◌, Text,
  text_eq, trim_space, is_blank, is_empty, Error, error_eq, Result, ok, err, ◌>>=◌, ◌>>◌, fail_if,
  Fault, works, fails, loses, other, invalid_source_id, inactive_source, run_not_found,
  run_already_active, invalid_run_state, invalid_transition, invalid_run_id,
}
use cross_border_ecommerce.Product.Metrics.{BatchMetrics, sum_metrics, validate_metrics}
use cross_border_ecommerce.Ingestion.RawRecord.{RawRecord}
use cross_border_ecommerce.Ingestion.Run.{
  RunStatus, pending, running, completed, partial, failed, cancelled, unknown, IngestionRun,
  new_run, start, complete, fail, cancel, processable,
}

-- The row of the run, the raw records, and whether the run was queued for the product processing.
pub record Store : Type 0 where
  pub run : Option IngestionRun
  pub saved : List RawRecord
  pub queued : Bool

-- A statement or a transaction, which fails without a trace, works, or works without an answer.
unfoldable pub settled : Fault → Store → Result Store → Result (Unit {0}) × Store
settled works s (ok s') = (ok tt, s')
settled works s (err e) = (err e, s)
settled (fails e) s result = (err e, s)
settled (loses n) s (ok s') = (err (other n), s')
settled (loses n) s (err e) = (err (other n), s)

unfoldable pub statement : Fault → (Store → Result Store) → Store → Result (Unit {0}) × Store
unfolding settled
statement fault f s = settled fault s (f s)

abbrev pub status_eq : RunStatus → RunStatus → Bool
status_eq pending pending = true
status_eq running running = true
status_eq completed completed = true
status_eq partial partial = true
status_eq failed failed = true
status_eq cancelled cancelled = true
status_eq (unknown a) (unknown b) = text_eq a b
status_eq _ _ = false

abbrev pub kept_checkpoint : Text → Text → Text
kept_checkpoint old next = if is_empty next then old else next

-- UpdateIngestionRunProgress on a row in progress.
abbrev pub progressed : BatchMetrics → Text → ℕ → IngestionRun → IngestionRun
progressed m checkpoint now r = record r {
  metrics = sum_metrics r.metrics m;
  checkpoint = kept_checkpoint r.checkpoint checkpoint;
  updated_at = now;
}

-- UpdateProgress of the repository, on the row that it meets.
unfoldable pub update_progress : BatchMetrics → Text → ℕ → Option IngestionRun → Result IngestionRun
update_progress m checkpoint now none = err run_not_found
update_progress m checkpoint now (some r) =
    if status_eq r.status running then ok (progressed m checkpoint now r) else err invalid_run_state

-- UpdateIngestionRunStatus: the columns of the run that it writes.
abbrev pub restated : IngestionRun → IngestionRun → IngestionRun
restated next r = record r {
  status = next.status;
  error_summary = next.error_summary;
  checkpoint = kept_checkpoint r.checkpoint next.checkpoint;
  completed_at = next.completed_at;
  updated_at = next.updated_at;
}

-- UpdateStatus of the repository: the run moves on from the status that it was read with, and is queued
-- in the same statement if it can be processed.
unfoldable pub update_status : IngestionRun → RunStatus → Store → Option IngestionRun → Result Store
update_status next from s none = err run_not_found
update_status next from s (some r) =
    if status_eq r.status from
    then ok
        (record s { run = some (restated next r); queued = processable next.status || s.queued })
    else err invalid_transition

-- What the service meets: the source, its latest run, the clock, the fresh id, and the database at the
-- creation of the run and at each of its transitions.
pub record Session : Type 0 where
  pub source_enabled : Result Bool
  pub latest_status : Result (Option RunStatus)
  pub generated : Result Text
  pub start_time : ℕ
  pub create_fault : Fault

pub record Transition : Type 0 where
  pub find_fault : Option Error
  pub time : ℕ
  pub update_fault : Fault

abbrev pub is_active : Option RunStatus → Bool
is_active none = false
is_active (some status) = status_eq status running || status_eq status pending

-- The check of the latest run.
unfoldable pub check_active : Result (Option RunStatus) → Result (Unit {0})
check_active (err e) = if error_eq e run_not_found then ok tt else err e
check_active (ok latest) = fail_if (is_active latest) run_already_active

-- StartRun up to the insertion.
unfoldable pub prepare_run : Session → Text → Text → Result IngestionRun
unfolding check_active
prepare_run x source_id checkpoint = do
  fail_if (is_blank source_id) invalid_source_id
  enabled ← x.source_enabled
  fail_if (not enabled) inactive_source
  check_active x.latest_status
  run ← new_run [] source_id checkpoint x.generated x.start_time
  start x.start_time run

abbrev pub created : IngestionRun → Result (Unit {0}) × Store → Result IngestionRun × Store
created run (ok u, s) = (ok run, s)
created run (err e, s) = (err e, s)

unfoldable pub create_run : Fault → Result IngestionRun → Store → Result IngestionRun × Store
create_run fault (err e) s = (err e, s)
create_run fault (ok run) s =
    created run (statement fault (λ s'. ok (record s' { run = some run; queued = false })) s)

-- StartRun.
unfoldable pub start_run : Session → Text → Text → Store → Result IngestionRun × Store
unfolding prepare_run create_run
start_run x source_id checkpoint s =
    create_run x.create_fault (prepare_run x source_id checkpoint) s

-- ResumeRun, by the run that was looked up.
abbrev is_resumable : RunStatus → Bool
is_resumable partial = true
is_resumable failed = true
is_resumable _ = false

pub resume_run : Session → Result IngestionRun → Store → Result IngestionRun × Store
unfolding start_run
resume_run x (err e) s = (err e, s)
resume_run x (ok previous) s =
    if is_resumable previous.status
    then start_run x previous.source_id previous.checkpoint s
    else (err invalid_transition, s)

-- FindRunByID.
abbrev pub find_run : Option Error → Option IngestionRun → Result IngestionRun
find_run (some e) run = err e
find_run none none = err run_not_found
find_run none (some r) = ok r

-- GetRun.
abbrev pub get_run : Option Error → Text → Option IngestionRun → Result IngestionRun
get_run fault id run = if is_blank id then err invalid_run_id else find_run fault run

abbrev advanced_by : Store → Result IngestionRun → Result Store
advanced_by s (err e) = err e
advanced_by s (ok r) = ok (record s { run = some r })

abbrev progress_batch : BatchMetrics → Text → ℕ → Store → Result Store
unfolding update_progress
progress_batch m checkpoint now s =
    advanced_by s (update_progress m (trim_space checkpoint) now s.run)

-- RecordBatch.
pub record_batch : Text → BatchMetrics → Text → ℕ → Fault → Store → Result (Unit {0}) × Store
unfolding statement validate_metrics
record_batch id m checkpoint now fault s =
    if is_blank id then (err invalid_run_id, s) else elim (validate_metrics m) [
      | err e ↦ (err e, s)
      | ok u ↦ statement fault (progress_batch m checkpoint now) s
    ]

unfoldable pub write_transition :
    Transition → IngestionRun → Result IngestionRun → Store → Result (Unit {0}) × Store
write_transition x r (err e) s = (err e, s)
write_transition x r (ok next) s =
    statement x.update_fault (λ s'. update_status next r.status s' s'.run) s

unfoldable pub apply_transition :
    Transition
    → (ℕ → IngestionRun → Result IngestionRun)
    → Result IngestionRun
    → Store
    → Result (Unit {0}) × Store
unfolding write_transition
apply_transition x apply (err e) s = (err e, s)
apply_transition x apply (ok r) s = write_transition x r (apply x.time r) s

-- transitionRun, with the transition of the run as an argument.
unfoldable pub transition_run :
    Transition → (ℕ → IngestionRun → Result IngestionRun) → Store → Result (Unit {0}) × Store
unfolding apply_transition
transition_run x apply s = apply_transition x apply (find_run x.find_fault s.run) s

-- CompleteRun, FailRun and CancelRun.
unfoldable pub complete_run : Transition → Text → Store → Result (Unit {0}) × Store
unfolding transition_run
complete_run x checkpoint s = transition_run x (complete checkpoint) s

unfoldable pub fail_run : Transition → Text → Store → Result (Unit {0}) × Store
unfolding transition_run
fail_run x summary s = transition_run x (fail summary) s

unfoldable pub cancel_run : Transition → Text → Store → Result (Unit {0}) × Store
unfolding transition_run
cancel_run x reason s = transition_run x (cancel reason) s
