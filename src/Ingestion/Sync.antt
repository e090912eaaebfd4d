-- ===== src/Ingestion/Sync.antt =====
-- SyncSource of internal/application/ingestion/sync.go. The adapter answers the fetch of each round, and no
-- other session writes the run meanwhile. The rounds of the loop are fuel: an adapter may go on for ever.
pub mod Kept
pub mod Ends
use cross_border_ecommerce.Base.{
  ℕ, zero, suc, ◌+◌, ◌==◌, Bool, true, false, not, ◌&&◌, ◌||◌, List, [], ◌∷◌, ◌++◌, map, Option,
  none, some, if◌then◌else◌, length, Text, codes, text_eq, is_empty, Error, Result, ok, err, ◌>>=◌,
  Fault, invalid_error_budget, error_budget_exceeded, source_contract_violation, context_canceled,
}
use cross_border_ecommerce.Product.Metrics.{BatchMetrics}
use cross_border_ecommerce.Ingestion.RawRecord.{RawRecord}
use cross_border_ecommerce.Ingestion.Run.{IngestionRun}
use cross_border_ecommerce.Ingestion.Service.{
  Store, Session, Transition, statement, update_progress, start_run, complete_run, fail_run,
  cancel_run, get_run, kept_checkpoint,
}

-- FetchResult.
pub record FetchResult : Type 0 where
  pub records : List RawRecord
  pub failures : ℕ
  pub next_checkpoint : Text
  pub has_more : Bool

pub record World : Type 0 where
  pub session : Session
  pub budget_valid : Bool
  pub over_budget : ℕ → ℕ → Bool
  -- The adapter, by the round and the checkpoint.
  pub fetch : ℕ → Text → Result FetchResult
  pub now : ℕ → ℕ
  pub persist_fault : ℕ → Fault
  -- Whether the context is done: before the round, and behind a failure of the fetch, the transaction or
  -- the completion.
  pub cancelled : ℕ → Bool
  pub fetch_cancelled : ℕ → Bool
  pub persist_cancelled : ℕ → Bool
  pub complete_cancelled : Bool
  pub completing : Transition
  pub failing : Transition
  pub cancelling : Transition
  -- Error().
  pub describe : Error → Text
  pub get_fault : Option Error

pub data Ending : Type 0 where
  synced : IngestionRun → Ending
  stopped : Error → Ending
  out_of_fuel : Ending

pub record Outcome : Type 0 where
  pub ending : Ending
  pub store : Store

-- persistBatch sets the run and the time of receipt of each record.
abbrev pub stamp : Text → ℕ → RawRecord → RawRecord
stamp run_id now r = record r {
  ingestion_run_id = run_id;
  received_at = if r.received_at == 0 then now else r.received_at;
}

abbrev pub batch_metrics : FetchResult → BatchMetrics
batch_metrics res = record {
  seen = length res.records + res.failures;
  new = 0;
  changed = 0;
  unchanged = 0;
  failures = res.failures;
}

abbrev pub with_progress : Text → ℕ → FetchResult → Store → Result IngestionRun → Result Store
with_progress run_id now res s (err e) = err e
with_progress run_id now res s (ok r) =
    ok (record s { run = some r; saved = s.saved ++ map (stamp run_id now) res.records })

-- The transaction of persistBatch: both writes, or none.
unfoldable pub page_written : Text → ℕ → FetchResult → Store → Result Store
page_written run_id now res s =
    with_progress run_id now res s
      (update_progress (batch_metrics res) res.next_checkpoint now s.run)

abbrev during_ingestion : Text
during_ingestion = codes "context cancelled during ingestion"

abbrev during_fetch : Text
during_fetch = codes "context cancelled during adapter fetch"

abbrev during_persistence : Text
during_persistence = codes "context cancelled during batch persistence"

abbrev during_completion : Text
during_completion = codes "context cancelled during run completion"

module _ (w : World) (run_id : Text) where
  -- persistBatch.
  unfoldable pub persist_batch : ℕ → FetchResult → Store → Result (Unit {0}) × Store
  unfolding page_written
  persist_batch k res s = statement (w.persist_fault k) (page_written run_id (w.now k) res) s

  -- failRun and cancelRun of the coordinator, whose own errors are joined to the one reported.
  unfoldable pub stop_failed : Error → Store → Outcome
  stop_failed e s = record { ending = stopped e; store = (fail_run w.failing (w.describe e) s).1 }

  unfoldable pub stop_cancelled : Text → Store → Outcome
  stop_cancelled reason s = record {
    ending = stopped context_canceled;
    store = (cancel_run w.cancelling reason s).1;
  }

  unfoldable pub stop : Bool → Text → Error → Store → Outcome
  unfolding stop_failed stop_cancelled
  stop done reason e s = if done then stop_cancelled reason s else stop_failed e s

  abbrev pub read_back : Result IngestionRun → Store → Outcome
  read_back (err e) s = record { ending = stopped e; store = s }
  read_back (ok r) s = record { ending = synced r; store = s }

  unfoldable pub after_complete : Result (Unit {0}) × Store → Outcome
  unfolding stop
  after_complete (err e, s) = stop w.complete_cancelled during_completion e s
  after_complete (ok u, s) = read_back (get_run w.get_fault run_id s.run) s

  -- The lines behind the loop.
  unfoldable pub finish : Text → Store → Outcome
  unfolding after_complete
  finish checkpoint s = after_complete (complete_run w.completing checkpoint s)

  -- The round behind the transaction, for the rounds behind it by checkpoint and totals.
  unfoldable pub after_persist :
      ℕ
      → Text
      → ℕ
      → ℕ
      → FetchResult
      → (Text → ℕ → ℕ → Store → Outcome)
      → Result (Unit {0}) × Store
      → Outcome
  unfolding stop finish
  after_persist k checkpoint seen failures res next (err e, s) =
      stop (w.persist_cancelled k) during_persistence e s
  after_persist k checkpoint seen failures res next (ok u, s) =
      let seen' = seen + (length res.records + res.failures) in
      let failures' = failures + res.failures in
      let checkpoint' = kept_checkpoint checkpoint res.next_checkpoint in
      if w.over_budget seen' failures'
      then stop_failed error_budget_exceeded s
      else if not res.has_more || is_empty res.next_checkpoint
      then finish checkpoint' s
      else next checkpoint' seen' failures' s

  -- The round behind the fetch.
  unfoldable pub after_fetch :
      ℕ → Text → ℕ → ℕ → (Text → ℕ → ℕ → Store → Outcome) → Store → Result FetchResult → Outcome
  unfolding stop persist_batch after_persist
  after_fetch k checkpoint seen failures next s (err e) =
      stop (w.fetch_cancelled k) during_fetch e s
  after_fetch k checkpoint seen failures next s (ok res) =
      if res.has_more && text_eq res.next_checkpoint checkpoint
      then stop_failed source_contract_violation s
      else after_persist k checkpoint seen failures res next (persist_batch k res s)

  -- The loop of SyncSource.
  unfoldable pub sync_pages : ℕ → ℕ → Text → ℕ → ℕ → Store → Outcome
  sync_pages zero k checkpoint seen failures s = record { ending = out_of_fuel; store = s }
  sync_pages (suc fuel) k checkpoint seen failures s =
      let round =
        after_fetch k checkpoint seen failures (sync_pages fuel (suc k)) s (w.fetch k checkpoint) in
      if w.cancelled k then stop_cancelled during_ingestion s else round

unfoldable pub with_run : World → ℕ → Result IngestionRun × Store → Outcome
with_run w fuel (err e, s) = record { ending = stopped e; store = s }
with_run w fuel (ok r, s) = sync_pages w r.id fuel 0 r.checkpoint 0 0 s

-- SyncSource, on an adapter that is there.
unfoldable pub sync_source : World → ℕ → Text → Text → Store → Outcome
unfolding with_run
sync_source w fuel source_id checkpoint s =
    if w.budget_valid
    then with_run w fuel (start_run w.session source_id checkpoint s)
    else record { ending = stopped invalid_error_budget; store = s }
