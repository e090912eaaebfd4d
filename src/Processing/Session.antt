-- ===== src/Processing/Session.antt =====
-- What RunProcessor of internal/application/product/process_run.go meets, and its statements on the row of
-- one run. Other workers and sessions may change the row before each statement, a statement may fail, and
-- its answer may be lost although it took effect.
use cross_border_ecommerce.Base.{
  Fault, works, fails, loses, ℕ, suc, Bool, ◌||◌, List, [], ◌∷◌, Option, none, some, Text, Error,
  error_eq, Result, ok, err, ◌>>=◌, ◌>>◌, other, run_processing_not_found, identity_conflict,
  version_conflict, deadlock_conflict,
}
use cross_border_ecommerce.Product.Metrics.{BatchMetrics}
use cross_border_ecommerce.Product.Canonical.{NormalizedProduct, Codec, fingerprint}
use cross_border_ecommerce.Product.Transition.{Snapshot}
use cross_border_ecommerce.Product.Batch.Grouping.{BatchIncomingRecord}
use cross_border_ecommerce.Product.Batch.Fold.{decide_batch}
use cross_border_ecommerce.Ingestion.Run.{IngestionRun}
use cross_border_ecommerce.Ingestion.RawRecord.{RawRecord}
use cross_border_ecommerce.Processing.Row.{
  RunProcessing, ensure_exists, release_claim, fail_processing,
}
use cross_border_ecommerce.Processing.Keyset.{Stored}

-- The statements on the row; those on a page by the number of the page and of the attempt.
pub data Call : Type 0 where
  claiming_next ensuring resetting claiming releasing failing completing : Call
  progressing : ℕ → ℕ → Call

-- The row of the run, where there is one.
abbrev pub Row : Type 0
Row = Option RunProcessing

pub record World : Type 0 where
  -- The raw records of the run, by their ids.
  pub records : List Stored
  pub find_run : Result IngestionRun
  pub find_source : Option Error
  -- GetFieldMapping: whether there is a mapping.
  pub field_mapping : Result Bool
  -- Normalize with the mapping of the source, by whether it succeeds.
  pub normalize : RawRecord → Option NormalizedProduct
  pub codec : Codec
  -- ErrorBudget.Validate and Check, which compare floating-point numbers.
  pub budget_valid : Bool
  pub over_budget : ℕ → ℕ → Bool
  pub fault : Call → Fault
  pub others : Call → Row → Row
  pub now : Call → ℕ
  -- Whether the context is done: behind a failure of the source, and for the page, before it, behind a
  -- failed listing and behind a failure.
  pub source_cancelled : Bool
  pub cancelled : ℕ → Bool
  pub list_cancelled : ℕ → Bool
  pub page_cancelled : ℕ → Bool
  pub list_fault : ℕ → Option Error
  -- The product tables within the transaction of a page.
  pub snapshots : ℕ → ℕ → Result (Text → Option Snapshot)
  pub generate : ℕ → ℕ → ℕ → Result Text
  pub apply_fault : ℕ → ℕ → Option Error
  pub events_fault : ℕ → ℕ → Option Error

abbrev pub fault_of : Option Error → Result (Unit {0})
fault_of none = ok tt
fault_of (some e) = err e

-- What a statement makes of the row that it meets: `none` where no row satisfies its WHERE.
abbrev pub matched : (RunProcessing → Option RunProcessing) → Row → Option RunProcessing
matched f none = none
matched f (some r) = f r

abbrev pub written : Row → Option RunProcessing → Row
written s none = s
written s (some r) = some r

unfoldable pub answer : Fault → Row → Option RunProcessing → Result (Option RunProcessing) × Row
answer works s changed = (ok changed, written s changed)
answer (fails e) s changed = (err e, s)
answer (loses n) s changed = (err (other n), written s changed)

-- A statement, behind what the others did.
unfoldable pub exec :
    World
    → Call
    → (RunProcessing → Option RunProcessing)
    → Row
    → Result (Option RunProcessing) × Row
unfolding answer
exec w call f s = let s' = w.others call s in answer (w.fault call) s' (matched f s')

-- EnsureExists inserts the row where there is none.
unfoldable pub ensure_row : World → Row → Result (Option RunProcessing) × Row
unfolding answer
ensure_row w s = let s' = w.others ensuring s in answer (w.fault ensuring) s' (ensure_exists s')

-- guardFailure: what a guarded statement reports that met no row.
abbrev pub guard_failure : Error → Row → Error
guard_failure when_exists none = run_processing_not_found
guard_failure when_exists (some r) = when_exists

-- releaseRun and failRun, whose own errors are joined to the one that is reported.
abbrev pub release_run : World → Text → Row → Row
release_run w token s = (exec w releasing (release_claim token) s).1

abbrev pub fail_run : World → Text → Row → Row
fail_run w token s = (exec w failing (fail_processing token) s).1

abbrev pub is_conflict : Error → Bool
is_conflict e =
    error_eq e identity_conflict || (error_eq e version_conflict || error_eq e deadlock_conflict)

-- The record of a page, as it goes to DecideBatch.
abbrev pub incoming : World → Text → RawRecord → NormalizedProduct → BatchIncomingRecord
incoming w run_id r p = record {
  raw_record_id = r.id;
  source_id = r.source_id;
  external_product_id = r.external_product_id;
  normalized = p;
  fingerprint = fingerprint w.codec p;
  source_updated_at = r.source_updated_at;
  received_at = r.received_at;
  ingestion_run_id = run_id;
}

abbrev pub collected :
    World
    → Text
    → RawRecord
    → Option NormalizedProduct
    → List BatchIncomingRecord × ℕ
    → List BatchIncomingRecord × ℕ
collected w run_id r none (valid, failures) = (valid, suc failures)
collected w run_id r (some p) (valid, failures) = (incoming w run_id r p ∷ valid, failures)

-- The loop over the records of a page: those that Normalize takes, and how many it refuses.
unfoldable pub normalize_page : World → Text → List Stored → List BatchIncomingRecord × ℕ
normalize_page w run_id [] = ([], 0)
normalize_page w run_id (r ∷ rs) =
    collected w run_id r.record_ (w.normalize r.record_) (normalize_page w run_id rs)

abbrev pub page_metrics : ℕ → ℕ → BatchMetrics → BatchMetrics
page_metrics total failures m = record {
  seen = total;
  new = m.new;
  changed = m.changed;
  unchanged = m.unchanged;
  failures = failures;
}

-- The products and the outbox within the transaction of a page, and the metrics of the page.
unfoldable pub apply_page : World → ℕ → ℕ → List BatchIncomingRecord → ℕ → ℕ → Result BatchMetrics
apply_page w page attempt [] total failures =
    ok (record { seen = total; new = 0; changed = 0; unchanged = 0; failures = failures })
apply_page w page attempt (r ∷ rs) total failures = do
  snapshots ← w.snapshots page attempt
  plan ←
      decide_batch w.codec (w.generate page attempt) snapshots (r ∷ rs)
        (w.now (progressing page attempt))
  fault_of (w.apply_fault page attempt)
  fault_of (w.events_fault page attempt)
  ok (page_metrics total failures plan.metrics)
