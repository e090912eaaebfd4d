-- ===== src/Ingestion/Sync/Kept.antt =====
-- What SyncSource of internal/application/ingestion/sync.go keeps of the pages that it fetched.
pub mod Rounds
pub mod Synced
use cross_border_ecommerce.Base.{
  ℕ, zero, suc, ◌+◌, ◌==◌, ◌≡◌, ◌≢◌, refl, sym, ap, ◌∙◌, subst, ◌⊎◌, inl, inr, Bool, true, false,
  not, ◌&&◌, ◌||◌, List, [], ◌∷◌, ◌++◌, map, Option, none, some, some-injective, arith,
  if◌then◌else◌, Bool-cases, length, Text, text_eq, trim_space, is_empty, is_blank, Error, Result,
  ok, err, ok-injective, invalid_transition, error_budget_exceeded, source_contract_violation,
  other, Fault, works, fails, loses,
}
use mathlib.Core.List.{append_assoc, append-nil}
use cross_border_ecommerce.Product.Metrics.{BatchMetrics, sum_metrics}
use cross_border_ecommerce.Ingestion.RawRecord.{RawRecord}
use cross_border_ecommerce.Ingestion.Run.{
  RunStatus, running, IngestionRun, processable, complete, fail, cancel, advance,
}
use cross_border_ecommerce.Ingestion.Service.{
  Store, Transition, settled, statement, Session, prepare_run, create_run, update_progress,
  progressed, status_eq, kept_checkpoint, start_run, find_run, write_transition, apply_transition,
  transition_run, complete_run, fail_run, cancel_run,
}
use cross_border_ecommerce.Ingestion.Service.Moved.{IsOpen, IsMoved, unmoved, complete_run-IsMoved}
use cross_border_ecommerce.Ingestion.Service.Started.{
  IsFresh, IsStarted, started, refused, start_run-IsStarted,
}
use cross_border_ecommerce.Ingestion.Sync.{
  World, FetchResult, Ending, stopped, Outcome, stamp, batch_metrics, with_progress, page_written,
  persist_batch, stop_failed, stop_cancelled, stop, read_back, after_complete, finish,
  after_persist, after_fetch, sync_pages, with_run, sync_source,
}
use cross_border_ecommerce.Ingestion.Service.Closed.{fail_run-IsMoved, cancel_run-IsMoved}

-- The pages that an adapter answers one after the other, from a round and a checkpoint to another.
pub data Fetched (w : World) : ℕ → Text → List FetchResult → Text → Type 0 where
  no_page : {k : ℕ} {checkpoint last : Text} → checkpoint ≡ last → Fetched w k checkpoint [] last
  page :
      {k : ℕ} {checkpoint last : Text} {res : FetchResult} {rest : List FetchResult}
      → w.fetch k checkpoint ≡ ok res
      → Fetched w (suc k) (kept_checkpoint checkpoint res.next_checkpoint) rest last
      → Fetched w k checkpoint (res ∷ rest) last

-- The records of some pages, as they are saved.
abbrev pub records_of : World → Text → ℕ → List FetchResult → List RawRecord
records_of w run_id k [] = []
records_of w run_id k (res ∷ rest) =
    map (stamp run_id (w.now k)) res.records ++ records_of w run_id (suc k) rest

abbrev pub seen_of : List FetchResult → ℕ
seen_of [] = 0
seen_of (res ∷ rest) = (length res.records + res.failures) + seen_of rest

abbrev pub failures_of : List FetchResult → ℕ
failures_of [] = 0
failures_of (res ∷ rest) = res.failures + failures_of rest

-- Nothing is behind a page: the adapter says so, or it names no checkpoint to go on from.
abbrev pub ends_source : FetchResult → Bool
ends_source res = not res.has_more || is_empty res.next_checkpoint

-- The last of the pages has nothing behind it; where there is none, whether the page before them had none.
abbrev pub IsDrained : Bool → List FetchResult → Type 0
IsDrained drained [] = (drained ≡ true)
IsDrained drained (res ∷ rest) = IsDrained (ends_source res) rest

-- From a run `r` in the store `s`, the store s' has some pages from round k on, and nothing else.
pub record IsKept (w : World) (run_id : Text) (k : ℕ) (drained : Bool) (r : IngestionRun)
    (s : Store) (s' : Store) : Type 0 where
  pub pages : List FetchResult
  pub last : Text
  pub left : IngestionRun
  pub fetched : Fetched w k r.checkpoint pages last
  pub saved : s'.saved ≡ s.saved ++ records_of w run_id k pages
  pub row : s'.run ≡ some left
  pub checkpoint : (left.checkpoint ≡ last) ⊎ (left.checkpoint ≡ trim_space last)
  pub seen : left.metrics.seen ≡ r.metrics.seen + seen_of pages
  pub failures : left.metrics.failures ≡ r.metrics.failures + failures_of pages
  pub queued : s'.queued ≡ processable left.status
  pub exhausted : processable left.status ≡ true → IsDrained drained pages

pub IsMoved-IsKept :
    (w : World) (run_id : Text) (k : ℕ) (drained : Bool) (r : IngestionRun) (s s' : Store)
    → IsMoved drained r s s'
    → IsKept w run_id k drained r s s'
IsMoved-IsKept w run_id k drained r s s' m = record {
  pages = [];
  last = r.checkpoint;
  left = m.left;
  fetched = no_page refl;
  saved = m.saved ∙ sym (append-nil s.saved);
  row = m.row;
  checkpoint = m.checkpoint;
  seen = omega (arith, ap (λ x. x.seen) m.metrics);
  failures = omega (arith, ap (λ x. x.failures) m.metrics);
  queued = m.queued;
  exhausted = m.exhausted;
}

-- What the transaction of a page leaves.
abbrev pub paged : World → Text → ℕ → FetchResult → IngestionRun → Store → Store
paged w run_id k res r s = record s {
  run = some (progressed (batch_metrics res) res.next_checkpoint (w.now k) r);
  saved = s.saved ++ map (stamp run_id (w.now k)) res.records;
}

abbrev pub advanced : World → ℕ → FetchResult → IngestionRun → IngestionRun
advanced w k res r = progressed (batch_metrics res) res.next_checkpoint (w.now k) r

update_progress-ok :
    (m : BatchMetrics) (cp : Text) (now : ℕ) (r : IngestionRun)
    → r.status ≡ running
    → update_progress m cp now (some r) ≡ ok (progressed m cp now r)
unfolding update_progress
update_progress-ok m cp now r e = rw e

pub page_written-ok :
    (w : World) (run_id : Text) (k : ℕ) (res : FetchResult) (r : IngestionRun) (s : Store)
    → IsOpen r s
    → page_written run_id (w.now k) res s ≡ ok (paged w run_id k res r s)
unfolding page_written
page_written-ok w run_id k res r s o = ap (with_progress run_id (w.now k) res s) (
    ap (update_progress (batch_metrics res) res.next_checkpoint (w.now k)) o.row
    ∙ update_progress-ok (batch_metrics res) res.next_checkpoint (w.now k) r o.active)

pub paged-IsOpen :
    (w : World) (run_id : Text) (k : ℕ) (res : FetchResult) (r : IngestionRun) (s : Store)
    → IsOpen r s
    → IsOpen (advanced w k res r) (paged w run_id k res r s)
paged-IsOpen w run_id k res r s o = record { row = refl; active = o.active; unqueued = o.unqueued }

-- A page before some pages.
pub page-IsKept :
    (w : World) (run_id : Text) (k : ℕ) (drained : Bool) (res : FetchResult) (r : IngestionRun)
    (s s' : Store)
    → w.fetch k r.checkpoint ≡ ok res
    → IsKept w run_id (suc k) (ends_source res) (advanced w k res r) (paged w run_id k res r s) s'
    → IsKept w run_id k drained r s s'
page-IsKept w run_id k drained res r s s' f x = record {
  pages = res ∷ x.pages;
  last = x.last;
  left = x.left;
  fetched = page f x.fetched;
  saved = x.saved ∙ append_assoc s.saved _ _;
  row = x.row;
  checkpoint = x.checkpoint;
  seen = omega (arith, x.seen);
  failures = omega (arith, x.failures);
  queued = x.queued;
  exhausted = x.exhausted;
}
