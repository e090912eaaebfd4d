-- ===== src/Ingestion/Sync/Kept/Synced.antt =====
-- SyncSource as a whole (internal/application/ingestion/sync.go).
use cross_border_ecommerce.Base.{
  ℕ, ◌≡◌, refl, Bool, true, false, if◌then◌else◌, Text, Result, ok, err, loses,
}
use cross_border_ecommerce.Ingestion.Run.{running, IngestionRun}
use cross_border_ecommerce.Ingestion.Service.{Store}
use cross_border_ecommerce.Ingestion.Service.Started.{
  IsFresh, IsStarted, started, refused, unanswered, start_run-IsStarted,
}
use cross_border_ecommerce.Ingestion.Service.Moved.{IsOpen}
use cross_border_ecommerce.Ingestion.Sync.{World, Outcome, with_run, sync_source}
use cross_border_ecommerce.Ingestion.Sync.Kept.{IsKept}
use cross_border_ecommerce.Ingestion.Sync.Kept.Rounds.{sync_pages-IsKept}

-- What SyncSource leaves in the database: it as it was; a fresh run alone, whose insertion went
-- unanswered; or a run that kept to some pages.
pub data IsSynced (w : World) (cp : Text) (s s' : Store) : Type 0 where
  unstarted : s' ≡ s → IsSynced w cp s s'
  orphaned :
      {r : IngestionRun} {n : ℕ}
      → w.session.create_fault ≡ loses n
      → IsFresh running cp r
      → IsOpen r s'
      → s'.saved ≡ s.saved
      → IsSynced w cp s s'
  synced :
      {r : IngestionRun} {s₀ : Store}
      → s₀.saved ≡ s.saved
      → IsFresh running cp r
      → IsKept w r.id 0 false r s₀ s'
      → IsSynced w cp s s'

with_run-IsSynced :
    (w : World) (fuel : ℕ) (cp : Text) (s : Store) (result : Result IngestionRun × Store)
    → IsStarted w.session.create_fault cp s result
    → IsSynced w cp s (with_run w fuel result).store
unfolding with_run
with_run-IsSynced w fuel cp s (err e, s') (refused h) = unstarted h
with_run-IsSynced w fuel cp s (err e, s') (unanswered l f o h) = orphaned l f o h
with_run-IsSynced w fuel cp s (ok r, s') (started f o h) =
    synced h f (sync_pages-IsKept w r.id fuel 0 false 0 0 r s' o)

if-IsSynced :
    (w : World) (cp : Text) (s : Store) (x y : Outcome) (b : Bool)
    → IsSynced w cp s x.store
    → IsSynced w cp s y.store
    → IsSynced w cp s (if b then x else y).store
if-IsSynced w cp s x y true hx hy = hx
if-IsSynced w cp s x y false hx hy = hy

-- However its statements fail and whatever the adapter answers, and after any number of rounds,
-- SyncSource leaves the database exactly as it was; or, where the answer to the insertion of the run was
-- lost, with no more than a fresh run in progress that is not queued; or with a run that started fresh and
-- has exactly the records of consecutive pages that the adapter answered, each page fetched from the
-- checkpoint the page before it left: the run is at the checkpoint that the last of these pages left, with
-- or without the spaces around it, counts their records and failures, and was queued for the product
-- processing exactly if its status is one to be processed. It has such a status only if the last of the
-- pages has nothing behind it: the adapter said so, or it named no checkpoint to go on from.
pub sync_source-IsSynced :
    (w : World) (fuel : ℕ) (source_id cp : Text) (s : Store)
    → IsSynced w cp s (sync_source w fuel source_id cp s).store
unfolding sync_source
sync_source-IsSynced w fuel source_id cp s =
    if-IsSynced w cp s _ _ w.budget_valid
      (with_run-IsSynced w fuel cp s _ (start_run-IsStarted w.session source_id cp s))
      (unstarted refl)
