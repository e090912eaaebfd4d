-- ===== src/Tests/Syncs.antt =====
-- The synchronisation of a source at a concrete input (internal/application/ingestion/sync.go).
use cross_border_ecommerce.Ingestion.Run.{processable}
use cross_border_ecommerce.Ingestion.Service.{fail_run}
use cross_border_ecommerce.Ingestion.Service.{update_progress}
use cross_border_ecommerce.Ingestion.Sync.{after_fetch}
use cross_border_ecommerce.Ingestion.Run.{fail}
use cross_border_ecommerce.Ingestion.Run.{start}
use cross_border_ecommerce.Ingestion.Service.{start_run}
use cross_border_ecommerce.Base.{trim_space}
use cross_border_ecommerce.Ingestion.Service.{statement}
use cross_border_ecommerce.Ingestion.Run.{new_run}
use cross_border_ecommerce.Ingestion.Sync.{sync_pages}
use cross_border_ecommerce.Base.{text_eq}
use cross_border_ecommerce.Ingestion.Service.{update_status}
use cross_border_ecommerce.Ingestion.Run.{complete}
use cross_border_ecommerce.Ingestion.Service.{complete_run}
use cross_border_ecommerce.Base.{
  ◌≡◌, ◌≢◌, refl, true, false, [], ◌∷◌, none, if◌then◌else◌, leb, Text, codes, ok, works, loses,
  length, sym, ap, ok-injective,
}
use cross_border_ecommerce.Ingestion.RawRecord.{RawRecord}
use cross_border_ecommerce.Ingestion.Service.{Store, Session, Transition}
use cross_border_ecommerce.Ingestion.Sync.{World, out_of_fuel, sync_source}
use cross_border_ecommerce.Ingestion.Sync.Kept.Synced.{IsSynced, sync_source-IsSynced}
use cross_border_ecommerce.Ingestion.Sync.Ends.{drained, sync_source-ends}

abbrev raw : Text → RawRecord
raw id = record {
  id = id;
  source_id = codes "s";
  external_product_id = id;
  payload = codes "{}";
  payload_raw = codes "{}";
  payload_sha256 = codes "h";
  source_version = [];
  etag = [];
  source_updated_at = none;
  ingestion_run_id = [];
  received_at = 0;
}

abbrev session : Session
session = record {
  source_enabled = ok true;
  latest_status = ok none;
  generated = ok (codes "r");
  start_time = 1;
  create_fault = works;
}

abbrev moves : Transition
moves = record { find_fault = none; time = 9; update_fault = works }

-- Two pages; the answer of the last write is lost.
abbrev world : World
world = record {
  session = session;
  budget_valid = true;
  over_budget = λ seen failures. false;
  fetch = λ k checkpoint. ok (record {
    records = raw (k ∷ []) ∷ [];
    failures = k;
    next_checkpoint = k ∷ [];
    has_more = if leb 1 k then false else true;
  });
  now = λ k. 5;
  persist_fault = λ k. works;
  cancelled = λ k. false;
  fetch_cancelled = λ k. false;
  persist_cancelled = λ k. false;
  complete_cancelled = false;
  completing = record { find_fault = none; time = 9; update_fault = loses 1 };
  failing = moves;
  cancelling = moves;
  describe = λ e. [];
  get_fault = none;
}

abbrev empty_store : Store
empty_store = record { run = none; saved = []; queued = false }

sync_source_saves : length (sync_source world 5 (codes "s") [] empty_store).store.saved ≡ 2
unfolding after_fetch complete complete_run fail fail_run new_run start start_run statement
    sync_pages sync_source text_eq trim_space update_progress update_status
sync_source_saves = refl

sync_source_queues : (sync_source world 5 (codes "s") [] empty_store).store.queued ≡ true
unfolding after_fetch complete complete_run fail fail_run new_run processable start start_run
    statement sync_pages sync_source text_eq trim_space update_progress update_status
sync_source_queues = refl

sync_source-IsSynced_example :
    IsSynced world [] empty_store (sync_source world 5 (codes "s") [] empty_store).store
sync_source-IsSynced_example = sync_source-IsSynced world 5 (codes "s") [] empty_store

sync_source-ends_example : (sync_source world 2 (codes "s") [] empty_store).ending ≢ out_of_fuel
sync_source-ends_example =
    sync_source-ends world 1 (codes "s") [] empty_store
      (drained (λ cp res h. sym (ap (λ x. x.has_more) (ok-injective h))))
