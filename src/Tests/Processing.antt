-- ===== src/Tests/Processing.antt =====
-- The processing of a run at a concrete input (internal/application/product/process_run.go).
use cross_border_ecommerce.Base.{
  works, fails, ◌+◌, true, false, [], ◌∷◌, none, some, arith, refl, if◌then◌else◌, ltb, Text, codes,
  ascii_table, ok, deadlock_conflict,
}
use cross_border_ecommerce.Product.Metrics.{no_metrics}
use cross_border_ecommerce.Product.Canonical.{Codec}
use cross_border_ecommerce.Ingestion.RawRecord.{RawRecord}
use cross_border_ecommerce.Ingestion.Run.{IngestionRun, completed}
use cross_border_ecommerce.Processing.Run.{World, ProcessRunOptions, progressing, process_run}
use cross_border_ecommerce.Processing.Run.Counts.{AreFair}
use cross_border_ecommerce.Processing.Run.Whole.{IsProcessed, process_run-IsProcessed}

abbrev codec : Codec
codec = record { cases = ascii_table; nfc = λ s. s; digest = λ p. p.canonical_name }

abbrev raw : Text → RawRecord
raw id = record {
  id = id;
  source_id = codes "s";
  external_product_id = id;
  payload = codes "{}";
  payload_raw = codes "{}";
  payload_sha256 = codes "h";
  source_version = [];
  etag = [];
  source_updated_at = none;
  ingestion_run_id = codes "r";
  received_at = 1;
}

abbrev run : IngestionRun
run = record {
  id = codes "r";
  source_id = codes "s";
  status = completed;
  checkpoint = [];
  metrics = no_metrics;
  error_summary = [];
  started_at = some 1;
  completed_at = some 2;
  created_at = 1;
  updated_at = 2;
}

-- The first attempt on the first page meets a deadlock.
abbrev world : World
world = record {
  records =
      record { key = 1; record_ = raw (codes "a") }
      ∷ record { key = 5; record_ = raw (codes "b") }
      ∷ record { key = 9; record_ = raw (codes "c") }
      ∷ [];
  find_run = ok run;
  find_source = none;
  field_mapping = ok true;
  normalize = λ r. some (record {
    canonical_name = r.id;
    description = [];
    brand = [];
    origin_country = [];
    attributes = [];
  });
  codec = codec;
  budget_valid = true;
  over_budget = λ seen failures. false;
  fault = λ call. elim call [
    | progressing page attempt ↦ (if ltb (page + attempt) 1 then fails deadlock_conflict else works)
    | _ ↦ works
  ];
  others = λ call s. s;
  now = λ call. 10;
  source_cancelled = false;
  cancelled = λ n. false;
  list_cancelled = λ n. false;
  page_cancelled = λ n. false;
  list_fault = λ n. none;
  snapshots = λ page attempt. ok (λ key. none);
  generate = λ page attempt n. ok (page ∷ n ∷ []);
  apply_fault = λ page attempt. none;
  events_fault = λ page attempt. none;
}

abbrev options : ProcessRunOptions
options = record {
  claim_token = codes "t";
  lease_duration = 60;
  batch_size = 2;
  from_start = false;
}

others-AreFair : (token : Text) → AreFair world token
others-AreFair token = record { keep = λ call s a. a; apart = λ call s h. refl }

process_run-IsProcessed_example :
    IsProcessed world.records (process_run world options (codes "r") none)
process_run-IsProcessed_example =
    process_run-IsProcessed world options (codes "r") none (omega arith) (others-AreFair _) tt
