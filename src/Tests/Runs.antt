-- ===== src/Tests/Runs.antt =====
-- Ingestion runs at concrete inputs (internal/domain/ingestion/run.go).
use cross_border_ecommerce.Base.{trim_space}
use cross_border_ecommerce.Base.{refl, List, [], ◌∷◌, none, some, codes, ok}
use cross_border_ecommerce.Ingestion.Run.{
  IngestionRun, BatchMetrics, no_metrics, pending, running, cancelled, Operation, starts, records,
  completes, cancels, new_run, run_all,
}
use cross_border_ecommerce.Ingestion.Run.Lifecycle.{IsConsistent, reachable-IsConsistent, Batch}

abbrev new_pending : IngestionRun
new_pending = record {
  id = codes "r1";
  source_id = codes "s1";
  status = pending;
  checkpoint = [];
  metrics = no_metrics;
  error_summary = [];
  started_at = none;
  completed_at = none;
  created_at = 3;
  updated_at = 3;
}

abbrev batch : BatchMetrics
batch = record { seen = 4; new = 1; changed = 1; unchanged = 1; failures = 1 }

abbrev life : List Operation
life =
    completes [] 4
    ∷ starts 5
    ∷ records batch (codes "c1") 6
    ∷ completes (codes "c2") 7
    ∷ cancels (codes "late") 8
    ∷ []

reachable-IsConsistent_example : IsConsistent (run_all new_pending life)
unfolding new_run trim_space
reachable-IsConsistent_example =
    reachable-IsConsistent [] (codes "s1") [] (ok (codes "r1")) 3 new_pending life refl

abbrev stopped : IngestionRun
stopped = record new_pending { status = cancelled; completed_at = some 4 }

abbrev going : IngestionRun
going = record new_pending { status = running; started_at = some 5 }

abbrev batches : List Batch
batches = (batch, codes "c1", 6) ∷ (batch, codes "c2", 7) ∷ []
