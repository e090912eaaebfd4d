-- ===== src/Ingestion/Run/Lifecycle.antt =====
-- The life of an ingestion run: what holds between two operations, and where it ends.
use cross_border_ecommerce.Base.{
  ℕ, ◌≡◌, refl, ◌≢◌, true, false, List, [], ◌∷◌, none, arith, slt, sign_bit, Text, Result, ok, err,
  add64, ◌<◌, ◌+◌, ltb, if◌then◌else◌,
}
use cross_border_ecommerce.Ingestion.Run.{
  pending, running, completed, partial, unknown, IngestionRun, Operation, BatchMetrics, starts,
  records, completes, fails, cancels, apply, after, run_all, is_terminal, new_run,
}

-- Between two operations: the timestamps fit the status, and the final status fits the failures.
pub record IsConsistent (r : IngestionRun) : Type 0 where
  pub known : (s : Text) → r.status ≢ unknown s
  pub fresh : r.status ≡ pending → (r.started_at ≡ none) × (r.completed_at ≡ none)
  pub started : r.status ≡ running → (r.started_at ≢ none) × (r.completed_at ≡ none)
  pub ended : is_terminal r.status ≡ true → r.completed_at ≢ none
  pub clean : r.status ≡ completed → (slt 0 r.metrics.failures ≡ false) × (r.started_at ≢ none)
  pub dirty : r.status ≡ partial → (slt 0 r.metrics.failures ≡ true) × (r.started_at ≢ none)

new_run-IsConsistent :
    (id source_id cp : Text) (generated : Result Text) (now : ℕ) {r : IngestionRun}
    → new_run id source_id cp generated now ≡ ok r
    → IsConsistent r
unfolding new_run is_terminal
new_run-IsConsistent id source_id cp (ok g) now h = ground arith
new_run-IsConsistent id source_id cp (err e) now h = ground arith

apply-IsConsistent :
    (op : Operation) (r : IngestionRun) → IsConsistent r → IsConsistent (after r (apply op r))
unfolding apply is_terminal
apply-IsConsistent (starts now) r v = ground arith
apply-IsConsistent (records m cp now) r v = ground arith
apply-IsConsistent (completes cp now) r v = ground arith
apply-IsConsistent (fails s now) r v = ground arith
apply-IsConsistent (cancels s now) r v = ground arith

run_all-IsConsistent :
    (r : IngestionRun) (ops : List Operation) → IsConsistent r → IsConsistent (run_all r ops)
unfolding run_all
run_all-IsConsistent r [] v = v
run_all-IsConsistent r (op ∷ ops) v =
    run_all-IsConsistent (after r (apply op r)) ops (apply-IsConsistent op r v)

-- A run that NewRun returned stays consistent under any sequence of operations, failed ones
-- included: its timestamps fit its status, COMPLETED means no failed row was counted and PARTIAL
-- means one was.
pub reachable-IsConsistent :
    (id source_id cp : Text) (generated : Result Text) (now : ℕ) (r : IngestionRun)
    (ops : List Operation)
    → new_run id source_id cp generated now ≡ ok r
    → IsConsistent (run_all r ops)
reachable-IsConsistent id source_id cp generated now r ops h =
    run_all-IsConsistent r ops (new_run-IsConsistent id source_id cp generated now h)

apply_terminal :
    (op : Operation) (r : IngestionRun) → is_terminal r.status ≡ true → after r (apply op r) ≡ r
unfolding apply is_terminal
apply_terminal (starts now) r h = ground arith
apply_terminal (records m cp now) r h = ground arith
apply_terminal (completes cp now) r h = ground arith
apply_terminal (fails s now) r h = ground arith
apply_terminal (cancels s now) r h = ground arith

-- A run in a terminal status is never changed again, by any sequence of operations.
pub terminal_absorbs :
    (r : IngestionRun) (ops : List Operation) → is_terminal r.status ≡ true → run_all r ops ≡ r
unfolding run_all
terminal_absorbs r [] h = refl
terminal_absorbs r (op ∷ ops) h = rw (apply_terminal op r h) (terminal_absorbs r ops h)

-- A batch as the service records it: its metrics, its next checkpoint and the time.
abbrev pub Batch : Type 0
Batch = BatchMetrics × Text × ℕ

abbrev pub record_all : List Batch → List Operation → List Operation
record_all [] rest = rest
record_all ((m, cp, now) ∷ bs) rest = records m cp now ∷ record_all bs rest

abbrev pub total_failures : List Batch → ℕ
total_failures [] = 0
total_failures ((m, _, _) ∷ bs) = m.failures + total_failures bs

abbrev pub IsNonneg : BatchMetrics → Type 0
IsNonneg m =
    (m.seen < sign_bit)
    × (m.new < sign_bit)
    × (m.changed < sign_bit)
    × (m.unchanged < sign_bit)
    × (m.failures < sign_bit)

abbrev pub AllNonneg : List Batch → Type 0
AllNonneg [] = Unit {0}
AllNonneg ((m, _, _) ∷ bs) = IsNonneg m × AllNonneg bs

record_step :
    (m : BatchMetrics) (cp : Text) (now : ℕ) (r : IngestionRun)
    → r.status ≡ running
    → IsNonneg m
    → let r' = after r (apply (records m cp now) r) in
      (r'.status ≡ running) × (r'.metrics.failures ≡ add64 r.metrics.failures m.failures)
unfolding apply
record_step m cp now r h v = ground arith

-- A running run that records batches with counts that are not negative, whose failures add up to
-- less than 2 ^ 63 with its own, and then completes, ends PARTIAL if that sum is positive and
-- COMPLETED if it is zero.
pub completes_by_failures :
    (r : IngestionRun) (bs : List Batch) (cp : Text) (now : ℕ)
    → r.status ≡ running
    → AllNonneg bs
    → r.metrics.failures + total_failures bs < sign_bit
    → (run_all r (record_all bs (completes cp now ∷ []))).status
      ≡ (if ltb 0 (r.metrics.failures + total_failures bs) then partial else completed)
unfolding run_all
completes_by_failures r [] cp now h v b = unfold apply in ground arith
completes_by_failures r ((m, next, at) ∷ bs) cp now h v b =
    let r' = after r (apply (records m next at) r) in
    let s = record_step m next at r h v.0 in
    let e : r'.metrics.failures ≡ r.metrics.failures + m.failures = omega (arith, s.1) in
    let sum : r.metrics.failures + (m.failures + total_failures bs)
        ≡ r'.metrics.failures + total_failures bs =
      omega arith in
    rw sum (completes_by_failures r' bs cp now s.0 v.1 (omega arith))
