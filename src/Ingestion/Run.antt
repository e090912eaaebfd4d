-- ===== src/Ingestion/Run.antt =====
-- internal/domain/ingestion/run.go. Instants are numbers; an identifier that has to be generated is an argument, the result of uuid.NewString.
pub mod Lifecycle
use cross_border_ecommerce.Base.{
  ℕ, Bool, true, false, ◌||◌, List, [], ◌∷◌, Option, none, some, if◌then◌else◌, slt, add64,
  is_negative, Text, trim_space, is_blank, Result, ok, err, Error, invalid_run_state,
  invalid_transition, invalid_run_id, invalid_source_id, ◌>>=◌, ◌>>◌, fail_if,
}
pub use cross_border_ecommerce.Product.Metrics.{BatchMetrics, no_metrics}
unfoldable pub use cross_border_ecommerce.Product.Metrics.{validate_metrics}

pub data RunStatus : Type 0 where
  pending running completed partial failed cancelled : RunStatus
  -- Any other string.
  unknown : Text → RunStatus

-- Processable.
unfoldable pub processable : RunStatus → Bool
processable completed = true
processable partial = true
processable _ = false

pub record IngestionRun : Type 0 where
  pub id : Text
  pub source_id : Text
  pub status : RunStatus
  pub checkpoint : Text
  pub metrics : BatchMetrics
  pub error_summary : Text
  pub started_at : Option ℕ
  pub completed_at : Option ℕ
  pub created_at : ℕ
  pub updated_at : ℕ

pub known_status : RunStatus → Bool
known_status (unknown _) = false
known_status _ = true

-- Validate, on a run that is not nil.
unfoldable pub validate : IngestionRun → Result (Unit {0})
unfolding known_status
validate r = do
  fail_if (is_blank r.id) invalid_run_id
  fail_if (is_blank r.source_id) invalid_source_id
  if known_status r.status then ok tt else err invalid_run_state

abbrev run_id : Text → Result Text → Result Text
run_id id generated = if is_blank id then generated else ok (trim_space id)

-- NewRun at the instant `now`.
unfoldable pub new_run : Text → Text → Text → Result Text → ℕ → Result IngestionRun
unfolding validate
new_run id source_id initial_checkpoint generated now = do
  run_id ← run_id id generated
  let run : IngestionRun = record {
    id = run_id;
    source_id = source_id;
    status = pending;
    checkpoint = trim_space initial_checkpoint;
    metrics = no_metrics;
    error_summary = [];
    started_at = none;
    completed_at = none;
    created_at = now;
    updated_at = now;
  }
  validate run
  ok run

abbrev is_pending : RunStatus → Bool
is_pending pending = true
is_pending _ = false

abbrev is_running : RunStatus → Bool
is_running running = true
is_running _ = false

-- Start.
unfoldable pub start : ℕ → IngestionRun → Result IngestionRun
start now r =
    if is_pending r.status
    then ok (record r { status = running; started_at = some now; updated_at = now })
    else err invalid_transition

-- A blank checkpoint keeps the old one.
abbrev pub advance : Text → Text → Text
advance old next = if is_blank next then old else trim_space next

-- `r.Seen += metrics.Seen` and its four siblings.
unfoldable pub add_metrics : BatchMetrics → BatchMetrics → BatchMetrics
add_metrics a b = record {
  seen = add64 a.seen b.seen;
  new = add64 a.new b.new;
  changed = add64 a.changed b.changed;
  unchanged = add64 a.unchanged b.unchanged;
  failures = add64 a.failures b.failures;
}

-- RecordBatch.
pub record_batch : BatchMetrics → Text → ℕ → IngestionRun → Result IngestionRun
unfolding validate_metrics add_metrics
record_batch m next_checkpoint now r = do
  if is_running r.status then ok tt else err invalid_run_state
  validate_metrics m
  ok (record r {
    metrics = add_metrics r.metrics m;
    checkpoint = advance r.checkpoint next_checkpoint;
    updated_at = now;
  })

-- IsTerminal, on a run that is not nil.
unfoldable pub is_terminal : RunStatus → Bool
is_terminal completed = true
is_terminal partial = true
is_terminal failed = true
is_terminal cancelled = true
is_terminal _ = false

-- Complete.
unfoldable pub complete : Text → ℕ → IngestionRun → Result IngestionRun
complete final_checkpoint now r =
    if is_running r.status
    then ok (record r {
      status = if slt 0 r.metrics.failures then partial else completed;
      checkpoint = advance r.checkpoint final_checkpoint;
      completed_at = some now;
      updated_at = now;
    })
    else err invalid_transition

-- Fail and Cancel differ in the status that they set.
abbrev finish : RunStatus → Text → ℕ → IngestionRun → IngestionRun
finish s summary now r = record r {
  status = s;
  error_summary = trim_space summary;
  completed_at = some now;
  updated_at = now;
}

unfoldable pub fail : Text → ℕ → IngestionRun → Result IngestionRun
unfolding is_terminal
fail summary now r =
    if is_terminal r.status then err invalid_transition else ok (finish failed summary now r)

unfoldable pub cancel : Text → ℕ → IngestionRun → Result IngestionRun
unfolding is_terminal
cancel reason now r =
    if is_terminal r.status then err invalid_transition else ok (finish cancelled reason now r)

-- The five transitions, as the service calls them.
pub data Operation : Type 0 where
  starts : ℕ → Operation
  records : BatchMetrics → Text → ℕ → Operation
  completes fails cancels : Text → ℕ → Operation

unfoldable pub apply : Operation → IngestionRun → Result IngestionRun
unfolding start record_batch complete fail cancel
apply (starts now) r = start now r
apply (records m cp now) r = record_batch m cp now r
apply (completes cp now) r = complete cp now r
apply (fails summary now) r = fail summary now r
apply (cancels reason now) r = cancel reason now r

-- An operation that fails leaves the run as it was.
abbrev pub after : IngestionRun → Result IngestionRun → IngestionRun
after r (ok r') = r'
after r (err e) = r

unfoldable pub run_all : IngestionRun → List Operation → IngestionRun
run_all r [] = r
run_all r (op ∷ ops) = run_all (after r (apply op r)) ops
