-- ===== src/Tests/Deliveries.antt =====
-- A delivery under the guard, and statements on one row (internal/application/idempotency/guard.go,
-- internal/infrastructure/postgres/queries/idempotency_keys.sql).
use cross_border_ecommerce.DeadLetters.Classify.{classify}
use cross_border_ecommerce.Base.{trim_left}
use cross_border_ecommerce.Platform.Backoff.{exponential}
use cross_border_ecommerce.Streams.Delivery.{process_decoded}
use cross_border_ecommerce.Base.{is_space}
use cross_border_ecommerce.Streams.Delivery.{run_handler}
use cross_border_ecommerce.Platform.Backoff.{full_jitter}
use cross_border_ecommerce.Base.{trim_right}
use cross_border_ecommerce.Base.{error_eq}
use cross_border_ecommerce.Streams.Delivery.{after_insert}
use cross_border_ecommerce.Base.{errors_is}
use cross_border_ecommerce.Streams.Delivery.{decide}
use cross_border_ecommerce.Streams.Delivery.{after_call}
use cross_border_ecommerce.Idempotency.Store.{released_row}
use cross_border_ecommerce.DeadLetters.Classify.{classify_among}
use cross_border_ecommerce.Streams.Delivery.{escalate}
use cross_border_ecommerce.Streams.Delivery.{dead_letter_and_ack}
use cross_border_ecommerce.Idempotency.Store.{can_reclaim}
use cross_border_ecommerce.Streams.Delivery.{attempts}
use cross_border_ecommerce.Idempotency.Store.{release_key}
use cross_border_ecommerce.Streams.Delivery.{back_off}
use cross_border_ecommerce.Streams.Delivery.Settled.{acked, letters, skipped}
use cross_border_ecommerce.Idempotency.Store.{put}
use cross_border_ecommerce.Idempotency.Store.{claim_key}
use cross_border_ecommerce.Idempotency.Guard.{settle}
use cross_border_ecommerce.Idempotency.Store.{claim_answer}
use cross_border_ecommerce.Base.{trim_space}
use cross_border_ecommerce.Idempotency.Store.{claim_statement}
use cross_border_ecommerce.Idempotency.Guard.{after_claim}
use cross_border_ecommerce.Base.{text_eq}
use cross_border_ecommerce.Base.{
  sym, ◌∙◌, ℕ, ◌≤◌, ◌≡◌, ◌≢◌, refl, inl, true, false, List, [], ◌∷◌, none, some, arith, Text, codes,
  ok, Option, if◌then◌else◌,
}
use cross_border_ecommerce.Idempotency.Store.{
  Table, Row, in_progress, completed, Claim, acquired, Session, complete_key, claimed_row,
  completed_row,
}
use cross_border_ecommerce.Idempotency.Table.{
  Statement, claim, complete, release, run, completions, IsCompleted, IsRow, completions-le-one,
}
use cross_border_ecommerce.Idempotency.Fencing.{run-IsRow, fenced}
use cross_border_ecommerce.Idempotency.Leases.{IsLeased, claim-excludes}
use cross_border_ecommerce.Idempotency.Guard.{
  Message, Outcome, Handler, Guard, Delivery, guarded, after_handler, complete_in_tx,
}
use cross_border_ecommerce.Idempotency.Protection.{CompletesWhenMarked, guarded-ok}
use cross_border_ecommerce.Idempotency.Completion.{complete_in_tx-completes}
use cross_border_ecommerce.Streams.Envelope as Envelope
use cross_border_ecommerce.Streams.Envelope.{
  decode_message, decode_fields, required, fields, get_string, string, Value, XMessage, TimeLayout,
}
use cross_border_ecommerce.Streams.Config.{ConsumerConfig}
use cross_border_ecommerce.Streams.Delivery.{World, process_message}
use cross_border_ecommerce.Streams.Delivery.Completed.{
  answer_of, guard_message, process_message-completes,
}
use cross_border_ecommerce.Idempotency.Retry.{failed-reclaimable}

abbrev history : List (Statement × ℕ)
history =
    (claim (codes "h") (codes "t1") 10, 0)
    ∷ (claim (codes "h") (codes "t2") 10, 10000)
    ∷ (complete (codes "t1"), 10001)
    ∷ (complete (codes "t2"), 10002)
    ∷ (release (codes "t2"), 10003)
    ∷ []

completions-le-one_example : completions history none ≤ 1
completions-le-one_example = completions-le-one history none

run-IsRow_example : IsRow (run history none)
run-IsRow_example = run-IsRow history none tt

abbrev held : Row
held = record {
  status = in_progress;
  payload_hash = codes "h";
  lease_token = some (codes "t2");
  lease_expires_at = some 20;
  attempts = 2;
  created_at = 0;
  completed_at = none;
}

abbrev finished : Row
finished = record held {
  status = completed;
  lease_token = none;
  lease_expires_at = none;
  completed_at = some 9;
}

fenced_example :
    completed_row
      (run ((release (codes "t2"), 11) ∷ (claim (codes "h") (codes "t3") 5, 30) ∷ []) (some held))
      (codes "t1")
      40
    ≡ none
unfolding text_eq
fenced_example =
    fenced (codes "t1") ((release (codes "t2"), 11) ∷ (claim (codes "h") (codes "t3") 5, 30) ∷ [])
      (some held) 40 refl (tt, (refl, tt))

abbrev claimed_first : Row
claimed_first = record held {
  lease_token = some (codes "t1");
  lease_expires_at = some 10000;
  attempts = 1;
}

abbrev foreign : List (Statement × ℕ)
foreign =
    (claim (codes "h") (codes "t2") 10, 9999)
    ∷ (complete (codes "t2"), 20000)
    ∷ (release (codes "t2"), 5)
    ∷ []

claim-excludes_example :
    (run foreign (some claimed_first) ≡ some claimed_first)
    × IsLeased (codes "t1") 10000 claimed_first
unfolding claimed_row text_eq
claim-excludes_example =
    claim-excludes none (codes "h") (codes "t1") 10 0 claimed_first foreign refl
      (omega arith, (refl, (refl, tt)))

abbrev session : ℕ → Session
session now = record {
  now = now;
  uuid_of = λ t. ok t;
  claim_fault = none;
  meanwhile = λ t. t;
  get_fault = none;
  write_fault = none;
}

-- A SHA-256 that is always 32 bytes.
abbrev digest : Text → Text
digest s =
    1 ∷ 2 ∷ 3 ∷ 4 ∷ 5 ∷ 6 ∷ 7 ∷ 8 ∷ 1 ∷ 2 ∷ 3 ∷ 4 ∷ 5 ∷ 6 ∷ 7 ∷ 8 ∷ 1 ∷ 2 ∷ 3 ∷ 4 ∷ 5 ∷ 6 ∷ 7 ∷ 8
    ∷ 1 ∷ 2 ∷ 3 ∷ 4 ∷ 5 ∷ 6 ∷ 7 ∷ 8 ∷ []

abbrev delivery : Delivery
delivery = record {
  claim_session = session 100;
  release_session = session 300;
  token = ok (codes "t1");
  sha256 = digest;
}

abbrev message : Message
message = record { event_id = codes "e1"; payload = codes "x" }

-- A handler whose transaction only completes the key.
abbrev completing : Handler
completing c msg table = complete_in_tx true (session 200) (some c) table

abbrev no_rows : Table
no_rows scope key = none

abbrev guard : Guard
guard = record { lease_ttl = 30000000000 }

abbrev table_after : Table
table_after = (guarded guard delivery (codes "c") completing message no_rows).0

completing-marked : CompletesWhenMarked completing
completing-marked c msg table h h' =
    complete_in_tx-completes true (session 200) (some c) table c refl h

guarded-ok_example : IsCompleted (table_after (codes "c") (codes "e1"))
unfolding after_claim after_handler claim_answer claim_key claim_statement claimed_row
    complete_in_tx complete_key completed_row guarded put settle text_eq trim_space
guarded-ok_example =
    guarded-ok guard delivery (codes "c") completing message no_rows table_after completing-marked
      refl

abbrev layout : TimeLayout
layout = record { format = λ n. n ∷ []; parse = λ s. some 0 }

abbrev entry : Text → Option Value
entry k =
    if text_eq k (codes "event_id")
    then some (string (codes "e1"))
    else if text_eq k (codes "payload")
    then some (string (codes "x"))
    else some (string (codes "t"))

abbrev raw : XMessage
raw = record { id = codes "1-0"; values = some entry }

abbrev config : ConsumerConfig
config = record {
  stream = codes "s";
  group = codes "t";
  consumer_name = codes "c";
  batch_size = 10;
  block_duration = 1000;
  claim_min_idle = 100000;
  claim_interval = 1000;
  claim_batch_size = 10;
  base_backoff = 10;
  max_backoff = 100;
  concurrency = 1;
  queue_size = 0;
  handler_timeout = 1000;
  drain_timeout = 1000;
  retry_max_attempts = 3;
  retry_base_backoff = 10;
  retry_max_backoff = 100;
  has_dlq_store = true;
}

abbrev consumer : World Table
consumer = record {
  layout = layout;
  handler = λ n m table.
      answer_of (guarded guard delivery (codes "c") completing (guard_message m) table);
  done_before = λ n. false;
  run_done = λ n. false;
  task_done = λ n. false;
  interrupted = λ n. false;
  now = λ n. 1;
  int64_n = λ n k. 0;
  insert = λ r s. (none, s);
}

abbrev decoded : Envelope.Message
decoded = record {
  stream_id = codes "1-0";
  stream = codes "s";
  event_id = codes "e1";
  aggregate_type = codes "t";
  aggregate_id = codes "t";
  correlation_id = codes "t";
  event_type = codes "t";
  payload = codes "x";
  created_at = 0;
  target_group = codes "t";
}

entry-decodes : Envelope.decode_message layout (codes "s") raw ≡ ok decoded
unfolding text_eq trim_space decode_message decode_fields required fields get_string
entry-decodes = refl

entry-acked : acked (process_message consumer config raw no_rows).actions ≡ codes "1-0" ∷ []
unfolding after_call after_claim after_handler after_insert attempts back_off can_reclaim
    claim_answer claim_key claim_statement claimed_row classify classify_among complete_in_tx
    complete_key completed_row dead_letter_and_ack decide decode_fields decode_message error_eq
    errors_is escalate exponential fields full_jitter get_string guarded is_space process_decoded
    process_message put release_key released_row required run_handler settle text_eq trim_left
    trim_right trim_space
entry-acked = refl

entry-letters : letters (process_message consumer config raw no_rows).actions ≡ []
unfolding after_call after_claim after_handler after_insert attempts back_off can_reclaim
    claim_answer claim_key claim_statement claimed_row classify classify_among complete_in_tx
    complete_key completed_row dead_letter_and_ack decide decode_fields decode_message error_eq
    errors_is escalate exponential fields full_jitter get_string guarded is_space process_decoded
    process_message put release_key released_row required run_handler settle text_eq trim_left
    trim_right trim_space
entry-letters = refl

cons-ne-nil : {x : Text} {xs : List Text} → x ∷ xs ≢ []
cons-ne-nil h = cc

process_message-completes_example :
    IsCompleted ((process_message consumer config raw no_rows).state (codes "c") (codes "e1"))
unfolding decode_fields decode_message fields get_string required skipped text_eq trim_space
process_message-completes_example =
    process_message-completes consumer config raw no_rows decoded guard (λ n. delivery) (codes "c")
      completing entry-decodes (λ n m table. refl) completing-marked refl
      (λ h. cons-ne-nil (sym entry-acked ∙ h)) entry-letters

abbrev left_table : Table
left_table scope key = some held

abbrev failed_outcome : Outcome
failed_outcome = record { table = left_table; marked = false; result = ok tt }

failed-reclaimable_example :
    ((after_handler delivery (codes "c") (codes "e1") (codes "t2") failed_outcome).1 ≢ ok tt)
    × (claimed_row
          ((after_handler delivery (codes "c") (codes "e1") (codes "t2") failed_outcome).0
            (codes "c")
            (codes "e1"))
          (codes "h")
          (codes "t9")
          5
          300
        ≢ none)
unfolding trim_space
failed-reclaimable_example =
    failed-reclaimable delivery (codes "c") (codes "e1") (codes "t2") failed_outcome held
      (codes "t9") 5 300 (inl refl) refl refl refl refl refl refl refl (ground arith)

abbrev claimed : Claim
claimed = record {
  scope = codes "c";
  key = codes "e1";
  status = acquired;
  lease_token = codes "t2";
  attempts = 2;
}
