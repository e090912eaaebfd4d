-- ===== src/Tests/Streams.antt =====
-- Messages of a stream at concrete inputs (internal/infrastructure/redis).
use cross_border_ecommerce.Streams.Dispatch.{occurs}
use cross_border_ecommerce.Streams.Config.{as_config}
use mathlib.Core.Bool.{decide}
use cross_border_ecommerce.Base.{byte_length}
use cross_border_ecommerce.Platform.Backoff.{max_retry_window}
use cross_border_ecommerce.Platform.Backoff.{validate_retry_policy}
use cross_border_ecommerce.Streams.Config.{validate}
use cross_border_ecommerce.Base.{errors_is}
use cross_border_ecommerce.Base.{error_eq}
use cross_border_ecommerce.DeadLetters.Classify.{classify_among}
use cross_border_ecommerce.Streams.Envelope.{get_string}
use cross_border_ecommerce.Streams.Envelope.{required}
use cross_border_ecommerce.Streams.Envelope.{decode_fields}
use cross_border_ecommerce.Streams.Envelope.{fields}
use cross_border_ecommerce.Base.{
  ℕ, ◌+◌, ◌-◌, ltb, sym, ◌∙◌, ◌≢◌, ErrorTree, ◌≡◌, refl, ◌||◌, true, false, [], ◌∷◌, none, some,
  arith, if◌then◌else◌, codes, is_blank, trim_space, text_eq, ok, err, corrupt_envelope, other,
  leaf,
}
use cross_border_ecommerce.Streams.Envelope.{
  XMessage, OutboxEvent, Message, TimeLayout, encode_event, decode_message, sent_event_id,
  dead_letter_record,
}
use cross_border_ecommerce.Streams.Envelope.RoundTrip.{
  Keeps, message_of, decode_message-encode_event, dead_letter_record-Keeps,
}
use cross_border_ecommerce.DeadLetters.Classify.{retry, leave_pending, classify}
use cross_border_ecommerce.Streams.Config.{ConsumerConfig}
use cross_border_ecommerce.Streams.Delivery.{World, returned, run_handler, process_message}
use cross_border_ecommerce.Streams.Delivery.Settled.{
  IsSettled, skipped, acked, process_message-IsSettled,
}
use cross_border_ecommerce.Streams.Delivery.Settles.{IsCalm, process_message-settles}
use cross_border_ecommerce.Streams.Dispatch.{
  begin, accept, finish, idle, IsExclusive, run, run-IsExclusive,
}

abbrev layout : TimeLayout
layout = record {
  format = λ n. b'T' ∷ n ∷ [];
  parse = λ s. elim s [ [] ↦ none | _ ∷ rest ↦ elim rest [ [] ↦ none | n ∷ more ↦ some n ] ];
}

layout_written : (n : ℕ) → is_blank (layout.format n) ≡ false
unfolding trim_space
layout_written n = ground arith

abbrev event : OutboxEvent
event = record {
  id = codes "o1";
  event_id = codes "e1";
  aggregate_type = codes "product";
  aggregate_id = codes "p1";
  event_type = codes "product.changed";
  payload = codes "{}";
  created_at = 7;
  target_group = [];
}

abbrev raw : XMessage
raw = record { id = codes "1-0"; values = some (encode_event layout event) }

decode_message-encode_event_example : decode_message layout (codes "s") raw ≡ (
    if is_blank (sent_event_id event) || is_blank event.event_type
    then err corrupt_envelope
    else ok (message_of (codes "s") (codes "1-0") event))
decode_message-encode_event_example =
    decode_message-encode_event layout (codes "s") (codes "1-0") event (encode_event layout event)
      (λ n. refl) layout_written (λ k. refl)

abbrev decoded : Message
decoded = message_of (codes "s") (codes "1-0") event

dead_letter_record-Keeps_example : Keeps decoded (dead_letter_record layout raw)
unfolding decode_fields decode_message encode_event fields get_string required text_eq trim_space
dead_letter_record-Keeps_example = dead_letter_record-Keeps layout (codes "s") raw decoded refl

abbrev config : ConsumerConfig
config = record {
  stream = codes "s";
  group = codes "g";
  consumer_name = codes "c";
  batch_size = 10;
  block_duration = 1000;
  claim_min_idle = 100000;
  claim_interval = 1000;
  claim_batch_size = 10;
  base_backoff = 10;
  max_backoff = 100;
  concurrency = 1;
  queue_size = 0;
  handler_timeout = 1000;
  drain_timeout = 1000;
  retry_max_attempts = 3;
  retry_base_backoff = 10;
  retry_max_backoff = 100;
  has_dlq_store = true;
}

-- A handler that fails twice.
abbrev world : World ℕ
world = record {
  layout = layout;
  handler = λ n m s. (if ltb s 2 then returned (some (leaf (other 1))) else returned none, s + 1);
  done_before = λ n. false;
  run_done = λ n. false;
  task_done = λ n. false;
  interrupted = λ n. false;
  now = λ n. n + 1;
  int64_n = λ n k. k - 1;
  insert = λ r s. (none, s);
}

process_message-IsSettled_example :
    IsSettled config
      (codes "1-0")
      (skipped world config raw)
      (process_message world config raw 0).actions
process_message-IsSettled_example = process_message-IsSettled world config raw 0

retry-ne-leave : retry ≢ leave_pending
retry-ne-leave h = cc

other-retry : classify (leaf (other 1)) false ≡ retry
unfolding classify classify_among error_eq errors_is decide
other-retry = refl

failure_of :
    (s : ℕ) (t : ErrorTree)
    → run_handler (if ltb s 2 then returned (some (leaf (other 1))) else returned none) ≡ some t
    → t ≡ leaf (other 1)
unfolding run_handler
failure_of s t h = ground arith

transient :
    (n : ℕ) (m : Message) (s : ℕ) (t : ErrorTree)
    → run_handler (world.handler n m s).0 ≡ some t
    → classify t false ≢ leave_pending
transient n m s t h p =
    let e : t ≡ leaf (other 1) = failure_of s t h in retry-ne-leave (sym other-retry ∙ rw e at p)

world-IsCalm : IsCalm world
world-IsCalm = record {
  goes_on = λ n. refl;
  run_goes_on = λ n. refl;
  task_goes_on = λ n. refl;
  waits = λ n. refl;
  stores = λ r s. refl;
  fair = λ n k h h'. omega arith;
  own = transient;
}

process_message-settles_example :
    acked (process_message world config raw 0).actions ≡ codes "1-0" ∷ []
unfolding as_config byte_length max_retry_window trim_space validate validate_retry_policy
process_message-settles_example =
    process_message-settles world config raw 0 world-IsCalm (omega arith) refl

run-IsExclusive_example :
    IsExclusive
      (run (begin (codes "1-0") ∷ accept ∷ begin (codes "1-0") ∷ finish (codes "1-0") ∷ []) idle)
unfolding occurs
run-IsExclusive_example =
    run-IsExclusive (begin (codes "1-0") ∷ accept ∷ begin (codes "1-0") ∷ finish (codes "1-0") ∷ [])
      idle (λ k. refl)
