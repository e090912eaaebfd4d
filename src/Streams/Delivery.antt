-- ===== src/Streams/Delivery.antt =====
-- The processing of one message (processMessage, runHandlerWithStack, deadLetterAndAck of
-- internal/infrastructure/redis/consumer.go) over a state that the handler and the store of dead letters
-- share. The contexts, the clock and the random source are answers for each attempt.
pub mod Protocol
pub mod Settled
pub mod Completed
pub mod Settles
use cross_border_ecommerce.Base.{
  ℕ, zero, suc, ◌-◌, ◌==◌, Bool, true, false, not, ◌&&◌, ◌||◌, List, [], ◌∷◌, Option, none, some,
  if◌then◌else◌, Text, text_eq, is_empty, is_negative, Result, ok, err, Error, ErrorTree, leaf,
  wrapped, handler_panic,
}
use cross_border_ecommerce.Platform.Backoff.{full_jitter}
use cross_border_ecommerce.DeadLetters.Classify.{
  FailureClass, class_corrupt_envelope, class_retries_exhausted, Decision, retry, leave_pending,
  dead_letter, classify,
}
use cross_border_ecommerce.DeadLetters.Record.{DeadLetter}
use cross_border_ecommerce.Streams.Envelope.{
  XMessage, Message, TimeLayout, decode_message, dead_letter_record,
}
use cross_border_ecommerce.Streams.Config.{ConsumerConfig}

-- How a call of a handler ends.
pub data Answer : Type 0 where
  returned : Option ErrorTree → Answer
  panicked : Answer

-- What the processing of a message meets, by the number of the attempt where it depends on it.
pub record World (S : Type 0) : Type 0 where
  pub layout : TimeLayout
  pub handler : ℕ → Message → S → Answer × S
  -- Whether the task's context is done before the attempt, and either context behind it.
  pub done_before : ℕ → Bool
  pub run_done : ℕ → Bool
  pub task_done : ℕ → Bool
  -- Whether a context ends the wait before the timer does.
  pub interrupted : ℕ → Bool
  pub now : ℕ → ℕ
  pub int64_n : ℕ → ℕ → ℕ
  pub insert : DeadLetter → S → Option Error × S

pub data Action : Type 0 where
  handled : ℕ → Action
  failed : ℕ → ErrorTree → Action
  slept : ℕ → Action
  stored refused : DeadLetter → Action
  acks : Text → Action
  -- FullJitter panicked; the pool recovers.
  crashed : Action

pub record Processed (S : Type 0) : Type 0 where
  pub actions : List Action
  pub state : S

-- runHandlerWithStack: the error of the call.
unfoldable pub run_handler : Answer → Option ErrorTree
run_handler (returned e) = e
run_handler panicked = some (wrapped (leaf handler_panic))

-- The decision behind a failed attempt.
unfoldable pub escalate : ConsumerConfig → ℕ → Decision → Decision
escalate c attempt retry =
    if attempt == c.retry_max_attempts then dead_letter class_retries_exhausted else retry
escalate c attempt leave_pending = leave_pending
escalate c attempt (dead_letter class) = dead_letter class

-- The fields that deadLetterAndAck and its callers set.
abbrev pub fill : ConsumerConfig → FailureClass → ℕ → ℕ → DeadLetter → DeadLetter
fill c class attempts first_failed_at r = record r {
  stream = c.stream;
  consumer_group = c.group;
  consumer_name = c.consumer_name;
  failure_class = class;
  attempts = attempts;
  first_failed_at = first_failed_at;
}

-- The loop takes one round for each attempt from 1 to the limit.
abbrev pub rounds : ConsumerConfig → ℕ
rounds c = if is_negative c.retry_max_attempts then 0 else c.retry_max_attempts

-- A replay for another consumer group.
abbrev pub is_for_other : ConsumerConfig → Message → Bool
is_for_other c msg = not (is_empty msg.target_group) && not (text_eq msg.target_group c.group)

module _ {S : Type 0} where
  abbrev pub ends : List Action → S → Processed S
  ends actions s = record { actions = actions; state = s }

  abbrev pub before : Action → Processed S → Processed S
  before a p = record { actions = a ∷ p.actions; state = p.state }

  -- The end of deadLetterAndAck, by the answer of the store.
  unfoldable pub after_insert : Text → DeadLetter → Option Error × S → Processed S
  after_insert id r (none, s) = ends (stored r ∷ acks id ∷ []) s
  after_insert id r (some e, s) = ends (refused r ∷ []) s

  -- deadLetterAndAck.
  unfoldable pub dead_letter_and_ack :
      World S → ConsumerConfig → XMessage → FailureClass → ℕ → ℕ → S → Processed S
  dead_letter_and_ack w c raw class attempts first_failed_at s =
      let r = fill c class attempts first_failed_at (dead_letter_record w.layout raw) in
      after_insert raw.id r (w.insert r s)

  -- The retry: the backoff, and what the loop goes on with unless a context ends the wait.
  unfoldable pub back_off : World S → ℕ → Option ℕ → S → (S → Processed S) → Processed S
  back_off w attempt none s next = ends (crashed ∷ []) s
  back_off w attempt (some delay) s next =
      before (slept delay) (if w.interrupted attempt then ends [] s else next s)

  -- The `switch` over the decision.
  unfoldable pub decide :
      World S → ConsumerConfig → XMessage → ℕ → ℕ → S → (S → Processed S) → Decision → Processed S
  decide w c raw attempt first s next leave_pending = ends [] s
  decide w c raw attempt first s next (dead_letter class) =
      dead_letter_and_ack w c raw class attempt first s
  decide w c raw attempt first s next retry =
      back_off w attempt
        (full_jitter (w.int64_n attempt) (attempt - 1) c.retry_base_backoff c.retry_max_backoff) s
        next

  -- firstFailedAt behind a failed attempt.
  abbrev pub first_failure : World S → ℕ → ℕ → ℕ
  first_failure w attempt first = if first == 0 then w.now attempt else first

  -- The round behind the call of the handler; the loop goes on with the instant of the first failure.
  unfoldable pub after_call :
      World S
      → ConsumerConfig
      → XMessage
      → ℕ
      → ℕ
      → (ℕ → S → Processed S)
      → S
      → Option ErrorTree
      → Processed S
  after_call w c raw attempt first next s none = ends (handled attempt ∷ acks raw.id ∷ []) s
  after_call w c raw attempt first next s (some t) =
      let first' = first_failure w attempt first in
      before (failed attempt t) (
        decide w c raw attempt first' s (next first')
          (escalate c attempt (classify t (w.run_done attempt || w.task_done attempt))))

  -- The loop over the attempts, with the rounds that are left.
  unfoldable pub attempts :
      World S → ConsumerConfig → XMessage → Message → ℕ → ℕ → ℕ → S → Processed S
  attempts w c raw msg zero attempt first s = ends [] s
  attempts w c raw msg (suc left) attempt first s =
      let round =
        let (answer, s') = w.handler attempt msg s in
        after_call w c raw attempt first (attempts w c raw msg left (suc attempt)) s'
          (run_handler answer) in
      if w.done_before attempt then ends [] s else round

  -- processMessage behind DecodeMessage.
  unfoldable pub process_decoded :
      World S → ConsumerConfig → XMessage → Result Message → S → Processed S
  process_decoded w c raw (err e) s =
      dead_letter_and_ack w c raw class_corrupt_envelope 1 (w.now 0) s
  process_decoded w c raw (ok msg) s =
      if is_for_other c msg
      then ends (acks raw.id ∷ []) s
      else attempts w c raw msg (rounds c) 1 0 s

  -- processMessage.
  unfoldable pub process_message : World S → ConsumerConfig → XMessage → S → Processed S
  process_message w c raw s = process_decoded w c raw (decode_message w.layout c.stream raw) s
