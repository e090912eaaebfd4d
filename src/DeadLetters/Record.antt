-- ===== src/DeadLetters/Record.antt =====
-- A dead letter (Message of internal/application/dlq/ports.go). An instant is a number, 0 the zero time.
use cross_border_ecommerce.Base.{ℕ, Text, Option}
use cross_border_ecommerce.DeadLetters.Classify.{FailureClass}

pub record DeadLetter : Type 0 where
  pub stream : Text
  pub consumer_group : Text
  pub stream_message_id : Text
  pub event_id : Option Text
  pub event_type : Text
  pub aggregate_type : Text
  pub aggregate_id : Text
  pub correlation_id : Text
  pub payload : Text
  pub failure_class : FailureClass
  pub attempts : ℕ
  pub consumer_name : Text
  pub event_created_at : Option ℕ
  pub first_failed_at : ℕ
