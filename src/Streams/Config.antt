-- ===== src/Streams/Config.antt =====
-- ConsumerConfig of internal/infrastructure/redis/consumer.go. Numbers and durations are 64-bit words.
use cross_border_ecommerce.Base.{
  ℕ, Bool, not, ◌||◌, ltb, Text, is_blank, byte_length, sle, slt, is_negative, Result, ok, err,
  ◌>>◌, fail_if, invalid_consumer_config, nil_argument,
}
use cross_border_ecommerce.Platform.Backoff.{validate_retry_policy}

pub record ConsumerConfig : Type 0 where
  pub stream : Text
  pub group : Text
  pub consumer_name : Text
  pub batch_size : ℕ
  pub block_duration : ℕ
  pub claim_min_idle : ℕ
  pub claim_interval : ℕ
  pub claim_batch_size : ℕ
  pub base_backoff : ℕ
  pub max_backoff : ℕ
  pub concurrency : ℕ
  pub queue_size : ℕ
  pub handler_timeout : ℕ
  pub drain_timeout : ℕ
  pub retry_max_attempts : ℕ
  pub retry_base_backoff : ℕ
  pub retry_max_backoff : ℕ
  -- Whether there is a store of dead letters.
  pub has_dlq_store : Bool

-- maxNameLen and maxReadBatch.
abbrev pub max_name_len : ℕ
max_name_len = 128

abbrev pub max_read_batch : ℕ
max_read_batch = 1000

-- A refusal of the policy of retries is reported as one of the configuration.
unfoldable pub as_config : Result (Unit {0}) → Result (Unit {0})
as_config (ok u) = ok u
as_config (err e) = err invalid_consumer_config

-- The checks of ConsumerConfig.Validate before the policy of retries.
unfoldable pub validate_fields : ConsumerConfig → Result (Unit {0})
validate_fields c =
    fail_if (is_blank c.stream) invalid_consumer_config
    >> fail_if (is_blank c.group) invalid_consumer_config
    >> fail_if (is_blank c.consumer_name) invalid_consumer_config
    >> fail_if (ltb max_name_len (byte_length c.stream)) invalid_consumer_config
    >> fail_if (ltb max_name_len (byte_length c.group)) invalid_consumer_config
    >> fail_if (ltb max_name_len (byte_length c.consumer_name)) invalid_consumer_config
    >> fail_if (sle c.batch_size 0 || slt max_read_batch c.batch_size) invalid_consumer_config
    >> fail_if (sle c.block_duration 0) invalid_consumer_config
    >> fail_if (sle c.claim_min_idle 0) invalid_consumer_config
    >> fail_if (sle c.claim_interval 0) invalid_consumer_config
    >> fail_if (sle c.claim_batch_size 0 || slt max_read_batch c.claim_batch_size)
        invalid_consumer_config
    >> fail_if (sle c.base_backoff 0) invalid_consumer_config
    >> fail_if (slt c.max_backoff c.base_backoff) invalid_consumer_config
    >> fail_if (sle c.concurrency 0) invalid_consumer_config
    >> fail_if (is_negative c.queue_size) invalid_consumer_config
    >> fail_if (sle c.handler_timeout 0) invalid_consumer_config
    >> fail_if (sle c.drain_timeout 0) invalid_consumer_config
    >> fail_if (not c.has_dlq_store) invalid_consumer_config

-- ConsumerConfig.Validate.
unfoldable pub validate : ConsumerConfig → Result (Unit {0})
unfolding validate_fields
validate c =
    validate_fields c
    >> as_config (
        validate_retry_policy c.retry_max_attempts c.retry_base_backoff c.retry_max_backoff
          c.handler_timeout c.claim_min_idle)

-- NewConsumer, by whether there are a client and a logger.
unfoldable pub new_consumer : Bool → ConsumerConfig → Bool → Result ConsumerConfig
unfolding validate
new_consumer has_client c has_logger =
    fail_if (not has_client) nil_argument
    >> fail_if (not has_logger) nil_argument
    >> validate c
    >> ok c
