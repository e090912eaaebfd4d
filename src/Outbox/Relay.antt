-- ===== src/Outbox/Relay.antt =====
-- internal/application/outbox/relay.go. The store answers a call with an error or none, the publisher
-- answers the publication of the i-th event of a batch, and the context is asked before and after it.
-- The report of RunOnce has its calls of the store in their order.
use cross_border_ecommerce.Base.{
  ℕ, suc, Bool, not, ◌||◌, List, [], ◌∷◌, ◌++◌, Option, none, some, if◌then◌else◌, length, Text,
  sle, slt, Error, error_eq, Result, ok, err, ◌>>◌, fail_if, nil_argument, invalid_config,
  broker_unavailable, context_canceled,
}
use cross_border_ecommerce.Platform.Backoff.{exponential}

-- Event, by the fields that the relay reads.
pub record Event : Type 0 where
  pub id : Text
  pub retry_count : ℕ

pub record RelayConfig : Type 0 where
  pub batch_size : ℕ
  pub poll_interval : ℕ
  pub lease : ℕ
  pub base_backoff : ℕ
  pub max_backoff : ℕ
  pub max_attempts : ℕ

abbrev max_batch_size : ℕ
max_batch_size = 1000

-- RelayConfig.Validate.
unfoldable pub validate : RelayConfig → Result (Unit {0})
validate c =
    fail_if (sle c.batch_size 0 || slt max_batch_size c.batch_size) invalid_config
    >> fail_if (sle c.poll_interval 0) invalid_config
    >> fail_if (sle c.lease 0) invalid_config
    >> fail_if (sle c.base_backoff 0) invalid_config
    >> fail_if (slt c.max_backoff c.base_backoff) invalid_config
    >> fail_if (slt c.max_attempts 1) invalid_config

-- NewRelay, by whether there are a store, a publisher and a logger.
unfoldable pub new_relay : Bool → Bool → RelayConfig → Bool → Result RelayConfig
new_relay has_store has_publisher config has_logger =
    fail_if (not has_store) nil_argument
    >> fail_if (not has_publisher) nil_argument
    >> fail_if (not has_logger) nil_argument
    >> validate config
    >> ok config

pub data Call : Type 0 where
  mark_published : List Text → Call
  record_failure : Text → ℕ → ℕ → Call
  release : List Text → Call

-- What a batch meets.
pub record World : Type 0 where
  pub publish : ℕ → Event → Option Error
  pub cancelled_before : ℕ → Bool
  pub cancelled_after : ℕ → Bool
  pub store : Call → Option Error

pub record Report : Type 0 where
  pub claimed : ℕ
  pub published : List Text
  pub calls : List Call
  pub errors : List Error

-- eventIDs.
unfoldable pub event_ids : List Event → List Text
event_ids [] = []
event_ids (e ∷ es) = e.id ∷ event_ids es

abbrev errors_of : Option Error → List Error
errors_of none = []
errors_of (some e) = e ∷ []

-- The answer of the store to each of some calls.
unfoldable pub store_errors : World → List Call → List Error
store_errors w [] = []
store_errors w (c ∷ cs) = errors_of (w.store c) ++ store_errors w cs

-- MarkPublished, which is not called for no ids.
unfoldable pub marks : List Text → List Call
marks [] = []
marks (id ∷ ids) = mark_published (id ∷ ids) ∷ []

abbrev pub releases : List Text → List Call
releases [] = []
releases (id ∷ ids) = release (id ∷ ids) ∷ []

-- settleOnCancel.
unfoldable pub settle_on_cancel : List Text → List Text → List Call
unfolding marks
settle_on_cancel published unprocessed = marks published ++ releases unprocessed

-- The state of the loop of RunOnce.
pub record Progress : Type 0 where
  pub published : List Text
  pub calls : List Call
  pub errors : List Error

abbrev pub publish_one : Text → Progress → Progress
publish_one id p = record p { published = p.published ++ (id ∷ []) }

abbrev pub fail_one : World → RelayConfig → Event → Progress → Progress
fail_one w c e p =
    let call =
      record_failure e.id c.max_attempts (exponential e.retry_count c.base_backoff c.max_backoff) in
    record p { calls = p.calls ++ (call ∷ []); errors = p.errors ++ errors_of (w.store call) }

-- A return from inside the loop, with the calls that it makes and the error that caused it.
abbrev pub return_early : World → Progress → List Call → Error → Report
return_early w p last cause = record {
  claimed = 0;
  published = p.published;
  calls = p.calls ++ last;
  errors = (p.errors ++ (cause ∷ [])) ++ store_errors w last;
}

-- The lines of RunOnce behind the loop.
abbrev pub return_late : World → Progress → Report
return_late w p = record {
  claimed = 0;
  published = p.published;
  calls = p.calls ++ marks p.published;
  errors = p.errors ++ store_errors w (marks p.published);
}

-- One round of the loop behind the answer of the publisher, for the ids from the event on and what the
-- loop goes on to.
unfoldable pub relay_answer :
    World
    → RelayConfig
    → ℕ
    → Event
    → List Text
    → Option Error
    → Progress
    → (Progress → Report)
    → Report
relay_answer w c i e ids none p next = next (publish_one e.id p)
relay_answer w c i e ids (some cause) p next =
    if error_eq cause broker_unavailable
    then return_early w p (marks p.published ++ (release ids ∷ [])) cause
    else if w.cancelled_after i
    then return_early w p (settle_on_cancel p.published ids) context_canceled
    else next (fail_one w c e p)

-- The loop of RunOnce from its i-th event on.
unfoldable pub relay_events : World → RelayConfig → ℕ → List Event → Progress → Report
relay_events w c i [] p = return_late w p
relay_events w c i (e ∷ es) p =
    let next = relay_events w c (suc i) es in
    if w.cancelled_before i
    then return_early w p (settle_on_cancel p.published (event_ids (e ∷ es))) context_canceled
    else relay_answer w c i e (event_ids (e ∷ es)) (w.publish i e) p next

abbrev pub no_progress : Progress
no_progress = record { published = []; calls = []; errors = [] }

abbrev failed : Error → Report
failed e = record { claimed = 0; published = []; calls = []; errors = e ∷ [] }

abbrev pub relay_claimed : World → RelayConfig → List Event → Report
relay_claimed w c [] = record { claimed = 0; published = []; calls = []; errors = [] }
relay_claimed w c (e ∷ es) = record (relay_events w c 0 (e ∷ es) no_progress) {
  claimed = length (e ∷ es);
}

-- RunOnce behind ClaimBatch.
abbrev pub after_claim : World → RelayConfig → Result (List Event) → Report
after_claim w c (err e) = failed e
after_claim w c (ok events) = relay_claimed w c events

-- RunOnce, for the claim token and the answer of ClaimBatch to it.
unfoldable pub run_once :
    World → RelayConfig → Result Text → (Text → ℕ → ℕ → Result (List Event)) → Report
run_once w c (err e) claim_batch = failed e
run_once w c (ok token) claim_batch = after_claim w c (claim_batch token c.batch_size c.lease)
