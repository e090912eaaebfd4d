-- ===== src/Streams/Envelope.antt =====
-- internal/infrastructure/redis/envelope.go. A string and its bytes are one text, an instant is a number,
-- and the layout RFC3339Nano of the package time is a parameter.
pub mod RoundTrip
use cross_border_ecommerce.Base.{
  ℕ, Bool, true, false, Option, none, some, [], if◌then◌else◌, Text, codes, text_eq, is_empty,
  is_blank, Result, ok, err, ◌>>=◌, ◌>>◌, fail_if, corrupt_envelope,
}
use cross_border_ecommerce.DeadLetters.Classify.{class_permanent}
use cross_border_ecommerce.DeadLetters.Record.{DeadLetter}

-- A value of `map[string]any`.
pub data Value : Type 0 where
  string bytes : Text → Value
  nil other_value : Value

abbrev pub Values : Type 0
Values = Text → Option Value

-- XMessage; `none` for a nil map.
pub record XMessage : Type 0 where
  pub id : Text
  pub values : Option Values

-- Event of the outbox, by the fields that a publication reads.
pub record OutboxEvent : Type 0 where
  pub id : Text
  pub event_id : Text
  pub aggregate_type : Text
  pub aggregate_id : Text
  pub event_type : Text
  pub payload : Text
  pub created_at : ℕ
  pub target_group : Text

-- Message of internal/application/messaging.
pub record Message : Type 0 where
  pub stream_id : Text
  pub stream : Text
  pub event_id : Text
  pub aggregate_type : Text
  pub aggregate_id : Text
  pub correlation_id : Text
  pub event_type : Text
  pub payload : Text
  pub created_at : ℕ
  pub target_group : Text

-- Time.Format and time.Parse with RFC3339Nano, in UTC.
pub record TimeLayout : Type 0 where
  pub format : ℕ → Text
  pub parse : Text → Option ℕ

abbrev pub field_event_id : Text
field_event_id = codes "event_id"

abbrev pub field_aggregate_type : Text
field_aggregate_type = codes "aggregate_type"

abbrev pub field_aggregate_id : Text
field_aggregate_id = codes "aggregate_id"

abbrev pub field_event_type : Text
field_event_type = codes "event_type"

abbrev pub field_payload : Text
field_payload = codes "payload"

abbrev pub field_created_at : Text
field_created_at = codes "created_at"

abbrev pub field_target_group : Text
field_target_group = codes "target_group"

abbrev pub field_correlation_id : Text
field_correlation_id = codes "correlation_id"

-- The event id that is sent.
unfoldable pub sent_event_id : OutboxEvent → Text
sent_event_id e = if is_empty e.event_id then e.id else e.event_id

-- EncodeEvent.
unfoldable pub encode_event : TimeLayout → OutboxEvent → Values
unfolding sent_event_id
encode_event t e k =
    if text_eq k field_event_id
    then some (string (sent_event_id e))
    else if text_eq k field_aggregate_type
    then some (string e.aggregate_type)
    else if text_eq k field_aggregate_id
    then some (string e.aggregate_id)
    else if text_eq k field_event_type
    then some (string e.event_type)
    else if text_eq k field_payload
    then some (bytes e.payload)
    else if text_eq k field_created_at
    then some (string (t.format e.created_at))
    else if text_eq k field_target_group
    then (if is_empty e.target_group then none else some (string e.target_group))
    else none

-- getString and getBytes; a missing value is a nil one.
unfoldable pub get_string : Option Value → Option Text
get_string (some (string s)) = some s
get_string (some (bytes b)) = some b
get_string (some nil) = none
get_string (some other_value) = none
get_string none = none

-- `s, _ := getString(v)`.
abbrev pub text_or_empty : Option Text → Text
text_or_empty none = []
text_or_empty (some s) = s

abbrev pub or_corrupt {ℓ} : {A : Type ℓ} → Option A → Result A
or_corrupt none = err corrupt_envelope
or_corrupt (some s) = ok s

-- The checks of a field that has to be there and not blank.
unfoldable pub required : Option Text → Result Text
required v = do s ← or_corrupt v; fail_if (is_blank s) corrupt_envelope; ok s

-- DecodeMessage behind the test of the map, over what getString reads of its fields.
unfoldable pub decode_fields : TimeLayout → Text → Text → (Text → Option Text) → Result Message
decode_fields t stream id field = do
  event_id ← required (field field_event_id)
  created ← required (field field_created_at)
  created_at ← or_corrupt (t.parse created)
  event_type ← required (field field_event_type)
  ok (record {
    stream_id = id;
    stream = stream;
    event_id = event_id;
    aggregate_type = text_or_empty (field field_aggregate_type);
    aggregate_id = text_or_empty (field field_aggregate_id);
    correlation_id = text_or_empty (field field_correlation_id);
    event_type = event_type;
    payload = text_or_empty (field field_payload);
    created_at = created_at;
    target_group = text_or_empty (field field_target_group);
  })

-- `getString(raw.Values[name])`, also where the map is nil.
unfoldable pub fields : Option Values → Text → Option Text
fields none k = none
fields (some values) k = get_string (values k)

-- DecodeMessage.
unfoldable pub decode_message : TimeLayout → Text → XMessage → Result Message
decode_message t stream raw = elim raw.values [
  | none ↦ err corrupt_envelope
  | some values ↦ decode_fields t stream raw.id (fields (some values))
]

abbrev pub known : Text → Option Text
known s = if is_empty s then none else some s

-- deadLetterRecord over what getString reads; the fields that its callers set are still zero, where
-- the class stands for the empty one.
unfoldable pub record_of : TimeLayout → Text → (Text → Option Text) → DeadLetter
record_of t id field = record {
  stream = [];
  consumer_group = [];
  stream_message_id = id;
  event_id = known (text_or_empty (field field_event_id));
  event_type = text_or_empty (field field_event_type);
  aggregate_type = text_or_empty (field field_aggregate_type);
  aggregate_id = text_or_empty (field field_aggregate_id);
  correlation_id = text_or_empty (field field_correlation_id);
  payload = text_or_empty (field field_payload);
  failure_class = class_permanent;
  attempts = 0;
  consumer_name = [];
  event_created_at = t.parse (text_or_empty (field field_created_at));
  first_failed_at = 0;
}

-- deadLetterRecord.
unfoldable pub dead_letter_record : TimeLayout → XMessage → DeadLetter
unfolding record_of
dead_letter_record t raw = record_of t raw.id (fields raw.values)
