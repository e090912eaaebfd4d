-- ===== src/Streams/Envelope/RoundTrip.antt =====
-- What comes out of a stream is what went in (internal/infrastructure/redis/envelope.go).
use mathlib.Core.Path.{fun_ext}
use cross_border_ecommerce.Base.{
  ℕ, ◌≡◌, refl, sym, subst, ap, Bool, true, false, ◌||◌, Option, none, some, inl, inr, Bool-cases,
  [], ◌∷◌, arith, if◌then◌else◌, Text, text_eq, is_empty, is_blank, trim_space, ok, err, ◌>>=◌,
  corrupt_envelope, ok-injective, >>=-eq-ok,
}
use cross_border_ecommerce.DeadLetters.Record.{DeadLetter}
use cross_border_ecommerce.Streams.Envelope.{
  string, Values, XMessage, OutboxEvent, Message, TimeLayout, encode_event, decode_message,
  decode_fields, fields, get_string, required, sent_event_id, text_or_empty, or_corrupt,
  dead_letter_record, record_of, field_event_id, field_aggregate_type, field_aggregate_id,
  field_event_type, field_payload, field_created_at, field_target_group, field_correlation_id,
  known,
}

-- The message that an event becomes.
abbrev pub message_of : Text → Text → OutboxEvent → Message
message_of stream id e = record {
  stream_id = id;
  stream = stream;
  event_id = sent_event_id e;
  aggregate_type = e.aggregate_type;
  aggregate_id = e.aggregate_id;
  correlation_id = [];
  event_type = e.event_type;
  payload = e.payload;
  created_at = e.created_at;
  target_group = e.target_group;
}

required_lem : (s : Text) → required (some s) ≡ (if is_blank s then err corrupt_envelope else ok s)
unfolding required
required_lem s = ground arith

target_lem :
    (s : Text) → text_or_empty (get_string (if is_empty s then none else some (string s))) ≡ s
unfolding get_string
target_lem [] = refl
target_lem (c ∷ s) = refl

-- Two checks in a row.
guards_lem :
    (a b : Bool) (x y : Text) (m : Text → Text → Message)
    → ((if a then err corrupt_envelope else ok x) >>= λ i.
        (if b then err corrupt_envelope else ok y) >>= λ j. ok (m i j))
      ≡ (if a || b then err corrupt_envelope else ok (m x y))
guards_lem true b x y m = refl
guards_lem false true x y m = refl
guards_lem false false x y m = refl

-- What getString reads of an encoded event.
record Carries (e : OutboxEvent) (created : Text) (field : Text → Option Text) : Type 0 where
  event_id : field field_event_id ≡ some (sent_event_id e)
  created_at : field field_created_at ≡ some created
  event_type : field field_event_type ≡ some e.event_type
  aggregate_type : field field_aggregate_type ≡ some e.aggregate_type
  aggregate_id : field field_aggregate_id ≡ some e.aggregate_id
  correlation_id : field field_correlation_id ≡ none
  payload : field field_payload ≡ some e.payload
  target_group : text_or_empty (field field_target_group) ≡ e.target_group

encode_event-Carries :
    (t : TimeLayout) (e : OutboxEvent)
    → Carries e (t.format e.created_at) (λ k. get_string (encode_event t e k))
unfolding encode_event get_string text_eq
encode_event-Carries t e = record {
  event_id = refl;
  created_at = refl;
  event_type = refl;
  aggregate_type = refl;
  aggregate_id = refl;
  correlation_id = refl;
  payload = refl;
  target_group = target_lem e.target_group;
}

decode_fields-Carries :
    (t : TimeLayout) (stream id : Text) (e : OutboxEvent) (created : Text)
    (field : Text → Option Text)
    → Carries e created field
    → t.parse created ≡ some e.created_at
    → is_blank created ≡ false
    → decode_fields t stream id field ≡ (
        if is_blank (sent_event_id e) || is_blank e.event_type
        then err corrupt_envelope
        else ok (message_of stream id e))
unfolding decode_fields
decode_fields-Carries t stream id e created field c parses blank =
    rw
      (
        c.event_id, required_lem, c.created_at, required_lem, c.event_type, c.aggregate_type,
        c.aggregate_id, c.correlation_id, c.payload, c.target_group, required_lem, blank, parses,
      )
      (guards_lem (is_blank (sent_event_id e)) (is_blank e.event_type) (sent_event_id e)
        e.event_type (λ i y. record (message_of stream id e) { event_id = i; event_type = y }))

-- An event that is encoded, stored by the broker and decoded is the message of the event: its own id or
-- the id that it replays, its type, its aggregate, its payload, its instant and its target group. That
-- holds wherever the broker hands every field back with its text, as a string or as bytes, and where
-- the layout of times reads back what it writes and writes no blank text; with a blank event id or a
-- blank type, and only then, the decoding is refused as a corrupt envelope.
pub decode_message-encode_event :
    (t : TimeLayout) (stream id : Text) (e : OutboxEvent) (values : Values)
    → ((n : ℕ) → t.parse (t.format n) ≡ some n)
    → ((n : ℕ) → is_blank (t.format n) ≡ false)
    → ((k : Text) → get_string (values k) ≡ get_string (encode_event t e k))
    → decode_message t stream (record { id = id; values = some values }) ≡ (
        if is_blank (sent_event_id e) || is_blank e.event_type
        then err corrupt_envelope
        else ok (message_of stream id e))
unfolding decode_message fields
decode_message-encode_event t stream id e values parses blank same =
    decode_fields-Carries t stream id e (t.format e.created_at) (fields (some values))
      (subst (Carries e (t.format e.created_at)) (fun_ext (λ k. sym (same k)))
        (encode_event-Carries t e))
      (parses e.created_at) (blank e.created_at)

-- What a dead letter has of a message.
pub record Keeps (m : Message) (r : DeadLetter) : Type 0 where
  pub stream_message_id : r.stream_message_id ≡ m.stream_id
  pub event_id : r.event_id ≡ some m.event_id
  pub event_type : r.event_type ≡ m.event_type
  pub aggregate_type : r.aggregate_type ≡ m.aggregate_type
  pub aggregate_id : r.aggregate_id ≡ m.aggregate_id
  pub correlation_id : r.correlation_id ≡ m.correlation_id
  pub payload : r.payload ≡ m.payload
  pub event_created_at : r.event_created_at ≡ some m.created_at

decode_message-fields :
    (t : TimeLayout) (stream : Text) (raw : XMessage) (m : Message)
    → decode_message t stream raw ≡ ok m
    → decode_fields t stream raw.id (fields raw.values) ≡ ok m
unfolding decode_message
decode_message-fields t stream raw m h = ground arith

required-some :
    (v : Option Text) (s : Text) → required v ≡ ok s → (v ≡ some s) × (is_blank s ≡ false)
unfolding required
required-some none s h = cc
required-some (some x) s h = elim (Bool-cases (is_blank x)) [
  | inl b ↦ ground arith
  | inr b ↦
      let e : x ≡ s = ok-injective (rw b at h) in (ap some e, subst (λ y. is_blank y ≡ false) e b)
]

or_corrupt-some : (v : Option ℕ) (n : ℕ) → or_corrupt v ≡ ok n → v ≡ some n
or_corrupt-some none n h = cc
or_corrupt-some (some x) n h = cc

known-not_blank : (s : Text) → is_blank s ≡ false → known s ≡ some s
unfolding trim_space
known-not_blank [] h = cc
known-not_blank (c ∷ s) h = refl

-- The message that decode_fields builds.
abbrev built : Text → Text → (Text → Option Text) → Text → ℕ → Text → Message
built stream id field event_id created_at event_type = record {
  stream_id = id;
  stream = stream;
  event_id = event_id;
  aggregate_type = text_or_empty (field field_aggregate_type);
  aggregate_id = text_or_empty (field field_aggregate_id);
  correlation_id = text_or_empty (field field_correlation_id);
  event_type = event_type;
  payload = text_or_empty (field field_payload);
  created_at = created_at;
  target_group = text_or_empty (field field_target_group);
}

built-Keeps :
    (t : TimeLayout) (stream id : Text) (field : Text → Option Text) (event_id created : Text)
    (created_at : ℕ) (event_type : Text)
    → field field_event_id ≡ some event_id
    → is_blank event_id ≡ false
    → field field_created_at ≡ some created
    → t.parse created ≡ some created_at
    → field field_event_type ≡ some event_type
    → Keeps (built stream id field event_id created_at event_type) (record_of t id field)
unfolding record_of
built-Keeps t stream id field event_id created created_at event_type e1 b e2 e3 e4 = record {
  stream_message_id = refl;
  event_id = rw e1 (known-not_blank event_id b);
  event_type = rw e4;
  aggregate_type = refl;
  aggregate_id = refl;
  correlation_id = refl;
  payload = refl;
  event_created_at = rw e2 e3;
}

decode_fields-Keeps :
    (t : TimeLayout) (stream id : Text) (field : Text → Option Text) (m : Message)
    → decode_fields t stream id field ≡ ok m
    → Keeps m (record_of t id field)
unfolding decode_fields
decode_fields-Keeps t stream id field m h =
    let (event_id, e1, h1) = >>=-eq-ok (required (field field_event_id)) _ h in
    let (created, e2, h2) = >>=-eq-ok (required (field field_created_at)) _ h1 in
    let (created_at, e3, h3) = >>=-eq-ok (or_corrupt (t.parse created)) _ h2 in
    let (event_type, e4, h4) = >>=-eq-ok (required (field field_event_type)) _ h3 in
    let (f1, b1) = required-some _ event_id e1 in
    let f2 = (required-some _ created e2).0 in
    let f4 = (required-some _ event_type e4).0 in
    subst (λ m'. Keeps m' (record_of t id field)) (ok-injective h4)
      (built-Keeps t stream id field event_id created created_at event_type f1 b1 f2
        (or_corrupt-some _ created_at e3) f4)

-- A dead letter of a message that decodes keeps the message: its stream id, its event id, type,
-- aggregate, correlation id and payload, and the instant of the event.
pub dead_letter_record-Keeps :
    (t : TimeLayout) (stream : Text) (raw : XMessage) (m : Message)
    → decode_message t stream raw ≡ ok m
    → Keeps m (dead_letter_record t raw)
unfolding dead_letter_record
dead_letter_record-Keeps t stream raw m h =
    decode_fields-Keeps t stream raw.id (fields raw.values) m
      (decode_message-fields t stream raw m h)
