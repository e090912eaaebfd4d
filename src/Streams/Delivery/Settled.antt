-- ===== src/Streams/Delivery/Settled.antt =====
-- What becomes of a message whose processing is over (processMessage of
-- internal/infrastructure/redis/consumer.go).
use cross_border_ecommerce.Base.{
  ℕ, zero, suc, ◌+◌, ◌≤◌, ◌≡◌, ◌≢◌, refl, ap, inl, inr, Bool, false, List, [], ◌∷◌, Option, none,
  some, arith, if◌then◌else◌, Bool-cases, length, Text, Error, Result, ok, err,
}
use cross_border_ecommerce.DeadLetters.Record.{DeadLetter}
use cross_border_ecommerce.Streams.Envelope.{XMessage, Message, decode_message}
use cross_border_ecommerce.Streams.Config.{ConsumerConfig}
use cross_border_ecommerce.Streams.Delivery.{
  World, Action, handled, failed, stored, acks, after_insert, dead_letter_and_ack, attempts, rounds,
  is_for_other, process_decoded, process_message,
}
use cross_border_ecommerce.Streams.Delivery.Protocol.{
  Follows, pauses, succeeds, leaves, buries, keeps, retries, breaks, attempts-Follows,
}

-- The calls of the handler.
abbrev pub calls : List Action → ℕ
calls [] = 0
calls (handled _ ∷ rest) = suc (calls rest)
calls (failed _ _ ∷ rest) = suc (calls rest)
calls (_ ∷ rest) = calls rest

-- The calls of the handler that returned nil.
abbrev pub successes : List Action → ℕ
successes [] = 0
successes (handled _ ∷ rest) = suc (successes rest)
successes (_ ∷ rest) = successes rest

-- The dead letters that the store took.
abbrev pub letters : List Action → List DeadLetter
letters [] = []
letters (stored r ∷ rest) = r ∷ letters rest
letters (_ ∷ rest) = letters rest

-- The ids of the calls of XACK.
abbrev pub acked : List Action → List Text
acked [] = []
acked (acks id ∷ rest) = id ∷ acked rest
acked (_ ∷ rest) = acked rest

abbrev pub repeat : ℕ → Text → List Text
repeat zero id = []
repeat (suc n) id = id ∷ repeat n id

-- Why a message may be acknowledged, counted: a replay for another group, a handler that returned nil,
-- a stored dead letter.
abbrev pub reasons : Bool → List Action → ℕ
reasons skipped actions =
    (if skipped then 1 else 0) + (successes actions + length (letters actions))

pub record IsSettled (c : ConsumerConfig) (id : Text) (skipped : Bool) (actions : List Action)
    : Type 0 where
  pub acknowledged : acked actions ≡ repeat (reasons skipped actions) id
  pub one_reason : reasons skipped actions ≤ 1
  pub limited : calls actions ≤ rounds c

Follows-acked :
    (c : ConsumerConfig) (id : Text) {n : ℕ} {actions : List Action}
    → Follows c id n actions
    → (acked actions ≡ repeat (reasons false actions) id) × (reasons false actions ≤ 1)
Follows-acked c id (pauses n) = (refl, omega arith)
Follows-acked c id (succeeds n k i e e') = (ap (λ x. x ∷ []) e', omega arith)
Follows-acked c id (leaves n k t e) = (refl, omega arith)
Follows-acked c id (buries n k t r i e e' l) = (ap (λ x. x ∷ []) e', omega arith)
Follows-acked c id (keeps n k t r e l) = (refl, omega arith)
Follows-acked c id (retries n k t d rest e l e' f) = Follows-acked c id f
Follows-acked c id (breaks n k t e e') = (refl, omega arith)

ne_last : (n max : ℕ) → n ≤ max → n ≢ max → n + 1 ≤ max
ne_last n max h l = omega arith

Follows-calls :
    (c : ConsumerConfig) (id : Text) {n : ℕ} {actions : List Action}
    → Follows c id n actions
    → n ≤ c.retry_max_attempts
    → calls actions + n ≤ c.retry_max_attempts + 1
Follows-calls c id (pauses n) h = omega arith
Follows-calls c id (succeeds n k i e e') h = omega arith
Follows-calls c id (leaves n k t e) h = omega arith
Follows-calls c id (buries n k t r i e e' l) h = omega arith
Follows-calls c id (keeps n k t r e l) h = omega arith
Follows-calls c id (retries n k t d rest e l e' f) h =
    let last : n + 1 ≤ c.retry_max_attempts = ne_last n c.retry_max_attempts h l in
    omega (arith, Follows-calls c id f (omega arith))
Follows-calls c id (breaks n k t e e') h = omega arith

after_insert-IsSettled :
    {S : Type 0} (c : ConsumerConfig) (id : Text) (r : DeadLetter) (answer : Option Error × S)
    → IsSettled c id false (after_insert id r answer).actions
unfolding after_insert
after_insert-IsSettled c id r (none, s) = record {
  acknowledged = refl;
  one_reason = omega arith;
  limited = omega arith;
}
after_insert-IsSettled c id r (some e, s) = record {
  acknowledged = refl;
  one_reason = omega arith;
  limited = omega arith;
}

-- Whether a message is a replay for another consumer group.
unfoldable pub skipped : {S : Type 0} → World S → ConsumerConfig → XMessage → Bool
skipped w c raw = elim (decode_message w.layout c.stream raw) [
  | err e ↦ false
  | ok msg ↦ is_for_other c msg
]

module _ {S : Type 0} (w : World S) (c : ConsumerConfig) (raw : XMessage) where
  attempts-IsSettled :
      (msg : Message) (left : ℕ) (s : S)
      → left ≡ rounds c
      → IsSettled c raw.id false (attempts w c raw msg left 1 0 s).actions
  attempts-IsSettled msg zero s e =
      unfold attempts in
      record { acknowledged = refl; one_reason = omega arith; limited = omega arith }
  attempts-IsSettled msg (suc left) s e =
      let f = attempts-Follows w c raw msg (suc left) 1 0 s in
      let k = Follows-acked c raw.id f in
      let b : suc left ≡ c.retry_max_attempts = ground arith in
      let l = Follows-calls c raw.id f (omega arith) in
      record { acknowledged = k.0; one_reason = k.1; limited = omega arith }

  process_decoded-IsSettled :
      (decoded : Result Message) (s : S)
      → IsSettled c raw.id
          (elim decoded [ err e ↦ false | ok msg ↦ is_for_other c msg ])
          (process_decoded w c raw decoded s).actions
  unfolding process_decoded dead_letter_and_ack
  process_decoded-IsSettled (err e) s = after_insert-IsSettled c raw.id _ _
  process_decoded-IsSettled (ok msg) s = elim (Bool-cases (is_for_other c msg)) [
    | inl b ↦ rw b (record { acknowledged = refl; one_reason = omega arith; limited = omega arith })
    | inr b ↦ rw b (attempts-IsSettled msg (rounds c) s refl)
  ]

  -- A message is acknowledged exactly if there is a reason for it, once and under its own id: it is a
  -- replay for another consumer group, or a call of the handler returned nil, or the store took it as
  -- a dead letter. There is never more than one reason, so that a message that was handled is not
  -- dead-lettered as well, and the handler is called at most as often as the configuration allows.
  -- That holds whatever the handler, the contexts, the store and the message are.
  pub process_message-IsSettled :
      (s : S) → IsSettled c raw.id (skipped w c raw) (process_message w c raw s).actions
  unfolding process_message skipped
  process_message-IsSettled s = process_decoded-IsSettled (decode_message w.layout c.stream raw) s
