-- ===== src/Streams/Delivery/Completed.antt =====
-- The consumer over the idempotency guard (processMessage of
-- internal/infrastructure/redis/consumer.go with the handler of internal/application/idempotency/guard.go).
use cross_border_ecommerce.Base.{
  ℕ, zero, suc, ◌≡◌, ◌≢◌, refl, ap, ◌∙◌, inl, inr, Bool, true, false, List, [], Option, none, some,
  Bool-cases, Text, Error, error_eq, panic, ErrorTree, leaf, if◌then◌else◌, Result, ok, err,
}
use cross_border_ecommerce.DeadLetters.Classify.{Decision, retry, leave_pending, dead_letter}
use cross_border_ecommerce.DeadLetters.Record.{DeadLetter}
use cross_border_ecommerce.Streams.Envelope.{XMessage, decode_message}
use cross_border_ecommerce.Streams.Envelope as Envelope
use cross_border_ecommerce.Streams.Config.{ConsumerConfig}
use cross_border_ecommerce.Streams.Delivery.{
  World, Action, Answer, returned, panicked, Processed, run_handler, after_insert,
  dead_letter_and_ack, back_off, decide, first_failure, after_call, attempts, rounds, is_for_other,
  process_decoded, process_message,
}
use cross_border_ecommerce.Streams.Delivery.Settled.{
  successes, letters, acked, reasons, repeat, skipped, process_message-IsSettled,
}
use cross_border_ecommerce.Idempotency.Store.{Table}
use cross_border_ecommerce.Idempotency.Table.{IsCompleted}
use cross_border_ecommerce.Idempotency.Guard.{Guard, Delivery, Handler, Message, guarded}
use cross_border_ecommerce.Idempotency.Protection.{CompletesWhenMarked, guarded-ok}

-- A handler that returned nil left a state of the predicate.
abbrev Establishes : {S : Type 0} → World S → Envelope.Message → (S → Type 0) → Type 0
Establishes {S} w msg P =
    (n : ℕ) (s : S) → run_handler (w.handler n msg s).0 ≡ none → P (w.handler n msg s).1

module _ {S : Type 0} (w : World S) (c : ConsumerConfig) (raw : XMessage) (P : S → Type 0) where
  -- Where some call succeeded, the state that is left is of the predicate.
  abbrev Leaves : Processed S → Type 0
  Leaves p = successes p.actions ≢ 0 → P p.state

  after_insert-Leaves :
      (r : DeadLetter) (answer : Option Error × S) → Leaves (after_insert raw.id r answer)
  unfolding after_insert
  after_insert-Leaves r (none, s) h = absurd (h refl)
  after_insert-Leaves r (some e, s) h = absurd (h refl)

  back_off-Leaves :
      (n : ℕ) (delay : Option ℕ) (s : S) (next : S → Processed S)
      → ((s' : S) → Leaves (next s'))
      → Leaves (back_off w n delay s next)
  unfolding back_off
  back_off-Leaves n none s next f = λ h. absurd (h refl)
  back_off-Leaves n (some d) s next f = elim (Bool-cases (w.interrupted n)) [
    | inl b ↦ rw b (λ h. absurd (h refl))
    | inr b ↦ rw b (f s)
  ]

  decide-Leaves :
      (n first : ℕ) (s : S) (next : S → Processed S) (d : Decision)
      → ((s' : S) → Leaves (next s'))
      → Leaves (decide w c raw n first s next d)
  unfolding decide dead_letter_and_ack
  decide-Leaves n first s next leave_pending f = λ h. absurd (h refl)
  decide-Leaves n first s next (dead_letter class) f = after_insert-Leaves _ _
  decide-Leaves n first s next retry f = back_off-Leaves n _ s next f

  after_call-Leaves :
      (n first : ℕ) (next : ℕ → S → Processed S) (s : S) (e : Option ErrorTree)
      → ((first' : ℕ) (s' : S) → Leaves (next first' s'))
      → (e ≡ none → P s)
      → Leaves (after_call w c raw n first next s e)
  unfolding after_call
  after_call-Leaves n first next s none f k = λ h. k refl
  after_call-Leaves n first next s (some t) f k =
      decide-Leaves n (first_failure w n first) s (next (first_failure w n first)) _
        (f (first_failure w n first))

  attempts-Leaves :
      (msg : Envelope.Message) (left n first : ℕ) (s : S)
      → Establishes w msg P
      → Leaves (attempts w c raw msg left n first s)
  unfolding attempts
  attempts-Leaves msg zero n first s k = λ h. absurd (h refl)
  attempts-Leaves msg (suc left) n first s k = elim (Bool-cases (w.done_before n)) [
    | inl b ↦ rw b (λ h. absurd (h refl))
    | inr b ↦ rw b (
        after_call-Leaves n first (attempts w c raw msg left (suc n)) _ _
          (λ first' s'. attempts-Leaves msg left (suc n) first' s' k) (k n s))
  ]

  process_message-Leaves :
      (msg : Envelope.Message) (s : S)
      → decode_message w.layout c.stream raw ≡ ok msg
      → Establishes w msg P
      → Leaves (process_message w c raw s)
  unfolding process_message process_decoded
  process_message-Leaves msg s e k = rw e (elim (Bool-cases (is_for_other c msg)) [
    | inl b ↦ rw b (λ h. absurd (h refl))
    | inr b ↦ rw b (attempts-Leaves msg (rounds c) 1 0 s k)
  ])

-- The message that the guard reads.
abbrev pub guard_message : Envelope.Message → Message
guard_message m = record { event_id = m.event_id; payload = m.payload }

-- A panic that the guard passes on after the release stays a panic, which runHandlerWithStack recovers.
abbrev pub answer_error : Error → Answer
answer_error e = if error_eq e panic then panicked else returned (some (leaf e))

abbrev pub answer_of : Table × Result (Unit {0}) → Answer × Table
answer_of (table, ok u) = (returned none, table)
answer_of (table, err e) = (answer_error e, table)

-- The consumer's handler is the guarded one, with what each attempt meets of the database.
abbrev pub IsGuarded : World Table → Guard → (ℕ → Delivery) → Text → Handler → Type 0
IsGuarded w g deliveries scope next =
    (n : ℕ) (m : Envelope.Message) (table : Table)
    → w.handler n m table ≡ answer_of (guarded g (deliveries n) scope next (guard_message m) table)

answer_error-fails :
    (e : Error) (b : Bool) → run_handler (if b then panicked else returned (some (leaf e))) ≢ none
unfolding run_handler
answer_error-fails e true h = cc
answer_error-fails e false h = cc

answer_of-none :
    (x : Table × Result (Unit {0}))
    → run_handler (answer_of x).0 ≡ none
    → x ≡ ((answer_of x).1, ok tt)
unfolding run_handler
answer_of-none (table, ok u) h = refl
answer_of-none (table, err e) h = absurd (answer_error-fails e (error_eq e panic) h)

guarded-Establishes :
    (w : World Table) (m : Envelope.Message) (g : Guard) (deliveries : ℕ → Delivery) (scope : Text)
    (next : Handler)
    → IsGuarded w g deliveries scope next
    → CompletesWhenMarked next
    → Establishes w m (λ t. IsCompleted (t scope m.event_id))
guarded-Establishes w m g deliveries scope next k completes n t h = rw (k n m t) (
    guarded-ok g (deliveries n) scope next (guard_message m) t _ completes
      (answer_of-none _ (rw (k n m t) at h)))

module _ (w : World Table) (c : ConsumerConfig) (raw : XMessage) (table : Table) where
  acked-succeeded :
      acked (process_message w c raw table).actions ≢ []
      → skipped w c raw ≡ false
      → letters (process_message w c raw table).actions ≡ []
      → successes (process_message w c raw table).actions ≢ 0
  acked-succeeded a k l z = a (
      (process_message-IsSettled w c raw table).acknowledged
      ∙ ap (λ n. repeat n raw.id)
          (none_lem (skipped w c raw) (process_message w c raw table).actions k l z))
    where
      none_lem :
          (b : Bool) (xs : List Action)
          → b ≡ false
          → letters xs ≡ []
          → successes xs ≡ 0
          → reasons b xs ≡ 0
      none_lem b xs k l z = rw (k, l, z) refl

-- An acknowledged message is handled for good: where the consumer's handler is a guarded one, and the
-- message is acknowledged, is no replay for another group and was not dead-lettered, the row of the
-- scope and of its event id is COMPLETED in the table that is left, provided that the inner handler
-- marks its claim only in a transaction that completes the key. That holds whatever the errors of
-- the other attempts and of the database were.
pub process_message-completes :
    (w : World Table) (c : ConsumerConfig) (raw : XMessage) (table : Table) (m : Envelope.Message)
    (g : Guard) (deliveries : ℕ → Delivery) (scope : Text) (next : Handler)
    → decode_message w.layout c.stream raw ≡ ok m
    → IsGuarded w g deliveries scope next
    → CompletesWhenMarked next
    → skipped w c raw ≡ false
    → acked (process_message w c raw table).actions ≢ []
    → letters (process_message w c raw table).actions ≡ []
    → IsCompleted ((process_message w c raw table).state scope m.event_id)
process_message-completes w c raw table m g deliveries scope next e k completes own a l =
    process_message-Leaves w c raw (λ t. IsCompleted (t scope m.event_id)) m table e
      (guarded-Establishes w m g deliveries scope next k completes)
      (acked-succeeded w c raw table a own l)
