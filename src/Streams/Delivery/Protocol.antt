-- ===== src/Streams/Delivery/Protocol.antt =====
-- The protocol of deliveries that the loop over the attempts follows (processMessage of
-- internal/infrastructure/redis/consumer.go).
use cross_border_ecommerce.Base.{
  ℕ, zero, suc, ◌==◌, ◌≡◌, ◌≢◌, refl, sym, ◌⊎◌, inl, inr, Bool, true, false, List, [], ◌∷◌, Option,
  none, some, Bool-cases, ==_iff, Text, Error, ErrorTree,
}
use cross_border_ecommerce.DeadLetters.Classify.{
  FailureClass, class_retries_exhausted, Decision, retry, leave_pending, dead_letter, classify,
}
use cross_border_ecommerce.DeadLetters.Record.{DeadLetter}
use cross_border_ecommerce.Streams.Envelope.{XMessage, Message, dead_letter_record}
use cross_border_ecommerce.Streams.Config.{ConsumerConfig}
use cross_border_ecommerce.Streams.Delivery.{
  World, Action, handled, failed, slept, stored, refused, acks, crashed, Processed, escalate, fill,
  after_insert, dead_letter_and_ack, back_off, decide, first_failure, after_call, attempts,
}

-- The class under which the n-th attempt's failure is dead-lettered: its own, or that of the
-- exhausted retries for a transient failure of the last attempt.
abbrev pub IsClassOf : ConsumerConfig → ℕ → ErrorTree → FailureClass → Type 0
IsClassOf c n t class =
    (classify t false ≡ dead_letter class)
    ⊎ ((classify t false ≡ retry)
        × ((n ≡ c.retry_max_attempts) × (class ≡ class_retries_exhausted)))

-- A dead letter of the n-th attempt, whose failure is `t`.
pub record IsLetter (c : ConsumerConfig) (n : ℕ) (t : ErrorTree) (r : DeadLetter) : Type 0 where
  pub attempts : r.attempts ≡ n
  pub class : IsClassOf c n t r.failure_class
  pub stream : r.stream ≡ c.stream
  pub group : r.consumer_group ≡ c.group

-- What may happen from the n-th attempt on, for a message of an id.
pub data Follows (c : ConsumerConfig) (id : Text) : ℕ → List Action → Type 0 where
  -- The context is done: the message stays pending.
  pauses : (n : ℕ) → Follows c id n []
  succeeds : (n k : ℕ) (i : Text) → k ≡ n → i ≡ id → Follows c id n (handled k ∷ acks i ∷ [])
  -- A failure that is another holder's, or under a context that is done.
  leaves : (n k : ℕ) (t : ErrorTree) → k ≡ n → Follows c id n (failed k t ∷ [])
  buries :
      (n k : ℕ) (t : ErrorTree) (r : DeadLetter) (i : Text)
      → k ≡ n
      → i ≡ id
      → IsLetter c n t r
      → Follows c id n (failed k t ∷ stored r ∷ acks i ∷ [])
  -- The store of dead letters fails: the message stays pending.
  keeps :
      (n k : ℕ) (t : ErrorTree) (r : DeadLetter)
      → k ≡ n
      → IsLetter c n t r
      → Follows c id n (failed k t ∷ refused r ∷ [])
  retries :
      (n k : ℕ) (t : ErrorTree) (d : ℕ) (rest : List Action)
      → k ≡ n
      → n ≢ c.retry_max_attempts
      → classify t false ≡ retry
      → Follows c id (suc n) rest
      → Follows c id n (failed k t ∷ slept d ∷ rest)
  breaks :
      (n k : ℕ) (t : ErrorTree)
      → k ≡ n
      → classify t false ≡ retry
      → Follows c id n (failed k t ∷ crashed ∷ [])

-- A parent context that is done makes every failure pending.
classify-settles :
    (t : ErrorTree) (done : Bool) (d : Decision)
    → classify t done ≡ d
    → d ≢ leave_pending
    → classify t false ≡ d
unfolding classify
classify-settles t true d h n = absurd (n (sym h))
classify-settles t false d h n = h

module _ {S : Type 0} (w : World S) (c : ConsumerConfig) (raw : XMessage) where
  after_insert-Follows :
      (n : ℕ) (t : ErrorTree) (r : DeadLetter) (answer : Option Error × S)
      → IsLetter c n t r
      → Follows c raw.id n (failed n t ∷ (after_insert raw.id r answer).actions)
  unfolding after_insert
  after_insert-Follows n t r (none, s) l = buries n n t r raw.id refl refl l
  after_insert-Follows n t r (some e, s) l = keeps n n t r refl l

  buried-Follows :
      (n : ℕ) (t : ErrorTree) (class : FailureClass) (first : ℕ) (s : S)
      → IsClassOf c n t class
      → Follows c raw.id n (failed n t ∷ (dead_letter_and_ack w c raw class n first s).actions)
  unfolding dead_letter_and_ack
  buried-Follows n t class first s k =
      let r = fill c class n first (dead_letter_record w.layout raw) in
      after_insert-Follows n t r (w.insert r s)
        (record { attempts = refl; class = k; stream = refl; group = refl })

  back_off-Follows :
      (n : ℕ) (t : ErrorTree) (delay : Option ℕ) (s : S) (next : S → Processed S)
      → n ≢ c.retry_max_attempts
      → classify t false ≡ retry
      → ((s' : S) → Follows c raw.id (suc n) (next s').actions)
      → Follows c raw.id n (failed n t ∷ (back_off w n delay s next).actions)
  unfolding back_off
  back_off-Follows n t none s next l e f = breaks n n t refl e
  back_off-Follows n t (some d) s next l e f = elim (Bool-cases (w.interrupted n)) [
    | inl b ↦ rw b (retries n n t d [] refl l e (pauses (suc n)))
    | inr b ↦ rw b (retries n n t d _ refl l e (f s))
  ]

  -- By the decision of Classify.
  decide-Follows :
      (n : ℕ) (t : ErrorTree) (done : Bool) (first : ℕ) (s : S) (next : S → Processed S)
      (d : Decision)
      → classify t done ≡ d
      → ((s' : S) → Follows c raw.id (suc n) (next s').actions)
      → Follows c raw.id n (failed n t ∷ (decide w c raw n first s next (escalate c n d)).actions)
  unfolding decide escalate
  decide-Follows n t done first s next leave_pending e f = leaves n n t refl
  decide-Follows n t done first s next (dead_letter class) e f =
      buried-Follows n t class first s (inl (classify-settles t done _ e (λ h. cc)))
  decide-Follows n t done first s next retry e f =
      let e' = classify-settles t done retry e (λ h. cc) in
      elim (Bool-cases (n == c.retry_max_attempts)) [
        | inl b ↦ rw b (
            buried-Follows n t class_retries_exhausted first s
              (inr (e', ((==_iff n c.retry_max_attempts).0 b, refl))))
        | inr b ↦
            rw b
              (back_off-Follows n t _ s next (λ h. cc ((==_iff n c.retry_max_attempts).1 h)) e' f)
      ]

  after_call-Follows :
      (n first : ℕ) (next : ℕ → S → Processed S) (s : S) (e : Option ErrorTree)
      → ((first' : ℕ) (s' : S) → Follows c raw.id (suc n) (next first' s').actions)
      → Follows c raw.id n (after_call w c raw n first next s e).actions
  unfolding after_call
  after_call-Follows n first next s none f = succeeds n n raw.id refl refl
  after_call-Follows n first next s (some t) f =
      decide-Follows n t _ (first_failure w n first) s (next (first_failure w n first)) _ refl
        (f (first_failure w n first))

  -- The loop follows the protocol from any attempt on.
  pub attempts-Follows :
      (msg : Message) (left n first : ℕ) (s : S)
      → Follows c raw.id n (attempts w c raw msg left n first s).actions
  unfolding attempts
  attempts-Follows msg zero n first s = pauses n
  attempts-Follows msg (suc left) n first s = elim (Bool-cases (w.done_before n)) [
    | inl b ↦ rw b (pauses n)
    | inr b ↦ rw b (
        after_call-Follows n first (attempts w c raw msg left (suc n)) _ _
          (λ first' s'. attempts-Follows msg left (suc n) first' s'))
  ]
