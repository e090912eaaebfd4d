-- ===== src/Streams/Delivery/Settles.antt =====
-- The processing of a message comes to an end of its own (processMessage of
-- internal/infrastructure/redis/consumer.go).
use cross_border_ecommerce.Base.{
  ℕ, zero, suc, ◌+◌, ◌-◌, ◌*◌, ◌≤◌, ◌<◌, ◌==◌, ◌≡◌, ◌≢◌, refl, inl, inr, false, [], ◌∷◌, Option,
  none, some, arith, Bool-cases, Error, ErrorTree, Result, ok, err, >>=-eq-ok, sign_bit, max_int64,
  IsWord,
}
use cross_border_ecommerce.Platform.Backoff.{full_jitter}
use cross_border_ecommerce.Platform.Backoff.Policy.{IsSafePolicy, validate_retry_policy_iff}
use cross_border_ecommerce.Platform.Backoff.Delay.{full_jitter-le}
use cross_border_ecommerce.DeadLetters.Classify.{
  FailureClass, Decision, retry, leave_pending, dead_letter, classify,
}
use cross_border_ecommerce.DeadLetters.Record.{DeadLetter}
use cross_border_ecommerce.Streams.Envelope.{XMessage, Message, decode_message}
use cross_border_ecommerce.Streams.Config.{ConsumerConfig, validate, validate_fields, as_config}
use cross_border_ecommerce.Streams.Delivery.{
  World, Processed, run_handler, escalate, after_insert, dead_letter_and_ack, back_off, decide,
  first_failure, after_call, attempts, rounds, is_for_other, process_decoded, process_message,
}
use cross_border_ecommerce.Streams.Delivery.Settled.{acked}

-- The numbers of the policy of retries are 64-bit words.
abbrev pub HasWords : ConsumerConfig → Type 0
HasWords c =
    IsWord c.retry_max_attempts
    × IsWord c.retry_base_backoff
    × IsWord c.retry_max_backoff
    × IsWord c.handler_timeout
    × IsWord c.claim_min_idle

abbrev pub HasSafePolicy : ConsumerConfig → Type 0
HasSafePolicy c =
    IsSafePolicy c.retry_max_attempts c.retry_base_backoff c.retry_max_backoff c.handler_timeout
      c.claim_min_idle

as_config-ok : (r : Result (Unit {0})) → as_config r ≡ ok tt → r ≡ ok tt
unfolding as_config
as_config-ok (ok u) h = refl
as_config-ok (err e) h = cc

-- A configuration that is accepted has a safe policy.
pub validate-HasSafePolicy :
    (c : ConsumerConfig) → HasWords c → validate c ≡ ok tt → HasSafePolicy c
unfolding validate
validate-HasSafePolicy c h v =
    (validate_retry_policy_iff c.retry_max_attempts c.retry_base_backoff c.retry_max_backoff
        c.handler_timeout c.claim_min_idle h.0 h.1 h.2 h.3 h.4).0
      (as_config-ok _ (>>=-eq-ok (validate_fields c) _ v).2)

-- No context ends, every dead letter is stored, and the random source is below its bound.
pub record IsCalm {S : Type 0} (w : World S) : Type 0 where
  pub goes_on : (n : ℕ) → w.done_before n ≡ false
  pub run_goes_on : (n : ℕ) → w.run_done n ≡ false
  pub task_goes_on : (n : ℕ) → w.task_done n ≡ false
  pub waits : (n : ℕ) → w.interrupted n ≡ false
  pub stores : (r : DeadLetter) (s : S) → (w.insert r s).0 ≡ none
  pub fair : (n k : ℕ) → 0 < k → k < sign_bit → w.int64_n n k < k
  -- No failure of the handler is left to another holder of the key.
  pub own :
      (n : ℕ) (m : Message) (s : S) (t : ErrorTree)
      → run_handler (w.handler n m s).0 ≡ some t
      → classify t false ≢ leave_pending

jitter_bound :
    (max handler cap claim : ℕ)
    → 1 < max
    → 0 < handler
    → max * handler + (max - 1) * cap < claim
    → claim < sign_bit
    → cap < max_int64
jitter_bound max handler cap claim h hh w hc = grind arith

module _ {S : Type 0} (w : World S) (c : ConsumerConfig) (raw : XMessage) (calm : IsCalm w)
    (safe : HasSafePolicy c) where
  abbrev Settles : Processed S → Type 0
  Settles p = acked p.actions ≡ raw.id ∷ []

  after_insert-Settles :
      (r : DeadLetter) (answer : Option Error × S)
      → answer.0 ≡ none
      → Settles (after_insert raw.id r answer)
  unfolding after_insert
  after_insert-Settles r (none, s) h = refl
  after_insert-Settles r (some e, s) h = cc

  buried-Settles :
      (class : FailureClass) (n first : ℕ) (s : S)
      → Settles (dead_letter_and_ack w c raw class n first s)
  unfolding dead_letter_and_ack
  buried-Settles class n first s = after_insert-Settles _ _ (calm.stores _ s)

  back_off-Settles :
      (n : ℕ) (d : ℕ) (delay : Option ℕ) (s : S) (next : S → Processed S)
      → delay ≡ some d
      → Settles (next s)
      → Settles (back_off w n delay s next)
  unfolding back_off
  back_off-Settles n d delay s next e f = rw (e, calm.waits n) f

  delayed :
      (n : ℕ)
      → 0 < n
      → n < c.retry_max_attempts
      → (d : ℕ) × (full_jitter (w.int64_n n) (n - 1) c.retry_base_backoff c.retry_max_backoff
          ≡ some d)
  delayed n h l =
      let j =
        jitter_bound c.retry_max_attempts c.handler_timeout c.retry_max_backoff c.claim_min_idle
          (omega arith) safe.5 safe.7 safe.8 in
      let (d, e, k) =
        full_jitter-le (w.int64_n n) (n - 1) c.retry_base_backoff c.retry_max_backoff (calm.fair n)
          (omega arith) safe.2 (omega arith) (omega arith) j in
      (d, e)

  decide-Settles :
      (n first : ℕ) (s : S) (next : S → Processed S) (d : Decision)
      → 0 < n
      → n ≤ c.retry_max_attempts
      → d ≢ leave_pending
      → (n < c.retry_max_attempts → (s' : S) → Settles (next s'))
      → Settles (decide w c raw n first s next (escalate c n d))
  unfolding decide escalate
  decide-Settles n first s next leave_pending h l p f = absurd (p refl)
  decide-Settles n first s next (dead_letter class) h l p f = buried-Settles class n first s
  decide-Settles n first s next retry h l p f = elim (Bool-cases (n == c.retry_max_attempts)) [
    | inl b ↦ rw b (buried-Settles _ n first s)
    | inr b ↦
        let l' : n < c.retry_max_attempts = ground arith in
        let (d, e) = delayed n h l' in rw b (back_off-Settles n d _ s next e (f l' s))
  ]

  after_call-Settles :
      (n first : ℕ) (next : ℕ → S → Processed S) (s : S) (e : Option ErrorTree)
      → 0 < n
      → n ≤ c.retry_max_attempts
      → ((t : ErrorTree) → e ≡ some t → classify t false ≢ leave_pending)
      → (n < c.retry_max_attempts → (first' : ℕ) (s' : S) → Settles (next first' s'))
      → Settles (after_call w c raw n first next s e)
  unfolding after_call
  after_call-Settles n first next s none h l p f = refl
  after_call-Settles n first next s (some t) h l p f =
      rw (calm.run_goes_on n, calm.task_goes_on n)
        (decide-Settles n (first_failure w n first) s (next (first_failure w n first)) _ h l
          (p t refl) (λ l' s'. f l' (first_failure w n first) s'))

  attempts-Settles :
      (msg : Message) (left n first : ℕ) (s : S)
      → 0 < n
      → 0 < left
      → left + n ≡ c.retry_max_attempts + 1
      → Settles (attempts w c raw msg left n first s)
  unfolding attempts
  attempts-Settles msg zero n first s h l e = absurd (omega arith)
  attempts-Settles msg (suc left) n first s h l e = rw (calm.goes_on n) (
      after_call-Settles n first (attempts w c raw msg left (suc n)) _ _ h (omega arith)
        (calm.own n msg s)
        (λ l' first' s'.
          attempts-Settles msg left (suc n) first' s' (omega arith) (omega arith) (omega arith)))

  process_decoded-Settles :
      (decoded : Result Message) (s : S) → Settles (process_decoded w c raw decoded s)
  unfolding process_decoded
  process_decoded-Settles (err e) s = buried-Settles _ 1 _ s
  process_decoded-Settles (ok msg) s = elim (Bool-cases (is_for_other c msg)) [
    | inl b ↦ rw b refl
    | inr b ↦
        let r : rounds c ≡ c.retry_max_attempts = ground arith in
        rw b (attempts-Settles msg (rounds c) 1 0 s (omega arith) (omega arith) (omega arith))
  ]

-- A message is settled: with a configuration that Validate accepts, and where no context ends, the
-- store takes every dead letter, no failure is left to another holder of the key, and the random
-- numbers are below their bounds, the processing acknowledges the message, once and by its id,
-- whatever the envelope and the answers of the handler are.
pub process_message-settles :
    {S : Type 0} (w : World S) (c : ConsumerConfig) (raw : XMessage) (s : S)
    → IsCalm w
    → HasWords c
    → validate c ≡ ok tt
    → acked (process_message w c raw s).actions ≡ raw.id ∷ []
unfolding process_message
process_message-settles w c raw s calm h v =
    process_decoded-Settles w c raw calm (validate-HasSafePolicy c h v)
      (decode_message w.layout c.stream raw) s
