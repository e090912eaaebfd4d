-- ===== src/Outbox/Shutdown.antt =====
-- Relay.Run and the filter of cancellations (internal/application/outbox/relay.go). A batch is what
-- RunOnce returned and whether the context was cancelled behind it; the context is cancelled where the
-- batches end.
use cross_border_ecommerce.Base.{
  ℕ, ◌+◌, ◌≡◌, refl, sym, ap, subst, ◌∙◌, ◌↔◌, inl, inr, Bool, true, false, ◌&&◌, List, [], ◌∷◌,
  Option, none, some, if◌then◌else◌, Bool-cases, slt, &&_iff, some-injective, false-ne-true,
  error_eq, ErrorTree, ErrorTrees, leaf, wrapped, joined, no_more, another, context_canceled,
}
use cross_border_ecommerce.Platform.Backoff.{exponential}
use cross_border_ecommerce.Outbox.Relay.{RelayConfig}

-- isOnlyContextCanceled.
unfoldable mutual
  pub is_only_context_canceled : ErrorTree → Bool
  is_only_context_canceled (leaf e) = error_eq e context_canceled
  is_only_context_canceled (wrapped t) = is_only_context_canceled t
  is_only_context_canceled (joined ts) = are_only_context_canceled ts

  pub are_only_context_canceled : ErrorTrees → Bool
  are_only_context_canceled no_more = true
  are_only_context_canceled (another t ts) =
      is_only_context_canceled t && are_only_context_canceled ts

-- withoutCancellation.
unfoldable pub without_cancellation : ErrorTree → Option ErrorTree
without_cancellation t = if is_only_context_canceled t then none else some t

pub record Batch : Type 0 where
  pub claimed : ℕ
  pub error : Option ErrorTree
  pub cancelled : Bool

pub record Outcome : Type 0 where
  pub waits : List ℕ
  pub result : Option ErrorTree

abbrev wait : ℕ → Outcome → Outcome
wait d o = record o { waits = d ∷ o.waits }

-- The loop of Run behind one batch, by its error, for what the loop goes on to with a number of
-- consecutive failures. waitAfterFailure waits for the backoff. Where the context is cancelled behind a
-- batch without an error, the loop ends, and the wait, which would end at once, is left out.
unfoldable pub run_batch : RelayConfig → Batch → Option ErrorTree → ℕ → (ℕ → Outcome) → Outcome
run_batch c b none failures next =
    if b.cancelled
    then record { waits = []; result = none }
    else if slt b.claimed c.batch_size
    then wait c.poll_interval (next 0)
    else next 0
run_batch c b (some t) failures next =
    if b.cancelled
    then record { waits = []; result = without_cancellation t }
    else wait (exponential failures c.base_backoff c.max_backoff) (next (failures + 1))

-- Run.
unfoldable pub run : RelayConfig → List Batch → ℕ → Outcome
run c [] failures = record { waits = []; result = none }
run c (b ∷ bs) failures = run_batch c b b.error failures (run c bs)

-- Every leaf of the tree is the cancellation.
abbrev mutual
  pub IsCancellation : ErrorTree → Type 0
  IsCancellation (leaf e) = error_eq e context_canceled ≡ true
  IsCancellation (wrapped t) = IsCancellation t
  IsCancellation (joined ts) = AreCancellations ts

  pub AreCancellations : ErrorTrees → Type 0
  AreCancellations no_more = Unit
  AreCancellations (another t ts) = IsCancellation t × AreCancellations ts

mutual
  unfolding is_only_context_canceled are_only_context_canceled

  is_only_context_canceled_iff :
      (t : ErrorTree) → (is_only_context_canceled t ≡ true) ↔ IsCancellation t
  is_only_context_canceled_iff (leaf e) = (λ h. h, λ h. h)
  is_only_context_canceled_iff (wrapped t) = is_only_context_canceled_iff t
  is_only_context_canceled_iff (joined ts) = are_only_context_canceled_iff ts

  are_only_context_canceled_iff :
      (ts : ErrorTrees) → (are_only_context_canceled ts ≡ true) ↔ AreCancellations ts
  are_only_context_canceled_iff no_more = (λ h. tt, λ h. refl)
  are_only_context_canceled_iff (another t ts) =
      let w = &&_iff (is_only_context_canceled t) (are_only_context_canceled ts) in
      (
        λ h. (
          (is_only_context_canceled_iff t).0 ((w.0 h).0),
          (are_only_context_canceled_iff ts).0 ((w.0 h).1),
        ),
        λ h. w.1 ((is_only_context_canceled_iff t).1 h.0, (are_only_context_canceled_iff ts).1 h.1),
      )

-- The error of the first batch that fails while the context is cancelled.
abbrev pub Interrupts : Bool → ErrorTree → ErrorTree → Type 0 → Type 0
Interrupts true t t' later = t ≡ t'
Interrupts false t t' later = later

abbrev pub FailsBy : Option ErrorTree → Bool → ErrorTree → Type 0 → Type 0
FailsBy none true t' later = ⊥
FailsBy none false t' later = later
FailsBy (some t) cancelled t' later = Interrupts cancelled t t' later

abbrev pub InterruptedBy : List Batch → ErrorTree → Type 0
InterruptedBy [] t = ⊥
InterruptedBy (b ∷ bs) t = FailsBy b.error b.cancelled t (InterruptedBy bs t)

without_cancellation_iff :
    (t' t : ErrorTree) → (without_cancellation t' ≡ some t) ↔ ((t' ≡ t) × (IsCancellation t → ⊥))
unfolding without_cancellation
without_cancellation_iff t' t =
    let w = is_only_context_canceled_iff t' in
    elim (Bool-cases (is_only_context_canceled t')) [
      | inl e ↦ rw e ((λ h. cc), λ h. elim (h.1 (subst IsCancellation h.0 (w.0 e))) [ ])
      | inr e ↦ rw e (
        (λ h. (
          some-injective h,
          λ x. false-ne-true (sym e ∙ w.1 (subst IsCancellation (sym (some-injective h)) x)),
        )),
        λ h. ap some h.0,
      )
    ]

run_batch-result :
    (c : RelayConfig) (b : Batch) (error : Option ErrorTree) (cancelled : Bool) (failures : ℕ)
    (next : ℕ → Outcome) (t : ErrorTree) (later : Type 0)
    → b.cancelled ≡ cancelled
    → ((n : ℕ) → ((next n).result ≡ some t) ↔ (later × (IsCancellation t → ⊥)))
    → ((run_batch c b error failures next).result ≡ some t)
      ↔ (FailsBy error cancelled t later × (IsCancellation t → ⊥))
unfolding run_batch without_cancellation
run_batch-result c b none true failures next t later e k = rw e ((λ h. cc), λ h. elim (h.0) [ ])
run_batch-result c b none false failures next t later e k =
    rw e (elim (Bool-cases (slt b.claimed c.batch_size)) [
      | inl e' ↦ rw e' (k 0)
      | inr e' ↦ rw e' (k 0)
    ])
run_batch-result c b (some t') false failures next t later e k = rw e (k (failures + 1))
run_batch-result c b (some t') true failures next t later e k = rw e (without_cancellation_iff t' t)

-- Run returns an error exactly if a batch failed while the context was cancelled and its error is more
-- than the cancellation: then it returns the error of the first such batch, whose tree has a leaf
-- that is not context.Canceled. A failure before the cancellation is waited out, and a batch without an
-- error behind which the context is cancelled, or a tree of cancellations alone, ends Run with nil.
pub run-result_iff :
    (c : RelayConfig) (bs : List Batch) (failures : ℕ) (t : ErrorTree)
    → ((run c bs failures).result ≡ some t) ↔ (InterruptedBy bs t × (¬ IsCancellation t))
unfolding run
run-result_iff c [] failures t = ((λ h. cc), λ h. elim (h.0) [ ])
run-result_iff c (b ∷ bs) failures t =
    run_batch-result c b b.error b.cancelled failures (run c bs) t (InterruptedBy bs t) refl
      (λ n. run-result_iff c bs n t)
