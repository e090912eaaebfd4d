-- ===== src/Ingestion/Service/Closed.antt =====
-- FailRun and CancelRun on the run that a transition left (internal/application/ingestion/service.go).
use cross_border_ecommerce.Base.{
  ℕ, ◌≡◌, refl, sym, ap, ◌∙◌, subst, ◌⊎◌, inl, inr, Bool, true, false, ◌||◌, [], ◌∷◌, Option, none,
  some, if◌then◌else◌, Bool-cases, Text, trim_space, Error, Result, ok, err, ok-injective,
  false-ne-true, invalid_transition, Fault, works, fails, loses,
}
use cross_border_ecommerce.Ingestion.Run.{
  RunStatus, pending, running, completed, partial, failed, cancelled, unknown, IngestionRun,
  processable, is_terminal, fail, cancel,
}
use cross_border_ecommerce.Ingestion.Service.{
  Store, Transition, settled, statement, update_status, restated, status_eq, kept_checkpoint,
  find_run, write_transition, apply_transition, transition_run, fail_run, cancel_run,
}
use cross_border_ecommerce.Ingestion.Service.Moved.{IsMoved}

-- A transition of a run that is not terminal, which keeps the checkpoint and ends the run unprocessed.
record IsClosing (r next : IngestionRun) : Type 0 where
  pub checkpoint : next.checkpoint ≡ r.checkpoint
  pub unprocessed : processable next.status ≡ false
  pub active : processable r.status ≡ false

kept_same : (cp : Text) → kept_checkpoint cp cp ≡ cp
kept_same [] = refl
kept_same (c ∷ cs) = refl

restated-checkpoint :
    (r next : IngestionRun)
    → next.checkpoint ≡ r.checkpoint
    → (restated next r).checkpoint ≡ r.checkpoint
restated-checkpoint r next h = ap (kept_checkpoint r.checkpoint) h ∙ kept_same r.checkpoint

closed-IsMoved :
    {drained : Bool} (r next : IngestionRun) (s s₁ : Store) (m : IsMoved drained r s s₁)
    → IsClosing m.left next
    → IsMoved drained r s (record s₁ {
      run = some (restated next m.left);
      queued = processable next.status || s₁.queued;
    })
closed-IsMoved r next s s₁ m c = record {
  left = restated next m.left;
  saved = m.saved;
  row = refl;
  checkpoint =
      subst (λ cp. (cp ≡ r.checkpoint) ⊎ (cp ≡ trim_space r.checkpoint))
        (sym (restated-checkpoint m.left next c.checkpoint)) m.checkpoint;
  metrics = m.metrics;
  queued = ap (λ b. b || s₁.queued) c.unprocessed ∙ m.queued ∙ c.active ∙ sym c.unprocessed;
  exhausted = λ h. absurd (false-ne-true (sym c.unprocessed ∙ h));
}

settled_err-IsMoved :
    {drained : Bool} (fault : Fault) (e : Error) (r : IngestionRun) (s s₁ : Store)
    → IsMoved drained r s s₁
    → IsMoved drained r s (settled fault s₁ (err e)).1
unfolding settled
settled_err-IsMoved works e r s s₁ m = m
settled_err-IsMoved (fails e') e r s s₁ m = m
settled_err-IsMoved (loses n) e r s s₁ m = m

settled_ok-IsMoved :
    {drained : Bool} (fault : Fault) (r : IngestionRun) (s s₁ s₂ : Store)
    → IsMoved drained r s s₁
    → IsMoved drained r s s₂
    → IsMoved drained r s (settled fault s₁ (ok s₂)).1
unfolding settled
settled_ok-IsMoved works r s s₁ s₂ m m' = m'
settled_ok-IsMoved (fails e) r s s₁ s₂ m m' = m
settled_ok-IsMoved (loses n) r s s₁ s₂ m m' = m'

update_status-IsMoved :
    {drained : Bool} (fault : Fault) (r next : IngestionRun) (s s₁ : Store)
    (m : IsMoved drained r s s₁)
    → IsClosing m.left next
    → IsMoved drained r s (settled fault s₁ (update_status next m.left.status s₁ (some m.left))).1
unfolding update_status
update_status-IsMoved fault r next s s₁ m c =
    elim (Bool-cases (status_eq m.left.status m.left.status)) [
      | inl b ↦ rw b (settled_ok-IsMoved fault r s s₁ _ m (closed-IsMoved r next s s₁ m c))
      | inr b ↦ rw b (settled_err-IsMoved fault invalid_transition r s s₁ m)
    ]

write_transition-IsMoved :
    {drained : Bool} (x : Transition) (r : IngestionRun) (result : Result IngestionRun)
    (s s₁ : Store) (m : IsMoved drained r s s₁)
    → ((next : IngestionRun) → result ≡ ok next → IsClosing m.left next)
    → IsMoved drained r s (write_transition x m.left result s₁).1
unfolding write_transition statement
write_transition-IsMoved x r (err e) s s₁ m k = m
write_transition-IsMoved {drained = drained} x r (ok next) s s₁ m k =
    subst
      (λ run.
        IsMoved drained r s (settled x.update_fault s₁ (update_status next m.left.status s₁ run)).1)
      (sym m.row) (update_status-IsMoved x.update_fault r next s s₁ m (k next refl))

transition_run-IsMoved :
    {drained : Bool} (x : Transition) (apply : ℕ → IngestionRun → Result IngestionRun)
    (r : IngestionRun) (s s₁ : Store)
    → ((r next : IngestionRun) → apply x.time r ≡ ok next → IsClosing r next)
    → IsMoved drained r s s₁
    → IsMoved drained r s (transition_run x apply s₁).1
unfolding transition_run
transition_run-IsMoved {drained = drained} x apply r s s₁ k m = found_lem x.find_fault
  where
    found_lem :
        (fault : Option Error)
        → IsMoved drained r s (apply_transition x apply (find_run fault s₁.run) s₁).1
    found_lem (some e) = unfold apply_transition in m
    found_lem none =
        subst (λ run. IsMoved drained r s (apply_transition x apply (find_run none run) s₁).1)
          (sym m.row)
          (unfold apply_transition in
            write_transition-IsMoved x r (apply x.time m.left) s s₁ m (k m.left))

terminal-cases : (a : RunStatus) → (is_terminal a ≡ true) ⊎ (processable a ≡ false)
unfolding is_terminal processable
terminal-cases pending = inr refl
terminal-cases running = inr refl
terminal-cases completed = inl refl
terminal-cases partial = inl refl
terminal-cases failed = inl refl
terminal-cases cancelled = inl refl
terminal-cases (unknown _) = inr refl

if_ok :
    {x y : IngestionRun} (b : Bool) → (if b then err invalid_transition else ok x) ≡ ok y → x ≡ y
if_ok true h = cc
if_ok false h = ok-injective h

if-IsClosing :
    (r closed next : IngestionRun)
    → closed.checkpoint ≡ r.checkpoint
    → processable closed.status ≡ false
    → (if is_terminal r.status then err invalid_transition else ok closed) ≡ ok next
    → IsClosing r next
if-IsClosing r closed next cp p h = elim (terminal-cases r.status) [
  | inl t ↦ absurd (cc (ap (λ b. if b then err invalid_transition else ok closed) t, h))
  | inr a ↦
      subst (IsClosing r) (if_ok (is_terminal r.status) h)
        (record { checkpoint = cp; unprocessed = p; active = a })
]

pub fail_run-IsMoved :
    {drained : Bool} (x : Transition) (summary : Text) (r : IngestionRun) (s s₁ : Store)
    → IsMoved drained r s s₁
    → IsMoved drained r s (fail_run x summary s₁).1
unfolding fail_run fail processable
fail_run-IsMoved x summary r s s₁ =
    transition_run-IsMoved x (fail summary) r s s₁ (λ r next. if-IsClosing r _ next refl refl)

pub cancel_run-IsMoved :
    {drained : Bool} (x : Transition) (reason : Text) (r : IngestionRun) (s s₁ : Store)
    → IsMoved drained r s s₁
    → IsMoved drained r s (cancel_run x reason s₁).1
unfolding cancel_run cancel processable
cancel_run-IsMoved x reason r s s₁ =
    transition_run-IsMoved x (cancel reason) r s s₁ (λ r next. if-IsClosing r _ next refl refl)
