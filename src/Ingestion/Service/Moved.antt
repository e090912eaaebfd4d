-- ===== src/Ingestion/Service/Moved.antt =====
-- What the transitions of a run leave in the database (internal/application/ingestion/service.go).
use cross_border_ecommerce.Base.{
  ℕ, ◌≡◌, refl, sym, ap, ◌∙◌, subst, ◌⊎◌, inl, inr, Bool, true, false, ◌||◌, [], ◌∷◌, Option, none,
  some, if◌then◌else◌, Bool-cases, Text, trim_space, is_blank, Error, Result, ok, err, ok-injective,
  false-ne-true, invalid_transition, Fault, works, fails, loses,
}
use cross_border_ecommerce.Ingestion.Run.{
  RunStatus, running, IngestionRun, processable, complete, advance,
}
use cross_border_ecommerce.Ingestion.Service.{
  Store, Transition, settled, statement, update_status, restated, status_eq, kept_checkpoint,
  find_run, write_transition, apply_transition, transition_run, complete_run,
}

-- A run in progress that is not queued.
pub record IsOpen (r : IngestionRun) (s : Store) : Type 0 where
  pub row : s.run ≡ some r
  pub active : r.status ≡ running
  pub unqueued : s.queued ≡ false

-- What a transition leaves: the records, and a run with its counters and its checkpoint, that is queued
-- exactly if it can be processed, which is for a source that has no more.
pub record IsMoved (drained : Bool) (r : IngestionRun) (s s' : Store) : Type 0 where
  pub left : IngestionRun
  pub saved : s'.saved ≡ s.saved
  pub row : s'.run ≡ some left
  pub checkpoint : (left.checkpoint ≡ r.checkpoint) ⊎ (left.checkpoint ≡ trim_space r.checkpoint)
  pub metrics : left.metrics ≡ r.metrics
  pub queued : s'.queued ≡ processable left.status
  pub exhausted : processable left.status ≡ true → drained ≡ true

pub running-unprocessable : processable running ≡ false
unfolding processable
running-unprocessable = refl

pub unmoved : {drained : Bool} (r : IngestionRun) (s : Store) → IsOpen r s → IsMoved drained r s s
unmoved r s o = record {
  left = r;
  saved = refl;
  row = o.row;
  checkpoint = inl refl;
  metrics = refl;
  queued = o.unqueued ∙ sym (ap processable o.active ∙ running-unprocessable);
  exhausted =
      λ h. absurd (false-ne-true (sym (ap processable o.active ∙ running-unprocessable) ∙ h));
}

-- The checkpoint that a transition of the run asks for.
abbrev KeepsCheckpoint : IngestionRun → IngestionRun → Type 0
KeepsCheckpoint r next =
    (next.checkpoint ≡ r.checkpoint) ⊎ (next.checkpoint ≡ trim_space r.checkpoint)

pub kept-cases :
    (old next : Text)
    → (next ≡ old) ⊎ (next ≡ trim_space old)
    → (kept_checkpoint old next ≡ old) ⊎ (kept_checkpoint old next ≡ trim_space old)
kept-cases old [] h = inl refl
kept-cases old (c ∷ cs) h = h

or-false : (b c : Bool) → c ≡ false → b || c ≡ b
or-false true c h = refl
or-false false c h = h

restated-IsMoved :
    (r next : IngestionRun) (s : Store)
    → IsOpen r s
    → KeepsCheckpoint r next
    → IsMoved true r s
        (record s { run = some (restated next r); queued = processable next.status || s.queued })
restated-IsMoved r next s o k = record {
  left = restated next r;
  saved = refl;
  row = refl;
  checkpoint = kept-cases r.checkpoint next.checkpoint k;
  metrics = refl;
  queued = or-false (processable next.status) s.queued o.unqueued;
  exhausted = λ h. refl;
}

status_eq-running : (a : RunStatus) → a ≡ running → status_eq a a ≡ true
status_eq-running a e = rw e

update_status-some :
    (r next : IngestionRun) (s : Store)
    → r.status ≡ running
    → update_status next r.status s (some r)
      ≡ ok (record s { run = some (restated next r); queued = processable next.status || s.queued })
unfolding update_status
update_status-some r next s e =
    ap
      (λ b.
        if b
        then ok (record s {
          run = some (restated next r);
          queued = processable next.status || s.queued;
        })
        else err invalid_transition)
      (status_eq-running r.status e)

update_status-ok :
    (r next : IngestionRun) (s : Store)
    → IsOpen r s
    → update_status next r.status s s.run
      ≡ ok (record s { run = some (restated next r); queued = processable next.status || s.queued })
update_status-ok r next s o =
    subst
      (λ run.
        update_status next r.status s run
        ≡ ok (record s {
          run = some (restated next r);
          queued = processable next.status || s.queued;
        }))
      (sym o.row) (update_status-some r next s o.active)

pub settled-IsMoved :
    {drained : Bool} (fault : Fault) (r : IngestionRun) (s s' : Store)
    → IsMoved drained r s s
    → IsMoved drained r s s'
    → IsMoved drained r s (settled fault s (ok s')).1
unfolding settled
settled-IsMoved works r s s' m m' = m'
settled-IsMoved (fails e) r s s' m m' = m
settled-IsMoved (loses n) r s s' m m' = m'

write_transition-IsMoved :
    (x : Transition) (r : IngestionRun) (result : Result IngestionRun) (s : Store)
    → IsOpen r s
    → ((next : IngestionRun) → result ≡ ok next → KeepsCheckpoint r next)
    → IsMoved true r s (write_transition x r result s).1
unfolding write_transition statement
write_transition-IsMoved x r (err e) s o k = unmoved r s o
write_transition-IsMoved x r (ok next) s o k = rw (update_status-ok r next s o) (
    settled-IsMoved x.update_fault r s _ (unmoved r s o)
      (restated-IsMoved r next s o (k next refl)))

transition_run-IsMoved :
    (x : Transition) (apply : ℕ → IngestionRun → Result IngestionRun) (r : IngestionRun) (s : Store)
    → IsOpen r s
    → ((next : IngestionRun) → apply x.time r ≡ ok next → KeepsCheckpoint r next)
    → IsMoved true r s (transition_run x apply s).1
unfolding transition_run
transition_run-IsMoved x apply r s o k = found_lem x.find_fault
  where
    found_lem :
        (fault : Option Error)
        → IsMoved true r s (apply_transition x apply (find_run fault s.run) s).1
    found_lem (some e) = unfold apply_transition in unmoved r s o
    found_lem none =
        subst (λ run. IsMoved true r s (apply_transition x apply (find_run none run) s).1)
          (sym o.row)
          (unfold apply_transition in write_transition-IsMoved x r (apply x.time r) s o k)

if_ok' : {x y : IngestionRun} (e : Error) (b : Bool) → (if b then ok x else err e) ≡ ok y → x ≡ y
if_ok' e true h = ok-injective h
if_ok' e false h = cc

advance-cases : (cp : Text) → (advance cp cp ≡ cp) ⊎ (advance cp cp ≡ trim_space cp)
advance-cases cp = elim (Bool-cases (is_blank cp)) [ inl b ↦ inl (rw b) | inr b ↦ inr (rw b) ]

pub complete_run-IsMoved :
    (x : Transition) (r : IngestionRun) (s : Store)
    → IsOpen r s
    → IsMoved true r s (complete_run x r.checkpoint s).1
unfolding complete_run complete
complete_run-IsMoved x r s o =
    transition_run-IsMoved x (complete r.checkpoint) r s o
      (λ next h. subst (KeepsCheckpoint r) (if_ok' _ _ h) (advance-cases r.checkpoint))
