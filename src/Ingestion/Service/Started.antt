-- ===== src/Ingestion/Service/Started.antt =====
-- The run that StartRun returns (internal/application/ingestion/service.go).
use cross_border_ecommerce.Base.{
  ℕ, ◌≡◌, refl, not, Text, trim_space, is_blank, Error, Result, ok, err, ◌>>=◌, fail_if, Fault,
  works, fails, loses, arith, invalid_source_id, inactive_source, [],
}
use cross_border_ecommerce.Product.Metrics.{no_metrics}
use cross_border_ecommerce.Ingestion.Run.{RunStatus, pending, running, IngestionRun, new_run, start}
use cross_border_ecommerce.Ingestion.Service.{
  Store, Session, settled, statement, check_active, prepare_run, create_run, start_run,
}
use cross_border_ecommerce.Ingestion.Service.Moved.{IsOpen}

-- What a result holds if it is one.
unfoldable Holds {ℓ} : {A : Type ℓ} → (A → Type 0) → Result A → Type 0
Holds p (err e) = Unit
Holds p (ok a) = p a

bind-Holds {ℓ ℓ'} :
    {A : Type ℓ} {B : Type ℓ'} (p : A → Type 0) (q : B → Type 0) (x : Result A) (f : A → Result B)
    → Holds p x
    → ((a : A) → p a → Holds q (f a))
    → Holds q (x >>= f)
unfolding Holds
bind-Holds p q (err e) f h k = tt
bind-Holds p q (ok a) f h k = k a h

then-Holds {ℓ ℓ'} :
    {A : Type ℓ} {B : Type ℓ'} (q : B → Type 0) (x : Result A) (f : A → Result B)
    → ((a : A) → Holds q (f a))
    → Holds q (x >>= f)
unfolding Holds
then-Holds q (err e) f k = tt
then-Holds q (ok a) f k = k a

-- A run that nothing was counted of, at the checkpoint it was asked for.
pub record IsFresh (status : RunStatus) (cp : Text) (r : IngestionRun) : Type 0 where
  pub state : r.status ≡ status
  pub metrics : r.metrics ≡ no_metrics
  pub checkpoint : r.checkpoint ≡ trim_space cp

new_run_eq :
    (id source_id cp : Text) (generated : Result Text) (now : ℕ) {r : IngestionRun}
    → new_run id source_id cp generated now ≡ ok r
    → IsFresh pending cp r
unfolding new_run
new_run_eq id source_id cp (ok g) now h = ground arith
new_run_eq id source_id cp (err e) now h = ground arith

eq-Holds : {A : Type 0} (p : A → Type 0) (x : Result A) → ((a : A) → x ≡ ok a → p a) → Holds p x
unfolding Holds
eq-Holds p (err e) k = tt
eq-Holds p (ok a) k = k a refl

new_run-IsFresh :
    (id source_id cp : Text) (generated : Result Text) (now : ℕ)
    → Holds (IsFresh pending cp) (new_run id source_id cp generated now)
new_run-IsFresh id source_id cp generated now =
    eq-Holds _ (new_run id source_id cp generated now)
      (λ r. new_run_eq id source_id cp generated now)

start-IsFresh :
    (now : ℕ) (cp : Text) (r : IngestionRun)
    → IsFresh pending cp r
    → Holds (IsFresh running cp) (start now r)
unfolding start Holds
start-IsFresh now cp r f =
    rw f.state (record { state = refl; metrics = f.metrics; checkpoint = f.checkpoint })

prepare_run-IsFresh :
    (x : Session) (source_id cp : Text) → Holds (IsFresh running cp) (prepare_run x source_id cp)
unfolding prepare_run
prepare_run-IsFresh x source_id cp =
    then-Holds _ (fail_if (is_blank source_id) invalid_source_id) _ (λ u.
      then-Holds _ x.source_enabled _ (λ enabled.
        then-Holds _ (fail_if (not enabled) inactive_source) _ (λ u.
          then-Holds _ (check_active x.latest_status) _ (λ u.
            bind-Holds (IsFresh pending cp) _ (new_run [] source_id cp x.generated x.start_time) _
              (new_run-IsFresh [] source_id cp x.generated x.start_time)
              (start-IsFresh x.start_time cp)))))

-- What StartRun leaves: the database as it was, or nothing more than the fresh run, whose id is reported
-- unless the answer to the insertion was lost.
pub data IsStarted (fault : Fault) (cp : Text) (s : Store)
    : Result IngestionRun × Store → Type 0 where
  refused : {e : Error} {s' : Store} → s' ≡ s → IsStarted fault cp s (err e, s')
  unanswered :
      {e : Error} {r : IngestionRun} {s' : Store} {n : ℕ}
      → fault ≡ loses n
      → IsFresh running cp r
      → IsOpen r s'
      → s'.saved ≡ s.saved
      → IsStarted fault cp s (err e, s')
  started :
      {r : IngestionRun} {s' : Store}
      → IsFresh running cp r
      → IsOpen r s'
      → s'.saved ≡ s.saved
      → IsStarted fault cp s (ok r, s')

create_run-IsStarted :
    (cp : Text) (fault : Fault) (result : Result IngestionRun) (s : Store)
    → Holds (IsFresh running cp) result
    → IsStarted fault cp s (create_run fault result s)
unfolding Holds create_run statement settled
create_run-IsStarted cp fault (err e) s h = refused refl
create_run-IsStarted cp works (ok r) s h =
    started h (record { row = refl; active = h.state; unqueued = refl }) refl
create_run-IsStarted cp (fails e) (ok r) s h = refused refl
create_run-IsStarted cp (loses n) (ok r) s h =
    unanswered refl h (record { row = refl; active = h.state; unqueued = refl }) refl

pub start_run-IsStarted :
    (x : Session) (source_id cp : Text) (s : Store)
    → IsStarted x.create_fault cp s (start_run x source_id cp s)
unfolding start_run
start_run-IsStarted x source_id cp s =
    create_run-IsStarted cp x.create_fault (prepare_run x source_id cp) s
      (prepare_run-IsFresh x source_id cp)
