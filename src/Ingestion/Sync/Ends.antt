-- ===== src/Ingestion/Sync/Ends.antt =====
-- The loop of SyncSource ends (internal/application/ingestion/sync.go).
use cross_border_ecommerce.Base.{
  ℕ, zero, suc, ◌+◌, ◌≡◌, ◌≢◌, refl, subst, ◌⊎◌, inl, inr, Bool, true, false, not, ◌&&◌, ◌||◌,
  arith, if◌then◌else◌, Text, text_eq, is_empty, Error, Result, ok, err, error_budget_exceeded,
  source_contract_violation,
}
use cross_border_ecommerce.Ingestion.Run.{IngestionRun}
use cross_border_ecommerce.Ingestion.Service.{Store, start_run, get_run}
use cross_border_ecommerce.Ingestion.Sync.{
  World, FetchResult, synced, stopped, out_of_fuel, Outcome, persist_batch, stop_failed,
  stop_cancelled, stop, read_back, after_complete, finish, after_persist, after_fetch, sync_pages,
  with_run, sync_source,
}

-- The round in which the context is done or the adapter answers a last page or a failure.
pub data IsLast (w : World) (n : ℕ) : Type 0 where
  done : w.cancelled n ≡ true → IsLast w n
  drained :
      ((cp : Text) (res : FetchResult) → w.fetch n cp ≡ ok res → res.has_more ≡ false) → IsLast w n

abbrev Ends : Outcome → Type 0
Ends o = o.ending ≢ out_of_fuel

stopped-Ends : (e : Error) → stopped e ≢ out_of_fuel
stopped-Ends e h = cc

synced-Ends : (r : IngestionRun) → synced r ≢ out_of_fuel
synced-Ends r h = cc

suc_shift : (a b : ℕ) → suc a + b ≡ a + suc b
suc_shift a b = omega arith

zero_add : (a : ℕ) → 0 + a ≡ a
zero_add a = omega arith

add_zero : (a : ℕ) → a ≡ a + 0
add_zero a = omega arith

if-Ends : (x y : Outcome) (b : Bool) → Ends x → Ends y → Ends (if b then x else y)
if-Ends x y true hx hy = hx
if-Ends x y false hx hy = hy

module _ (w : World) (run_id : Text) where
  stop_failed-Ends : (e : Error) (s : Store) → Ends (stop_failed w run_id e s)
  unfolding stop_failed
  stop_failed-Ends e s = stopped-Ends e

  stop_cancelled-Ends : (reason : Text) (s : Store) → Ends (stop_cancelled w run_id reason s)
  unfolding stop_cancelled
  stop_cancelled-Ends reason s = stopped-Ends _

  stop-Ends :
      (is_done : Bool) (reason : Text) (e : Error) (s : Store)
      → Ends (stop w run_id is_done reason e s)
  unfolding stop
  stop-Ends is_done reason e s =
      if-Ends _ _ is_done (stop_cancelled-Ends reason s) (stop_failed-Ends e s)

  read_back-Ends : (result : Result IngestionRun) (s : Store) → Ends (read_back w run_id result s)
  read_back-Ends (err e) s = stopped-Ends e
  read_back-Ends (ok r) s = synced-Ends r

  after_complete-Ends : (result : Result (Unit {0}) × Store) → Ends (after_complete w run_id result)
  unfolding after_complete
  after_complete-Ends (err e, s) = stop-Ends w.complete_cancelled _ e s
  after_complete-Ends (ok u, s) = read_back-Ends (get_run w.get_fault run_id s.run) s

  finish-Ends : (cp : Text) (s : Store) → Ends (finish w run_id cp s)
  unfolding finish
  finish-Ends cp s = after_complete-Ends _

  -- A round ends if it is the last, or if the rounds behind it do.
  abbrev EndsAfter : FetchResult → (Text → ℕ → ℕ → Store → Outcome) → Type 0
  EndsAfter res next =
      (res.has_more ≡ false)
      ⊎ ((cp : Text) (seen failures : ℕ) (s : Store) → Ends (next cp seen failures s))

  more-Ends :
      (cp : Text) (seen failures : ℕ) (res : FetchResult) (next : Text → ℕ → ℕ → Store → Outcome)
      (s : Store)
      → EndsAfter res next
      → Ends (
          if not res.has_more || is_empty res.next_checkpoint
          then finish w run_id cp s
          else next cp seen failures s)
  more-Ends cp seen failures res next s (inl e) = rw e (finish-Ends cp s)
  more-Ends cp seen failures res next s (inr h) =
      if-Ends _ _ (not res.has_more || is_empty res.next_checkpoint) (finish-Ends cp s)
        (h cp seen failures s)

  after_persist-Ends :
      (k : ℕ) (cp : Text) (seen failures : ℕ) (res : FetchResult)
      (next : Text → ℕ → ℕ → Store → Outcome) (result : Result (Unit {0}) × Store)
      → EndsAfter res next
      → Ends (after_persist w run_id k cp seen failures res next result)
  unfolding after_persist
  after_persist-Ends k cp seen failures res next (err e, s) h =
      stop-Ends (w.persist_cancelled k) _ e s
  after_persist-Ends k cp seen failures res next (ok u, s) h =
      if-Ends _ _ (w.over_budget _ _) (stop_failed-Ends error_budget_exceeded s)
        (more-Ends _ _ _ res next s h)

  after_fetch-Ends :
      (k : ℕ) (cp : Text) (seen failures : ℕ) (next : Text → ℕ → ℕ → Store → Outcome) (s : Store)
      (result : Result FetchResult)
      → ((res : FetchResult) → result ≡ ok res → EndsAfter res next)
      → Ends (after_fetch w run_id k cp seen failures next s result)
  unfolding after_fetch
  after_fetch-Ends k cp seen failures next s (err e) h = stop-Ends (w.fetch_cancelled k) _ e s
  after_fetch-Ends k cp seen failures next s (ok res) h =
      if-Ends _ _ (res.has_more && text_eq res.next_checkpoint cp)
        (stop_failed-Ends source_contract_violation s)
        (after_persist-Ends k cp seen failures res next (persist_batch w run_id k res s)
          (h res refl))

  last_page-Ends :
      (k : ℕ) (cp : Text) (seen failures : ℕ) (s : Store)
      → IsLast w k
      → Ends (sync_pages w run_id 1 k cp seen failures s)
  unfolding sync_pages
  last_page-Ends k cp seen failures s (done c) = rw c (stop_cancelled-Ends _ s)
  last_page-Ends k cp seen failures s (drained h) =
      if-Ends _ _ (w.cancelled k) (stop_cancelled-Ends _ s)
        (after_fetch-Ends k cp seen failures _ s (w.fetch k cp) (λ res e. inl (h cp res e)))

  sync_pages-Ends :
      (fuel k : ℕ) (cp : Text) (seen failures : ℕ) (s : Store)
      → IsLast w (fuel + k)
      → Ends (sync_pages w run_id (suc fuel) k cp seen failures s)
  unfolding sync_pages
  sync_pages-Ends zero k cp seen failures s l =
      last_page-Ends k cp seen failures s (subst (IsLast w) (zero_add k) l)
  sync_pages-Ends (suc fuel) k cp seen failures s l =
      if-Ends _ _ (w.cancelled k) (stop_cancelled-Ends _ s) (
        after_fetch-Ends k cp seen failures _ s (w.fetch k cp) (λ res e. inr (λ cp seen failures s.
          sync_pages-Ends fuel (suc k) cp seen failures s (subst (IsLast w) (suc_shift fuel k) l))))

with_run-Ends :
    (w : World) (n : ℕ) (result : Result IngestionRun × Store)
    → IsLast w n
    → Ends (with_run w (suc n) result)
unfolding with_run
with_run-Ends w n (err e, s) l = stopped-Ends e
with_run-Ends w n (ok r, s) l =
    sync_pages-Ends w r.id n 0 r.checkpoint 0 0 s (subst (IsLast w) (add_zero n) l)

-- If in some round n the context is done, or the adapter has no page with more behind it, whatever the
-- checkpoint, then SyncSource returns, after at most n + 1 rounds.
pub sync_source-ends :
    (w : World) (n : ℕ) (source_id cp : Text) (s : Store)
    → IsLast w n
    → (sync_source w (suc n) source_id cp s).ending ≢ out_of_fuel
unfolding sync_source
sync_source-ends w n source_id cp s l =
    if-Ends _ _ w.budget_valid (with_run-Ends w n (start_run w.session source_id cp s) l)
      (stopped-Ends _)
