-- ===== src/Ingestion/Sync/Kept/Rounds.antt =====
-- What the rounds of SyncSource keep (internal/application/ingestion/sync.go).
use cross_border_ecommerce.Base.{
  ℕ, zero, suc, ◌≡◌, refl, sym, subst, Bool, true, false, ◌&&◌, if◌then◌else◌, Text, text_eq, Error,
  Result, ok, err, error_budget_exceeded, source_contract_violation, other, Fault, works, fails,
  loses,
}
use cross_border_ecommerce.Ingestion.Run.{IngestionRun}
use cross_border_ecommerce.Ingestion.Service.{Store, settled, statement, get_run}
use cross_border_ecommerce.Ingestion.Service.Moved.{IsOpen, IsMoved, unmoved, complete_run-IsMoved}
use cross_border_ecommerce.Ingestion.Sync.{
  World, FetchResult, Outcome, persist_batch, stop_failed, stop_cancelled, stop, read_back,
  after_complete, finish, after_persist, after_fetch, sync_pages,
}
use cross_border_ecommerce.Ingestion.Service.Closed.{fail_run-IsMoved, cancel_run-IsMoved}
use cross_border_ecommerce.Ingestion.Sync.Kept.{
  IsKept, ends_source, IsMoved-IsKept, paged, advanced, page_written-ok, paged-IsOpen, page-IsKept,
}

module _ (w : World) (run_id : Text) where
  stop-IsMoved :
      {drained : Bool} (done : Bool) (reason : Text) (e : Error) (r : IngestionRun) (s s₁ : Store)
      → IsMoved drained r s s₁
      → IsMoved drained r s (stop w run_id done reason e s₁).store
  unfolding stop stop_cancelled stop_failed
  stop-IsMoved true reason e r s s₁ m = cancel_run-IsMoved w.cancelling reason r s s₁ m
  stop-IsMoved false reason e r s s₁ m = fail_run-IsMoved w.failing (w.describe e) r s s₁ m

  read_back-store :
      (result : Result IngestionRun) (s : Store) → (read_back w run_id result s).store ≡ s
  read_back-store (err e) s = refl
  read_back-store (ok r) s = refl

  after_complete-IsMoved :
      (r : IngestionRun) (s : Store) (result : Result (Unit {0}) × Store)
      → IsMoved true r s result.1
      → IsMoved true r s (after_complete w run_id result).store
  unfolding after_complete
  after_complete-IsMoved r s (err e, s₁) m = stop-IsMoved w.complete_cancelled _ e r s s₁ m
  after_complete-IsMoved r s (ok u, s₁) m =
      subst (IsMoved true r s) (sym (read_back-store (get_run w.get_fault run_id s₁.run) s₁)) m

  finish-IsMoved :
      (r : IngestionRun) (s : Store)
      → IsOpen r s
      → IsMoved true r s (finish w run_id r.checkpoint s).store
  unfolding finish
  finish-IsMoved r s o = after_complete-IsMoved r s _ (complete_run-IsMoved w.completing r s o)

  if-IsKept :
      {k : ℕ} {drained : Bool} {r : IngestionRun} {s : Store} (x y : Outcome) (b : Bool)
      → IsKept w run_id k drained r s x.store
      → IsKept w run_id k drained r s y.store
      → IsKept w run_id k drained r s (if b then x else y).store
  if-IsKept x y true hx hy = hx
  if-IsKept x y false hx hy = hy

  branch-IsKept :
      {k : ℕ} {drained : Bool} {r : IngestionRun} {s : Store} (x y : Outcome) (b : Bool)
      → (b ≡ true → IsKept w run_id k drained r s x.store)
      → IsKept w run_id k drained r s y.store
      → IsKept w run_id k drained r s (if b then x else y).store
  branch-IsKept x y true hx hy = hx refl
  branch-IsKept x y false hx hy = hy

  stop-IsKept :
      (k : ℕ) (drained done : Bool) (reason : Text) (e : Error) (r : IngestionRun) (s : Store)
      → IsOpen r s
      → IsKept w run_id k drained r s (stop w run_id done reason e s).store
  stop-IsKept k drained done reason e r s o =
      IsMoved-IsKept w run_id k drained r s _ (stop-IsMoved done reason e r s s (unmoved r s o))

  stop_failed-IsKept :
      (k : ℕ) (drained : Bool) (e : Error) (r : IngestionRun) (s : Store)
      → IsOpen r s
      → IsKept w run_id k drained r s (stop_failed w run_id e s).store
  unfolding stop_failed
  stop_failed-IsKept k drained e r s o =
      IsMoved-IsKept w run_id k drained r s _
        (fail_run-IsMoved w.failing (w.describe e) r s s (unmoved r s o))

  stop_cancelled-IsKept :
      (k : ℕ) (drained : Bool) (reason : Text) (r : IngestionRun) (s : Store)
      → IsOpen r s
      → IsKept w run_id k drained r s (stop_cancelled w run_id reason s).store
  unfolding stop_cancelled
  stop_cancelled-IsKept k drained reason r s o =
      IsMoved-IsKept w run_id k drained r s _
        (cancel_run-IsMoved w.cancelling reason r s s (unmoved r s o))

  -- The rounds behind a page keep to `IsKept`, whatever the totals are.
  abbrev Continues : ℕ → Bool → (Text → ℕ → ℕ → Store → Outcome) → Type 0
  Continues k drained next =
      (seen failures : ℕ) (r : IngestionRun) (s : Store)
      → IsOpen r s
      → IsKept w run_id k drained r s (next r.checkpoint seen failures s).store

  module _ (k : ℕ) (drained : Bool) (res : FetchResult) (r : IngestionRun) (s : Store)
      (o : IsOpen r s) where
    abbrev left : IngestionRun
    left = advanced w k res r

    abbrev here : Store
    here = paged w run_id k res r s

    here-IsOpen : IsOpen left here
    here-IsOpen = paged-IsOpen w run_id k res r s o

    after_persist-IsKept :
        (seen failures : ℕ) (next : Text → ℕ → ℕ → Store → Outcome) (fault : Fault)
        → w.fetch k r.checkpoint ≡ ok res
        → ((drained' : Bool) → Continues (suc k) drained' next)
        → IsKept w run_id k drained r s
            (after_persist w run_id k r.checkpoint seen failures res next
              (settled fault s (ok here))).store
    unfolding after_persist settled
    after_persist-IsKept seen failures next (fails e) f h =
        stop-IsKept k drained (w.persist_cancelled k) _ e r s o
    after_persist-IsKept seen failures next (loses n) f h =
        page-IsKept w run_id k drained res r s _ f (
          stop-IsKept (suc k) (ends_source res) (w.persist_cancelled k) _ (other n) left here
            here-IsOpen)
    after_persist-IsKept seen failures next works f h = page-IsKept w run_id k drained res r s _ f (
        if-IsKept _ _ (w.over_budget _ _)
          (stop_failed-IsKept (suc k) (ends_source res) error_budget_exceeded left here here-IsOpen)
          (branch-IsKept _ _ (ends_source res)
            (λ e. IsMoved-IsKept w run_id (suc k) (ends_source res) left here _ (
              subst (λ b. IsMoved b left here (finish w run_id left.checkpoint here).store) (sym e)
                (finish-IsMoved left here here-IsOpen)))
            (h (ends_source res) _ _ left here here-IsOpen)))

    persist_batch-IsKept :
        (seen failures : ℕ) (next : Text → ℕ → ℕ → Store → Outcome)
        → w.fetch k r.checkpoint ≡ ok res
        → ((drained' : Bool) → Continues (suc k) drained' next)
        → IsKept w run_id k drained r s
            (after_persist w run_id k r.checkpoint seen failures res next
              (persist_batch w run_id k res s)).store
    unfolding persist_batch statement
    persist_batch-IsKept seen failures next f h =
        rw (page_written-ok w run_id k res r s o)
          (after_persist-IsKept seen failures next (w.persist_fault k) f h)

  after_fetch-IsKept :
      (k : ℕ) (drained : Bool) (seen failures : ℕ) (next : Text → ℕ → ℕ → Store → Outcome)
      (r : IngestionRun) (s : Store) (result : Result FetchResult)
      → IsOpen r s
      → w.fetch k r.checkpoint ≡ result
      → ((drained' : Bool) → Continues (suc k) drained' next)
      → IsKept w run_id k drained r s
          (after_fetch w run_id k r.checkpoint seen failures next s result).store
  unfolding after_fetch
  after_fetch-IsKept k drained seen failures next r s (err e) o f h =
      stop-IsKept k drained (w.fetch_cancelled k) _ e r s o
  after_fetch-IsKept k drained seen failures next r s (ok res) o f h =
      if-IsKept _ _ (res.has_more && text_eq res.next_checkpoint r.checkpoint)
        (stop_failed-IsKept k drained source_contract_violation r s o)
        (persist_batch-IsKept k drained res r s o seen failures next f h)

  pub sync_pages-IsKept :
      (fuel k : ℕ) (drained : Bool) → Continues k drained (sync_pages w run_id fuel k)
  unfolding sync_pages
  sync_pages-IsKept zero k drained seen failures r s o =
      IsMoved-IsKept w run_id k drained r s _ (unmoved r s o)
  sync_pages-IsKept (suc fuel) k drained seen failures r s o =
      if-IsKept _ _ (w.cancelled k) (stop_cancelled-IsKept k drained _ r s o)
        (after_fetch-IsKept k drained seen failures _ r s _ o refl (sync_pages-IsKept fuel (suc k)))
