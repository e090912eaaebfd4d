-- ===== src/Processing/Run/Pages.antt =====
-- The transaction of a page and its retry (processPageWithRetry of
-- internal/application/product/process_run.go).
use mathlib.Core.Bool.{decide}
use cross_border_ecommerce.Base.{
  Fault, works, fails, loses, ℕ, zero, suc, ◌+◌, ◌≡◌, ◌≢◌, refl, sym, ◌∙◌, subst, inl, inr, Bool,
  true, false, ◌&&◌, List, [], ◌∷◌, Option, none, some, some-injective, arith, if◌then◌else◌,
  Bool-cases, &&_iff, false-ne-true, length, Text, Error, error_eq, other, Result, ok, err,
  >>=-eq-ok, ok-injective,
}
use cross_border_ecommerce.Product.Metrics.{BatchMetrics}
use cross_border_ecommerce.Product.Canonical.{NormalizedProduct}
use cross_border_ecommerce.Product.Batch.Grouping.{BatchIncomingRecord}
use cross_border_ecommerce.Product.Batch.Fold.{decide_batch}
use cross_border_ecommerce.Product.Batch.Outcome.{decide_batch-IsAccounted}
use cross_border_ecommerce.Ingestion.RawRecord.{RawRecord}
use cross_border_ecommerce.Processing.Row.{
  ProcessingStatus, RunProcessing, running, completed, is_running, is_held_by, update_progress,
}
use cross_border_ecommerce.Processing.Keyset.{Stored, after}
use cross_border_ecommerce.Processing.Run.{
  World, ProcessRunOptions, Row, Call, progressing, matched, answer, exec, is_conflict, collected,
  normalize_page, apply_page, fault_of, progress_result, in_transaction, check_budget,
  after_attempt, process_page,
}
use cross_border_ecommerce.Processing.Run.Counts.{IsCounted, AllCounted, Holds, AreFair, Local}

-- The metrics of a page count each of its records once.
pub record IsTally (total : ℕ) (m : BatchMetrics) : Type 0 where
  pub all : m.seen ≡ total
  pub once : m.new + m.changed + m.unchanged + m.failures ≡ total

length-collected :
    (w : World) (run_id : Text) (r : RawRecord) (p : Option NormalizedProduct)
    (x : List BatchIncomingRecord × ℕ)
    → length (collected w run_id r p x).0 + (collected w run_id r p x).1 ≡ suc (length x.0 + x.1)
length-collected w run_id r none (valid, failures) = omega arith
length-collected w run_id r (some p) (valid, failures) = omega arith

-- Each record of a page is normalised or a failure.
pub length-normalize_page :
    (w : World) (run_id : Text) (rs : List Stored)
    → length (normalize_page w run_id rs).0 + (normalize_page w run_id rs).1 ≡ length rs
unfolding normalize_page
length-normalize_page w run_id [] = omega arith
length-normalize_page w run_id (r ∷ rs) = omega (
  arith,
  length-collected w run_id r.record_ (w.normalize r.record_) (normalize_page w run_id rs),
  length-normalize_page w run_id rs,
)

apply_page-IsTally :
    (w : World) (page attempt : ℕ) (valid : List BatchIncomingRecord) (total failures : ℕ)
    (m : BatchMetrics)
    → length valid + failures ≡ total
    → apply_page w page attempt valid total failures ≡ ok m
    → IsTally total m
unfolding apply_page
apply_page-IsTally w page attempt [] total failures m e h =
    subst (IsTally total) (ok-injective h) (record { all = refl; once = omega arith })
apply_page-IsTally w page attempt (r ∷ rs) total failures m e h =
    let (snapshots, e1, h1) = >>=-eq-ok (w.snapshots page attempt) _ h in
    let (plan, e2, h2) =
      >>=-eq-ok
        (decide_batch w.codec (w.generate page attempt) snapshots (r ∷ rs)
          (w.now (progressing page attempt)))
        _ h1 in
    let (u, e3, h3) = >>=-eq-ok (fault_of (w.apply_fault page attempt)) _ h2 in
    let (v, e4, h4) = >>=-eq-ok (fault_of (w.events_fault page attempt)) _ h3 in
    let accounted = decide_batch-IsAccounted w.codec _ snapshots (r ∷ rs) _ plan e2 in
    subst (IsTally total) (ok-injective h4)
      (record { all = refl; once = omega (arith, accounted.all_handled) })

if_true :
    {x y : RunProcessing} (b : Bool) → (if b then some x else none) ≡ some y → (b ≡ true) × (x ≡ y)
if_true true h = (refl, some-injective h)
if_true false h = cc

running-ne-completed : (s : ProcessingStatus) → is_running s ≡ true → s ≢ completed
running-ne-completed ProcessingStatus.pending h e = cc
running-ne-completed running h e = cc
running-ne-completed completed h e = cc
running-ne-completed ProcessingStatus.failed h e = cc

lost-ne-conflict : (n : ℕ) → is_conflict (other n) ≡ false
unfolding error_eq decide
lost-ne-conflict n = refl

module _ (w : World) (o : ProcessRunOptions) (run_id token : Text) (fair : AreFair w token) where
  -- Where the loop's cursor goes, and what it leaves behind the page.
  abbrev Moves : Option ℕ → ℕ → ℕ → Type 0
  Moves cursor last total =
      length (after (some last) w.records) + total ≡ length (after cursor w.records)

  update_progress-IsCounted :
      (now : ℕ) (m : BatchMetrics) (last lease : ℕ) (cursor : Option ℕ) (total : ℕ)
      (r r' : RunProcessing)
      → IsTally total m
      → Moves cursor last total
      → IsCounted w.records r
      → (is_held_by token r.claim_token ≡ true → r.cursor_raw_record_id ≡ cursor)
      → update_progress now token m last lease r ≡ some r'
      → IsCounted w.records r' × (r'.cursor_raw_record_id ≡ some last)
  unfolding update_progress
  update_progress-IsCounted now m last lease cursor total r r' t v c l h =
      let (g, e) = if_true (is_running r.status && is_held_by token r.claim_token) h in
      let (a, b) = (&&_iff (is_running r.status) (is_held_by token r.claim_token)).0 g in
      let seen' = rw (l b) at c.seen in
      subst (λ x. IsCounted w.records x × (x.cursor_raw_record_id ≡ some last)) e
        (
          record {
            seen = omega (arith, t.all, v, seen');
            handled = omega (arith, t.all, t.once, c.handled);
            done = λ d. absurd (running-ne-completed r.status a d);
          },
          refl,
        )

  -- What a transaction leaves: right counters, and the cursor behind the page where it succeeds, or
  -- the one before it where it ends in a conflict.
  abbrev pub Leaves : Option ℕ → ℕ → Result RunProcessing × Row → Type 0
  Leaves cursor last (ok r, s) = AllCounted w.records s × Local token (some last) s
  Leaves cursor last (err e, s) =
      AllCounted w.records s × (is_conflict e ≡ true → Local token cursor s)

  pub Local-others :
      (call : Call) (cursor : Option ℕ) (s : Row)
      → Local token cursor s
      → Local token cursor (w.others call s)
  Local-others call cursor s l = held_lem (w.others call s) refl
    where
      held_lem : (s' : Row) → w.others call s ≡ s' → Local token cursor s'
      held_lem none e = tt
      held_lem (some r) e = λ h.
          let e' : s ≡ some r = sym (fair.apart call s (subst (Holds token) (sym e) h)) ∙ e in
          (subst (Local token cursor) e' l) h

  answered-Leaves :
      (fault : Fault) (cursor : Option ℕ) (last : ℕ) (s : Row) (changed : Option RunProcessing)
      → AllCounted w.records s
      → Local token cursor s
      → AllCounted w.records changed
      → ((r : RunProcessing) → changed ≡ some r → r.cursor_raw_record_id ≡ some last)
      → Leaves cursor last (progress_result w o run_id token (answer fault s changed))
  unfolding answer
  answered-Leaves works cursor last s none a l b c = (a, λ h. l)
  answered-Leaves works cursor last s (some r) a l b c = (b, λ h. c r refl)
  answered-Leaves (fails e) cursor last s changed a l b c = (a, λ h. l)
  answered-Leaves (loses n) cursor last s none a l b c = (a, λ h. l)
  answered-Leaves (loses n) cursor last s (some r) a l b c =
      (b, λ h. absurd (false-ne-true (sym (lost-ne-conflict n) ∙ h)))

  module _ (m : BatchMetrics) (now last lease : ℕ) (cursor : Option ℕ) (total : ℕ)
      (t : IsTally total m) (v : Moves cursor last total) where
    abbrev IsUpdated : Option RunProcessing → Type 0
    IsUpdated changed =
        AllCounted w.records changed
        × ((r : RunProcessing) → changed ≡ some r → r.cursor_raw_record_id ≡ some last)

    changed-IsUpdated :
        (r : RunProcessing) (changed : Option RunProcessing)
        → IsCounted w.records r
        → Local token cursor (some r)
        → update_progress now token m last lease r ≡ changed
        → IsUpdated changed
    changed-IsUpdated r none a l e = (tt, λ r' h. cc)
    changed-IsUpdated r (some r') a l e =
        let (c, k) = update_progress-IsCounted now m last lease cursor total r r' t v a l e in
        (c, λ r'' h. subst (λ x. x.cursor_raw_record_id ≡ some last) (some-injective h) k)

    matched-IsUpdated :
        (s : Row)
        → AllCounted w.records s
        → Local token cursor s
        → IsUpdated (matched (update_progress now token m last lease) s)
    matched-IsUpdated none a l = (tt, λ r h. cc)
    matched-IsUpdated (some r) a l = changed-IsUpdated r _ a l refl

  in_transaction-Leaves :
      (page attempt last total : ℕ) (cursor : Option ℕ) (result : Result BatchMetrics) (s : Row)
      → ((m : BatchMetrics) → result ≡ ok m → IsTally total m)
      → Moves cursor last total
      → AllCounted w.records s
      → Local token cursor s
      → Leaves cursor last (in_transaction w o run_id token page attempt last result s)
  unfolding in_transaction exec
  in_transaction-Leaves page attempt last total cursor (err e) s t v a l = (a, λ h. l)
  in_transaction-Leaves page attempt last total cursor (ok m) s t v a l =
      let call = progressing page attempt in
      let a' = fair.keep call s a in
      let l' = Local-others call cursor s l in
      let (b, c) =
        matched-IsUpdated m (w.now call) last o.lease_duration cursor total (t m refl) v
          (w.others call s) a' l' in
      answered-Leaves (w.fault call) cursor last (w.others call s) _ a' l' b c

  -- What a page leaves.
  abbrev pub IsLeft : ℕ → Result RunProcessing × Row → Type 0
  IsLeft last (ok r, s) = AllCounted w.records s × Local token (some last) s
  IsLeft last (err e, s) = AllCounted w.records s

  checked-IsLeft :
      (last : ℕ) (r : RunProcessing) (s : Row)
      → AllCounted w.records s × Local token (some last) s
      → IsLeft last (check_budget w o run_id token r, s)
  unfolding check_budget
  checked-IsLeft last r s h = elim (Bool-cases (w.over_budget r.metrics.seen r.metrics.failures)) [
    | inl b ↦ rw b h.0
    | inr b ↦ rw b h
  ]

  after_attempt-IsLeft :
      (cursor : Option ℕ) (last : ℕ) (next : Error → Row → Result RunProcessing × Row)
      (result : Result RunProcessing × Row)
      → ((e : Error) (s : Row)
          → AllCounted w.records s
          → Local token cursor s
          → IsLeft last (next e s))
      → Leaves cursor last result
      → IsLeft last (after_attempt w o run_id token next result)
  unfolding after_attempt
  after_attempt-IsLeft cursor last next (ok r, s) f h = checked-IsLeft last r s h
  after_attempt-IsLeft cursor last next (err e, s) f h = elim (Bool-cases (is_conflict e)) [
    | inl b ↦ rw b (f e s h.0 (h.1 b))
    | inr b ↦ rw b h.0
  ]

  -- A page keeps the counters right, and moves the cursor where it succeeds, however often it is tried.
  pub process_page-IsLeft :
      (page : ℕ) (valid : List BatchIncomingRecord) (total failures last left attempt : ℕ)
      (cursor : Option ℕ) (conflict : Error) (s : Row)
      → length valid + failures ≡ total
      → Moves cursor last total
      → AllCounted w.records s
      → Local token cursor s
      → IsLeft last
          (process_page w o run_id token page valid total failures last left attempt conflict s)
  unfolding process_page
  process_page-IsLeft page valid total failures last zero attempt cursor conflict s e v a l = a
  process_page-IsLeft page valid total failures last (suc left) attempt cursor conflict s e v a l =
      after_attempt-IsLeft cursor last _ _
        (λ e' s' a' l'.
          process_page-IsLeft page valid total failures last left (suc attempt) cursor e' s' e v a'
            l')
        (in_transaction-Leaves page attempt last total cursor _ s
          (λ m h. apply_page-IsTally w page attempt valid total failures m e h) v a l)
