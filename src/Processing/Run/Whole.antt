-- ===== src/Processing/Run/Whole.antt =====
-- ProcessRun as a whole (internal/application/product/process_run.go).
use cross_border_ecommerce.Base.{
  Fault, works, fails, loses, ℕ, zero, suc, ◌+◌, ◌<◌, ◌≡◌, refl, ◌∙◌, subst, inl, inr, Bool, true,
  false, List, [], ◌∷◌, Option, none, some, some-injective, arith, if◌then◌else◌, Bool-cases,
  length, Text, trim_space, Error, error_eq, other, lease_lost, Result, ok, err,
}
use cross_border_ecommerce.Processing.Row.{
  RunProcessing, completed, is_held_by, complete_processing, reset_from_start,
}
use cross_border_ecommerce.Processing.Keyset.{
  Stored, length-after-le, IsSorted, after, Advances, last_key, list_keyset, list_keyset-Advances,
  list_keyset-nil, length-after-le,
}
use cross_border_ecommerce.Processing.Run.{
  World, ProcessRunOptions, Row, Outcome, Ending, finished, stopped, out_of_fuel, stops, completing,
  claiming, resetting, matched, answer, exec, ensure_row, release_run, fail_run, complete_result,
  complete_run, after_page, list_failed, with_page, with_listing, process_pages, with_mapping,
  with_source, with_claim, claim_run, with_reset, with_row, check_options, process_run,
}
use cross_border_ecommerce.Processing.Run.Counts.{
  IsCounted, AllCounted, AreFair, Local, exec-AllCounted, matched-AllCounted, ensure_row-AllCounted,
  release_claim-Keeps, fail_processing-Keeps, claim_specific-Keeps, reset_from_start-Keeps,
}
use cross_border_ecommerce.Processing.Run.Pages.{
  length-normalize_page, IsLeft, process_page-IsLeft, Local-others,
}

-- A result that is returned is that of the completed row, and counts every raw record of the run once.
abbrev pub IsWhole : List Stored → Ending → Row → Type 0
IsWhole records (finished m) none = ⊥
IsWhole records (finished m) (some r) =
    (r.status ≡ completed)
    × (r.metrics ≡ m)
    × (m.seen ≡ length records)
    × (m.new + m.changed + m.unchanged + m.failures ≡ length records)
IsWhole records (stopped e) s = Unit
IsWhole records out_of_fuel s = ⊥

pub record IsProcessed (records : List Stored) (x : Outcome) : Type 0 where
  pub counted : AllCounted records x.row
  pub whole : IsWhole records x.ending x.row

module _ (w : World) (o : ProcessRunOptions) (run_id token : Text) (fair : AreFair w token)
    (sorted : IsSorted w.records) where
  abbrev Good : Outcome → Type 0
  Good = IsProcessed w.records

  stops-Good : (e : Error) (s : Row) → AllCounted w.records s → Good (stops e s)
  stops-Good e s a = record { counted = a; whole = tt }

  if-Good : (b : Bool) (x y : Outcome) → Good x → Good y → Good (if b then x else y)
  if-Good true x y g h = g
  if-Good false x y g h = h

  released : (s : Row) → AllCounted w.records s → AllCounted w.records (release_run w token s)
  released s a = exec-AllCounted w token fair _ _ s (release_claim-Keeps w.records token) a

  failed : (s : Row) → AllCounted w.records s → AllCounted w.records (fail_run w token s)
  failed s a = exec-AllCounted w token fair _ _ s (fail_processing-Keeps w.records token) a

  answered-Good :
      (fault : Fault) (s : Row) (changed : Option RunProcessing)
      → AllCounted w.records s
      → ((r : RunProcessing) → changed ≡ some r → IsCounted w.records r × (r.status ≡ completed))
      → Good (complete_result w o run_id token (answer fault s changed))
  unfolding answer
  answered-Good works s none a f = stops-Good lease_lost s a
  answered-Good works s (some r) a f =
      let (c, d) = f r refl in
      let n = c.done d in record { counted = c; whole = (d, refl, n, c.handled ∙ n) }
  answered-Good (fails e) s changed a f = stops-Good e s a
  answered-Good (loses n) s none a f = stops-Good (other n) s a
  answered-Good (loses n) s (some r) a f = stops-Good (other n) (some r) (f r refl).0

  completed_row :
      (cursor : Option ℕ) (r r' : RunProcessing)
      → IsCounted w.records r
      → (is_held_by token r.claim_token ≡ true → r.cursor_raw_record_id ≡ cursor)
      → length (after cursor w.records) ≡ 0
      → complete_processing token r ≡ some r'
      → IsCounted w.records r' × (r'.status ≡ completed)
  unfolding complete_processing
  completed_row cursor r r' c l z h = elim (Bool-cases (is_held_by token r.claim_token)) [
    | inl b ↦
        let e = some-injective (rw b at h) in
        let seen' = rw (l b) at c.seen in
        subst (λ x. IsCounted w.records x × (x.status ≡ completed)) e
          (record { seen = c.seen; handled = c.handled; done = λ d. omega (arith, seen', z) }, refl)
    | inr b ↦ cc (rw b at h)
  ]

  completed_rows :
      (cursor : Option ℕ) (s : Row) (r' : RunProcessing)
      → AllCounted w.records s
      → Local token cursor s
      → length (after cursor w.records) ≡ 0
      → matched (complete_processing token) s ≡ some r'
      → IsCounted w.records r' × (r'.status ≡ completed)
  completed_rows cursor none r' a l z h = cc
  completed_rows cursor (some r) r' a l z h = completed_row cursor r r' a l z h

  complete_run-Good :
      (cursor : Option ℕ) (s : Row)
      → AllCounted w.records s
      → Local token cursor s
      → length (after cursor w.records) ≡ 0
      → Good (complete_run w o run_id token s)
  unfolding complete_run exec
  complete_run-Good cursor s a l z =
      let a' = fair.keep completing s a in
      answered-Good (w.fault completing) (w.others completing s) _ a' (λ r h.
        completed_rows cursor (w.others completing s) r a'
          (Local-others w o run_id token fair completing cursor s l) z h)

  after_page-Good :
      (page last : ℕ) (next : Row → Outcome) (result : Result RunProcessing × Row)
      → IsLeft w o run_id token fair last result
      → ((s : Row) → AllCounted w.records s → Local token (some last) s → Good (next s))
      → Good (after_page w o run_id token page next result)
  unfolding after_page
  after_page-Good page last next (ok r, s) h f = f s h.0 h.1
  after_page-Good page last next (err e, s) h f = elim (Bool-cases (w.page_cancelled page)) [
    | inl b ↦ rw b (stops-Good _ _ (released s h))
    | inr b ↦ rw b (elim (Bool-cases (error_eq e lease_lost)) [
      | inl d ↦ rw d (stops-Good e s h)
      | inr d ↦ rw d (stops-Good e _ (failed s h))
    ])
  ]

  list_failed-Good :
      (page : ℕ) (e : Error) (s : Row)
      → AllCounted w.records s
      → Good (list_failed w o run_id token page e s)
  unfolding list_failed
  list_failed-Good page e s a = elim (Bool-cases (w.list_cancelled page)) [
    | inl b ↦ rw b (stops-Good _ _ (released s a))
    | inr b ↦ rw b (stops-Good e _ (failed s a))
  ]

  -- What the rounds behind a page give, where the cursor moved.
  abbrev Continues : Option ℕ → (Option ℕ → Row → Outcome) → Type 0
  Continues cursor next =
      (last : ℕ) (s : Row)
      → length (after (some last) w.records) < length (after cursor w.records)
      → AllCounted w.records s
      → Local token (some last) s
      → Good (next (some last) s)

  with_page-Good :
      (page : ℕ) (cursor : Option ℕ) (next : Option ℕ → Row → Outcome) (rs : List Stored) (s : Row)
      → Advances cursor w.records rs
      → (rs ≡ [] → length (after cursor w.records) ≡ 0)
      → Continues cursor next
      → AllCounted w.records s
      → Local token cursor s
      → Good (with_page w o run_id token page next rs s)
  unfolding with_page
  with_page-Good page cursor next [] s v z f a l = complete_run-Good cursor s a l (z refl)
  with_page-Good page cursor next (r ∷ rs) s v z f a l =
      after_page-Good page (last_key r.key rs) (next (some (last_key r.key rs))) _
        (process_page-IsLeft w o run_id token fair page _ _ _ _ 2 0 cursor (other 0) s
          (length-normalize_page w run_id (r ∷ rs)) v a l)
        (λ s' a' l'. f (last_key r.key rs) s' (omega arith) a' l')

  with_listing-Good :
      (page : ℕ) (cursor : Option ℕ) (next : Option ℕ → Row → Outcome) (fault : Option Error)
      (s : Row)
      → Continues cursor next
      → AllCounted w.records s
      → Local token cursor s
      → Good (
          with_listing w o run_id token page next fault
            (list_keyset cursor o.batch_size w.records)
            s)
  unfolding with_listing
  with_listing-Good page cursor next (some e) s f a l = list_failed-Good page e s a
  with_listing-Good page cursor next none s f a l =
      with_page-Good page cursor next _ s
        (list_keyset-Advances cursor o.batch_size w.records sorted)
        (list_keyset-nil cursor o.batch_size w.records) f a l

  -- With more rounds than records behind the cursor the loop comes to an end.
  process_pages-Good :
      (fuel page : ℕ) (cursor : Option ℕ) (s : Row)
      → length (after cursor w.records) < fuel
      → AllCounted w.records s
      → Local token cursor s
      → Good (process_pages w o run_id token fuel page cursor s)
  unfolding process_pages
  process_pages-Good zero page cursor s h a l = absurd (omega arith)
  process_pages-Good (suc fuel) page cursor s h a l = elim (Bool-cases (w.cancelled page)) [
    | inl b ↦ rw b (stops-Good _ _ (released s a))
    | inr b ↦ rw b (
        with_listing-Good page cursor (process_pages w o run_id token fuel (suc page))
          (w.list_fault page) s
          (λ last s' d a' l'. process_pages-Good fuel (suc page) (some last) s' (omega arith) a' l')
          a l)
  ]

  with_mapping-Good :
      (mapping : Result Bool) (cursor : Option ℕ) (s : Row)
      → AllCounted w.records s
      → Local token cursor s
      → Good (with_mapping w o run_id token mapping cursor s)
  unfolding with_mapping
  with_mapping-Good (err e) cursor s a l = stops-Good e _ (failed s a)
  with_mapping-Good (ok false) cursor s a l = stops-Good _ _ (failed s a)
  with_mapping-Good (ok true) cursor s a l =
      process_pages-Good (suc (length w.records)) 0 cursor s
        (omega (arith, length-after-le cursor w.records)) a l

  with_source-Good :
      (fault : Option Error) (cursor : Option ℕ) (s : Row)
      → AllCounted w.records s
      → Local token cursor s
      → Good (with_source w o run_id token fault cursor s)
  unfolding with_source
  with_source-Good none cursor s a l = with_mapping-Good w.field_mapping cursor s a l
  with_source-Good (some e) cursor s a l =
      if-Good w.source_cancelled _ _ (stops-Good _ _ (released s a)) (stops-Good e _ (failed s a))

  claimed-Good :
      (fault : Fault) (s : Row) (changed : Option RunProcessing)
      → AllCounted w.records s
      → AllCounted w.records changed
      → Good (with_claim w o run_id token (answer fault s changed))
  unfolding with_claim answer
  claimed-Good works s none a b = stops-Good _ s a
  claimed-Good works s (some r) a b =
      with_source-Good w.find_source r.cursor_raw_record_id (some r) b (λ h. refl)
  claimed-Good (fails e) s changed a b = stops-Good e s a
  claimed-Good (loses n) s none a b = stops-Good _ s a
  claimed-Good (loses n) s (some r) a b = stops-Good _ (some r) b

  claim_run-Good : (s : Row) → AllCounted w.records s → Good (claim_run w o run_id token s)
  unfolding claim_run exec
  claim_run-Good s a =
      let a' = fair.keep claiming s a in
      claimed-Good (w.fault claiming) (w.others claiming s) _ a' (
        matched-AllCounted w token fair _ (w.others claiming s)
          (claim_specific-Keeps w.records (w.now claiming) token o.lease_duration) a')

  with_reset-Good :
      (result : Result (Option RunProcessing) × Row)
      → AllCounted w.records result.1
      → Good (with_reset w o run_id token result)
  unfolding with_reset
  with_reset-Good (err e, s) a = stops-Good e s a
  with_reset-Good (ok none, s) a = stops-Good _ s a
  with_reset-Good (ok (some r), s) a = claim_run-Good s a

  with_row-Good :
      (result : Result (Option RunProcessing) × Row)
      → AllCounted w.records result.1
      → Good (with_row w o run_id token result)
  unfolding with_row
  with_row-Good (err e, s) a = stops-Good e s a
  with_row-Good (ok r, s) a =
      if-Good o.from_start _ _
        (with_reset-Good (exec w resetting (reset_from_start (w.now resetting)) s) (
          exec-AllCounted w token fair resetting _ s
            (reset_from_start-Keeps w.records (w.now resetting)) a))
        (claim_run-Good s a)

-- A run is processed in full or not reported: for the raw records of a run in the order of their ids,
-- and a row whose counters are right, ProcessRun comes to an end. Whatever its end is, the counters of
-- the row that is left are right: each record up to its cursor was seen, and counted once as new,
-- changed, unchanged or failed. A result that is returned is that of the row, which is completed,
-- and counts every record of the run once. That holds wherever the processing starts or stops, for
-- pages that are retried, statements that fail, answers that are lost and leases that other workers
-- take over, provided that the others keep the counters right and leave a row alone that is under
-- the token.
pub process_run-IsProcessed :
    (w : World) (o : ProcessRunOptions) (run_id : Text) (s : Row)
    → IsSorted w.records
    → AreFair w (trim_space o.claim_token)
    → AllCounted w.records s
    → IsProcessed w.records (process_run w o run_id s)
unfolding process_run
process_run-IsProcessed w o run_id s sorted fair a = checked (check_options w o run_id)
  where
    token : Text
    token = trim_space o.claim_token

    checked :
        (result : Result (Unit {0}))
        → IsProcessed w.records (elim result [
          | err e ↦ stops e s
          | ok u ↦ with_row w o (trim_space run_id) token (ensure_row w s)
        ])
    checked (err e) = stops-Good w o run_id token fair sorted e s a
    checked (ok u) =
        with_row-Good w o (trim_space run_id) token fair sorted _
          (ensure_row-AllCounted w token fair s a)
