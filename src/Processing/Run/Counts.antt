-- ===== src/Processing/Run/Counts.antt =====
-- What the statements of ProcessRun keep of the row (internal/application/product/process_run.go).
use cross_border_ecommerce.Base.{
  Fault, works, fails, loses, ℕ, ◌+◌, ◌≡◌, ◌≢◌, refl, subst, Bool, true, false, List, Option, none,
  some, some-injective, arith, if◌then◌else◌, length, Text,
}
use cross_border_ecommerce.Processing.Row.{
  RunProcessing, running, completed, is_held_by, claim_specific, claim_next, release_claim,
  fail_processing, reset_from_start, ensure_exists, fresh_row, leased,
}
use cross_border_ecommerce.Processing.Keyset.{Stored, after}
use cross_border_ecommerce.Processing.Run.{World, Row, Call, matched, answer, exec, ensure_row}

-- The counters of a row and its cursor agree: each raw record up to the cursor was seen, and counted
-- once as new, changed, unchanged or failed; where the row is completed, that is every record.
pub record IsCounted (records : List Stored) (r : RunProcessing) : Type 0 where
  pub seen : r.metrics.seen + length (after r.cursor_raw_record_id records) ≡ length records
  pub handled :
      r.metrics.new + r.metrics.changed + r.metrics.unchanged + r.metrics.failures ≡ r.metrics.seen
  pub done : r.status ≡ completed → r.metrics.seen ≡ length records

abbrev pub AllCounted : List Stored → Row → Type 0
AllCounted records none = Unit
AllCounted records (some r) = IsCounted records r

-- The row is under the token.
abbrev pub Holds : Text → Row → Type 0
Holds token none = ⊥
Holds token (some r) = is_held_by token r.claim_token ≡ true

-- What the others may do: they keep the counters right, and leave a row alone that is under the token.
pub record AreFair (w : World) (token : Text) : Type 0 where
  pub keep :
      (call : Call) (s : Row) → AllCounted w.records s → AllCounted w.records (w.others call s)
  pub apart : (call : Call) (s : Row) → Holds token (w.others call s) → w.others call s ≡ s

-- Where the row is still under the token, its cursor is the one of the loop.
abbrev pub Local : Text → Option ℕ → Row → Type 0
Local token cursor none = Unit
Local token cursor (some r) =
    is_held_by token r.claim_token ≡ true → r.cursor_raw_record_id ≡ cursor

-- A statement that keeps the counters of a row right.
abbrev pub Keeps : List Stored → (RunProcessing → Option RunProcessing) → Type 0
Keeps records f =
    (r r' : RunProcessing) → IsCounted records r → f r ≡ some r' → IsCounted records r'

running-ne-completed : running ≢ completed
running-ne-completed h = cc

if_some : {x y : RunProcessing} (b : Bool) → (if b then some x else none) ≡ some y → x ≡ y
if_some true h = some-injective h
if_some false h = cc

module _ (records : List Stored) where
  fresh_row-IsCounted : IsCounted records fresh_row
  unfolding after
  fresh_row-IsCounted = record { seen = omega arith; handled = omega arith; done = λ h. cc }

  leased-IsCounted :
      (now : ℕ) (token : Text) (lease : ℕ) (r : RunProcessing)
      → IsCounted records r
      → IsCounted records (leased now token lease r)
  leased-IsCounted now token lease r c = record {
    seen = c.seen;
    handled = c.handled;
    done = λ h. absurd (running-ne-completed h);
  }

  pub claim_specific-Keeps :
      (now : ℕ) (token : Text) (lease : ℕ) → Keeps records (claim_specific now token lease)
  unfolding claim_specific
  claim_specific-Keeps now token lease r r' c h =
      subst (IsCounted records) (if_some _ h) (leased-IsCounted now token lease r c)

  pub claim_next-Keeps :
      (now : ℕ) (token : Text) (lease : ℕ) → Keeps records (claim_next now token lease)
  unfolding claim_next
  claim_next-Keeps now token lease r r' c h =
      subst (IsCounted records) (if_some _ h) (leased-IsCounted now token lease r c)

  pub release_claim-Keeps : (token : Text) → Keeps records (release_claim token)
  unfolding release_claim
  release_claim-Keeps token r r' c h = ground arith

  pub fail_processing-Keeps : (token : Text) → Keeps records (fail_processing token)
  unfolding fail_processing
  fail_processing-Keeps token r r' c h = ground arith

  pub reset_from_start-Keeps : (now : ℕ) → Keeps records (reset_from_start now)
  unfolding reset_from_start
  reset_from_start-Keeps now r r' c h = ground (arith, fresh_row-IsCounted)

module _ (w : World) (token : Text) (fair : AreFair w token) where
  answer-AllCounted :
      (fault : Fault) (s : Row) (changed : Option RunProcessing)
      → AllCounted w.records s
      → AllCounted w.records changed
      → AllCounted w.records (answer fault s changed).1
  unfolding answer
  answer-AllCounted works s none a b = a
  answer-AllCounted works s (some r) a b = b
  answer-AllCounted (fails e) s changed a b = a
  answer-AllCounted (loses n) s none a b = a
  answer-AllCounted (loses n) s (some r) a b = b

  pub matched-AllCounted :
      (f : RunProcessing → Option RunProcessing) (s : Row)
      → Keeps w.records f
      → AllCounted w.records s
      → AllCounted w.records (matched f s)
  matched-AllCounted f none k a = tt
  matched-AllCounted f (some r) k a = changed_lem (f r) refl
    where
      changed_lem : (o : Option RunProcessing) → f r ≡ o → AllCounted w.records o
      changed_lem none e = tt
      changed_lem (some r') e = k r r' a e

  -- A statement that keeps the counters keeps them wherever it stands and however it fares.
  pub exec-AllCounted :
      (call : Call) (f : RunProcessing → Option RunProcessing) (s : Row)
      → Keeps w.records f
      → AllCounted w.records s
      → AllCounted w.records (exec w call f s).1
  unfolding exec
  exec-AllCounted call f s k a =
      let a' = fair.keep call s a in
      answer-AllCounted (w.fault call) (w.others call s) _ a'
        (matched-AllCounted f (w.others call s) k a')

  pub ensure_row-AllCounted :
      (s : Row) → AllCounted w.records s → AllCounted w.records (ensure_row w s).1
  unfolding ensure_row
  ensure_row-AllCounted s a =
      let a' = fair.keep Call.ensuring s a in
      answer-AllCounted (w.fault Call.ensuring) (w.others Call.ensuring s) _ a'
        (ensured (w.others Call.ensuring s) a')
    where
      ensured : (s' : Row) → AllCounted w.records s' → AllCounted w.records (ensure_exists s')
      ensured none a' = unfold ensure_exists in fresh_row-IsCounted w.records
      ensured (some r) a' = unfold ensure_exists in a'
