-- ===== src/Idempotency/Table.antt =====
-- The life of one row of idempotency_keys under the statements of internal/infrastructure/postgres/
-- queries/idempotency_keys.sql, which sessions interleave in any order.
use cross_border_ecommerce.Base.{
  ℕ, ◌+◌, ◌≤◌, ◌≡◌, ◌≢◌, refl, ◌⊎◌, inl, inr, ◌&&◌, List, [], ◌∷◌, Option, none, some, arith,
  Bool-cases, Text,
}
use cross_border_ecommerce.Idempotency.Store.{
  RowStatus, in_progress, completed, Row, can_reclaim, claimed_row, completed_row, released_row,
  is_in_progress, has_token,
}

pub data Statement : Type 0 where
  claim : Text → Text → ℕ → Statement
  complete : Text → Statement
  release : Text → Statement

-- The row that a statement writes at an instant.
abbrev pub written : Statement → ℕ → Option Row → Option Row
written (claim hash token lease_ms) now row = claimed_row row hash token lease_ms now
written (complete token) now row = completed_row row token now
written (release token) now row = released_row row token now

abbrev or_else : Option Row → Option Row → Option Row
or_else none row = row
or_else (some r) row = some r

unfoldable pub step : Statement × ℕ → Option Row → Option Row
step s row = or_else (written s.0 s.1 row) row

unfoldable pub run : List (Statement × ℕ) → Option Row → Option Row
run [] row = row
run (s ∷ ss) row = run ss (step s row)

-- 1 for a CompleteIdempotencyKey that writes its row.
abbrev pub is_completion : Statement → Option Row → ℕ
is_completion (complete token) (some r) = 1
is_completion (complete token) none = 0
is_completion (claim hash token lease_ms) o = 0
is_completion (release token) o = 0

unfoldable pub completions : List (Statement × ℕ) → Option Row → ℕ
completions [] row = 0
completions (s ∷ ss) row = is_completion s.0 (written s.0 s.1 row) + completions ss (step s row)

abbrev pub IsLease : RowStatus → Option Text → Option ℕ → Option ℕ → Type 0
IsLease in_progress token expires finished_at =
    (token ≢ none) × ((expires ≢ none) × (finished_at ≡ none))
IsLease completed token expires finished_at =
    (token ≡ none) × ((expires ≡ none) × (finished_at ≢ none))

-- A row in progress is leased and not completed; a completed row has no lease and its instant.
abbrev pub IsRow : Option Row → Type 0
IsRow none = Unit
IsRow (some r) = IsLease r.status r.lease_token r.lease_expires_at r.completed_at

abbrev pub IsCompleted : Option Row → Type 0
IsCompleted none = ⊥
IsCompleted (some r) = (r.status ≡ completed)

-- A completed row is not written again.
completed-written :
    (s : Statement) (now : ℕ) (row : Option Row) → IsCompleted row → written s now row ≡ none
unfolding claimed_row can_reclaim completed_row released_row
completed-written s now none h = elim h [ ]
completed-written (claim hash token lease_ms) now (some r) h = rw h refl
completed-written (complete token) now (some r) h =
    elim (Bool-cases (has_token r.lease_token token)) [ inl e ↦ rw (e, h) refl | inr e ↦ rw e refl ]
completed-written (release token) now (some r) h =
    elim (Bool-cases (has_token r.lease_token token)) [ inl e ↦ rw (e, h) refl | inr e ↦ rw e refl ]

completed-step : (s : Statement × ℕ) (row : Option Row) → IsCompleted row → step s row ≡ row
unfolding step
completed-step s row h = rw (completed-written s.0 s.1 row h) refl

-- A key that is completed stays exactly as it is: no sequence of claims, completions and releases, by
-- whatever holders and at whatever times, writes its row again.
pub completed-run :
    (ss : List (Statement × ℕ)) (row : Option Row) → IsCompleted row → run ss row ≡ row
unfolding run
completed-run [] row h = refl
completed-run (s ∷ ss) row h = rw (completed-step s row h) (completed-run ss row h)

is_completion-none : (s : Statement) → is_completion s none ≡ 0
is_completion-none (claim hash token lease_ms) = refl
is_completion-none (complete token) = refl
is_completion-none (release token) = refl

is_completion-le-one : (s : Statement) (o : Option Row) → is_completion s o ≤ 1
is_completion-le-one (claim hash token lease_ms) o = omega arith
is_completion-le-one (complete token) none = omega arith
is_completion-le-one (complete token) (some r) = omega arith
is_completion-le-one (release token) o = omega arith

completed-completions :
    (ss : List (Statement × ℕ)) (row : Option Row) → IsCompleted row → completions ss row ≡ 0
unfolding completions
completed-completions [] row h = refl
completed-completions (s ∷ ss) row h =
    rw (completed-written s.0 s.1 row h, completed-step s row h)
      (omega (arith, is_completion-none s.0, completed-completions ss row h))

-- A statement that completes leaves the row completed.
completion-IsCompleted :
    (s : Statement) (now : ℕ) (row : Option Row)
    → (is_completion s (written s now row) ≡ 0) ⊎ IsCompleted (written s now row)
unfolding completed_row
completion-IsCompleted (claim hash token lease_ms) now row = inl refl
completion-IsCompleted (release token) now row = inl refl
completion-IsCompleted (complete token) now none = inl refl
completion-IsCompleted (complete token) now (some r) =
    elim (Bool-cases (has_token r.lease_token token && is_in_progress r.status)) [
      | inl e ↦ inr (rw e refl)
      | inr e ↦ inl (rw e refl)
    ]

or_else-IsCompleted : (o row : Option Row) → IsCompleted o → IsCompleted (or_else o row)
or_else-IsCompleted none row h = elim h [ ]
or_else-IsCompleted (some r) row h = h

-- A key is completed at most once: in any sequence of claims, completions and releases of it, by
-- whatever holders and at whatever times, at most one CompleteIdempotencyKey writes its row.
pub completions-le-one : (ss : List (Statement × ℕ)) (row : Option Row) → completions ss row ≤ 1
unfolding completions step
completions-le-one [] row = omega arith
completions-le-one (s ∷ ss) row = elim (completion-IsCompleted s.0 s.1 row) [
  | inl e ↦ omega (arith, e, completions-le-one ss (step s row))
  | inr h ↦ omega (
    arith,
    is_completion-le-one s.0 (written s.0 s.1 row),
    completed-completions ss (or_else (written s.0 s.1 row) row)
        (or_else-IsCompleted (written s.0 s.1 row) row h),
  )
]
