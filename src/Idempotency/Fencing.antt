-- ===== src/Idempotency/Fencing.antt =====
-- Leases and their tokens (internal/infrastructure/postgres/queries/idempotency_keys.sql).
use cross_border_ecommerce.Base.{
  ℕ, ◌+◌, ◌*◌, ◌≡◌, ◌≢◌, refl, ◌↔◌, inl, inr, Bool, true, false, ◌&&◌, List, [], ◌∷◌, Option, none,
  some, All, Bool-cases, Text, text_eq, text_eq→eq, text_eq_refl,
}
use cross_border_ecommerce.Idempotency.Store.{
  RowStatus, in_progress, completed, Row, can_reclaim, claimed_row, completed_row, released_row,
  is_in_progress, has_token, is_expired,
}
use cross_border_ecommerce.Idempotency.Table.{
  Statement, claim, complete, release, step, run, IsRow, IsLease,
}

is_in_progress-true : (s : RowStatus) → is_in_progress s ≡ true → s ≡ in_progress
is_in_progress-true in_progress h = refl
is_in_progress-true completed h = cc

both : (a b : Bool) → (a && b) ≡ true → (a ≡ true) × (b ≡ true)
both true true h = (refl, refl)
both true false h = cc
both false b h = cc

pub can_reclaim-true :
    (r : Row) (hash : Text) (now : ℕ)
    → can_reclaim r hash now ≡ true
    → (r.status ≡ in_progress)
      × ((is_expired r.lease_expires_at now ≡ true) × (r.payload_hash ≡ hash))
unfolding can_reclaim
can_reclaim-true r hash now h =
    let (e, w) = both (is_in_progress r.status) _ h in
    let (e', e'') = both (is_expired r.lease_expires_at now) _ w in
    (is_in_progress-true r.status e, (e', text_eq→eq r.payload_hash hash e''))

IsLease-renewed :
    (s : RowStatus) (token : Option Text) (expires finished_at : Option ℕ) (t : Text) (at : ℕ)
    → s ≡ in_progress
    → IsLease s token expires finished_at
    → IsLease s (some t) (some at) finished_at
IsLease-renewed in_progress token expires finished_at t at e h = ((λ e'. cc), ((λ e'. cc), h.1.1))
IsLease-renewed completed token expires finished_at t at e h = cc

IsLease-expired :
    (s : RowStatus) (token : Option Text) (expires finished_at : Option ℕ) (at : ℕ)
    → s ≡ in_progress
    → IsLease s token expires finished_at
    → IsLease s token (some at) finished_at
IsLease-expired in_progress token expires finished_at at e h = (h.0, ((λ e'. cc), h.1.1))
IsLease-expired completed token expires finished_at at e h = cc

IsRow-step : (s : Statement) (now : ℕ) (row : Option Row) → IsRow row → IsRow (step (s, now) row)
unfolding step claimed_row completed_row released_row
IsRow-step (claim hash token lease_ms) now none h = ((λ e. cc), ((λ e. cc), refl))
IsRow-step (claim hash token lease_ms) now (some r) h = elim (Bool-cases (can_reclaim r hash now)) [
  | inl e ↦ rw e (
      IsLease-renewed r.status r.lease_token r.lease_expires_at r.completed_at token
        (now + lease_ms * 1000) ((can_reclaim-true r hash now e).0) h)
  | inr e ↦ rw e h
]
IsRow-step (complete token) now none h = tt
IsRow-step (complete token) now (some r) h =
    elim (Bool-cases (has_token r.lease_token token && is_in_progress r.status)) [
      | inl e ↦ rw e (refl, (refl, λ e'. cc))
      | inr e ↦ rw e h
    ]
IsRow-step (release token) now none h = tt
IsRow-step (release token) now (some r) h =
    elim (Bool-cases (has_token r.lease_token token && is_in_progress r.status)) [
      | inl e ↦ rw e (
          IsLease-expired r.status r.lease_token r.lease_expires_at r.completed_at now
            (is_in_progress-true r.status ((both (has_token r.lease_token token) _ e).1)) h)
      | inr e ↦ rw e h
    ]

-- A row stays well formed under every sequence of statements: in progress it has a lease token, an
-- expiry and no instant of completion, and completed it has the instant and no lease.
pub run-IsRow : (ss : List (Statement × ℕ)) (row : Option Row) → IsRow row → IsRow (run ss row)
unfolding run
run-IsRow [] row h = h
run-IsRow (s ∷ ss) row h = run-IsRow ss (step s row) (IsRow-step s.0 s.1 row h)

-- A claim is granted over an existing row exactly if the row is in progress, its lease has run out, and
-- it was made for the same payload.
pub claimed_row_iff :
    (r : Row) (hash token : Text) (lease_ms now : ℕ)
    → (claimed_row (some r) hash token lease_ms now ≢ none) ↔ (
        (r.status ≡ in_progress)
        × ((is_expired r.lease_expires_at now ≡ true) × (r.payload_hash ≡ hash)))
unfolding claimed_row can_reclaim
claimed_row_iff r hash token lease_ms now = (
  λ n. elim (Bool-cases (can_reclaim r hash now)) [
    | inl e ↦ can_reclaim-true r hash now e
    | inr e ↦ elim (n (rw e refl)) [ ]
  ],
  λ h. rw (h.0, h.1.0, h.1.1) (rw (text_eq_refl hash) (λ e. cc)),
)

-- The row's lease belongs to another token, if to any.
abbrev pub IsNotHeldBy : Text → Option Row → Type 0
IsNotHeldBy token none = Unit
IsNotHeldBy token (some r) = has_token r.lease_token token ≡ false

-- No statement of the sequence claims with the token.
abbrev pub ClaimsOtherwise : Text → Statement × ℕ → Type 0
ClaimsOtherwise token (claim hash t lease_ms, now) = text_eq t token ≡ false
ClaimsOtherwise token (complete t, now) = Unit
ClaimsOtherwise token (release t, now) = Unit

IsNotHeldBy-step :
    (token : Text) (s : Statement) (now : ℕ) (row : Option Row)
    → ClaimsOtherwise token (s, now)
    → IsNotHeldBy token row
    → IsNotHeldBy token (step (s, now) row)
unfolding step claimed_row completed_row released_row
IsNotHeldBy-step token (claim hash t lease_ms) now none o h = o
IsNotHeldBy-step token (claim hash t lease_ms) now (some r) o h =
    elim (Bool-cases (can_reclaim r hash now)) [ inl e ↦ rw e o | inr e ↦ rw e h ]
IsNotHeldBy-step token (complete t) now none o h = tt
IsNotHeldBy-step token (complete t) now (some r) o h =
    elim (Bool-cases (has_token r.lease_token t && is_in_progress r.status)) [
      | inl e ↦ rw e refl
      | inr e ↦ rw e h
    ]
IsNotHeldBy-step token (release t) now none o h = tt
IsNotHeldBy-step token (release t) now (some r) o h =
    elim (Bool-cases (has_token r.lease_token t && is_in_progress r.status)) [
      | inl e ↦ rw e h
      | inr e ↦ rw e h
    ]

run-IsNotHeldBy :
    (token : Text) (ss : List (Statement × ℕ)) (row : Option Row)
    → All (ClaimsOtherwise token) ss
    → IsNotHeldBy token row
    → IsNotHeldBy token (run ss row)
unfolding run
run-IsNotHeldBy token [] row o h = h
run-IsNotHeldBy token (s ∷ ss) row o h =
    run-IsNotHeldBy token ss (step s row) o.1 (IsNotHeldBy-step token s.0 s.1 row o.0 h)

completed_row-not_held :
    (token : Text) (now : ℕ) (row : Option Row)
    → IsNotHeldBy token row
    → completed_row row token now ≡ none
unfolding completed_row
completed_row-not_held token now none h = refl
completed_row-not_held token now (some r) h = rw h refl

-- Fencing: a holder whose lease another token has taken over can complete the key no more. Whatever
-- statements follow, as long as none claims with its token again, its CompleteIdempotencyKey writes no
-- row.
pub fenced :
    (token : Text) (ss : List (Statement × ℕ)) (row : Option Row) (now : ℕ)
    → IsNotHeldBy token row
    → All (ClaimsOtherwise token) ss
    → completed_row (run ss row) token now ≡ none
fenced token ss row now h o =
    completed_row-not_held token now (run ss row) (run-IsNotHeldBy token ss row o h)
