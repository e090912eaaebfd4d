-- ===== src/Idempotency/Leases.antt =====
-- How long a lease excludes others (internal/infrastructure/postgres/queries/idempotency_keys.sql).
use cross_border_ecommerce.Base.{
  ℕ, ◌+◌, ◌*◌, ◌<◌, ◌≡◌, ◌≢◌, refl, ap, ◌∙◌, subst, arith, leb, some-injective, inl, inr, false,
  List, [], ◌∷◌, Option, none, some, All, Bool-cases, Text, text_eq,
}
use cross_border_ecommerce.Idempotency.Store.{
  in_progress, Row, can_reclaim, claimed_row, completed_row, released_row, has_token, is_expired,
}
use cross_border_ecommerce.Idempotency.Table.{Statement, claim, complete, release, step, run}
use cross_border_ecommerce.Idempotency.Fencing.{can_reclaim-true}

-- A lease that runs: who holds it and until when.
pub record IsLeased (token : Text) (deadline : ℕ) (r : Row) : Type 0 where
  pub active : r.status ≡ in_progress
  pub held : r.lease_token ≡ some token
  pub until : r.lease_expires_at ≡ some deadline

-- A statement that the holder of a lease does not make, at an instant before the deadline.
abbrev pub IsForeign : Text → ℕ → Statement × ℕ → Type 0
IsForeign token deadline (claim hash t lease_ms, now) = (now < deadline)
IsForeign token deadline (complete t, now) = (text_eq token t ≡ false)
IsForeign token deadline (release t, now) = (text_eq token t ≡ false)

other_token :
    (lease : Option Text) (token t : Text)
    → lease ≡ some token
    → text_eq token t ≡ false
    → has_token lease t ≡ false
other_token lease token t e n = ap (λ lease. has_token lease t) e ∙ n

not_expired :
    (lease : Option ℕ) (deadline now : ℕ)
    → lease ≡ some deadline
    → now < deadline
    → is_expired lease now ≡ false
not_expired none deadline now e h = cc
not_expired (some at) deadline now e h =
    ap (λ at. leb at now) (some-injective e) ∙ later deadline now h
  where
    later : (a b : ℕ) → b < a → leb a b ≡ false
    later a b h = ground arith

foreign-step :
    (token : Text) (deadline : ℕ) (s : Statement) (now : ℕ) (r : Row)
    → IsLeased token deadline r
    → IsForeign token deadline (s, now)
    → step (s, now) (some r) ≡ some r
unfolding step claimed_row can_reclaim completed_row released_row
foreign-step token deadline (claim hash t lease_ms) now r l f =
    rw (l.active, not_expired r.lease_expires_at deadline now l.until f) refl
foreign-step token deadline (complete t) now r l f =
    rw (other_token r.lease_token token t l.held f) refl
foreign-step token deadline (release t) now r l f =
    rw (other_token r.lease_token token t l.held f) refl

leased-run :
    (token : Text) (deadline : ℕ) (ss : List (Statement × ℕ)) (r : Row)
    → IsLeased token deadline r
    → All (IsForeign token deadline) ss
    → run ss (some r) ≡ some r
unfolding run
leased-run token deadline [] r l f = refl
leased-run token deadline (s ∷ ss) r l f =
    rw (foreign-step token deadline s.0 s.1 r l f.0) (leased-run token deadline ss r l f.1)

none-ne-some : {r : Row} → none ≢ some r
none-ne-some h = cc

claimed-IsLeased :
    (row : Option Row) (hash token : Text) (lease_ms now : ℕ) (r : Row)
    → claimed_row row hash token lease_ms now ≡ some r
    → IsLeased token (now + lease_ms * 1000) r
unfolding claimed_row
claimed-IsLeased none hash token lease_ms now r h =
    subst (IsLeased token (now + lease_ms * 1000)) (some-injective h)
      (record { active = refl; held = refl; until = refl })
claimed-IsLeased (some o) hash token lease_ms now r h = elim (Bool-cases (can_reclaim o hash now)) [
  | inl e ↦
      subst (IsLeased token (now + lease_ms * 1000)) (some-injective (rw e at h))
        (record { active = (can_reclaim-true o hash now e).0; held = refl; until = refl })
  | inr e ↦ absurd (none-ne-some (rw e at h))
]

-- A claim that is granted excludes all others until its lease runs out: whatever sequence of claims, of
-- completions and releases under other tokens follows, at instants before the claim's own plus its
-- lease, the row stays exactly as the claim wrote it, in progress and under its token.
pub claim-excludes :
    (row : Option Row) (hash token : Text) (lease_ms now : ℕ) (r : Row) (ss : List (Statement × ℕ))
    → claimed_row row hash token lease_ms now ≡ some r
    → All (IsForeign token (now + lease_ms * 1000)) ss
    → (run ss (some r) ≡ some r) × IsLeased token (now + lease_ms * 1000) r
claim-excludes row hash token lease_ms now r ss h f =
    let l = claimed-IsLeased row hash token lease_ms now r h in
    (leased-run token (now + lease_ms * 1000) ss r l f, l)
