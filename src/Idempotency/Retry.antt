-- ===== src/Idempotency/Retry.antt =====
-- A delivery that fails can be taken up again at once (release and the deferred recovery of
-- internal/application/idempotency/guard.go).
use cross_border_ecommerce.Base.{
  ℕ, ◌≤◌, ◌≡◌, ◌≢◌, refl, sym, ap, ◌∙◌, subst, ◌⊎◌, inl, inr, Bool, true, false, none, some, le→leb,
  Text, text_eq_refl, is_blank, Error, Result, ok, err,
}
use cross_border_ecommerce.Idempotency.Store.{
  Table, Row, in_progress, Session, put, released_row, release_key, claimed_row,
}
use cross_border_ecommerce.Idempotency.Fencing.{claimed_row_iff}
use cross_border_ecommerce.Idempotency.Guard.{Outcome, Delivery, release, settle, after_handler}

-- The handler returned an error or panicked, or it returned nil without a mark.
abbrev pub HasFailed : Outcome → Type 0
HasFailed o = (o.marked ≡ false) ⊎ ((e : Error) × (o.result ≡ err e))

settle-failed :
    (d : Delivery) (scope key token : Text) (table : Table) (marked : Bool)
    (result : Result (Unit {0}))
    → (marked ≡ false) ⊎ ((e : Error) × (result ≡ err e))
    → ((settle d scope key token table marked result).0 ≡ release d scope key token table)
      × ((settle d scope key token table marked result).1 ≢ ok tt)
unfolding settle
settle-failed d scope key token table marked (err e) h = (refl, λ e'. cc)
settle-failed d scope key token table false (ok u) h = (refl, λ e'. cc)
settle-failed d scope key token table true (ok u) (inl h) = cc
settle-failed d scope key token table true (ok u) (inr h) = cc

put-same :
    (scope key : Text) (row : Row) (table : Table) → put scope key row table scope key ≡ some row
unfolding put
put-same scope key row table = rw (text_eq_refl scope, text_eq_refl key) refl

-- A release of a lease that is held ends it at the instant of the release.
release_key-held :
    (db : Session) (scope key token : Text) (table : Table) (r : Row)
    → is_blank scope ≡ false
    → is_blank key ≡ false
    → db.uuid_of token ≡ ok token
    → db.write_fault ≡ none
    → table scope key ≡ some r
    → r.status ≡ in_progress
    → r.lease_token ≡ some token
    → (release_key db scope key token table).0 scope key
      ≡ some (record r { lease_expires_at = some db.now })
unfolding release_key released_row
release_key-held db scope key token table r hs hk hu hf hr hp ht =
    rw (hs, hk, hu, hf, hr) (rw (ht, text_eq_refl token, hp) (put-same scope key _ table))

-- A failed delivery frees its key at once: where the handler fails while its lease is still held, and
-- the release reaches the database, the guard reports the failure, and any claim of the key with the
-- same payload from the instant of the release on is granted, without waiting for the lease to run out.
pub failed-reclaimable :
    (d : Delivery) (scope key token : Text) (o : Outcome) (r : Row) (token' : Text)
    (lease_ms now : ℕ)
    → HasFailed o
    → is_blank scope ≡ false
    → is_blank key ≡ false
    → d.release_session.uuid_of token ≡ ok token
    → d.release_session.write_fault ≡ none
    → o.table scope key ≡ some r
    → r.status ≡ in_progress
    → r.lease_token ≡ some token
    → d.release_session.now ≤ now
    → ((after_handler d scope key token o).1 ≢ ok tt)
      × (claimed_row
            ((after_handler d scope key token o).0 scope key)
            r.payload_hash
            token'
            lease_ms
            now
          ≢ none)
unfolding after_handler
failed-reclaimable d scope key token o r token' lease_ms now f hs hk hu hf hr hp ht hn =
    let (e, n) = settle-failed d scope key token o.table o.marked o.result f in
    (
      n,
      subst (λ x. claimed_row x r.payload_hash token' lease_ms now ≢ none)
          (sym (
            ap (λ t. t scope key) e
            ∙ release_key-held d.release_session scope key token o.table r hs hk hu hf hr hp ht))
          ((claimed_row_iff (record r { lease_expires_at = some d.release_session.now })
              r.payload_hash token' lease_ms now).1
            (hp, (le→leb d.release_session.now now hn, refl))),
    )
