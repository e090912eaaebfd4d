-- ===== src/Idempotency/Protection.antt =====
-- What the guard of internal/application/idempotency/guard.go promises for a delivery.
use cross_border_ecommerce.Base.{
  ℕ, ◌≡◌, ◌≢◌, refl, ap, subst, inl, inr, Bool, true, false, not, Option, none, some, if◌then◌else◌,
  Bool-cases, length, ◌==◌, Text, text_eq, is_blank, sle, Error, Result, ok, err, key_in_progress,
  invalid_scope, invalid_key, invalid_payload_hash, invalid_lease_ttl,
}
use cross_border_ecommerce.Idempotency.Store.{
  Table, Row, RowStatus, in_progress, completed, ClaimStatus, acquired, already_completed, Claim,
  Session, is_in_progress, with_token, claim_key, claim_statement, claim_answer, inspect,
}
use cross_border_ecommerce.Idempotency.Table.{IsCompleted}
use cross_border_ecommerce.Idempotency.Guard.{
  Message, Handler, Guard, Delivery, settle, after_handler, after_claim, with_fresh, guarded,
}

err-ne-ok : (e : Error) (r : Result (Unit {0})) → r ≡ err e → r ≢ ok tt
err-ne-ok e r h h' = cc

-- What a claim that is answered says about the table: the key is completed, or it is this holder's.
abbrev pub ClaimMeans : Text → Text → Table → Claim → ClaimStatus → Type 0
ClaimMeans scope key table claim already_completed = IsCompleted (table scope key)
ClaimMeans scope key table claim acquired = (claim.scope ≡ scope) × (claim.key ≡ key)

-- A handler that marks the claim only where its transaction leaves the key completed.
abbrev pub CompletesWhenMarked : Handler → Type 0
CompletesWhenMarked h =
    (claim : Claim) (msg : Message) (table : Table)
    → (h claim msg table).marked ≡ true
    → (h claim msg table).result ≡ ok tt
    → IsCompleted ((h claim msg table).table claim.scope claim.key)

abbrev pub ResultMeans : Text → Text → Table → Result Claim → Type 0
ResultMeans scope key table (err e) = Unit
ResultMeans scope key table (ok claim) = ClaimMeans scope key table claim claim.status

in_progress-means :
    (scope key : Text) (table : Table) (claim : Claim) (s : RowStatus)
    → claim.status ≡ already_completed
    → (s ≡ completed → IsCompleted (table scope key))
    → ResultMeans scope key table (if is_in_progress s then err key_in_progress else ok claim)
in_progress-means scope key table claim in_progress e k = tt
in_progress-means scope key table claim completed e k = rw e (k refl)

inspect-means :
    (scope key hash : Text) (fault : Option Error) (table : Table) (row : Option Row)
    → row ≡ table scope key
    → ResultMeans scope key table (inspect scope key hash fault row)
inspect-means scope key hash (some e) table row h = tt
inspect-means scope key hash none table none h = tt
inspect-means scope key hash none table (some r) h =
    elim (Bool-cases (text_eq r.payload_hash hash)) [
      | inl e ↦
          rw e (in_progress-means scope key table _ r.status refl (λ c. subst IsCompleted h c))
      | inr e ↦ rw e tt
    ]

claim_answer-means :
    (db : Session) (scope key hash token : Text) (row : Option Row) (table : Table)
    → ResultMeans scope key
        (claim_answer db scope key hash token row table).0
        (claim_answer db scope key hash token row table).1
unfolding claim_answer
claim_answer-means db scope key hash token (some row) table = (refl, refl)
claim_answer-means db scope key hash token none table =
    inspect-means scope key hash db.get_fault (db.meanwhile table) _ refl

claim_statement-means :
    (db : Session) (scope key hash token : Text) (ttl : ℕ) (fault : Option Error) (table : Table)
    → ResultMeans scope key
        (claim_statement db scope key hash token ttl fault table).0
        (claim_statement db scope key hash token ttl fault table).1
unfolding claim_statement
claim_statement-means db scope key hash token ttl (some e) table = tt
claim_statement-means db scope key hash token ttl none table =
    claim_answer-means db scope key hash token _ table

with_token-means :
    (db : Session) (scope key hash : Text) (ttl : ℕ) (token : Result Text) (table : Table)
    → ResultMeans scope key
        (with_token token table
          (λ t. claim_statement db scope key hash t ttl db.claim_fault table)).0
        (with_token token table
          (λ t. claim_statement db scope key hash t ttl db.claim_fault table)).1
with_token-means db scope key hash ttl (err e) table = tt
with_token-means db scope key hash ttl (ok t) table =
    claim_statement-means db scope key hash t ttl db.claim_fault table

if-means :
    (scope key : Text) (b : Bool) (e : Error) (table : Table) (x : Table × Result Claim)
    → ResultMeans scope key x.0 x.1
    → ResultMeans scope key (if b then (table, err e) else x).0 (if b then (table, err e) else x).1
if-means scope key true e table x h = tt
if-means scope key false e table x h = h

claim_key-means :
    (db : Session) (scope key hash token : Text) (ttl : ℕ) (table : Table)
    → ResultMeans scope key
        (claim_key db scope key hash token ttl table).0
        (claim_key db scope key hash token ttl table).1
unfolding claim_key
claim_key-means db scope key hash token ttl table =
    if-means scope key (is_blank scope) invalid_scope table _ (
      if-means scope key (is_blank key) invalid_key table _ (
        if-means scope key (not (length hash == 32)) invalid_payload_hash table _ (
          if-means scope key (sle ttl 0) invalid_lease_ttl table _
            (with_token-means db scope key hash ttl (db.uuid_of token) table))))

settle-ok :
    (d : Delivery) (scope key token : Text) (table table' : Table) (marked : Bool)
    (result : Result (Unit {0}))
    → settle d scope key token table marked result ≡ (table', ok tt)
    → (marked ≡ true) × ((result ≡ ok tt) × (table ≡ table'))
unfolding settle
settle-ok d scope key token table table' marked (err e) h = cc
settle-ok d scope key token table table' false (ok u) h = cc
settle-ok d scope key token table table' true (ok u) h = (refl, (refl, ap (λ x. x.0) h))

after_claim-ok :
    (d : Delivery) (scope token : Text) (next : Handler) (msg : Message) (table table' : Table)
    (claim : Claim) (status : ClaimStatus)
    → CompletesWhenMarked next
    → ClaimMeans scope msg.event_id table claim status
    → (elim status [
      | already_completed ↦ (table, ok tt)
      | acquired ↦ after_handler d scope msg.event_id token (next claim msg table)
    ])
      ≡ (table', ok tt)
    → IsCompleted (table' scope msg.event_id)
unfolding after_handler
after_claim-ok d scope token next msg table table' claim already_completed c m h =
    subst (λ t. IsCompleted (t scope msg.event_id)) (ap (λ x. x.0) h) m
after_claim-ok d scope token next msg table table' claim acquired c m h =
    let o = next claim msg table in
    let (e, (e', e'')) = settle-ok d scope msg.event_id token o.table table' o.marked o.result h in
    subst (λ t. IsCompleted (t scope msg.event_id)) e''
      (subst (λ k. IsCompleted (o.table scope k)) m.1
        (subst (λ s. IsCompleted (o.table s claim.key)) m.0 (c claim msg table e e')))

after_result-ok :
    (d : Delivery) (scope token : Text) (next : Handler) (msg : Message) (table table' : Table)
    (result : Result Claim)
    → CompletesWhenMarked next
    → ResultMeans scope msg.event_id table result
    → after_claim d scope token next msg (table, result) ≡ (table', ok tt)
    → IsCompleted (table' scope msg.event_id)
unfolding after_claim
after_result-ok d scope token next msg table table' (err e) c m h = cc
after_result-ok d scope token next msg table table' (ok claim) c m h =
    after_claim-ok d scope token next msg table table' claim claim.status c m h

with_fresh-ok :
    (g : Guard) (d : Delivery) (scope : Text) (next : Handler) (msg : Message)
    (table table' : Table) (token : Result Text)
    → CompletesWhenMarked next
    → with_fresh token table (λ token.
      after_claim d scope token next msg (
        claim_key d.claim_session scope msg.event_id
          (d.sha256 msg.payload)
          token
          g.lease_ttl
          table))
      ≡ (table', ok tt)
    → IsCompleted (table' scope msg.event_id)
with_fresh-ok g d scope next msg table table' (err e) c h = cc
with_fresh-ok g d scope next msg table table' (ok token) c h =
    after_result-ok d scope token next msg _ table' _ c
      (claim_key-means d.claim_session scope msg.event_id (d.sha256 msg.payload) token g.lease_ttl
        table)
      h

-- A delivery is acknowledged only for a completed key: where the guarded handler returns nil, the row of
-- its scope and event id is COMPLETED in the table that it leaves, provided that the inner handler
-- marks its claim only in a transaction that completes the key of the claim. Whatever the state of the
-- key, the errors of the database and the other sessions were.
pub guarded-ok :
    (g : Guard) (d : Delivery) (scope : Text) (next : Handler) (msg : Message)
    (table table' : Table)
    → CompletesWhenMarked next
    → guarded g d scope next msg table ≡ (table', ok tt)
    → IsCompleted (table' scope msg.event_id)
unfolding guarded
guarded-ok g d scope next msg table table' c h = elim (Bool-cases (is_blank msg.event_id)) [
  | inl e ↦ elim (err-ne-ok invalid_key _ refl (ap (λ x. x.1) (rw e at h))) [ ]
  | inr e ↦ with_fresh-ok g d scope next msg table table' d.token c (rw e at h)
]
