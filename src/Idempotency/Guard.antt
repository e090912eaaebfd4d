-- ===== src/Idempotency/Guard.antt =====
-- internal/application/idempotency/guard.go. A handler is a parameter: it gets the claim and the table,
-- and gives the table that its transaction leaves, whether it marked the claim as completed, and its
-- error, where `panic` stands for a panic.
use cross_border_ecommerce.Base.{
  ℕ, Bool, true, false, not, Option, none, some, if◌then◌else◌, Text, is_blank, sle, Result, ok,
  err, ◌>>◌, fail_if, invalid_scope, invalid_key, invalid_lease_ttl, not_completed_in_tx,
  nil_argument,
}
use cross_border_ecommerce.Idempotency.Store.{
  Table, acquired, already_completed, Claim, Session, claim_key, complete_key, release_key,
}

pub record Message : Type 0 where
  pub event_id : Text
  pub payload : Text

pub record Outcome : Type 0 where
  pub table : Table
  -- Claim.completed, behind the pointer in the context.
  pub marked : Bool
  pub result : Result (Unit {0})

abbrev pub Handler : Type 0
Handler = Claim → Message → Table → Outcome

abbrev pub marked_by : Table × Result (Unit {0}) → Outcome
marked_by (table, ok u) = record { table = table; marked = true; result = ok u }
marked_by (table, err e) = record { table = table; marked = false; result = err e }

-- CompleteInTx, by whether there is a completer and by the claim of the context.
unfoldable pub complete_in_tx : Bool → Session → Option Claim → Table → Outcome
complete_in_tx false db claim table = record {
  table = table;
  marked = false;
  result = err nil_argument;
}
complete_in_tx true db none table = record {
  table = table;
  marked = false;
  result = err nil_argument;
}
complete_in_tx true db (some claim) table =
    marked_by (complete_key db claim.scope claim.key claim.lease_token table)

pub record Guard : Type 0 where
  pub lease_ttl : ℕ

-- NewGuard, by whether there are a store and a logger.
unfoldable pub new_guard : Bool → ℕ → Bool → Result Guard
new_guard has_store lease_ttl has_logger =
    fail_if (not has_store) nil_argument
    >> fail_if (sle lease_ttl 0) invalid_lease_ttl
    >> fail_if (not has_logger) nil_argument
    >> ok (record { lease_ttl = lease_ttl })

-- What one delivery meets: the database at the claim and at the release, the fresh UUID, and SHA-256.
pub record Delivery : Type 0 where
  pub claim_session : Session
  pub release_session : Session
  pub token : Result Text
  pub sha256 : Text → Text

-- release, whose error is only logged.
abbrev pub release : Delivery → Text → Text → Text → Table → Table
release d scope key token table = (release_key d.release_session scope key token table).0

-- The lines of the guarded handler behind the call of the handler, its deferred recovery included.
unfoldable pub settle :
    Delivery → Text → Text → Text → Table → Bool → Result (Unit {0}) → Table × Result (Unit {0})
settle d scope key token table marked (err e) = (release d scope key token table, err e)
settle d scope key token table false (ok u) =
    (release d scope key token table, err not_completed_in_tx)
settle d scope key token table true (ok u) = (table, ok tt)

unfoldable pub after_handler : Delivery → Text → Text → Text → Outcome → Table × Result (Unit {0})
after_handler d scope key token o = settle d scope key token o.table o.marked o.result

-- The lines behind ClaimKey.
unfoldable pub after_claim :
    Delivery → Text → Text → Handler → Message → Table × Result Claim → Table × Result (Unit {0})
after_claim d scope token next msg (table, err e) = (table, err e)
after_claim d scope token next msg (table, ok claim) = elim claim.status [
  | already_completed ↦ (table, ok tt)
  | acquired ↦ after_handler d scope msg.event_id token (next claim msg table)
]

abbrev pub with_fresh :
    Result Text → Table → (Text → Table × Result (Unit {0})) → Table × Result (Unit {0})
with_fresh (ok token) table k = k token
with_fresh (err e) table k = (table, err e)

-- The handler that Wrap returns.
unfoldable pub guarded :
    Guard → Delivery → Text → Handler → Message → Table → Table × Result (Unit {0})
guarded g d scope next msg table =
    if is_blank msg.event_id
    then (table, err invalid_key)
    else with_fresh d.token table (λ token.
      after_claim d scope token next msg (
        claim_key d.claim_session scope msg.event_id (d.sha256 msg.payload) token g.lease_ttl
          table))

-- Guard.Wrap.
unfoldable pub wrap :
    Guard → Text → Option Handler → Result (Delivery → Message → Table → Table × Result (Unit {0}))
wrap g scope next =
    if is_blank scope
    then err invalid_scope
    else elim next [ none ↦ err nil_argument | some h ↦ ok (λ d. guarded g d scope h) ]
