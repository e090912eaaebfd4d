-- ===== src/Idempotency/Completion.antt =====
-- What CompleteInTx of internal/application/idempotency/guard.go leaves of the key.
use cross_border_ecommerce.Base.{
  ℕ, ◌≡◌, refl, subst, inl, inr, Bool, true, false, ◌&&◌, Option, none, some, if◌then◌else◌,
  Bool-cases, some-injective, Text, text_eq_refl, is_blank, Error, Result, ok, err, lease_lost,
  invalid_scope, invalid_key,
}
use cross_border_ecommerce.Idempotency.Store.{
  Table, Row, Claim, Session, put, completed, completed_row, is_in_progress, has_token,
  update_statement, update_token, complete_key,
}
use cross_border_ecommerce.Idempotency.Table.{IsCompleted}
use cross_border_ecommerce.Idempotency.Guard.{marked_by, complete_in_tx}

abbrev CompletedBy : Text → Text → Table → Result (Unit {0}) → Type 0
CompletedBy scope key table (err e) = Unit
CompletedBy scope key table (ok u) = IsCompleted (table scope key)

abbrev IsCompletion : Option Row → Type 0
IsCompletion none = Unit
IsCompletion (some r) = r.status ≡ completed

completed_row-IsCompletion :
    (row : Option Row) (token : Text) (now : ℕ) → IsCompletion (completed_row row token now)
unfolding completed_row
completed_row-IsCompletion none token now = tt
completed_row-IsCompletion (some r) token now =
    elim (Bool-cases (has_token r.lease_token token && is_in_progress r.status)) [
      | inl e ↦ rw e refl
      | inr e ↦ rw e tt
    ]

statement-CompletedBy :
    (scope key : Text) (fault : Option Error) (row : Option Row) (table : Table)
    → IsCompletion row
    → CompletedBy scope key
        (update_statement scope key fault (err lease_lost) row table).0
        (update_statement scope key fault (err lease_lost) row table).1
unfolding put
statement-CompletedBy scope key (some e) row table h = tt
statement-CompletedBy scope key none none table h = tt
statement-CompletedBy scope key none (some r) table h = rw (text_eq_refl scope, text_eq_refl key) h

token-CompletedBy :
    (db : Session) (scope key : Text) (token : Result Text) (row : Option Row) (table : Table)
    → CompletedBy scope key
        (update_token scope key token db.write_fault
          (err lease_lost)
          (λ t. completed_row row t db.now)
          table).0
        (update_token scope key token db.write_fault
          (err lease_lost)
          (λ t. completed_row row t db.now)
          table).1
token-CompletedBy db scope key (err e) row table = tt
token-CompletedBy db scope key (ok t) row table =
    statement-CompletedBy scope key db.write_fault (completed_row row t db.now) table
      (completed_row-IsCompletion row t db.now)

if-CompletedBy :
    (scope key : Text) (b : Bool) (e : Error) (table : Table) (x : Table × Result (Unit {0}))
    → CompletedBy scope key x.0 x.1
    → CompletedBy scope key (if b then (table, err e) else x).0 (if b then (table, err e) else x).1
if-CompletedBy scope key true e table x h = tt
if-CompletedBy scope key false e table x h = h

complete_key-CompletedBy :
    (db : Session) (scope key token : Text) (table : Table)
    → CompletedBy scope key
        (complete_key db scope key token table).0
        (complete_key db scope key token table).1
unfolding complete_key
complete_key-CompletedBy db scope key token table =
    if-CompletedBy scope key (is_blank scope) invalid_scope table _ (
      if-CompletedBy scope key (is_blank key) invalid_key table _
        (token-CompletedBy db scope key (db.uuid_of token) (table scope key) table))

marked-by :
    (scope key : Text) (x : Table × Result (Unit {0}))
    → CompletedBy scope key x.0 x.1
    → (marked_by x).marked ≡ true
    → IsCompleted ((marked_by x).table scope key)
marked-by scope key (table, ok u) c h = c
marked-by scope key (table, err e) c h = cc

-- CompleteInTx marks a claim only where it completes it: if the claim of the context is marked, the row
-- of its scope and key is COMPLETED in the table that the call leaves.
pub complete_in_tx-completes :
    (has_completer : Bool) (db : Session) (held : Option Claim) (table : Table) (c : Claim)
    → held ≡ some c
    → (complete_in_tx has_completer db held table).marked ≡ true
    → IsCompleted ((complete_in_tx has_completer db held table).table c.scope c.key)
unfolding complete_in_tx
complete_in_tx-completes false db held table c e h = cc
complete_in_tx-completes true db none table c e h = cc
complete_in_tx-completes true db (some c') table c e h =
    let x = complete_key db c'.scope c'.key c'.lease_token table in
    subst (λ k. IsCompleted ((marked_by x).table k.scope k.key)) (some-injective e)
      (marked-by c'.scope c'.key x
        (complete_key-CompletedBy db c'.scope c'.key c'.lease_token table) h)
