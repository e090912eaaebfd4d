-- ===== src/Outbox/Store/Served.antt =====
-- RunOnce of internal/application/outbox/relay.go over the rows that ClaimBatch of
-- internal/infrastructure/postgres/outbox_repository.go leases to it.
use cross_border_ecommerce.Base.{
  ℕ, ◌≤◌, ◌≡◌, ◌≢◌, refl, sym, ap, ◌∙◌, subst, inl, inr, Bool, true, false, not, ◌&&◌, ◌||◌, List,
  [], ◌∷◌, ◌++◌, map, length, Option, if◌then◌else◌, ltb, sle, arith, Text, text_eq, Result, ok,
  err, ok-injective, invalid_config,
}
use cross_border_ecommerce.Outbox.Relay.{
  Event, RelayConfig, Call, mark_published, record_failure, release, World, event_ids,
  relay_claimed, after_claim, run_once,
}
use cross_border_ecommerce.Outbox.Settlement.{settled, relay_claimed-settled}
use cross_border_ecommerce.Outbox.Store.{
  EventStatus, pending, processed, failed, StoredEvent, has_id, is_pending, is_claimed_by,
  is_claimable, candidates, claimed_row, leased_row, to_event, claim_batch, called, called_all,
  max_int32,
}
use cross_border_ecommerce.Outbox.Store.Occurs.{
  occurs, hit, occurs-append, occurs-Perm, has_id-occurs,
}
use cross_border_ecommerce.Outbox.Store.Relayed.{passed-if, IsRelayed, relay_claimed-IsRelayed}
use cross_border_ecommerce.Outbox.Store.Selected.{
  ids_of, length-limited, selects, ids_of-claimable, batch-le-claimable, batch-selects,
}

both : (a b : Bool) → a && b ≡ true → (a ≡ true) × (b ≡ true)
both true b h = (refl, h)
both false b h = cc

not-true : (b : Bool) → not b ≡ true → b ≡ false
not-true true h = cc
not-true false h = refl

is_pending-eq : (s : EventStatus) → is_pending s ≡ true → s ≡ pending
is_pending-eq pending h = refl
is_pending-eq processed h = cc
is_pending-eq failed h = cc

hit-zero : (i id : Text) → hit id i ≡ 0 → text_eq i id ≡ false
hit-zero i id h = ground arith

absent-false : (ids : List Text) (id : Text) → occurs id ids ≡ 0 → has_id ids id ≡ false
absent-false ids id h = elim (has_id-occurs ids id) [
  | inl (e, k) ↦ absurd (omega (arith, k, h))
  | inr (e, z) ↦ e
]

unnamed_list :
    (token : Text) (ids : List Text) (r : StoredEvent) (t : Option Text) (x : StoredEvent)
    → occurs r.id ids ≡ 0
    → (if has_id ids r.id && is_claimed_by token t then x else r) ≡ r
unnamed_list token ids r t x h =
    ap (λ b. if b && is_claimed_by token t then x else r) (absent-false ids r.id h)

-- Calls that do not name a row leave it.
called_all-unnamed :
    (token : Text) (causes : Text → Option Text) (clock : Call → ℕ) (cs : List Call)
    (r : StoredEvent)
    → occurs r.id (settled cs) ≡ 0
    → called_all token causes clock cs r ≡ r
unfolding called_all called settled occurs
called_all-unnamed token causes clock [] r h = refl
called_all-unnamed token causes clock (mark_published ids ∷ cs) r h =
    ap (called_all token causes clock cs) (
      unnamed_list token ids r r.claim_token _
        (omega (arith, h, occurs-append r.id ids (settled cs))))
    ∙ called_all-unnamed token causes clock cs r
        (omega (arith, h, occurs-append r.id ids (settled cs)))
called_all-unnamed token causes clock (record_failure id attempts backoff ∷ cs) r h =
    ap (called_all token causes clock cs) (
      passed-if token causes clock (text_eq id r.id) r.claim_token _ r
        (hit-zero id r.id (omega (arith, h))))
    ∙ called_all-unnamed token causes clock cs r (omega (arith, h))
called_all-unnamed token causes clock (release ids ∷ cs) r h =
    ap (called_all token causes clock cs) (
      unnamed_list token ids r r.claim_token _
        (omega (arith, h, occurs-append r.id ids (settled cs))))
    ∙ called_all-unnamed token causes clock cs r
        (omega (arith, h, occurs-append r.id ids (settled cs)))

abbrev refusal : Result (List Event)
refusal = err invalid_config

err-ok : (es : List Event) → refusal ≢ ok es
err-ok es h = cc

abbrev Claimed : Type 0
Claimed = Result (List Event) × List StoredEvent

-- Where the answer is a batch, the guard let the statement through.
guarded-ok :
    (b : Bool) (x y z : Claimed) (es : List Event)
    → x.0 ≡ err invalid_config
    → (if b then x else y) ≡ z
    → z.0 ≡ ok es
    → y ≡ z
guarded-ok true x y z es h e k = absurd (err-ok es (sym h ∙ (ap (λ p. p.0) e ∙ k)))
guarded-ok false x y z es h e k = e

claim_batch-ok :
    (locked : Text → Bool) (now : ℕ) (token : Text) (limit lease : ℕ) (rows : List StoredEvent)
    (es : List Event) (rows' : List StoredEvent)
    → claim_batch locked now token limit lease rows ≡ (ok es, rows')
    → (map to_event (candidates locked now limit rows) ≡ es)
      × (map (leased_row token lease now (event_ids es)) rows ≡ rows')
unfolding claim_batch
claim_batch-ok locked now token limit lease rows es rows' h =
    let e = guarded-ok (sle limit 0 || (ltb max_int32 limit || sle lease 0)) _ _ _ es refl h refl in
    let a = ok-injective (ap (λ p. p.0) e) in
    (a, ap (λ es. map (leased_row token lease now (event_ids es)) rows) (sym a) ∙ ap (λ p. p.1) e)

-- What becomes of a row: RunOnce took it up and settled it, or it is as it was.
pub data IsServed (locked : Text → Bool) (now : ℕ) (token : Text) (w : World) (c : RelayConfig)
    (es : List Event) (r : StoredEvent) : StoredEvent → Type 0 where
  served :
      {r' : StoredEvent}
      → is_claimable now r ≡ true
      → locked r.id ≡ false
      → IsRelayed
          (occurs r.id (relay_claimed w c es).published)
          (claimed_row token c.lease now r)
          r'
      → IsServed locked now token w c es r r'
  skipped :
      {r' : StoredEvent}
      → occurs r.id (event_ids es) ≡ 0
      → r' ≡ r
      → IsServed locked now token w c es r r'

run_once-claimed :
    (w : World) (c : RelayConfig) (token : Text) (claim : Text → ℕ → ℕ → Result (List Event))
    (es : List Event)
    → claim token c.batch_size c.lease ≡ ok es
    → run_once w c (ok token) claim ≡ relay_claimed w c es
unfolding run_once
run_once-claimed w c token claim es h = ap (after_claim w c) h

-- A row by how often its id stands in the batch.
row-IsServed :
    (locked : Text → Bool) (now : ℕ) (token : Text) (causes : Text → Option Text) (clock : Call → ℕ)
    (w : World) (c : RelayConfig) (es : List Event) (r : StoredEvent)
    → (1 ≤ occurs r.id (event_ids es) → selects locked now r ≡ true)
    → occurs r.id (event_ids es) ≤ 1
    → IsServed locked now token w c es r (
        called_all token causes clock
          (relay_claimed w c es).calls
          (leased_row token c.lease now (event_ids es) r))
row-IsServed locked now token causes clock w c es r s o = elim (has_id-occurs (event_ids es) r.id) [
  | inl (e, k) ↦
      let (a, b) = both (is_claimable now r) _ (s k) in
      rw e (
        served a (not-true (locked r.id) b) (
          relay_claimed-IsRelayed token causes clock w c es (claimed_row token c.lease now r) refl
            (is_pending-eq r.status ((both (is_pending r.status) _ a).0)) (omega (arith, o, k))))
  | inr (e, z) ↦ rw e (
      skipped z (
        called_all-unnamed token causes clock (relay_claimed w c es).calls r
          (occurs-Perm r.id (relay_claimed-settled w c es) ∙ z)))
]

-- Over a table in which the id of a row stands once, RunOnce behind a ClaimBatch that succeeds serves at
-- most as many events as the batch size, and if its calls of the store take effect, then either the row
-- was pending, due and not locked, was leased, and is settled, PROCESSED exactly if its publication is
-- reported; or it is not in the batch and is exactly as it was.
pub run_once-IsServed :
    (locked : Text → Bool) (now : ℕ) (token : Text) (causes : Text → Option Text) (clock : Call → ℕ)
    (w : World) (c : RelayConfig) (before after : List StoredEvent) (r : StoredEvent)
    (es : List Event) (rows' : List StoredEvent)
    → occurs r.id (ids_of (before ++ (r ∷ after))) ≡ 1
    → claim_batch locked now token c.batch_size c.lease (before ++ (r ∷ after)) ≡ (ok es, rows')
    → (length es ≤ c.batch_size)
      × IsServed locked now token w c es r (
          called_all token causes clock
            (run_once w c (ok token) (λ token limit lease.
              (claim_batch locked now token limit lease (before ++ (r ∷ after))).0)).calls
            (leased_row token c.lease now (event_ids es) r))
run_once-IsServed locked now token causes clock w c before after r es rows' o h =
    let e = (claim_batch-ok locked now token c.batch_size c.lease _ es rows' h).0 in
    (
      subst (λ es. length es ≤ c.batch_size) e (length-limited c.batch_size _),
      subst
          (λ report. IsServed locked now token w c es r (
            called_all token causes clock report.calls
              (leased_row token c.lease now (event_ids es) r)))
          (sym (run_once-claimed w c token _ es (ap (λ p. p.0) h)))
          (row-IsServed locked now token causes clock w c es r
            (λ k.
              batch-selects locked now token c.batch_size c.lease before after r o
                (subst (λ es. 1 ≤ occurs r.id (event_ids es)) (sym e) k))
            (subst (λ es. occurs r.id (event_ids es) ≤ 1) e
              (omega (
                arith,
                o,
                batch-le-claimable locked now token c.batch_size c.lease r.id
                    (before ++ (r ∷ after)),
                ids_of-claimable locked now r.id (before ++ (r ∷ after)),
              )))),
    )
