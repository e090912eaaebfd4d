-- ===== src/Outbox/Store/Relayed.antt =====
-- The rows of a batch behind RunOnce: internal/application/outbox/relay.go over
-- internal/infrastructure/postgres/outbox_repository.go.
use cross_border_ecommerce.Base.{
  ℕ, suc, ◌≤◌, ◌≡◌, ◌≢◌, refl, sym, ap, ◌∙◌, subst, ◌⊎◌, inl, inr, Bool, true, false, ◌&&◌, List,
  [], ◌∷◌, Option, none, some, if◌then◌else◌, leb, arith, Bool-cases, Text, text_eq, text_eq_refl,
}
use cross_border_ecommerce.Outbox.Relay.{
  Event, RelayConfig, Call, mark_published, record_failure, release, World, event_ids,
  relay_claimed,
}
use cross_border_ecommerce.Outbox.Settlement.{settled, relay_claimed-settled}
use cross_border_ecommerce.Outbox.Published.{marked, relay_claimed-marked}
use cross_border_ecommerce.Outbox.Store.{
  pending, processed, failed, StoredEvent, has_id, is_claimed_by, called, called_all,
}
use cross_border_ecommerce.Outbox.Store.Occurs.{occurs, occurs-append, occurs-Perm, has_id-occurs}

-- What is marked is settled.
marked-le-settled : (id : Text) (cs : List Call) → occurs id (marked cs) ≤ occurs id (settled cs)
unfolding marked settled occurs
marked-le-settled id [] = omega arith
marked-le-settled id (mark_published ids ∷ cs) = omega (
  arith,
  occurs-append id ids (marked cs),
  occurs-append id ids (settled cs),
  marked-le-settled id cs,
)
marked-le-settled id (record_failure i attempts backoff ∷ cs) =
    omega (arith, marked-le-settled id cs)
marked-le-settled id (release ids ∷ cs) =
    omega (arith, occurs-append id ids (settled cs), marked-le-settled id cs)

-- What RunOnce makes of a row that it had claimed, by how often it reports the id as published.
pub record IsRelayed (n : ℕ) (r r' : StoredEvent) : Type 0 where
  pub unclaimed : r'.claim_token ≡ none
  pub outcome :
      ((n ≡ 1) × ((r'.status ≡ processed) × (r'.processed_at ≢ none)))
      ⊎ ((n ≡ 0) × ((r'.status ≢ processed) × (r.retry_count ≤ r'.retry_count)))

module _ (token : Text) (causes : Text → Option Text) (clock : Call → ℕ) where
  unclaimed-if :
      (b : Bool) (t : Option Text) (x y : StoredEvent)
      → t ≡ none
      → (if b && is_claimed_by token t then x else y) ≡ y
  unclaimed-if true t x y h = rw h
  unclaimed-if false t x y h = refl

  called-unclaimed :
      (c : Call) (now : ℕ) (r : StoredEvent)
      → r.claim_token ≡ none
      → called token causes c now r ≡ r
  unfolding called
  called-unclaimed (mark_published ids) now r h = unclaimed-if (has_id ids r.id) r.claim_token _ r h
  called-unclaimed (record_failure id attempts backoff) now r h =
      unclaimed-if (text_eq id r.id) r.claim_token _ r h
  called-unclaimed (release ids) now r h = unclaimed-if (has_id ids r.id) r.claim_token _ r h

  -- A row that is not claimed stays as it is.
  called_all-unclaimed :
      (cs : List Call) (r : StoredEvent)
      → r.claim_token ≡ none
      → called_all token causes clock cs r ≡ r
  unfolding called_all
  called_all-unclaimed [] r h = refl
  called_all-unclaimed (c ∷ cs) r h =
      ap (called_all token causes clock cs) (called-unclaimed c (clock c) r h)
      ∙ called_all-unclaimed cs r h

  claimed-if :
      (b : Bool) (t : Option Text) (x y : StoredEvent)
      → t ≡ some token
      → (if b && is_claimed_by token t then x else y) ≡ (if b then x else y)
  claimed-if true t x y h =
      ap (λ t. if is_claimed_by token t then x else y) h
      ∙ ap (λ b. if b then x else y) (text_eq_refl token)
  claimed-if false t x y h = refl

  -- A call that does not name the row, and one that does.
  pub passed-if :
      (b : Bool) (t : Option Text) (x y : StoredEvent)
      → b ≡ false
      → (if b && is_claimed_by token t then x else y) ≡ y
  passed-if b t x y e = ap (λ b. if b && is_claimed_by token t then x else y) e

  named-if :
      (b : Bool) (t : Option Text) (x y : StoredEvent)
      → t ≡ some token
      → b ≡ true
      → (if b && is_claimed_by token t then x else y) ≡ x
  named-if b t x y h e = claimed-if b t x y h ∙ ap (λ b. if b then x else y) e

  -- The end of a row that one call settles.
  ended-IsRelayed :
      (n : ℕ) (cs : List Call) (r r' : StoredEvent)
      → IsRelayed n r r'
      → IsRelayed n r (called_all token causes clock cs r')
  ended-IsRelayed n cs r r' x =
      subst (IsRelayed n r) (sym (called_all-unclaimed cs r' x.unclaimed)) x

  -- One round: the call ends the claim, or leaves the row to the calls behind it.
  round-IsRelayed :
      (n : ℕ) (c : Call) (cs : List Call) (r r' : StoredEvent)
      → called token causes c (clock c) r ≡ r'
      → IsRelayed n r (called_all token causes clock cs r')
      → IsRelayed n r (called_all token causes clock (c ∷ cs) r)
  unfolding called_all
  round-IsRelayed n c cs r r' e x =
      subst (λ r'. IsRelayed n r (called_all token causes clock cs r')) (sym e) x

  tried-IsProcessed : (b : Bool) → (if b then failed else pending) ≢ processed
  tried-IsProcessed true e = cc
  tried-IsProcessed false e = cc

  called_all-IsRelayed :
      (cs : List Call) (r : StoredEvent)
      → r.claim_token ≡ some token
      → r.status ≡ pending
      → occurs r.id (settled cs) ≡ 1
      → IsRelayed (occurs r.id (marked cs)) r (called_all token causes clock cs r)
  unfolding called settled marked occurs
  called_all-IsRelayed [] r h p o = absurd (omega (arith, o))
  called_all-IsRelayed (mark_published ids ∷ cs) r h p o = elim (has_id-occurs ids r.id) [
    | inl (e, k) ↦
        round-IsRelayed _ (mark_published ids) cs r _
          (named-if (has_id ids r.id) r.claim_token _ r h e)
          (ended-IsRelayed _ cs r _ (record {
            unclaimed = refl;
            outcome = inl (
              omega (
                arith,
                k,
                o,
                occurs-append r.id ids (settled cs),
                occurs-append r.id ids (marked cs),
                marked-le-settled r.id cs,
              ),
              (refl, λ x. cc),
            );
          }))
    | inr (e, z) ↦
        round-IsRelayed _ (mark_published ids) cs r r
          (passed-if (has_id ids r.id) r.claim_token _ r e)
          (subst (λ n. IsRelayed n r (called_all token causes clock cs r))
            (omega (arith, z, occurs-append r.id ids (marked cs)))
            (called_all-IsRelayed cs r h p
              (omega (arith, z, o, occurs-append r.id ids (settled cs)))))
  ]
  called_all-IsRelayed (record_failure id attempts backoff ∷ cs) r h p o =
      elim (Bool-cases (text_eq id r.id)) [
        | inl e ↦
            round-IsRelayed _ (record_failure id attempts backoff) cs r _
              (named-if (text_eq id r.id) r.claim_token _ r h e)
              (ended-IsRelayed _ cs r _ (record {
                unclaimed = refl;
                outcome = inr (
                  omega
                      (arith, o, ap {B = ℕ} (λ b. if b then 1 else 0) e, marked-le-settled r.id cs),
                  (tried-IsProcessed (leb attempts (suc r.retry_count)), omega arith),
                );
              }))
        | inr e ↦
            round-IsRelayed _ (record_failure id attempts backoff) cs r r
              (passed-if (text_eq id r.id) r.claim_token _ r e)
              (called_all-IsRelayed cs r h p
                (omega (arith, o, ap {B = ℕ} (λ b. if b then 1 else 0) e)))
      ]
  called_all-IsRelayed (release ids ∷ cs) r h p o = elim (has_id-occurs ids r.id) [
    | inl (e, k) ↦
        round-IsRelayed _ (release ids) cs r _ (named-if (has_id ids r.id) r.claim_token _ r h e) (
          ended-IsRelayed _ cs r _ (record {
            unclaimed = refl;
            outcome = inr (
              omega (arith, k, o, occurs-append r.id ids (settled cs), marked-le-settled r.id cs),
              ((λ x. cc (x, p)), omega arith),
            );
          }))
    | inr (e, z) ↦
        round-IsRelayed _ (release ids) cs r r (passed-if (has_id ids r.id) r.claim_token _ r e)
          (called_all-IsRelayed cs r h p (omega (arith, z, o, occurs-append r.id ids (settled cs))))
  ]

-- Behind RunOnce every row that it had claimed is settled in the database: if the calls of the store take
-- effect, a row that holds the claim's token and whose id stands once in the batch is not claimed any
-- more, and it is PROCESSED, with its instant, exactly if RunOnce reports its id as published; otherwise it
-- is PENDING or FAILED, and no retry is forgotten.
pub relay_claimed-IsRelayed :
    (token : Text) (causes : Text → Option Text) (clock : Call → ℕ) (w : World) (c : RelayConfig)
    (es : List Event) (r : StoredEvent)
    → r.claim_token ≡ some token
    → r.status ≡ pending
    → occurs r.id (event_ids es) ≡ 1
    → IsRelayed
        (occurs r.id (relay_claimed w c es).published)
        r
        (called_all token causes clock (relay_claimed w c es).calls r)
relay_claimed-IsRelayed token causes clock w c es r h p o =
    subst
      (λ ids.
        IsRelayed (occurs r.id ids) r
          (called_all token causes clock (relay_claimed w c es).calls r))
      ((relay_claimed-marked w c es).0)
      (called_all-IsRelayed token causes clock (relay_claimed w c es).calls r h p
        (occurs-Perm r.id (relay_claimed-settled w c es) ∙ o))
