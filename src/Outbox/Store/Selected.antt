-- ===== src/Outbox/Store/Selected.antt =====
-- Which rows ClaimBatch of internal/infrastructure/postgres/outbox_repository.go takes.
use cross_border_ecommerce.Base.{
  ℕ, zero, suc, ◌+◌, ◌≤◌, ◌≡◌, refl, ap, inl, inr, Bool, true, false, not, ◌&&◌, List, [], ◌∷◌,
  ◌++◌, map, length, arith, Bool-cases, Text, text_eq_refl,
}
use cross_border_ecommerce.Outbox.Relay.{Event, event_ids}
use cross_border_ecommerce.Outbox.Store.{
  StoredEvent, is_claimable, claimable, is_before, insert_candidate, sort_candidates, limited,
  candidates, to_event,
}
use cross_border_ecommerce.Outbox.Store.Occurs.{occurs, hit}

abbrev pub ids_of : List StoredEvent → List Text
ids_of [] = []
ids_of (r ∷ rs) = r.id ∷ ids_of rs

event_ids-map : (rs : List StoredEvent) → event_ids (map to_event rs) ≡ ids_of rs
unfolding event_ids
event_ids-map [] = refl
event_ids-map (r ∷ rs) = ap (λ l. r.id ∷ l) (event_ids-map rs)

ids_of-insert :
    (id : Text) (r : StoredEvent) (rs : List StoredEvent)
    → occurs id (ids_of (insert_candidate r rs)) ≡ hit id r.id + occurs id (ids_of rs)
unfolding insert_candidate occurs
ids_of-insert id r [] = refl
ids_of-insert id r (s ∷ ss) = elim (Bool-cases (is_before r s)) [
  | inl e ↦ rw e refl
  | inr e ↦ rw e (omega (arith, ids_of-insert id r ss))
]

ids_of-sort :
    (id : Text) (rs : List StoredEvent)
    → occurs id (ids_of (sort_candidates rs)) ≡ occurs id (ids_of rs)
unfolding sort_candidates occurs
ids_of-sort id [] = refl
ids_of-sort id (r ∷ rs) = omega (arith, ids_of-insert id r (sort_candidates rs), ids_of-sort id rs)

ids_of-limited :
    (id : Text) (n : ℕ) (rs : List StoredEvent)
    → occurs id (ids_of (limited n rs)) ≤ occurs id (ids_of rs)
unfolding limited occurs
ids_of-limited id zero rs = omega arith
ids_of-limited id (suc n) [] = omega arith
ids_of-limited id (suc n) (r ∷ rs) = omega (arith, ids_of-limited id n rs)

pub length-limited : (n : ℕ) (rs : List StoredEvent) → length (map to_event (limited n rs)) ≤ n
unfolding limited
length-limited zero rs = omega arith
length-limited (suc n) [] = omega arith
length-limited (suc n) (r ∷ rs) = omega (arith, length-limited n rs)

module _ (locked : Text → Bool) (now : ℕ) where
  abbrev pub selects : StoredEvent → Bool
  selects r = is_claimable now r && not (locked r.id)

  pub ids_of-claimable :
      (id : Text) (rs : List StoredEvent)
      → occurs id (ids_of (claimable locked now rs)) ≤ occurs id (ids_of rs)
  unfolding claimable occurs
  ids_of-claimable id [] = omega arith
  ids_of-claimable id (r ∷ rs) = elim (Bool-cases (selects r)) [
    | inl e ↦ rw e (omega (arith, ids_of-claimable id rs))
    | inr e ↦ rw e (omega (arith, ids_of-claimable id rs))
  ]

  -- A row that cannot be taken is not among those that can.
  ids_of-unselected :
      (before after : List StoredEvent) (r : StoredEvent)
      → selects r ≡ false
      → occurs r.id (ids_of (claimable locked now (before ++ (r ∷ after)))) + 1
        ≤ occurs r.id (ids_of (before ++ (r ∷ after)))
  unfolding claimable occurs
  ids_of-unselected [] after r h =
      rw (h, text_eq_refl r.id) (omega (arith, ids_of-claimable r.id after))
  ids_of-unselected (s ∷ ss) after r h = elim (Bool-cases (selects s)) [
    | inl e ↦ rw e (omega (arith, ids_of-unselected ss after r h))
    | inr e ↦ rw e (omega (arith, ids_of-unselected ss after r h))
  ]

module _ (locked : Text → Bool) (now : ℕ) (token : Text) (limit lease : ℕ) where
  abbrev batch : List StoredEvent → List Event
  batch rows = map to_event (candidates locked now limit rows)

  pub batch-le-claimable :
      (id : Text) (rows : List StoredEvent)
      → occurs id (event_ids (batch rows)) ≤ occurs id (ids_of (claimable locked now rows))
  batch-le-claimable id rows = omega (
    arith,
    ap (occurs id) (event_ids-map (candidates locked now limit rows)),
    ids_of-limited id limit (sort_candidates (claimable locked now rows)),
    ids_of-sort id (claimable locked now rows),
  )

  -- A row of the batch could be taken.
  pub batch-selects :
      (before after : List StoredEvent) (r : StoredEvent)
      → occurs r.id (ids_of (before ++ (r ∷ after))) ≡ 1
      → 1 ≤ occurs r.id (event_ids (batch (before ++ (r ∷ after))))
      → selects locked now r ≡ true
  batch-selects before after r o k = elim (Bool-cases (selects locked now r)) [
    | inl e ↦ e
    | inr e ↦ absurd (
        omega (
          arith,
          o,
          k,
          batch-le-claimable r.id (before ++ (r ∷ after)),
          ids_of-unselected locked now before after r e,
        ))
  ]
