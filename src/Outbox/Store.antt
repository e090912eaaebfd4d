-- ===== src/Outbox/Store.antt =====
-- internal/infrastructure/postgres/outbox_repository.go with its statements over the rows of outbox_events.
-- The rows that other sessions have locked are an argument; a statement runs at one instant.
pub mod Occurs
pub mod Relayed
pub mod Selected
pub mod Served
use Prim.Native.Nat.{Ordering}
use cross_border_ecommerce.Base.{
  ℕ, zero, suc, ◌+◌, Bool, true, false, not, ◌&&◌, ◌||◌, List, [], ◌∷◌, map, Option, none, some,
  if◌then◌else◌, leb, ltb, sle, Text, text_eq, is_empty, compare_text, Result, ok, err,
  invalid_config,
}
use cross_border_ecommerce.Outbox.Relay.{
  Event, Call, mark_published, record_failure, release, event_ids,
}

pub data EventStatus : Type 0 where
  pending processed failed : EventStatus

abbrev pub is_pending : EventStatus → Bool
is_pending pending = true
is_pending _ = false

-- The columns of a row that the relay and its statements read and write.
pub record StoredEvent : Type 0 where
  pub id : Text
  pub status : EventStatus
  pub claim_token : Option Text
  pub available_at : ℕ
  pub retry_count : ℕ
  pub last_error : Option Text
  pub processed_at : Option ℕ

-- `id = ANY(ids)`.
unfoldable pub has_id : List Text → Text → Bool
has_id [] id = false
has_id (i ∷ is) id = text_eq i id || has_id is id

-- `claim_token = token`, which a NULL does not satisfy.
abbrev pub is_claimed_by : Text → Option Text → Bool
is_claimed_by token none = false
is_claimed_by token (some t) = text_eq t token

-- ClaimOutboxBatch: the rows that it may take, in the order of availability and id.
abbrev pub is_claimable : ℕ → StoredEvent → Bool
is_claimable now r = is_pending r.status && leb r.available_at now

unfoldable pub claimable : (Text → Bool) → ℕ → List StoredEvent → List StoredEvent
claimable locked now [] = []
claimable locked now (r ∷ rs) =
    let rest = claimable locked now rs in
    if is_claimable now r && not (locked r.id) then r ∷ rest else rest

abbrev pub is_ascending : Ordering → Bool
is_ascending Ordering.lt = true
is_ascending Ordering.eq = true
is_ascending Ordering.gt = false

abbrev pub is_before : StoredEvent → StoredEvent → Bool
is_before a b =
    if leb b.available_at a.available_at
    then if leb a.available_at b.available_at then is_ascending (compare_text a.id b.id) else false
    else true

unfoldable pub insert_candidate : StoredEvent → List StoredEvent → List StoredEvent
insert_candidate r [] = r ∷ []
insert_candidate r (s ∷ ss) =
    let rest = insert_candidate r ss in if is_before r s then r ∷ s ∷ ss else s ∷ rest

unfoldable pub sort_candidates : List StoredEvent → List StoredEvent
sort_candidates [] = []
sort_candidates (r ∷ rs) = insert_candidate r (sort_candidates rs)

unfoldable pub limited : ℕ → List StoredEvent → List StoredEvent
limited zero rs = []
limited (suc n) [] = []
limited (suc n) (r ∷ rs) = r ∷ limited n rs

abbrev pub candidates : (Text → Bool) → ℕ → ℕ → List StoredEvent → List StoredEvent
candidates locked now limit rows = limited limit (sort_candidates (claimable locked now rows))

abbrev pub claimed_row : Text → ℕ → ℕ → StoredEvent → StoredEvent
claimed_row token lease now r = record r { claim_token = some token; available_at = now + lease }

-- The UPDATE of ClaimOutboxBatch, by the ids of the candidates.
abbrev pub leased_row : Text → ℕ → ℕ → List Text → StoredEvent → StoredEvent
leased_row token lease now ids r = if has_id ids r.id then claimed_row token lease now r else r

abbrev pub to_event : StoredEvent → Event
to_event r = record { id = r.id; retry_count = r.retry_count }

abbrev pub max_int32 : ℕ
max_int32 = 2147483647

-- ClaimBatch, with the rows behind it, for a token that is a fresh UUID. RETURNING has no order of its own;
-- the order of the candidates stands for it.
unfoldable pub claim_batch :
    (Text → Bool) → ℕ → Text → ℕ → ℕ → List StoredEvent → Result (List Event) × List StoredEvent
claim_batch locked now token limit lease rows =
    if sle limit 0 || (ltb max_int32 limit || sle lease 0)
    then (err invalid_config, rows)
    else let batch = map to_event (candidates locked now limit rows) in
      (ok batch, map (leased_row token lease now (event_ids batch)) rows)

-- MarkOutboxPublished.
abbrev pub published_row : Text → List Text → ℕ → StoredEvent → StoredEvent
published_row token ids now r =
    if has_id ids r.id && is_claimed_by token r.claim_token
    then record r {
      status = processed;
      processed_at = some now;
      claim_token = none;
      last_error = none;
    }
    else r

-- RecordOutboxPublishFailure.
abbrev pub failed_row : Text → Text → Option Text → ℕ → ℕ → ℕ → StoredEvent → StoredEvent
failed_row token id cause max_attempts backoff now r =
    if text_eq id r.id && is_claimed_by token r.claim_token
    then record r {
      retry_count = suc r.retry_count;
      last_error = cause;
      claim_token = none;
      available_at = now + backoff;
      status = if leb max_attempts (suc r.retry_count) then failed else pending;
    }
    else r

-- ReleaseOutboxClaims.
abbrev pub released_row : Text → List Text → ℕ → StoredEvent → StoredEvent
released_row token ids now r =
    if has_id ids r.id && is_claimed_by token r.claim_token
    then record r { claim_token = none; available_at = now }
    else r

-- What a call of the store does to a row, at its instant; the causes of the failures by the id.
unfoldable pub called : Text → (Text → Option Text) → Call → ℕ → StoredEvent → StoredEvent
called token causes (mark_published ids) now r = published_row token ids now r
called token causes (record_failure id max_attempts backoff) now r =
    failed_row token id (causes id) max_attempts backoff now r
called token causes (release ids) now r = released_row token ids now r

-- Some calls one after the other.
unfoldable pub called_all :
    Text → (Text → Option Text) → (Call → ℕ) → List Call → StoredEvent → StoredEvent
called_all token causes clock [] r = r
called_all token causes clock (c ∷ cs) r =
    called_all token causes clock cs (called token causes c (clock c) r)
