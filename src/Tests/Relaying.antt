-- ===== src/Tests/Relaying.antt =====
-- Batches of the outbox relay (internal/application/outbox/relay.go).
use mathlib.Core.List.{Permᴰ}
use cross_border_ecommerce.Outbox.Store.Occurs.{occurs}
use cross_border_ecommerce.Outbox.Store.{sort_candidates}
use cross_border_ecommerce.Outbox.Store.{insert_candidate}
use cross_border_ecommerce.Outbox.Store.{claimable}
use cross_border_ecommerce.Outbox.Store.{has_id}
use cross_border_ecommerce.Outbox.Store.{limited}
use cross_border_ecommerce.Base.{
  ℕ, ◌≡◌, ◌↔◌, ◌==◌, true, false, List, [], ◌∷◌, none, some, All, if◌then◌else◌, broker_unavailable,
  context_canceled, other, Bool, Text, text_eq, ok, length, ◌≤◌, refl,
}
use cross_border_ecommerce.Outbox.Relay.{
  Event, RelayConfig, World, event_ids, relay_claimed, run_once,
}
use cross_border_ecommerce.Outbox.Store.{StoredEvent, pending, leased_row, claim_batch, called_all}
use cross_border_ecommerce.Outbox.Store.Served.{IsServed, run_once-IsServed}
use cross_border_ecommerce.Outbox.Settlement.{settled, relay_claimed-settled}
use cross_border_ecommerce.Outbox.Published.{marked, Accepted, relay_claimed-marked}
use cross_border_ecommerce.Base.{ErrorTree, leaf, wrapped, joined, another, no_more}
use cross_border_ecommerce.Outbox.Shutdown.{
  Batch, run, InterruptedBy, IsCancellation, run-result_iff,
}

abbrev config : RelayConfig
config = record {
  batch_size = 10;
  poll_interval = 5;
  lease = 60;
  base_backoff = 2;
  max_backoff = 50;
  max_attempts = 3;
}

-- The second publication fails by itself, the fourth because the broker is gone.
abbrev world : World
world = record {
  publish =
      λ i e. if i == 1 then some (other 7) else if i == 3 then some broker_unavailable else none;
  cancelled_before = λ i. false;
  cancelled_after = λ i. false;
  store = λ c. none;
}

abbrev event : ℕ → Event
event n = record { id = n ∷ []; retry_count = 0 }

abbrev events : List Event
events = event 1 ∷ event 2 ∷ event 3 ∷ event 4 ∷ event 5 ∷ []

relay_claimed-settled_example :
    Permᴰ (settled (relay_claimed world config events).calls) (event_ids events)
relay_claimed-settled_example = relay_claimed-settled world config events

relay_claimed-marked_example :
    (marked (relay_claimed world config events).calls
      ≡ (relay_claimed world config events).published)
    × All (Accepted world 0 events) (relay_claimed world config events).published
relay_claimed-marked_example = relay_claimed-marked world config events

abbrev batches : List Batch
batches =
    record { claimed = 3; error = none; cancelled = false }
    ∷ record { claimed = 0; error = some (leaf (other 1)); cancelled = false }
    ∷ record {
      claimed = 2;
      error =
          some
            (joined (another (leaf context_canceled) (another (wrapped (leaf (other 2))) no_more)));
      cancelled = true;
    }
    ∷ []

abbrev failure : ErrorTree
failure = joined (another (leaf context_canceled) (another (wrapped (leaf (other 2))) no_more))

run-result_iff_example :
    ((run config batches 0).result ≡ some failure)
    ↔ (InterruptedBy batches failure × (¬ IsCancellation failure))
run-result_iff_example = run-result_iff config batches 0 failure

abbrev row : ℕ → StoredEvent
row n = record {
  id = n ∷ [];
  status = pending;
  claim_token = none;
  available_at = n;
  retry_count = 0;
  last_error = none;
  processed_at = none;
}

abbrev token : Text
token = 7 ∷ []

-- The row 3 is locked, and the row 60 is not due.
abbrev is_locked : Text → Bool
is_locked id = text_eq id (3 ∷ [])

abbrev leased : List Event
leased = event 1 ∷ event 2 ∷ []

abbrev rows_behind : List StoredEvent
rows_behind =
    leased_row token 60 50 (event_ids leased) (row 2)
    ∷ leased_row token 60 50 (event_ids leased) (row 1)
    ∷ row 3
    ∷ row 60
    ∷ []

claim_batch_takes :
    claim_batch is_locked 50 token 10 60 (row 2 ∷ row 1 ∷ row 3 ∷ row 60 ∷ [])
    ≡ (ok leased, rows_behind)
unfolding claim_batch claimable event_ids has_id insert_candidate limited sort_candidates text_eq
claim_batch_takes = refl

run_once-IsServed_example :
    (length leased ≤ 10)
    × IsServed is_locked 50 token world config leased (row 1) (
        called_all token
          (λ id. none)
          (λ c. 55)
          (run_once world config (ok token) (λ token limit lease.
            (claim_batch is_locked 50 token limit lease
              (row 2 ∷ row 1 ∷ row 3 ∷ row 60 ∷ [])).0)).calls
          (leased_row token 60 50 (event_ids leased) (row 1)))
unfolding occurs text_eq
run_once-IsServed_example =
    run_once-IsServed is_locked 50 token (λ id. none) (λ c. 55) world config (row 2 ∷ [])
      (row 3 ∷ row 60 ∷ []) (row 1) leased rows_behind refl claim_batch_takes
