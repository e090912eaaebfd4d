-- ===== src/Product/Batch/Added.antt =====
-- What a successful addVersion and a successful apply did to the fold, as facts to reason from.
use cross_border_ecommerce.Base.{
  ℕ, ◌+◌, ◌≡◌, Option, none, some, arith, Text, Result, ok, >>=-eq-ok, ok-injective,
}
use cross_border_ecommerce.Product.Transition.{TransitionResult, Snapshot}
use cross_border_ecommerce.Product.Batch.Grouping.{BatchIncomingRecord}
use cross_border_ecommerce.Product.Batch.Versions.{IdentityFold, snapshot_of, added, add_version}

-- The snapshot that a new version builds on: the running one, or a fresh one.
abbrev pub BuildsOn : Option Snapshot → Snapshot → Type 0
BuildsOn none s = (s.current_version_id ≡ none) × (s.stored_current_version ≡ none)
BuildsOn (some s) s' = s' ≡ s

pub record IsAdded (r : BatchIncomingRecord) (t : TransitionResult) (f f' : IdentityFold)
    : Type 0 where
  pub base : Snapshot
  pub next : ℕ
  pub version_id : Text
  pub change_id : Text
  pub event_id : Text
  pub builds_on : BuildsOn f.cur base
  pub result : added r t f base next version_id change_id event_id ≡ f'

snapshot_of-ok :
    (gen : ℕ → Result Text) (f : IdentityFold) (at : ℕ) (cur : Option Snapshot) (s : Snapshot)
    (k : ℕ)
    → snapshot_of gen f at cur ≡ ok (s, k)
    → BuildsOn cur s
unfolding snapshot_of
snapshot_of-ok gen f at (some c) s k h = ground arith
snapshot_of-ok gen f at none s k h = ground arith

pub add_version-ok :
    (gen : ℕ → Result Text) (r : BatchIncomingRecord) (t : TransitionResult) (f f' : IdentityFold)
    → add_version gen r t f ≡ ok f'
    → IsAdded r t f f'
unfolding add_version
add_version-ok gen r t f f' h =
    let (found, e0, h0) = >>=-eq-ok (snapshot_of gen f r.received_at f.cur) _ h in
    let (version_id, e1, h1) = >>=-eq-ok (gen found.1) _ h0 in
    let (change_id, e2, h2) = >>=-eq-ok (gen (found.1 + 1)) _ h1 in
    let (event_id, e3, h3) = >>=-eq-ok (gen (found.1 + 2)) _ h2 in
    record {
      base = found.0;
      next = found.1 + 3;
      version_id = version_id;
      change_id = change_id;
      event_id = event_id;
      builds_on = snapshot_of-ok gen f r.received_at f.cur found.0 found.1 e0;
      result = ok-injective h3;
    }
