-- ===== src/Product/Batch/Unchanged.antt =====
-- A record that is stale or unchanged (identityFold.apply of internal/domain/product/batch.go).
use cross_border_ecommerce.Base.{
  ℕ, ◌+◌, ◌∙◌, some-injective, ◌≡◌, refl, sym, ap, true, some, Text, Result, ok,
}
use cross_border_ecommerce.Product.Transition.{unchanged, stale, TransitionResult, Snapshot}
use cross_border_ecommerce.Product.Batch.Grouping.{BatchIncomingRecord}
use cross_border_ecommerce.Product.Batch.Versions.{IdentityFold}
use cross_border_ecommerce.Product.Batch.Fold.{
  on_cur, touch, apply_as, advance, count_one_unchanged,
}

-- What a record adds that is folded for nothing: no version, no change and no event, and one more record
-- that is counted as unchanged.
pub record AddsNothing (f f' : IdentityFold) : Type 0 where
  pub versions : f'.plan.product_versions_to_insert ≡ f.plan.product_versions_to_insert
  pub changes : f'.plan.product_changes_to_insert ≡ f.plan.product_changes_to_insert
  pub events : f'.plan.events ≡ f.plan.events
  pub products : f'.plan.products_to_insert ≡ f.plan.products_to_insert
  pub new_count : f'.plan.metrics.new ≡ f.plan.metrics.new
  pub changed_count : f'.plan.metrics.changed ≡ f.plan.metrics.changed
  pub unchanged_count : f'.plan.metrics.unchanged ≡ f.plan.metrics.unchanged + 1
  pub version :
      (s : Snapshot)
      → f.cur ≡ some s
      → (s' : Snapshot) × ((f'.cur ≡ some s')
          × ((s'.current_fingerprint ≡ s.current_fingerprint)
              × (s'.current_version_id ≡ s.current_version_id)))
  pub versioned : f'.versioned ≡ f.versioned
  pub ids : f'.next_id ≡ f.next_id

-- A fold that goes through and adds nothing.
abbrev pub FoldsForNothing : IdentityFold → Result IdentityFold → Type 0
FoldsForNothing f result = (f' : IdentityFold) × ((result ≡ ok f') × AddsNothing f f')

pub stale-FoldsForNothing :
    (gen : ℕ → Result Text) (r : BatchIncomingRecord) (t : TransitionResult) (f : IdentityFold)
    → FoldsForNothing f (apply_as gen r t stale f)
unfolding apply_as
stale-FoldsForNothing gen r t f = (
  count_one_unchanged f,
  (
    refl,
    record {
      versions = refl;
      changes = refl;
      events = refl;
      products = refl;
      new_count = refl;
      changed_count = refl;
      unchanged_count = refl;
      version = λ s e. (s, (e, (refl, refl)));
      versioned = refl;
      ids = refl;
    },
  ),
)

-- The record moves the watermarks of the snapshot.
abbrev moved : BatchIncomingRecord → Snapshot → IdentityFold → IdentityFold
moved r s f = record (count_one_unchanged f) { cur = some (advance r s); touched = true }

touch-some :
    (r : BatchIncomingRecord) (f : IdentityFold) (s : Snapshot)
    → f.cur ≡ some s
    → touch r (count_one_unchanged f) ≡ ok (moved r s f)
unfolding touch on_cur
touch-some r f s e = rw e refl

pub unchanged-FoldsForNothing :
    (gen : ℕ → Result Text) (r : BatchIncomingRecord) (t : TransitionResult) (f : IdentityFold)
    (s : Snapshot)
    → f.cur ≡ some s
    → FoldsForNothing f (apply_as gen r t unchanged f)
unfolding apply_as
unchanged-FoldsForNothing gen r t f s e = (
  moved r s f,
  (
    touch-some r f s e,
    record {
      versions = refl;
      changes = refl;
      events = refl;
      products = refl;
      new_count = refl;
      changed_count = refl;
      unchanged_count = refl;
      version = λ s' e'. (
        advance r s,
        (
          refl,
          (
            ap (λ x. x.current_fingerprint) (some-injective (sym e ∙ e')),
            ap (λ x. x.current_version_id) (some-injective (sym e ∙ e')),
          ),
        ),
      );
      versioned = refl;
      ids = refl;
    },
  ),
)
