-- ===== src/Product/Batch/Accounting.antt =====
-- The counters of a plan: every record is counted once, and a version, a change and an event stand in
-- the plan for each record that is new or changed (DecideBatch of internal/domain/product/batch.go).
use cross_border_ecommerce.Base.{
  ℕ, suc, ◌+◌, ◌≡◌, ◌∙◌, Bool, true, false, List, [], ◌∷◌, Option, none, some, arith, length,
  length-append, Text, Result, ok, >>=-eq-ok, ok-injective, subst,
}
use cross_border_ecommerce.Product.Metrics.{BatchMetrics}
use cross_border_ecommerce.Product.Canonical.{ProductVersion, Codec}
use cross_border_ecommerce.Product.Transition.{
  TransitionType, new, changed, unchanged, stale, version_mismatch, TransitionResult, Snapshot,
}
use cross_border_ecommerce.Product.Batch.Plan.{ChangeType, change_new, change_changed, BatchPlan}
use cross_border_ecommerce.Product.Batch.Grouping.{BatchIncomingRecord, IdentityGroup}
use cross_border_ecommerce.Product.Batch.Versions.{
  IdentityFold, new_identity_fold, change_type_of, count_version, count_unchanged, append_version,
  added, add_version,
}
use cross_border_ecommerce.Product.Batch.Fold.{
  on_cur, touch, apply_as, apply, apply_all, emit_insert, emit_version_update, emit_touch,
  with_version, emit_by, emit, advance, count_one_unchanged, decide_groups,
}
use cross_border_ecommerce.Product.Batch.Added.{add_version-ok}

pub record IsTallied (seen handled : ℕ) (m : BatchMetrics)
    (version_count change_count event_count : ℕ) : Type 0 where
  pub all_seen : m.seen ≡ seen
  pub all_handled : m.new + m.changed + m.unchanged ≡ handled
  pub versions : version_count ≡ m.new + m.changed
  pub changes : change_count ≡ m.new + m.changed
  pub events : event_count ≡ m.new + m.changed
  pub no_failures : m.failures ≡ 0

abbrev pub IsAccounted : ℕ → ℕ → BatchPlan → Type 0
IsAccounted seen handled p =
    IsTallied seen handled p.metrics (length p.product_versions_to_insert)
      (length p.product_changes_to_insert) (length p.events)

count_version-adds :
    (c : ChangeType) (m : BatchMetrics)
    → ((count_version c m).seen ≡ m.seen)
      × (((count_version c m).new + (count_version c m).changed ≡ suc (m.new + m.changed))
          × (((count_version c m).unchanged ≡ m.unchanged)
              × ((count_version c m).failures ≡ m.failures)))
count_version-adds change_new m = ground arith
count_version-adds change_changed m = ground arith

append_version-IsAccounted :
    (seen n : ℕ) (p : BatchPlan) (r : BatchIncomingRecord) (s : Snapshot) (t : TransitionResult)
    (v : ProductVersion) (change_id event_id : Text) (now : ℕ)
    → IsAccounted seen n p
    → IsAccounted seen (suc n) (append_version p r s t v change_id event_id now)
unfolding append_version
append_version-IsAccounted seen n p r s t v change_id event_id now a =
    let (e0, (e1, (e2, e3))) = count_version-adds (change_type_of t.type) p.metrics in
    record {
      all_seen = e0 ∙ a.all_seen;
      all_handled = omega (arith, e1, e2, a.all_handled);
      versions = omega (arith, length-append p.product_versions_to_insert _, a.versions, e1);
      changes = omega (arith, length-append p.product_changes_to_insert _, a.changes, e1);
      events = omega (arith, length-append p.events _, a.events, e1);
      no_failures = e3 ∙ a.no_failures;
    }

on_cur-IsAccounted :
    (seen n : ℕ) (g : Snapshot → Snapshot) (f f' : IdentityFold) (cur : Option Snapshot)
    → on_cur g f cur ≡ ok f'
    → IsAccounted seen n f.plan
    → IsAccounted seen n f'.plan
unfolding on_cur
on_cur-IsAccounted seen n g f f' none h a = cc
on_cur-IsAccounted seen n g f f' (some s) h a =
    subst (λ x. IsAccounted seen n x.plan) (ok-injective h) a

touch-IsAccounted :
    (seen n : ℕ) (r : BatchIncomingRecord) (f f' : IdentityFold)
    → touch r f ≡ ok f'
    → IsAccounted seen n f.plan
    → IsAccounted seen n f'.plan
unfolding touch
touch-IsAccounted seen n r f f' h a =
    let (f1, e, h') = >>=-eq-ok (on_cur (advance r) f f.cur) _ h in
    subst (λ x. IsAccounted seen n x.plan) (ok-injective h')
      (on_cur-IsAccounted seen n (advance r) f f1 f.cur e a)

count_unchanged-IsAccounted :
    (seen n : ℕ) (p : BatchPlan)
    → IsAccounted seen n p
    → IsAccounted seen (suc n) (count_unchanged p)
count_unchanged-IsAccounted seen n p a = record {
  all_seen = a.all_seen;
  all_handled = omega (arith, a.all_handled);
  versions = a.versions;
  changes = a.changes;
  events = a.events;
  no_failures = a.no_failures;
}

add_version-IsAccounted :
    (seen n : ℕ) (gen : ℕ → Result Text) (r : BatchIncomingRecord) (t : TransitionResult)
    (f f' : IdentityFold)
    → add_version gen r t f ≡ ok f'
    → IsAccounted seen n f.plan
    → IsAccounted seen (suc n) f'.plan
unfolding added
add_version-IsAccounted seen n gen r t f f' h a =
    let i = add_version-ok gen r t f f' h in
    subst (λ x. IsAccounted seen (suc n) x.plan) i.result
      (append_version-IsAccounted seen n f.plan r i.base t _ i.change_id i.event_id f.now a)

apply_as-IsAccounted :
    (seen n : ℕ) (gen : ℕ → Result Text) (r : BatchIncomingRecord) (t : TransitionResult)
    (type : TransitionType) (f f' : IdentityFold)
    → apply_as gen r t type f ≡ ok f'
    → IsAccounted seen n f.plan
    → IsAccounted seen (suc n) f'.plan
unfolding apply_as
apply_as-IsAccounted seen n gen r t stale f f' h a =
    subst (λ x. IsAccounted seen (suc n) x.plan) (ok-injective h)
      (count_unchanged-IsAccounted seen n f.plan a)
apply_as-IsAccounted seen n gen r t new f f' h a =
    let (f1, e, h') = >>=-eq-ok (add_version gen r t f) _ h in
    touch-IsAccounted seen (suc n) r f1 f' h' (add_version-IsAccounted seen n gen r t f f1 e a)
apply_as-IsAccounted seen n gen r t changed f f' h a =
    let (f1, e, h') = >>=-eq-ok (add_version gen r t f) _ h in
    touch-IsAccounted seen (suc n) r f1 f' h' (add_version-IsAccounted seen n gen r t f f1 e a)
apply_as-IsAccounted seen n gen r t version_mismatch f f' h a =
    let (f1, e, h') = >>=-eq-ok (on_cur (λ s. _) f f.cur) _ h in
    touch-IsAccounted seen (suc n) r (count_one_unchanged f1) f' h'
      (count_unchanged-IsAccounted seen n f1.plan (on_cur-IsAccounted seen n _ f f1 f.cur e a))
apply_as-IsAccounted seen n gen r t unchanged f f' h a =
    touch-IsAccounted seen (suc n) r (count_one_unchanged f) f' h
      (count_unchanged-IsAccounted seen n f.plan a)

apply_all-IsAccounted :
    (seen n : ℕ) (c : Codec) (gen : ℕ → Result Text) (rs : List BatchIncomingRecord)
    (f f' : IdentityFold)
    → apply_all c gen rs f ≡ ok f'
    → IsAccounted seen n f.plan
    → IsAccounted seen (length rs + n) f'.plan
unfolding apply_all apply
apply_all-IsAccounted seen n c gen [] f f' h a =
    subst (λ k. IsAccounted seen k f'.plan) (omega arith)
      (subst (λ x. IsAccounted seen n x.plan) (ok-injective h) a)
apply_all-IsAccounted seen n c gen (r ∷ rs) f f' h a =
    let (f1, e, h') = >>=-eq-ok (apply c gen r f) _ h in
    subst (λ k. IsAccounted seen k f'.plan) (omega arith)
      (apply_all-IsAccounted seen (suc n) c gen rs f1 f' h'
        (apply_as-IsAccounted seen n gen r _ _ f f1 e a))

with_version-IsAccounted :
    (seen n : ℕ) (f : IdentityFold) (o : Option ProductVersion) (k : ProductVersion → BatchPlan)
    (p : BatchPlan)
    → with_version o k ≡ ok p
    → ((v : ProductVersion) → IsAccounted seen n (k v))
    → IsAccounted seen n p
with_version-IsAccounted seen n f none k p h a = cc
with_version-IsAccounted seen n f (some v) k p h a =
    subst (IsAccounted seen n) (ok-injective h) (a v)

emit_by-IsAccounted :
    (seen n : ℕ) (f : IdentityFold) (start cur : Option Snapshot) (versioned touched : Bool)
    (p : BatchPlan)
    → emit_by f start cur versioned touched ≡ ok p
    → IsAccounted seen n f.plan
    → IsAccounted seen n p
unfolding emit_by emit_insert emit_version_update emit_touch
emit_by-IsAccounted seen n f none none versioned touched p h a = cc
emit_by-IsAccounted seen n f none (some s) versioned touched p h a =
    with_version-IsAccounted seen n f s.stored_current_version _ p h (λ v. a)
emit_by-IsAccounted seen n f (some start) none true touched p h a = cc
emit_by-IsAccounted seen n f (some start) none false true p h a = cc
emit_by-IsAccounted seen n f (some start) none false false p h a =
    subst (IsAccounted seen n) (ok-injective h) a
emit_by-IsAccounted seen n f (some start) (some s) true touched p h a =
    with_version-IsAccounted seen n f s.stored_current_version _ p h (λ v. a)
emit_by-IsAccounted seen n f (some start) (some s) false true p h a =
    subst (IsAccounted seen n) (ok-injective h) a
emit_by-IsAccounted seen n f (some start) (some s) false false p h a =
    subst (IsAccounted seen n) (ok-injective h) a

-- The number of the records of some groups.
abbrev pub total : List IdentityGroup → ℕ
total [] = 0
total (g ∷ gs) = length g.records + total gs

pub decide_groups-IsAccounted :
    (seen n : ℕ) (c : Codec) (gen : ℕ → Result Text) (snapshots : Text → Option Snapshot) (now : ℕ)
    (p : BatchPlan) (next_id : ℕ) (gs : List IdentityGroup) (p' : BatchPlan)
    → decide_groups c gen snapshots now p next_id gs ≡ ok p'
    → IsAccounted seen n p
    → IsAccounted seen (total gs + n) p'
unfolding decide_groups emit new_identity_fold
decide_groups-IsAccounted seen n c gen snapshots now p next_id [] p' h a =
    subst (λ k. IsAccounted seen k p') (omega arith) (subst (IsAccounted seen n) (ok-injective h) a)
decide_groups-IsAccounted seen n c gen snapshots now p next_id (g ∷ gs) p' h a =
    let (f, e, h0) = >>=-eq-ok (apply_all c gen g.records _) _ h in
    let (p1, e1, h1) = >>=-eq-ok (emit f) _ h0 in
    subst (λ k. IsAccounted seen k p') (omega arith)
      (decide_groups-IsAccounted seen (length g.records + n) c gen snapshots now p1 f.next_id gs p'
        h1
        (emit_by-IsAccounted seen (length g.records + n) f f.start f.cur f.versioned f.touched p1 e1
          (apply_all-IsAccounted seen n c gen g.records _ f e a)))
