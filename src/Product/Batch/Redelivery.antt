-- ===== src/Product/Batch/Redelivery.antt =====
-- A record that is folded a second time (identityFold.apply of internal/domain/product/batch.go).
use cross_border_ecommerce.Base.{
  ℕ, ◌≡◌, refl, sym, ap, subst, ◌⊎◌, inl, inr, true, Option, none, some, Text, has_prefix, Result,
  ok, >>=-eq-ok, ok-injective,
}
use cross_border_ecommerce.Product.Canonical.{Codec, fingerprint_v1_prefix}
use cross_border_ecommerce.Product.Transition.{
  TransitionType, new, changed, unchanged, stale, version_mismatch, TransitionResult, Snapshot,
  decide_transition,
}
use cross_border_ecommerce.Product.Transition.Decision.{
  decide_transition-known, decide_transition-unchanged,
}
use cross_border_ecommerce.Product.Batch.Grouping.{BatchIncomingRecord}
use cross_border_ecommerce.Product.Batch.Versions.{IdentityFold, added, add_version}
use cross_border_ecommerce.Product.Batch.Fold.{
  on_cur, touch, apply_as, apply, advance, incoming_of, with_fingerprint, count_one_unchanged,
}
use cross_border_ecommerce.Product.Batch.Added.{add_version-ok}
use cross_border_ecommerce.Product.Batch.Unchanged.{
  FoldsForNothing, stale-FoldsForNothing, unchanged-FoldsForNothing,
}

-- The running snapshot holds a fingerprint.
abbrev pub Holds : Text → Option Snapshot → Type 0
Holds p none = ⊥
Holds p (some s) = s.current_fingerprint ≡ p

on_cur-Holds :
    (p : Text) (g : Snapshot → Snapshot) (f f' : IdentityFold) (cur : Option Snapshot)
    → ((s : Snapshot) → cur ≡ some s → (g s).current_fingerprint ≡ p)
    → on_cur g f cur ≡ ok f'
    → Holds p f'.cur
unfolding on_cur
on_cur-Holds p g f f' none k h = cc
on_cur-Holds p g f f' (some s) k h = subst (λ x. Holds p x.cur) (ok-injective h) (k s refl)

touch-Holds :
    (p : Text) (r : BatchIncomingRecord) (f f' : IdentityFold)
    → touch r f ≡ ok f'
    → Holds p f.cur
    → Holds p f'.cur
unfolding touch
touch-Holds p r f f' h i =
    let (f1, e, h') = >>=-eq-ok (on_cur (advance r) f f.cur) _ h in
    subst (λ x. Holds p x.cur) (ok-injective h')
      (on_cur-Holds p (advance r) f f1 f.cur (λ s e'. subst (Holds p) e' i) e)

add_version-Holds :
    (gen : ℕ → Result Text) (r : BatchIncomingRecord) (t : TransitionResult) (f f' : IdentityFold)
    → add_version gen r t f ≡ ok f'
    → Holds r.fingerprint f'.cur
unfolding added
add_version-Holds gen r t f f' h =
    subst (λ x. Holds r.fingerprint x.cur) (add_version-ok gen r t f f' h).result refl

touch-unchanged :
    (r : BatchIncomingRecord) (f f' : IdentityFold)
    → touch r (count_one_unchanged f) ≡ ok f'
    → ((s : Snapshot) → f.cur ≡ some s → s.current_fingerprint ≡ r.fingerprint)
    → Holds r.fingerprint f'.cur
unfolding touch
touch-unchanged r f f' h k =
    let (f1, e, h') = >>=-eq-ok (on_cur (advance r) (count_one_unchanged f) f.cur) _ h in
    subst (λ x. Holds r.fingerprint x.cur) (ok-injective h')
      (on_cur-Holds r.fingerprint (advance r) (count_one_unchanged f) f1 f.cur k e)

-- After every transition but `stale`, the snapshot holds the fingerprint of the record.
apply_as-Holds :
    (gen : ℕ → Result Text) (r : BatchIncomingRecord) (t : TransitionResult) (type : TransitionType)
    (f f' : IdentityFold)
    → apply_as gen r t type f ≡ ok f'
    → (type ≡ unchanged → (s : Snapshot) → f.cur ≡ some s → s.current_fingerprint ≡ r.fingerprint)
    → ((type ≡ stale) × (f'.cur ≡ f.cur)) ⊎ Holds r.fingerprint f'.cur
unfolding apply_as
apply_as-Holds gen r t stale f f' h k = inl (refl, ap (λ x. x.cur) (sym (ok-injective h)))
apply_as-Holds gen r t new f f' h k =
    let (f1, e, h') = >>=-eq-ok (add_version gen r t f) _ h in
    inr (touch-Holds r.fingerprint r f1 f' h' (add_version-Holds gen r t f f1 e))
apply_as-Holds gen r t changed f f' h k =
    let (f1, e, h') = >>=-eq-ok (add_version gen r t f) _ h in
    inr (touch-Holds r.fingerprint r f1 f' h' (add_version-Holds gen r t f f1 e))
apply_as-Holds gen r t version_mismatch f f' h k =
    let (f1, e, h') = >>=-eq-ok (on_cur (with_fingerprint r.fingerprint) f f.cur) _ h in
    inr (
      touch-Holds r.fingerprint r (count_one_unchanged f1) f' h'
        (on_cur-Holds r.fingerprint (with_fingerprint r.fingerprint) f f1 f.cur (λ s e'. refl) e))
apply_as-Holds gen r t unchanged f f' h k = inr (touch-unchanged r f f' h (k refl))

-- After a fold that took a record, it is stale for the snapshot, or its fingerprint is there.
applied-Holds :
    (c : Codec) (gen : ℕ → Result Text) (r : BatchIncomingRecord) (f f' : IdentityFold)
    → apply c gen r f ≡ ok f'
    → ((decide_transition c f'.cur (incoming_of r)).type ≡ stale) ⊎ Holds r.fingerprint f'.cur
unfolding apply
applied-Holds c gen r f f' h =
    elim (apply_as-Holds gen r _ _ f f' h (λ u s e.
      decide_transition-unchanged c s (incoming_of r)
        (subst (λ x. (decide_transition c x (incoming_of r)).type ≡ unchanged) e u))) [
          | inl w ↦
              inl (subst (λ x. (decide_transition c x (incoming_of r)).type ≡ stale) (sym w.1) w.0)
          | inr w ↦ inr w
        ]

decide_again :
    (c : Codec) (r : BatchIncomingRecord) (cur : Option Snapshot)
    → Holds r.fingerprint cur
    → has_prefix fingerprint_v1_prefix r.fingerprint ≡ true
    → ((decide_transition c cur (incoming_of r)).type ≡ stale)
      ⊎ ((decide_transition c cur (incoming_of r)).type ≡ unchanged)
decide_again c r none h p = elim h [ ]
decide_again c r (some s) h p = decide_transition-known c s (incoming_of r) h p

Holds-some : (p : Text) (cur : Option Snapshot) → Holds p cur → (s : Snapshot) × (cur ≡ some s)
Holds-some p none h = elim h [ ]
Holds-some p (some s) h = (s, refl)

decided-FoldsForNothing :
    (c : Codec) (gen : ℕ → Result Text) (r : BatchIncomingRecord) (f : IdentityFold)
    → ((decide_transition c f.cur (incoming_of r)).type ≡ stale)
      ⊎ (Holds r.fingerprint f.cur × ((decide_transition c f.cur (incoming_of r)).type ≡ unchanged))
    → FoldsForNothing f (apply c gen r f)
unfolding apply
decided-FoldsForNothing c gen r f (inl d) =
    subst
      (λ type.
        FoldsForNothing f (apply_as gen r (decide_transition c f.cur (incoming_of r)) type f))
      (sym d) (stale-FoldsForNothing gen r _ f)
decided-FoldsForNothing c gen r f (inr (h, d)) =
    let (s, e) = Holds-some r.fingerprint f.cur h in
    subst
      (λ type.
        FoldsForNothing f (apply_as gen r (decide_transition c f.cur (incoming_of r)) type f))
      (sym d) (unchanged-FoldsForNothing gen r _ f s e)

decide_held :
    (c : Codec) (r : BatchIncomingRecord) (cur : Option Snapshot)
    → Holds r.fingerprint cur
    → has_prefix fingerprint_v1_prefix r.fingerprint ≡ true
    → ((decide_transition c cur (incoming_of r)).type ≡ stale)
      ⊎ (Holds r.fingerprint cur × ((decide_transition c cur (incoming_of r)).type ≡ unchanged))
decide_held c r cur h p = elim (decide_again c r cur h p) [ inl d ↦ inl d | inr d ↦ inr (h, d) ]

-- A record that comes a second time, with a fingerprint of the current version, adds nothing: after a
-- fold that took it, folding the same record again succeeds, makes no version, no change, no event and
-- no product, uses no new id, leaves the current version and its fingerprint, and counts the record as
-- unchanged.
pub apply-redelivered :
    (c : Codec) (gen : ℕ → Result Text) (r : BatchIncomingRecord) (f f' : IdentityFold)
    → apply c gen r f ≡ ok f'
    → has_prefix fingerprint_v1_prefix r.fingerprint ≡ true
    → FoldsForNothing f' (apply c gen r f')
apply-redelivered c gen r f f' h p =
    decided-FoldsForNothing c gen r f'
      (elim (applied-Holds c gen r f f' h) [ inl w ↦ inl w | inr w ↦ decide_held c r f'.cur w p ])
