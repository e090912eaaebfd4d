-- ===== src/Product/Batch/Running.antt =====
-- A fold always has what the code dereferences: no nil pointer is followed (identityFold of
-- internal/domain/product/batch.go).
use cross_border_ecommerce.Base.{
  ℕ, ◌+◌, ◌≡◌, ◌≢◌, refl, sym, subst, Bool, true, false, List, [], ◌∷◌, Option, none, some, All,
  Text, Result, ok,
}
use cross_border_ecommerce.Product.Canonical.{ProductVersion, Codec}
use cross_border_ecommerce.Product.Transition.{
  TransitionType, new, changed, unchanged, stale, version_mismatch, TransitionResult, Snapshot,
  decide_transition, IncomingRecord,
}
use cross_border_ecommerce.Product.Batch.Plan.{BatchPlan}
use cross_border_ecommerce.Product.Batch.Grouping.{BatchIncomingRecord, IdentityGroup}
use cross_border_ecommerce.Product.Batch.Partition.{IsKeyed}
use cross_border_ecommerce.Product.Batch.Versions.{
  IdentityFold, new_identity_fold, snapshot_of, added, add_version,
}
use cross_border_ecommerce.Product.Batch.Fold.{
  on_cur, touch, apply_as, apply, apply_all, decide_groups, with_version, emit_by, emit,
  count_one_unchanged, advance, incoming_of, with_fingerprint,
}

-- The identifier source answers every call.
abbrev pub Answers : (ℕ → Result Text) → Type 0
Answers gen = (k : ℕ) → (id : Text) × (gen k ≡ ok id)

-- A result is a value with a property.
abbrev pub Gives {ℓ κ} : {A : Type ℓ} → (A → Type κ) → Result A → Type (ℓ ⊔ κ)
Gives {A = A} P m = (a : A) × (m ≡ ok a) × P a

-- What emit dereferences: the running snapshot, and its version where one was added.
abbrev HasVersion : Bool → Option ProductVersion → Type 0
HasVersion false v = Unit
HasVersion true none = ⊥
HasVersion true (some v) = Unit

abbrev HasStart : Option Snapshot → Bool → Type 0
HasStart none versioned = versioned ≡ true
HasStart (some s) versioned = Unit

abbrev HasCurrent : Option Snapshot → Bool → Type 0
HasCurrent none versioned = ⊥
HasCurrent (some s) versioned = HasVersion versioned s.stored_current_version

-- The fold has seen a record, or its identity was stored already.
abbrev pub IsRunning : IdentityFold → Type 0
IsRunning f = HasStart f.start f.versioned × HasCurrent f.cur f.versioned

-- Nothing has been seen of an identity that is not stored.
abbrev pub IsFresh : IdentityFold → Type 0
IsFresh f = f.cur ≡ none

snapshot_of-Gives :
    (gen : ℕ → Result Text) (f : IdentityFold) (at : ℕ) (cur : Option Snapshot)
    → Answers gen
    → Gives (λ x. Unit {0}) (snapshot_of gen f at cur)
unfolding snapshot_of
snapshot_of-Gives gen f at (some s) a = (_, refl, tt)
snapshot_of-Gives gen f at none a =
    let (x, e) = a f.next_id in let (y, e') = a (f.next_id + 1) in rw (e, e') (_, refl, tt)

HasStart-true : (o : Option Snapshot) → HasStart o true
HasStart-true none = refl
HasStart-true (some s) = tt

added-IsRunning :
    (r : BatchIncomingRecord) (t : TransitionResult) (f : IdentityFold) (s : Snapshot) (k : ℕ)
    (version_id change_id event_id : Text)
    → IsRunning (added r t f s k version_id change_id event_id)
unfolding added
added-IsRunning r t f s k version_id change_id event_id = (HasStart-true f.start, tt)

add_version-Gives :
    (gen : ℕ → Result Text) (r : BatchIncomingRecord) (t : TransitionResult) (f : IdentityFold)
    → Answers gen
    → Gives IsRunning (add_version gen r t f)
unfolding add_version
add_version-Gives gen r t f a =
    let (found, e, u) = snapshot_of-Gives gen f r.received_at f.cur a in
    let (x, e1) = a (found.1) in
    let (y, e2) = a (found.1 + 1) in
    let (z, e3) = a (found.1 + 2) in
    rw (e, e1, e2, e3) (_, refl, added-IsRunning r t f found.0 _ x y z)

-- A write through the running snapshot that keeps its version.
on_cur-Gives :
    (g : Snapshot → Snapshot) (f : IdentityFold) (cur : Option Snapshot)
    → ((s : Snapshot) → (g s).stored_current_version ≡ s.stored_current_version)
    → HasStart f.start f.versioned
    → HasCurrent cur f.versioned
    → Gives (λ f'. IsRunning f' × (f'.touched ≡ f.touched)) (on_cur g f cur)
unfolding on_cur
on_cur-Gives g f none k h h' = elim h' [ ]
on_cur-Gives g f (some s) k h h' =
    (_, refl, ((h, subst (HasVersion f.versioned) (sym (k s)) h'), refl))

touch-Gives :
    (r : BatchIncomingRecord) (f : IdentityFold) → IsRunning f → Gives IsRunning (touch r f)
unfolding touch
touch-Gives r f i =
    let (f', e, i') = on_cur-Gives (advance r) f f.cur (λ s. refl) i.0 i.1 in rw e (_, refl, i'.0)

apply_as-Gives :
    (gen : ℕ → Result Text) (r : BatchIncomingRecord) (t : TransitionResult) (type : TransitionType)
    (f : IdentityFold)
    → Answers gen
    → IsRunning f
    → Gives IsRunning (apply_as gen r t type f)
unfolding apply_as
apply_as-Gives gen r t stale f a i = (_, refl, i)
apply_as-Gives gen r t new f a i =
    let (f', e, i') = add_version-Gives gen r t f a in rw e (touch-Gives r f' i')
apply_as-Gives gen r t changed f a i =
    let (f', e, i') = add_version-Gives gen r t f a in rw e (touch-Gives r f' i')
apply_as-Gives gen r t version_mismatch f a i =
    let (f', e, i') = on_cur-Gives (with_fingerprint r.fingerprint) f f.cur (λ s. refl) i.0 i.1 in
    rw e (touch-Gives r (count_one_unchanged f') i'.0)
apply_as-Gives gen r t unchanged f a i = touch-Gives r (count_one_unchanged f) i

-- The first record of an identity that is not stored is new.
decide_transition-none :
    (c : Codec) (r : IncomingRecord) (cur : Option Snapshot)
    → cur ≡ none
    → new ≡ (decide_transition c cur r).type
unfolding decide_transition
decide_transition-none c r none e = refl
decide_transition-none c r (some s) e = cc

apply_new-Gives :
    (gen : ℕ → Result Text) (r : BatchIncomingRecord) (t : TransitionResult) (f : IdentityFold)
    → Answers gen
    → Gives IsRunning (apply_as gen r t new f)
unfolding apply_as
apply_new-Gives gen r t f a =
    let (f', e, i') = add_version-Gives gen r t f a in rw e (touch-Gives r f' i')

apply_fresh-Gives :
    (c : Codec) (gen : ℕ → Result Text) (r : BatchIncomingRecord) (f : IdentityFold)
    → Answers gen
    → IsFresh f
    → Gives IsRunning (apply c gen r f)
unfolding apply
apply_fresh-Gives c gen r f a e =
    let t = decide_transition c f.cur (incoming_of r) in
    subst (λ type. Gives IsRunning (apply_as gen r t type f))
      (decide_transition-none c (incoming_of r) f.cur e) (apply_new-Gives gen r t f a)

apply_all-Gives :
    (c : Codec) (gen : ℕ → Result Text) (rs : List BatchIncomingRecord) (f : IdentityFold)
    → Answers gen
    → IsRunning f
    → Gives IsRunning (apply_all c gen rs f)
unfolding apply_all apply
apply_all-Gives c gen [] f a i = (f, refl, i)
apply_all-Gives c gen (r ∷ rs) f a i =
    let (f', e, i') =
      apply_as-Gives gen r (decide_transition c f.cur (incoming_of r))
        (decide_transition c f.cur (incoming_of r)).type f a i in
    rw e (apply_all-Gives c gen rs f' a i')

with_version-Gives :
    (o : Option ProductVersion) (k : ProductVersion → BatchPlan)
    → HasVersion true o
    → Gives (λ p. Unit {0}) (with_version o k)
with_version-Gives none k h = elim h [ ]
with_version-Gives (some v) k h = (_, refl, tt)

emit_by-Gives :
    (f : IdentityFold) (start cur : Option Snapshot) (versioned touched : Bool)
    → HasStart start versioned
    → HasCurrent cur versioned
    → Gives (λ p. Unit {0}) (emit_by f start cur versioned touched)
unfolding emit_by
emit_by-Gives f start none versioned touched h h' = elim h' [ ]
emit_by-Gives f none (some s) versioned touched h h' =
    with_version-Gives s.stored_current_version _
      (subst (λ b. HasVersion b s.stored_current_version) h h')
emit_by-Gives f (some start) (some s) true touched h h' =
    with_version-Gives s.stored_current_version _ h'
emit_by-Gives f (some start) (some s) false true h h' = (_, refl, tt)
emit_by-Gives f (some start) (some s) false false h h' = (_, refl, tt)

apply_all-fresh :
    (c : Codec) (gen : ℕ → Result Text) (r : BatchIncomingRecord) (rs : List BatchIncomingRecord)
    (f : IdentityFold)
    → Answers gen
    → IsFresh f
    → Gives IsRunning (apply_all c gen (r ∷ rs) f)
unfolding apply_all
apply_all-fresh c gen r rs f a e =
    let (f', e', i) = apply_fresh-Gives c gen r f a e in rw e' (apply_all-Gives c gen rs f' a i)

-- The records of one group, from the fold that its identity starts with.
apply_all-start :
    (c : Codec) (gen : ℕ → Result Text) (rs : List BatchIncomingRecord) (p : BatchPlan)
    (g : IdentityGroup) (start : Option Snapshot) (now next_id : ℕ)
    → Answers gen
    → rs ≢ []
    → Gives IsRunning (apply_all c gen rs (new_identity_fold p g start now next_id))
unfolding new_identity_fold
apply_all-start c gen [] p g start now next_id a n = elim (n refl) [ ]
apply_all-start c gen (r ∷ rs) p g (some s) now next_id a n =
    apply_all-Gives c gen (r ∷ rs) _ a (tt, tt)
apply_all-start c gen (r ∷ rs) p g none now next_id a n =
    apply_all-fresh c gen r rs (new_identity_fold p g none now next_id) a refl

pub decide_groups-Gives :
    (c : Codec) (gen : ℕ → Result Text) (snapshots : Text → Option Snapshot) (now : ℕ)
    (p : BatchPlan) (next_id : ℕ) (gs : List IdentityGroup)
    → Answers gen
    → All IsKeyed gs
    → Gives (λ x. Unit {0}) (decide_groups c gen snapshots now p next_id gs)
unfolding decide_groups emit
decide_groups-Gives c gen snapshots now p next_id [] a k = (p, refl, tt)
decide_groups-Gives c gen snapshots now p next_id (g ∷ gs) a k =
    let (f, e, i) = apply_all-start c gen g.records p g (snapshots g.key) now next_id a k.0.1 in
    let (p', e', u) = emit_by-Gives f f.start f.cur f.versioned f.touched i.0 i.1 in
    rw (e, e') (decide_groups-Gives c gen snapshots now p' f.next_id gs a k.1)
