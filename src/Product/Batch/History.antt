-- ===== src/Product/Batch/History.antt =====
-- The versions and changes that the fold of one identity appends (identityFold of
-- internal/domain/product/batch.go) as a history.
use cross_border_ecommerce.Base.{
  ℕ, ◌+◌, ◌≡◌, refl, sym, ap, ◌∙◌, subst, List, [], ◌∷◌, ◌++◌, Option, none, some, Text, Result, ok,
  >>=-eq-ok, ok-injective,
}
use mathlib.Core.List.{append_assoc, append-nil}
use cross_border_ecommerce.Product.Canonical.{ProductVersion, Codec}
use cross_border_ecommerce.Product.Transition.{
  TransitionType, new, changed, unchanged, stale, version_mismatch, TransitionResult, Snapshot,
}
use cross_border_ecommerce.Product.Batch.Plan.{ProductChange, BatchPlan}
use cross_border_ecommerce.Product.Batch.Grouping.{BatchIncomingRecord}
use cross_border_ecommerce.Product.Batch.Versions.{
  IdentityFold, next_number, append_version, count_unchanged, added, add_version,
}
use cross_border_ecommerce.Product.Batch.Fold.{
  on_cur, touch, apply_as, apply, apply_all, advance, with_fingerprint, count_one_unchanged,
}
use cross_border_ecommerce.Product.Batch.Added.{BuildsOn, add_version-ok}

-- The number that the next version gets, and the version that it replaces.
abbrev pub number_of : Option Snapshot → ℕ
number_of none = 1
number_of (some s) = next_number s.stored_current_version

abbrev pub id_of : Option Snapshot → Option Text
id_of none = none
id_of (some s) = s.current_version_id

-- Versions numbered one after the other, each with a change that leads to it from the version before.
abbrev pub IsHistory :
    ℕ → Option Text → List ProductVersion → List ProductChange → ℕ → Option Text → Type 0
IsHistory n from [] [] m to = (n ≡ m) × (from ≡ to)
IsHistory n from [] (c ∷ cs) m to = ⊥
IsHistory n from (v ∷ vs) [] m to = ⊥
IsHistory n from (v ∷ vs) (c ∷ cs) m to =
    (v.version_number ≡ n)
    × ((c.from_version_id ≡ from)
        × ((c.to_version_id ≡ v.id) × IsHistory (n + 1) (some v.id) vs cs m to))

IsHistory-append :
    (n m k : ℕ) (a b d : Option Text) (vs vs' : List ProductVersion) (cs cs' : List ProductChange)
    → IsHistory n a vs cs m b
    → IsHistory m b vs' cs' k d
    → IsHistory n a (vs ++ vs') (cs ++ cs') k d
IsHistory-append n m k a b d [] vs' [] cs' h h' =
    subst (λ x. IsHistory x a vs' cs' k d) (sym h.0)
      (subst (λ x. IsHistory m x vs' cs' k d) (sym h.1) h')
IsHistory-append n m k a b d [] vs' (c ∷ cs) cs' h h' = elim h [ ]
IsHistory-append n m k a b d (v ∷ vs) vs' [] cs' h h' = elim h [ ]
IsHistory-append n m k a b d (v ∷ vs) vs' (c ∷ cs) cs' h h' =
    (h.0, (h.1.0, (h.1.1.0, IsHistory-append (n + 1) m k (some v.id) b d vs vs' cs cs' h.1.1.1 h')))

-- What a stretch of the fold appended to the plan `p`, from one snapshot to another.
pub record Extends (p : BatchPlan) (cur : Option Snapshot) (p' : BatchPlan) (cur' : Option Snapshot)
    : Type 0 where
  pub versions : List ProductVersion
  pub changes : List ProductChange
  pub inserted : p'.product_versions_to_insert ≡ p.product_versions_to_insert ++ versions
  pub recorded : p'.product_changes_to_insert ≡ p.product_changes_to_insert ++ changes
  pub history : IsHistory (number_of cur) (id_of cur) versions changes (number_of cur') (id_of cur')

-- A stretch that appends nothing.
Extends-same :
    (p p' : BatchPlan) (cur cur' : Option Snapshot)
    → p'.product_versions_to_insert ≡ p.product_versions_to_insert
    → p'.product_changes_to_insert ≡ p.product_changes_to_insert
    → number_of cur ≡ number_of cur'
    → id_of cur ≡ id_of cur'
    → Extends p cur p' cur'
Extends-same p p' cur cur' ev ec en ei = record {
  versions = [];
  changes = [];
  inserted = ev ∙ sym (append-nil p.product_versions_to_insert);
  recorded = ec ∙ sym (append-nil p.product_changes_to_insert);
  history = (en, ei);
}

Extends-trans :
    (p q s : BatchPlan) (a b d : Option Snapshot)
    → Extends p a q b
    → Extends q b s d
    → Extends p a s d
Extends-trans p q s a b d x y = record {
  versions = x.versions ++ y.versions;
  changes = x.changes ++ y.changes;
  inserted =
      y.inserted
      ∙ (ap (λ l. l ++ y.versions) x.inserted
          ∙ append_assoc p.product_versions_to_insert x.versions y.versions);
  recorded =
      y.recorded
      ∙ (ap (λ l. l ++ y.changes) x.recorded
          ∙ append_assoc p.product_changes_to_insert x.changes y.changes);
  history =
      IsHistory-append (number_of a) (number_of b) (number_of d) (id_of a) (id_of b) (id_of d)
        x.versions y.versions x.changes y.changes x.history y.history;
}

on_cur-Extends :
    (g : Snapshot → Snapshot) (f f' : IdentityFold) (cur : Option Snapshot)
    → ((s : Snapshot) → (g s).stored_current_version ≡ s.stored_current_version)
    → ((s : Snapshot) → (g s).current_version_id ≡ s.current_version_id)
    → on_cur g f cur ≡ ok f'
    → Extends f.plan cur f'.plan f'.cur
unfolding on_cur
on_cur-Extends g f f' none k k' h = cc
on_cur-Extends g f f' (some s) k k' h =
    subst (λ x. Extends f.plan (some s) x.plan x.cur) (ok-injective h)
      (Extends-same f.plan f.plan (some s) (some (g s)) refl refl (ap next_number (sym (k s)))
        (sym (k' s)))

touch-Extends :
    (r : BatchIncomingRecord) (f f' : IdentityFold)
    → touch r f ≡ ok f'
    → Extends f.plan f.cur f'.plan f'.cur
unfolding touch
touch-Extends r f f' h =
    let (f1, e, h') = >>=-eq-ok (on_cur (advance r) f f.cur) _ h in
    subst (λ x. Extends f.plan f.cur x.plan x.cur) (ok-injective h')
      (on_cur-Extends (advance r) f f1 f.cur (λ s. refl) (λ s. refl) e)

-- The base of a new version has the number and the version of the running snapshot.
BuildsOn-number :
    (cur : Option Snapshot) (s : Snapshot)
    → BuildsOn cur s
    → (next_number s.stored_current_version ≡ number_of cur) × (s.current_version_id ≡ id_of cur)
BuildsOn-number none s h = (ap next_number h.1, h.0)
BuildsOn-number (some c) s h =
    (ap (λ x. next_number x.stored_current_version) h, ap (λ x. x.current_version_id) h)

added-Extends :
    (r : BatchIncomingRecord) (t : TransitionResult) (f : IdentityFold) (s : Snapshot) (k : ℕ)
    (version_id change_id event_id : Text)
    → BuildsOn f.cur s
    → Extends f.plan f.cur
        (added r t f s k version_id change_id event_id).plan
        (added r t f s k version_id change_id event_id).cur
unfolding added append_version
added-Extends r t f s k version_id change_id event_id b =
    let (en, ei) = BuildsOn-number f.cur s b in
    record {
      versions = _;
      changes = _;
      inserted = refl;
      recorded = refl;
      history = (en, (ei, (refl, (ap (λ n. n + 1) (sym en), refl))));
    }

add_version-Extends :
    (gen : ℕ → Result Text) (r : BatchIncomingRecord) (t : TransitionResult) (f f' : IdentityFold)
    → add_version gen r t f ≡ ok f'
    → Extends f.plan f.cur f'.plan f'.cur
add_version-Extends gen r t f f' h =
    let i = add_version-ok gen r t f f' h in
    subst (λ x. Extends f.plan f.cur x.plan x.cur) i.result
      (added-Extends r t f i.base i.next i.version_id i.change_id i.event_id i.builds_on)

count-Extends :
    (r : BatchIncomingRecord) (f f' : IdentityFold)
    → touch r (count_one_unchanged f) ≡ ok f'
    → Extends f.plan f.cur f'.plan f'.cur
count-Extends r f f' h =
    Extends-trans f.plan (count_unchanged f.plan) f'.plan f.cur f.cur f'.cur
      (Extends-same f.plan (count_unchanged f.plan) f.cur f.cur refl refl refl refl)
      (touch-Extends r (count_one_unchanged f) f' h)

apply_as-Extends :
    (gen : ℕ → Result Text) (r : BatchIncomingRecord) (t : TransitionResult) (type : TransitionType)
    (f f' : IdentityFold)
    → apply_as gen r t type f ≡ ok f'
    → Extends f.plan f.cur f'.plan f'.cur
unfolding apply_as
apply_as-Extends gen r t stale f f' h =
    subst (λ x. Extends f.plan f.cur x.plan x.cur) (ok-injective h)
      (Extends-same f.plan _ f.cur f.cur refl refl refl refl)
apply_as-Extends gen r t new f f' h =
    let (f1, e, h') = >>=-eq-ok (add_version gen r t f) _ h in
    Extends-trans f.plan f1.plan f'.plan f.cur f1.cur f'.cur (add_version-Extends gen r t f f1 e)
      (touch-Extends r f1 f' h')
apply_as-Extends gen r t changed f f' h =
    let (f1, e, h') = >>=-eq-ok (add_version gen r t f) _ h in
    Extends-trans f.plan f1.plan f'.plan f.cur f1.cur f'.cur (add_version-Extends gen r t f f1 e)
      (touch-Extends r f1 f' h')
apply_as-Extends gen r t version_mismatch f f' h =
    let (f1, e, h') = >>=-eq-ok (on_cur (with_fingerprint r.fingerprint) f f.cur) _ h in
    Extends-trans f.plan f1.plan f'.plan f.cur f1.cur f'.cur
      (on_cur-Extends (with_fingerprint r.fingerprint) f f1 f.cur (λ s. refl) (λ s. refl) e)
      (count-Extends r f1 f' h')
apply_as-Extends gen r t unchanged f f' h = count-Extends r f f' h

-- The fold of one identity appends a history: the versions that it inserts are numbered one after the
-- other from the number after the stored version, and each comes with the change that names it and
-- the version before it; the history ends at the version of the running snapshot.
pub apply_all-Extends :
    (c : Codec) (gen : ℕ → Result Text) (rs : List BatchIncomingRecord) (f f' : IdentityFold)
    → apply_all c gen rs f ≡ ok f'
    → Extends f.plan f.cur f'.plan f'.cur
unfolding apply_all apply
apply_all-Extends c gen [] f f' h =
    subst (λ x. Extends f.plan f.cur x.plan x.cur) (ok-injective h)
      (Extends-same f.plan f.plan f.cur f.cur refl refl refl refl)
apply_all-Extends c gen (r ∷ rs) f f' h =
    let (f1, e, h') = >>=-eq-ok (apply c gen r f) _ h in
    Extends-trans f.plan f1.plan f'.plan f.cur f1.cur f'.cur (apply_as-Extends gen r _ _ f f1 e)
      (apply_all-Extends c gen rs f1 f' h')
