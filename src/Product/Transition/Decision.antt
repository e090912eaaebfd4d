-- ===== src/Product/Transition/Decision.antt =====
-- What DecideTransition of internal/domain/product/transition.go decides.
use cross_border_ecommerce.Base.{
  ℕ, ◌<◌, ◌≡◌, refl, ◌↔◌, ◌⊎◌, inl, inr, Bool, true, false, List, Option, none, some, if◌then◌else◌,
  arith, Bool-cases, Text, text_eq, text_eq_refl, text_eq→eq, has_prefix,
}
use cross_border_ecommerce.Product.Canonical.{Codec, ProductVersion, fingerprint_v1_prefix}
use cross_border_ecommerce.Product.Transition.{
  changed, unchanged, stale, version_mismatch, Snapshot, IncomingRecord, is_stale, is_upgrade,
  decide_transition, plain,
}

-- A record that comes after what the snapshot has seen: by the time of the source where both are known,
-- with the time of receipt for a tie, and by the time of receipt where one is missing.
abbrev pub ComesBefore : Option ℕ → ℕ → Option ℕ → ℕ → Type 0
ComesBefore (some a) received (some b) last = (a < b) ⊎ ((a ≡ b) × (received < last))
ComesBefore none received b last = received < last
ComesBefore (some a) received none last = received < last

is_stale_iff :
    (a b : Option ℕ) (received last : ℕ)
    → (is_stale a b received last ≡ true) ↔ ComesBefore a received b last
unfolding is_stale
is_stale_iff (some a) (some b) received last = ground arith
is_stale_iff none (some b) received last = ground arith
is_stale_iff none none received last = ground arith
is_stale_iff (some a) none received last = ground arith

-- The first test decides alone whether the branches end as stale.
stale-only :
    (x y z : Bool) (fields : List Text)
    → (if x
        then plain stale
        else if y
        then plain version_mismatch
        else if z
        then plain unchanged
        else record { type = changed; changed_fields = fields }).type
      ≡ stale
    → x ≡ true
stale-only true y z fields h = refl
stale-only false true z fields h = cc
stale-only false false true fields h = cc
stale-only false false false fields h = cc

is_upgrade-current :
    (c : Codec) (current : Text) (v : Option ProductVersion) (incoming : Text)
    → current ≡ incoming
    → has_prefix fingerprint_v1_prefix incoming ≡ true
    → is_upgrade c current v incoming ≡ false
unfolding is_upgrade
is_upgrade-current c current none incoming e p = refl
is_upgrade-current c current (some v) incoming e p = rw (e, p) refl

-- A record of a known product is dropped as stale exactly if it comes before what the snapshot has
-- seen, whatever its content: by the time of the source where both are known, with the time of receipt
-- for a tie, and by the time of receipt where one is missing.
pub decide_transition-stale_iff :
    (c : Codec) (s : Snapshot) (r : IncomingRecord)
    → ((decide_transition c (some s) r).type ≡ stale)
      ↔ ComesBefore r.source_updated_at r.received_at s.last_source_updated_at s.last_received_at
unfolding decide_transition
decide_transition-stale_iff c s r =
    let w =
      is_stale_iff r.source_updated_at s.last_source_updated_at r.received_at s.last_received_at in
    (
      λ e. w.0 (
          stale-only
            (is_stale r.source_updated_at s.last_source_updated_at r.received_at s.last_received_at)
            (is_upgrade c s.current_fingerprint s.stored_current_version r.fingerprint)
            (text_eq s.current_fingerprint r.fingerprint) _ e),
      λ o. rw (w.1 o) refl,
    )

-- A record whose fingerprint of the current version is the one that the snapshot holds.
pub decide_transition-known :
    (c : Codec) (s : Snapshot) (r : IncomingRecord)
    → s.current_fingerprint ≡ r.fingerprint
    → has_prefix fingerprint_v1_prefix r.fingerprint ≡ true
    → ((decide_transition c (some s) r).type ≡ stale)
      ⊎ ((decide_transition c (some s) r).type ≡ unchanged)
unfolding decide_transition
decide_transition-known c s r e p =
    elim (Bool-cases
      (is_stale r.source_updated_at s.last_source_updated_at r.received_at s.last_received_at)) [
        | inl b ↦ inl (rw b refl)
        | inr b ↦ inr (
            rw
              (
                b,
                is_upgrade-current c s.current_fingerprint s.stored_current_version r.fingerprint e
                    p,
              )
              (rw (e, text_eq_refl r.fingerprint) refl))
      ]

unchanged-only :
    (x y z : Bool) (fields : List Text)
    → (if x
        then plain stale
        else if y
        then plain version_mismatch
        else if z
        then plain unchanged
        else record { type = changed; changed_fields = fields }).type
      ≡ unchanged
    → z ≡ true
unchanged-only true y z fields h = cc
unchanged-only false true z fields h = cc
unchanged-only false false true fields h = refl
unchanged-only false false false fields h = cc

pub decide_transition-unchanged :
    (c : Codec) (s : Snapshot) (r : IncomingRecord)
    → (decide_transition c (some s) r).type ≡ unchanged
    → s.current_fingerprint ≡ r.fingerprint
unfolding decide_transition
decide_transition-unchanged c s r h = text_eq→eq s.current_fingerprint r.fingerprint (
    unchanged-only
      (is_stale r.source_updated_at s.last_source_updated_at r.received_at s.last_received_at)
      (is_upgrade c s.current_fingerprint s.stored_current_version r.fingerprint)
      (text_eq s.current_fingerprint r.fingerprint) _ h)
