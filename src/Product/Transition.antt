-- ===== src/Product/Transition.antt =====
-- internal/domain/product/transition.go. Instants are numbers.
pub mod Decision
use cross_border_ecommerce.Base.{
  ℕ, ltb, ◌==◌, Bool, true, false, not, ◌&&◌, ◌||◌, List, [], ◌∷◌, Option, none, some,
  if◌then◌else◌, Text, text_eq, has_prefix,
}
use cross_border_ecommerce.Product.Canonical.{
  NormalizedProduct, ProductVersion, Codec, fingerprint_v1_prefix, fingerprint_from_version,
  detect_field_changes,
}

pub data TransitionType : Type 0 where
  new changed unchanged stale version_mismatch : TransitionType

pub record TransitionResult : Type 0 where
  pub type : TransitionType
  pub changed_fields : List Text

pub record Snapshot : Type 0 where
  pub product_source_id : Text
  pub product_id : Text
  pub current_version_id : Option Text
  pub current_fingerprint : Text
  pub last_source_updated_at : Option ℕ
  pub last_received_at : ℕ
  pub stored_current_version : Option ProductVersion

pub record IncomingRecord : Type 0 where
  pub normalized : NormalizedProduct
  pub fingerprint : Text
  pub source_updated_at : Option ℕ
  pub received_at : ℕ
  pub raw_record_id : Text

abbrev pub plain : TransitionType → TransitionResult
plain t = record { type = t; changed_fields = [] }

-- The out-of-order test: by the times of the source where both are known, and by the time of receipt
-- where they are equal or one is missing.
unfoldable pub is_stale : Option ℕ → Option ℕ → ℕ → ℕ → Bool
is_stale (some incoming) (some last) received last_received =
    ltb incoming last || (incoming == last && ltb received last_received)
is_stale none last received last_received = ltb received last_received
is_stale (some incoming) none received last_received = ltb received last_received

-- A version stored under an older fingerprint that the current algorithm maps to the incoming one.
unfoldable pub is_upgrade : Codec → Text → Option ProductVersion → Text → Bool
is_upgrade c current none incoming = false
is_upgrade c current (some v) incoming =
    not (has_prefix fingerprint_v1_prefix current)
    && text_eq (fingerprint_from_version c v) incoming

abbrev field_changes : Codec → Option ProductVersion → NormalizedProduct → List Text
field_changes c none next = []
field_changes c (some v) next = detect_field_changes c v next

-- DecideTransition.
unfoldable pub decide_transition : Codec → Option Snapshot → IncomingRecord → TransitionResult
decide_transition c none r = plain new
decide_transition c (some s) r =
    if is_stale r.source_updated_at s.last_source_updated_at r.received_at s.last_received_at
    then plain stale
    else if is_upgrade c s.current_fingerprint s.stored_current_version r.fingerprint
    then plain version_mismatch
    else if text_eq s.current_fingerprint r.fingerprint
    then plain unchanged
    else record {
      type = changed;
      changed_fields = field_changes c s.stored_current_version r.normalized;
    }
