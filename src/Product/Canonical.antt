-- ===== src/Product/Canonical.antt =====
-- internal/domain/product/fingerprint.go, and the types that it reads. A Go map of attributes is an
-- association list without double keys. NFC normalisation comes from golang.org/x/text, and JSON
-- encoding with SHA-256 in hex is one function of the canonical payload: both are parameters.
use Prim.Native.Nat.{Ordering}
use cross_border_ecommerce.Base.{
  ℕ, ◌==◌, Bool, true, false, not, ◌&&◌, List, [], ◌∷◌, ◌++◌, Option, none, some, if◌then◌else◌,
  length, Text, codes, trim_space, text_eq, compare_text, CaseTable, to_lower,
}

pub record NormalizedProduct : Type 0 where
  pub canonical_name : Text
  pub description : Text
  pub brand : Text
  pub origin_country : Text
  pub attributes : List (Text × Text)

pub record ProductVersion : Type 0 where
  pub id : Text
  pub product_id : Text
  pub version_number : ℕ
  pub fingerprint : Text
  pub canonical_name : Text
  pub description : Text
  pub brand : Text
  pub origin_country : Text
  pub attributes : List (Text × Text)
  pub ingestion_run_id : Option Text
  pub created_at : ℕ

-- canonicalPayload.
pub record CanonicalPayload : Type 0 where
  pub attributes : List (Text × Text)
  pub brand : Text
  pub canonical_name : Text
  pub description : Text
  pub origin_country : Text

-- What the code takes from outside to fingerprint a product.
pub record Codec : Type 0 where
  pub cases : CaseTable
  pub nfc : Text → Text
  pub digest : CanonicalPayload → Text

unfoldable pub lookup : Text → List (Text × Text) → Option Text
lookup k [] = none
lookup k ((j, v) ∷ m) = if text_eq j k then some v else lookup k m

-- `m[k] = v`.
unfoldable pub insert : Text → Text → List (Text × Text) → List (Text × Text)
insert k v [] = (k, v) ∷ []
insert k v ((j, w) ∷ m) = if text_eq j k then (k, v) ∷ m else (j, w) ∷ insert k v m

unfoldable pub fold_text : Codec → Text → Text
fold_text c s = to_lower c.cases (c.nfc (trim_space s))

-- The loop over the attributes; where two keys fold to one, the later of the list wins.
unfoldable pub fold_attributes :
    Codec → List (Text × Text) → List (Text × Text) → List (Text × Text)
fold_attributes c folded [] = folded
fold_attributes c folded ((k, v) ∷ m) = fold_attributes c (insert (fold_text c k) v folded) m

-- canonicalize.
unfoldable pub canonicalize : Codec → NormalizedProduct → CanonicalPayload
canonicalize c p = record {
  attributes = fold_attributes c [] p.attributes;
  brand = fold_text c p.brand;
  canonical_name = p.canonical_name;
  description = p.description;
  origin_country = p.origin_country;
}

-- FingerprintV1Prefix.
abbrev pub fingerprint_v1_prefix : Text
fingerprint_v1_prefix = codes "v1:"

-- Fingerprint.
unfoldable pub fingerprint : Codec → NormalizedProduct → Text
fingerprint c p = fingerprint_v1_prefix ++ c.digest (canonicalize c p)

abbrev pub of_version : ProductVersion → NormalizedProduct
of_version v = record {
  canonical_name = v.canonical_name;
  description = v.description;
  brand = v.brand;
  origin_country = v.origin_country;
  attributes = v.attributes;
}

-- FingerprintFromVersion.
unfoldable pub fingerprint_from_version : Codec → ProductVersion → Text
fingerprint_from_version c v = fingerprint c (of_version v)

unfoldable pub same_value : Text → Option Text → Bool
same_value v none = false
same_value v (some w) = text_eq w v

-- Every entry of the first map is in the second.
unfoldable pub agrees : List (Text × Text) → List (Text × Text) → Bool
agrees [] n = true
agrees ((k, v) ∷ m) n = same_value v (lookup k n) && agrees m n

unfoldable pub attributes_changed : List (Text × Text) → List (Text × Text) → Bool
attributes_changed a b = if length a == length b then not (agrees a b) else true

abbrev named_if : Bool → Text → List Text
named_if true name = name ∷ []
named_if false name = []

abbrev place_text : Ordering → Text → Text → List Text → List Text → List Text
place_text Ordering.gt s t ts rest = t ∷ rest
place_text Ordering.lt s t ts rest = s ∷ t ∷ ts
place_text Ordering.eq s t ts rest = s ∷ t ∷ ts

unfoldable pub insert_text : Text → List Text → List Text
insert_text s [] = s ∷ []
insert_text s (t ∷ ts) = place_text (compare_text s t) s t ts (insert_text s ts)

-- sort.Strings.
unfoldable pub sort_strings : List Text → List Text
unfolding insert_text
sort_strings [] = []
sort_strings (s ∷ ss) = insert_text s (sort_strings ss)

-- DetectFieldChanges, on canonical payloads.
unfoldable pub changed_fields : CanonicalPayload → CanonicalPayload → List Text
changed_fields a b =
    named_if (not (text_eq a.canonical_name b.canonical_name)) (codes "canonical_name")
    ++ (named_if (not (text_eq a.description b.description)) (codes "description")
        ++ (named_if (not (text_eq a.brand b.brand)) (codes "brand")
            ++ (named_if (not (text_eq a.origin_country b.origin_country)) (codes "origin_country")
                ++ named_if (attributes_changed a.attributes b.attributes) (codes "attributes"))))

-- DetectFieldChanges.
unfoldable pub detect_field_changes : Codec → ProductVersion → NormalizedProduct → List Text
detect_field_changes c current next =
    sort_strings (changed_fields (canonicalize c (of_version current)) (canonicalize c next))
