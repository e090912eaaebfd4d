-- ===== src/Regulatory/Dataset/Codes.antt =====
-- Categories and jurisdictions: ParseCategory, parseCountry, importJurisdiction of
-- internal/domain/regulatory/dataset.go.
use cross_border_ecommerce.Base.{
  ℕ, ◌≡◌, refl, Bool, true, false, ◌&&◌, ◌||◌, List, [], ◌∷◌, arith, leb, if◌then◌else◌, Text,
  codes, text_eq, trim_space, CaseTable, to_upper, Result, ok, err, invalid_dataset, Option, none,
  some, ◌⊎◌, Bool-cases, inl, inr,
}

pub data Category : Type 0 where
  tariff import_restriction permit sanctions export_control preferential_agreement : Category

-- The strings of the six constants.
unfoldable pub category_name : Category → Text
category_name tariff = codes "TARIFF"
category_name import_restriction = codes "IMPORT_RESTRICTION"
category_name permit = codes "PERMIT"
category_name sanctions = codes "SANCTIONS"
category_name export_control = codes "EXPORT_CONTROL"
category_name preferential_agreement = codes "PREFERENTIAL_AGREEMENT"

-- Categories.
abbrev pub categories : List Category
categories =
    tariff ∷ import_restriction ∷ permit ∷ sanctions ∷ export_control ∷ preferential_agreement ∷ []

find_category : Text → List Category → Option Category
find_category s [] = none
find_category s (c ∷ cs) = if text_eq (category_name c) s then some c else find_category s cs

abbrev or_unknown : Option Category → Result Category
or_unknown none = err invalid_dataset
or_unknown (some c) = ok c

-- ParseCategory.
unfoldable pub parse_category : CaseTable → Text → Result Category
unfolding find_category category_name
parse_category t s = or_unknown (find_category (to_upper t (trim_space s)) categories)

abbrev is_upper : ℕ → Bool
is_upper c = leb b'A' c && leb c b'Z'

-- jurisdictionPattern, ^[A-Z]{2}$.
unfoldable pub is_alpha2 : Text → Bool
is_alpha2 (a ∷ b ∷ []) = is_upper a && is_upper b
is_alpha2 _ = false

-- parseCountry: `none` where its second result is false.
unfoldable pub parse_country : CaseTable → Text → Option Text
unfolding is_alpha2
parse_country t s = let c = to_upper t (trim_space s) in if is_alpha2 c then some c else none

abbrev or_invalid : Option Text → Result Text
or_invalid none = err invalid_dataset
or_invalid (some j) = ok j

-- ParseJurisdiction.
unfoldable pub parse_jurisdiction : CaseTable → Text → Result Text
unfolding parse_country
parse_jurisdiction t s = or_invalid (parse_country t s)

-- euMemberStates.
abbrev pub eu_member_states : List Text
eu_member_states =
    codes "AT"
    ∷ codes "BE"
    ∷ codes "BG"
    ∷ codes "CY"
    ∷ codes "CZ"
    ∷ codes "DE"
    ∷ codes "DK"
    ∷ codes "EE"
    ∷ codes "ES"
    ∷ codes "FI"
    ∷ codes "FR"
    ∷ codes "GR"
    ∷ codes "HR"
    ∷ codes "HU"
    ∷ codes "IE"
    ∷ codes "IT"
    ∷ codes "LT"
    ∷ codes "LU"
    ∷ codes "LV"
    ∷ codes "MT"
    ∷ codes "NL"
    ∷ codes "PL"
    ∷ codes "PT"
    ∷ codes "RO"
    ∷ codes "SE"
    ∷ codes "SI"
    ∷ codes "SK"
    ∷ []

unfoldable pub contains : List Text → Text → Bool
contains [] s = false
contains (t ∷ ts) s = text_eq t s || contains ts s

-- importJurisdiction.
unfoldable pub import_jurisdiction : Text → Text
import_jurisdiction country = if contains eu_member_states country then codes "EU" else country

parse_country-is_alpha2 :
    (t : CaseTable) (s c : Text) → parse_country t s ≡ some c → is_alpha2 c ≡ true
unfolding parse_country
parse_country-is_alpha2 t s c h = ground arith

alpha2_fixed : (t : CaseTable) (c : Text) → is_alpha2 c ≡ true → parse_country t c ≡ some c
unfolding parse_country to_upper trim_space
alpha2_fixed t [] h = ground arith
alpha2_fixed t (a ∷ []) h = ground arith
alpha2_fixed t (a ∷ b ∷ []) h = ground arith
alpha2_fixed t (a ∷ b ∷ d ∷ c) h = ground arith

import_cases : (c : Text) → (import_jurisdiction c ≡ codes "EU") ⊎ (import_jurisdiction c ≡ c)
unfolding import_jurisdiction
import_cases c = elim (Bool-cases (contains eu_member_states c)) [
  | inl e ↦ inl (rw e)
  | inr e ↦ inr (rw e)
]

import_eu : import_jurisdiction (codes "EU") ≡ codes "EU"
unfolding import_jurisdiction contains text_eq
import_eu = refl

parse_eu : (t : CaseTable) → parse_country t (codes "EU") ≡ some (codes "EU")
unfolding parse_country to_upper trim_space
parse_eu t = refl

-- A parsed country is two capital ASCII letters, whatever the case and the spaces around the input;
-- parsing it again, or the import jurisdiction it lies in, changes nothing, and neither does taking
-- the import jurisdiction twice.
pub parse_country_stable :
    (t : CaseTable) (s c : Text)
    → parse_country t s ≡ some c
    → (is_alpha2 c ≡ true)
      × (parse_country t c ≡ some c)
      × (parse_country t (import_jurisdiction c) ≡ some (import_jurisdiction c))
      × (import_jurisdiction (import_jurisdiction c) ≡ import_jurisdiction c)
parse_country_stable t s c h =
    let valid = parse_country-is_alpha2 t s c h in
    let fixed = alpha2_fixed t c valid in
    elim (import_cases c) [
      | inl e ↦ (valid, fixed, rw e (parse_eu t), rw e import_eu)
      | inr e ↦ (valid, fixed, rw e fixed, rw e e)
    ]
