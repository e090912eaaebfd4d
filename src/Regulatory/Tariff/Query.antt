-- ===== src/Regulatory/Tariff/Query.antt =====
-- Tariff queries: ParseHSCode, NewTariffQuery and HSPrefixes of internal/domain/regulatory/tariff.go.
use cross_border_ecommerce.Base.{
  ℕ, zero, suc, ◌-◌, ◌%◌, ◌≤◌, ◌≡◌, refl, ap, Bool-cases, inl, inr, arith, Bool, true, ◌&&◌, ◌||◌,
  List, [], ◌∷◌, Option, none, some, leb, ◌==◌, if◌then◌else◌, length, Text, text_eq, CaseTable,
  Result, ok, err, invalid_tariff_query, ◌>>=◌, ◌>>◌, fail_if,
}
use cross_border_ecommerce.Regulatory.Dataset.Codes.{parse_country, import_jurisdiction}

-- A query; its transaction is an instant, of which the code takes the UTC date.
pub record TariffQuery : Type 0 where
  pub jurisdiction : Text
  pub origin : Text
  pub hs_code : Text
  pub transaction_at : ℕ
  pub evaluated_at : ℕ

pub record TariffQueryParams : Type 0 where
  pub destination : Text
  pub origin : Text
  pub hs_code : Text
  pub transaction_at : ℕ
  pub evaluated_at : ℕ

-- The replacer that drops dots and spaces.
unfoldable pub drop_separators : Text → Text
drop_separators [] = []
drop_separators (c ∷ s) =
    let rest = drop_separators s in if c == b'.' || c == 32 then rest else c ∷ rest

unfoldable pub all_digits : Text → Bool
all_digits [] = true
all_digits (c ∷ s) = leb b'0' c && leb c b'9' && all_digits s

-- hsCodePattern, ^(\d{2}){1,5}$.
unfoldable pub is_hs_code : Text → Bool
unfolding all_digits
is_hs_code s = all_digits s && (length s % 2 == 0 && (leb 2 (length s) && leb (length s) 10))

-- ParseHSCode.
unfoldable pub parse_hs_code : Text → Result Text
unfolding drop_separators is_hs_code
parse_hs_code s =
    let code = drop_separators s in if is_hs_code code then ok code else err invalid_tariff_query

abbrev or_bad_query : Option Text → Result Text
or_bad_query none = err invalid_tariff_query
or_bad_query (some c) = ok c

-- NewTariffQuery.
unfoldable pub new_tariff_query : CaseTable → TariffQueryParams → Result TariffQuery
new_tariff_query t p = do
  destination ← or_bad_query (parse_country t p.destination)
  origin ← or_bad_query (parse_country t p.origin)
  let jurisdiction = import_jurisdiction destination
  fail_if (text_eq (import_jurisdiction origin) jurisdiction) invalid_tariff_query
  hs_code ← parse_hs_code p.hs_code
  fail_if (p.transaction_at == 0 || p.evaluated_at == 0) invalid_tariff_query
  ok (record {
    jurisdiction = jurisdiction;
    origin = origin;
    hs_code = hs_code;
    transaction_at = p.transaction_at;
    evaluated_at = p.evaluated_at;
  })

abbrev pub take : ℕ → Text → Text
take zero s = []
take (suc n) [] = []
take (suc n) (c ∷ s) = c ∷ take n s

-- The loop of HSPrefixes, from the length down in steps of two; `fuel` bounds its rounds.
unfoldable pub prefixes_from : ℕ → ℕ → Text → List Text
prefixes_from zero n code = []
prefixes_from (suc fuel) n code =
    let rest = prefixes_from fuel (n - 2) code in if leb 2 n then take n code ∷ rest else []

-- HSPrefixes.
unfoldable pub hs_prefixes : Text → List Text
unfolding prefixes_from
hs_prefixes code = prefixes_from (length code) (length code) code

-- Fuel of the length or more does not matter.
pub prefixes_from_enough :
    (fuel more n : ℕ) (code : Text)
    → n ≤ fuel
    → n ≤ more
    → prefixes_from fuel n code ≡ prefixes_from more n code
unfolding prefixes_from
prefixes_from_enough zero zero n code h h' = refl
prefixes_from_enough zero (suc more) n code h h' = ground arith
prefixes_from_enough (suc fuel) zero n code h h' = ground arith
prefixes_from_enough (suc fuel) (suc more) n code h h' = elim (Bool-cases (leb 2 n)) [
  | inl e ↦ rw e (
      ap (λ l. take n code ∷ l)
        (prefixes_from_enough fuel more (n - 2) code (ground arith) (ground arith)))
  | inr e ↦ rw e refl
]
