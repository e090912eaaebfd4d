-- ===== src/Regulatory/Coverage.antt =====
-- internal/domain/regulatory/coverage.go. A map from category to duration is a function, a missing
-- key the zero duration.
use Prim.Native.Nat.{min}
use cross_border_ecommerce.Base.{
  ℕ, ◌+◌, ◌-◌, ◌≤◌, ◌<◌, ◌≡◌, refl, ◌↔◌, Bool, true, false, List, [], ◌∷◌, Option, none, some,
  arith, leb, if◌then◌else◌, inl, inr, All, slt, sle, sign_bit, word_mod, max_int64, Result, ok,
  err, Error, no_coverage, stale_coverage, no_tariff_rate, ambiguous_tariff, unsupported_measure,
  invalid_sla, ◌>>◌, fail_if, ◌⊎◌, ◌≢◌,
}
use cross_border_ecommerce.Regulatory.Dataset.Codes.{Category, categories}
use cross_border_ecommerce.Regulatory.Dataset.{Dataset}

-- The five HOLD reason codes.
pub data Reason : Type 0 where
  no_regulatory_coverage stale_regulatory_data no_tariff_rate_found ambiguous_rules : Reason
  unsupported_rule : Reason

-- HoldReason, on an error that wraps one sentinel; `none` where ok is false.
unfoldable pub hold_reason : Error → Option Reason
hold_reason no_coverage = some no_regulatory_coverage
hold_reason stale_coverage = some stale_regulatory_data
hold_reason no_tariff_rate = some no_tariff_rate_found
hold_reason ambiguous_tariff = some ambiguous_rules
hold_reason unsupported_measure = some unsupported_rule
hold_reason _ = none

-- Durations per category, as 64-bit words.
abbrev pub Slas : Type 0
Slas = Category → ℕ

-- ValidateSLA.
pub validate_sla : ℕ → Result (Unit {0})
validate_sla d = fail_if (sle d 0) invalid_sla

-- `errors.Join` of the checks of the listed categories is an error if one of them is.
pub validate_all : Slas → List Category → Result (Unit {0})
unfolding validate_sla
validate_all m [] = ok tt
validate_all m (c ∷ cs) = let rest = validate_all m cs in validate_sla (m c) >> rest

-- NewSLAs.
unfoldable pub new_slas : Slas → Result Slas
unfolding validate_all
new_slas m = do validate_all m categories; ok m

-- `at.Sub(t)`, which saturates at the ends of int64.
unfoldable pub time_sub : ℕ → ℕ → ℕ
time_sub at t = if leb t at then min (at - t) max_int64 else word_mod - min (t - at) sign_bit

-- The loop of Check.
unfoldable pub check_ages : ℕ → List Dataset → ℕ → Result (Unit {0})
check_ages sla [] at = ok tt
check_ages sla (d ∷ ds) at =
    let rest = check_ages sla ds at in
    if slt sla (time_sub at d.fetched_at) then err stale_coverage else rest

-- SLAs.Check.
unfoldable pub check : Slas → Category → List Dataset → ℕ → Result (Unit {0})
unfolding check_ages
check slas category [] at = err no_coverage
check slas category (d ∷ ds) at = check_ages (slas category) (d ∷ ds) at

-- Fetched no more than `sla` before `at`.
abbrev pub IsFresh : ℕ → ℕ → Dataset → Type 0
IsFresh sla at d = at ≤ d.fetched_at + sla

IsFresh-iff :
    (sla at : ℕ) (d : Dataset)
    → 0 < sla
    → sla < max_int64
    → (slt sla (time_sub at d.fetched_at) ≡ false) ↔ IsFresh sla at d
unfolding time_sub
IsFresh-iff sla at d h h' = ground arith

check_ages-IsFresh :
    (sla at : ℕ) (ds : List Dataset)
    → 0 < sla
    → sla < max_int64
    → check_ages sla ds at ≡ ok tt
    → All (IsFresh sla at) ds
unfolding check_ages
check_ages-IsFresh sla at [] h h' e = tt
check_ages-IsFresh sla at (d ∷ ds) h h' e =
    ground (arith, IsFresh-iff sla at d h h', check_ages-IsFresh sla at ds h h')

IsFresh-check_ages :
    (sla at : ℕ) (ds : List Dataset)
    → 0 < sla
    → sla < max_int64
    → All (IsFresh sla at) ds
    → check_ages sla ds at ≡ ok tt
unfolding check_ages
IsFresh-check_ages sla at [] h h' v = refl
IsFresh-check_ages sla at (d ∷ ds) h h' v =
    ground (arith, IsFresh-iff sla at d h h', IsFresh-check_ages sla at ds h h')

-- For an SLA that is positive and below the largest int64, the check passes exactly if some dataset
-- is active and every active one was fetched at most the SLA before the evaluation time; the
-- saturation of time differences does not matter.
pub check_iff :
    (slas : Slas) (c : Category) (ds : List Dataset) (at : ℕ)
    → 0 < slas c
    → slas c < max_int64
    → (check slas c ds at ≡ ok tt) ↔ ((ds ≢ []) × All (IsFresh (slas c) at) ds)
unfolding check
check_iff slas c [] at h h' = ((λ e. cc), (λ v. absurd (v.0 refl)))
check_iff slas c (d ∷ ds) at h h' = (
  (λ e. ((λ q. cc), check_ages-IsFresh (slas c) at (d ∷ ds) h h' e)),
  (λ v. IsFresh-check_ages (slas c) at (d ∷ ds) h h' v.1),
)

ages_step :
    (late : Bool) (rest : Result (Unit {0})) (e : Error)
    → (if late then err stale_coverage else rest) ≡ err e
    → (rest ≡ err e → e ≡ stale_coverage)
    → e ≡ stale_coverage
ages_step true rest e h ih = cc
ages_step false rest e h ih = ih h

check_ages-error :
    (sla at : ℕ) (ds : List Dataset) (e : Error) → check_ages sla ds at ≡ err e → e ≡ stale_coverage
unfolding check_ages
check_ages-error sla at [] e h = cc
check_ages-error sla at (d ∷ ds) e h =
    ages_step (slt sla (time_sub at d.fetched_at)) (check_ages sla ds at) e h
      (check_ages-error sla at ds e)

-- A refused check is a HOLD: no coverage where nothing is active, stale data otherwise.
pub check-error :
    (slas : Slas) (c : Category) (ds : List Dataset) (at : ℕ) (e : Error)
    → check slas c ds at ≡ err e
    → (hold_reason e ≡ some no_regulatory_coverage) × (ds ≡ [])
      ⊎ (hold_reason e ≡ some stale_regulatory_data) × (ds ≢ [])
unfolding check hold_reason
check-error slas c [] at e h = inl (ground arith)
check-error slas c (d ∷ ds) at e h =
    let stale = check_ages-error (slas c) at (d ∷ ds) e h in inr (rw stale, λ q. cc)
