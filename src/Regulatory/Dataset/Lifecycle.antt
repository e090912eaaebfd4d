-- ===== src/Regulatory/Dataset/Lifecycle.antt =====
-- The life of a dataset: what its status guarantees, over every sequence of operations.
use cross_border_ecommerce.Base.{
  ℕ, ◌≤◌, ◌≡◌, refl, Bool, true, false, List, [], ◌∷◌, Option, none, some, arith, Text, CaseTable,
  equal_fold, Result, ok, err, is_empty,
}
use cross_border_ecommerce.Regulatory.Dataset.{
  Dataset, DatasetParams, Review, Status, loaded, active, superseded, rejected, new_dataset,
  record_review, activate, supersede, reject,
}

pub data Operation : Type 0 where
  reviews : Text → Text → ℕ → Operation
  activates supersedes : ℕ → Operation
  rejects : Text → Operation

unfoldable pub apply : CaseTable → Operation → Dataset → Result Dataset
unfolding record_review activate supersede reject
apply t (reviews by note now) d = record_review t by note now d
apply t (activates now) d = activate now d
apply t (supersedes now) d = supersede now d
apply t (rejects reason) d = reject reason d

abbrev pub after : Dataset → Result Dataset → Dataset
after d (ok d') = d'
after d (err e) = d

unfoldable pub run : CaseTable → Dataset → List Operation → Dataset
run t d [] = d
run t d (op ∷ ops) = run t (after d (apply t op d)) ops

-- Some review by somebody else than the loader.
abbrev pub IsSignedOff : CaseTable → Option Review → Text → Type 0
IsSignedOff t none loaded_by = ⊥
IsSignedOff t (some r) loaded_by = equal_fold t r.by loaded_by ≡ false

abbrev pub IsIndependent : CaseTable → Option Review → Text → Type 0
IsIndependent t none loaded_by = Unit {0}
IsIndependent t (some r) loaded_by = equal_fold t r.by loaded_by ≡ false

-- What a status says of an activation and of a supersession time.
abbrev pub FitTimes : Status → Option ℕ → Option ℕ → Type 0
FitTimes loaded none none = Unit {0}
FitTimes rejected none none = Unit {0}
FitTimes active (some at) none = Unit {0}
FitTimes superseded (some from) (some to) = from ≤ to
FitTimes _ _ _ = ⊥

abbrev pub WasActivated : Status → Type 0
WasActivated active = Unit {0}
WasActivated superseded = Unit {0}
WasActivated _ = ⊥

abbrev pub FitReview : CaseTable → Status → Bool → Option Review → Text → Type 0
FitReview t active true r by = IsSignedOff t r by
FitReview t superseded true r by = IsSignedOff t r by
FitReview t _ _ r by = IsIndependent t r by

pub record IsLawful (t : CaseTable) (d : Dataset) : Type 0 where
  pub times : FitTimes d.status d.activated_at d.superseded_at
  pub independent : IsIndependent t d.review d.loaded_by
  pub signed_off : FitReview t d.status d.requires_review d.review d.loaded_by
  pub reasoned : d.status ≡ rejected → is_empty d.rejected_reason ≡ false

pub new_dataset-IsLawful :
    (t : CaseTable) (p : DatasetParams) (generated : Result Text) {d : Dataset}
    → new_dataset t p generated ≡ ok d
    → IsLawful t d
unfolding new_dataset
new_dataset-IsLawful t p generated h = ground arith

apply-IsLawful :
    (t : CaseTable) (op : Operation) (d : Dataset)
    → IsLawful t d
    → IsLawful t (after d (apply t op d))
unfolding apply
apply-IsLawful t (reviews by note now) d v = ground arith
apply-IsLawful t (activates now) d v = ground arith
apply-IsLawful t (supersedes now) d v = ground arith
apply-IsLawful t (rejects reason) d v = ground arith

run-IsLawful :
    (t : CaseTable) (d : Dataset) (ops : List Operation) → IsLawful t d → IsLawful t (run t d ops)
unfolding run
run-IsLawful t d [] v = v
run-IsLawful t d (op ∷ ops) v =
    run-IsLawful t (after d (apply t op d)) ops (apply-IsLawful t op d v)

-- A dataset that NewDataset returned, after any sequence of reviews, activations, supersessions and
-- rejections, refused ones included: its times fit its status and a supersession is not before the
-- activation; a recorded review is never by the loader; if it needs a review and was activated, one
-- is recorded; and a rejected one carries a reason.
pub history-IsLawful :
    (t : CaseTable) (p : DatasetParams) (generated : Result Text) (d : Dataset)
    (ops : List Operation)
    → new_dataset t p generated ≡ ok d
    → IsLawful t (run t d ops)
history-IsLawful t p generated d ops h = run-IsLawful t d ops (new_dataset-IsLawful t p generated h)

abbrev pub is_closed : Status → Bool
is_closed superseded = true
is_closed rejected = true
is_closed _ = false

apply_closed :
    (t : CaseTable) (op : Operation) (d : Dataset)
    → is_closed d.status ≡ true
    → after d (apply t op d) ≡ d
unfolding apply
apply_closed t (reviews by note now) d h = ground arith
apply_closed t (activates now) d h = ground arith
apply_closed t (supersedes now) d h = ground arith
apply_closed t (rejects reason) d h = ground arith

-- A superseded or rejected dataset is never changed again, by any sequence of operations.
pub closed_absorbs :
    (t : CaseTable) (d : Dataset) (ops : List Operation)
    → is_closed d.status ≡ true
    → run t d ops ≡ d
unfolding run
closed_absorbs t d [] h = refl
closed_absorbs t d (op ∷ ops) h = rw (apply_closed t op d h) (closed_absorbs t d ops h)
