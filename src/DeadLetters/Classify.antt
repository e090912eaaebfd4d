-- ===== src/DeadLetters/Classify.antt =====
-- internal/application/dlq/classifier.go.
use cross_border_ecommerce.Base.{
  ◌≡◌, refl, sym, ap, ◌⊎◌, ◌↔◌, inl, inr, Bool, true, false, ◌||◌, List, [], ◌∷◌, if◌then◌else◌,
  Bool-cases, All, arith, Error, ErrorTree, errors_is, key_in_progress, lease_lost, handler_panic,
  corrupt_envelope, payload_mismatch, not_completed_in_tx, source_contract_violation,
  malformed_record, invalid_source_config, permanent,
}

pub data FailureClass : Type 0 where
  class_handler_panic class_corrupt_envelope class_payload_mismatch : FailureClass
  class_not_completed_in_tx class_contract_violation class_malformed_record : FailureClass
  class_invalid_config class_permanent class_retries_exhausted : FailureClass

-- Decision, with the class of a dead letter.
pub data Decision : Type 0 where
  retry leave_pending : Decision
  dead_letter : FailureClass → Decision

-- permanentFailures.
abbrev pub permanent_failures : List (Error × FailureClass)
permanent_failures =
    (handler_panic, class_handler_panic)
    ∷ (corrupt_envelope, class_corrupt_envelope)
    ∷ (payload_mismatch, class_payload_mismatch)
    ∷ (not_completed_in_tx, class_not_completed_in_tx)
    ∷ (source_contract_violation, class_contract_violation)
    ∷ (malformed_record, class_malformed_record)
    ∷ (invalid_source_config, class_invalid_config)
    ∷ (permanent, class_permanent)
    ∷ []

-- The loop of Classify.
unfoldable pub classify_among : ErrorTree → List (Error × FailureClass) → Decision
classify_among t [] = retry
classify_among t ((e, c) ∷ rest) =
    let later = classify_among t rest in if errors_is t e then dead_letter c else later

-- Classify, by whether the parent context is done.
unfoldable pub classify : ErrorTree → Bool → Decision
classify t parent_done =
    if parent_done
    then leave_pending
    else if errors_is t key_in_progress || errors_is t lease_lost
    then leave_pending
    else classify_among t permanent_failures

-- The error has the sentinel of an entry before the last, and the class is that entry's.
abbrev IsFirst : ErrorTree → FailureClass → List (Error × FailureClass) → Type 0
IsFirst t c [] = ⊥
IsFirst t c ((e, c') ∷ rest) =
    ((errors_is t e ≡ true) × (c ≡ c')) ⊎ ((errors_is t e ≡ false) × IsFirst t c rest)

dead_letter-injective : {a b : FailureClass} → dead_letter a ≡ dead_letter b → a ≡ b
dead_letter-injective h = cc

classify_among-IsFirst :
    (t : ErrorTree) (c : FailureClass) (xs : List (Error × FailureClass))
    → (classify_among t xs ≡ dead_letter c) ↔ IsFirst t c xs
unfolding classify_among
classify_among-IsFirst t c [] = ((λ h. cc), λ h. elim h [ ])
classify_among-IsFirst t c ((e, c') ∷ rest) =
    let (to, from) = classify_among-IsFirst t c rest in
    elim (Bool-cases (errors_is t e)) [
      | inl b ↦ rw b (
        (λ h. inl (refl, sym (dead_letter-injective h))),
        λ h. elim h [ inl x ↦ ap dead_letter (sym x.1) | inr x ↦ cc ],
      )
      | inr b ↦ rw b ((λ h. inr (refl, to h)), λ h. elim h [ inl x ↦ cc | inr x ↦ from x.1 ])
    ]

-- The failure is this consumer's to settle: its context goes on, and no other holder works on the key.
abbrev pub IsSettling : ErrorTree → Bool → Type 0
IsSettling t parent_done =
    (parent_done ≡ false)
    × ((errors_is t key_in_progress ≡ false) × (errors_is t lease_lost ≡ false))

classify-guards :
    (done busy lost : Bool) (d : Decision) (c : FailureClass)
    → ((if done then leave_pending else if busy || lost then leave_pending else d) ≡ dead_letter c)
      ↔ (((done ≡ false) × ((busy ≡ false) × (lost ≡ false))) × (d ≡ dead_letter c))
classify-guards true busy lost d c = ((λ h. cc), λ h. cc)
classify-guards false true lost d c = ((λ h. cc), λ h. cc)
classify-guards false false true d c = ((λ h. cc), λ h. cc)
classify-guards false false false d c = ((λ h. ((refl, (refl, refl)), h)), λ h. h.1)

abbrev pub Wraps : ErrorTree → Error → Type 0
Wraps t e = (errors_is t e ≡ true)

abbrev pub Lacks : ErrorTree → List Error → Type 0
Lacks t = All (λ e. errors_is t e ≡ false)

-- The class of a failure by the sentinels in its tree: a panic goes before all, then the envelope, the
-- idempotency, the contract, the record and the configuration, and PERMANENT is for what has none of these.
abbrev pub IsOfClass : ErrorTree → FailureClass → Type 0
IsOfClass t class_handler_panic = Wraps t handler_panic
IsOfClass t class_corrupt_envelope = Wraps t corrupt_envelope × Lacks t (handler_panic ∷ [])
IsOfClass t class_payload_mismatch =
    Wraps t payload_mismatch × Lacks t (handler_panic ∷ corrupt_envelope ∷ [])
IsOfClass t class_not_completed_in_tx =
    Wraps t not_completed_in_tx × Lacks t (handler_panic ∷ corrupt_envelope ∷ payload_mismatch ∷ [])
IsOfClass t class_contract_violation =
    Wraps t source_contract_violation
    × Lacks t (handler_panic ∷ corrupt_envelope ∷ payload_mismatch ∷ not_completed_in_tx ∷ [])
IsOfClass t class_malformed_record =
    Wraps t malformed_record
    × Lacks t (
        handler_panic ∷ corrupt_envelope ∷ payload_mismatch ∷ not_completed_in_tx
        ∷ source_contract_violation ∷ [])
IsOfClass t class_invalid_config =
    Wraps t invalid_source_config
    × Lacks t (
        handler_panic ∷ corrupt_envelope ∷ payload_mismatch ∷ not_completed_in_tx
        ∷ source_contract_violation ∷ malformed_record ∷ [])
IsOfClass t class_permanent =
    Wraps t permanent
    × Lacks t (
        handler_panic ∷ corrupt_envelope ∷ payload_mismatch ∷ not_completed_in_tx
        ∷ source_contract_violation ∷ malformed_record ∷ invalid_source_config ∷ [])
IsOfClass t class_retries_exhausted = ⊥

IsOfClass-iff : (t : ErrorTree) (c : FailureClass) → IsFirst t c permanent_failures ↔ IsOfClass t c
IsOfClass-iff t class_handler_panic = ground arith
IsOfClass-iff t class_corrupt_envelope = ground arith
IsOfClass-iff t class_payload_mismatch = ground arith
IsOfClass-iff t class_not_completed_in_tx = ground arith
IsOfClass-iff t class_contract_violation = ground arith
IsOfClass-iff t class_malformed_record = ground arith
IsOfClass-iff t class_invalid_config = ground arith
IsOfClass-iff t class_permanent = ground arith
IsOfClass-iff t class_retries_exhausted = ground arith

-- A failure is dead-lettered with a class exactly if the parent context is not done, the error wraps
-- neither a key in progress nor a lost lease, and it is of the class: anywhere in its tree it has the
-- sentinel of the class and none of the sentinels that go before it. So PERMANENT is for failures that
-- wrap ErrPermanent and none of the seven specific sentinels, in whatever order the errors are wrapped
-- or joined.
pub classify_iff :
    (t : ErrorTree) (parent_done : Bool) (c : FailureClass)
    → (classify t parent_done ≡ dead_letter c) ↔ (IsSettling t parent_done × IsOfClass t c)
unfolding classify
classify_iff t parent_done c =
    let g =
      classify-guards parent_done (errors_is t key_in_progress) (errors_is t lease_lost)
        (classify_among t permanent_failures) c in
    let f = classify_among-IsFirst t c permanent_failures in
    let x = IsOfClass-iff t c in
    (λ h. ((g.0 h).0, x.0 (f.0 (g.0 h).1)), λ h. g.1 (h.0, f.1 (x.1 h.1)))
