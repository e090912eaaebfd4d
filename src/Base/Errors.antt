-- ===== src/Base/Errors.antt =====
-- The sentinel errors of the code, results, and error trees as errors.Join and %w build them.
use Prim.Native.Nat.{ℕ}
use mathlib.Core.Path.{◌≡◌, refl}
use mathlib.Core.Bool.{Bool, true, false, decide}
use native.Mathlib.Decide.{ℕ_discrete}

-- The errors that the modelled code compares or returns. An error with no sentinel of its own, and
-- one that comes from outside, is `other` of a number.
pub data Error : Type 0 where
  invalid_run_state invalid_transition invalid_run_id invalid_source_id negative_metric : Error
  invalid_record_id invalid_external_product_id empty_payload invalid_payload_json : Error
  error_budget_exceeded invalid_error_budget invalid_checkpoint inactive_source : Error
  run_already_active run_not_found source_contract_violation malformed_record : Error
  invalid_product_state identity_conflict version_conflict deadlock_conflict : Error
  dataset_not_found invalid_dataset invalid_review review_required reviewer_is_loader invalid_rule :
      Error
  invalid_sla no_coverage stale_coverage invalid_tariff_query no_tariff_rate : Error
  ambiguous_tariff unsupported_measure : Error
  invalid_retry_policy invalid_config broker_unavailable context_canceled : Error
  nil_argument invalid_lease_ttl invalid_payload_hash key_in_progress lease_lost payload_mismatch
        not_completed_in_tx invalid_scope invalid_key :
      Error
  handler_panic corrupt_envelope invalid_source_config permanent : Error
  invalid_consumer_config nil_handler invalid_dlq_input invalid_event_type : Error
  invalid_claim_token invalid_lease_duration invalid_batch_size progress_not_returned : Error
  lease_held run_processing_not_found missing_field_mapping invalid_field_mapping : Error
  invalid_path malformed_number exponent_too_large stream_nil no_group deadline_exceeded : Error
  invalid_dlq_id dlq_not_found not_replayable already_replayed nil_task pool_closed drain_timeout :
      Error
  -- A panic of the runtime, as of a nil dereference.
  panic : Error
  other : ℕ → Error

pub Error-discrete : Discrete Error
Error-discrete = hlevel ℕ_discrete

unfoldable pub error_eq : Error → Error → Bool
unfolding Error-discrete ℕ_discrete
error_eq a b = decide (Error-discrete a b)

-- What a function with an error result returns.
pub data Result {ℓ} (Value : Type ℓ) : Type ℓ where
  ok : (value : Value) → Result Value
  err : (error : Error) → Result Value

-- How a statement of the database fares.
pub data Fault : Type 0 where
  works : Fault
  fails : Error → Fault
  -- The statement takes effect, and its answer does not arrive.
  loses : ℕ → Fault

-- `if failed { return e }`.
abbrev pub fail_if : Bool → Error → Result (Unit {0})
fail_if false error = ok tt
fail_if true error = err error

module _ {ℓ κ} {A : Type ℓ} {B : Type κ} where
  infixl 5 ◌>>=◌
  abbrev pub ◌>>=◌ : Result A → (A → Result B) → Result B
  err error >>= next = err error
  ok value >>= next = next value

  -- Inversion of a bind that succeeds.
  pub >>=-eq-ok :
      (r : Result A) (next : A → Result B) {b : B}
      → (r >>= next) ≡ ok b
      → (value : A) × (r ≡ ok value) × (next value ≡ ok b)
  >>=-eq-ok (err error) next h = cc
  >>=-eq-ok (ok value) next h = (value, refl, h)

module _ {ℓ} {A : Type ℓ} where
  infixl 5 ◌>>◌
  abbrev pub ◌>>◌ : Result (Unit {0}) → Result A → Result A
  check >> rest = check >>= λ passed. rest

  pub ok-injective : {a b : A} → ok a ≡ ok b → a ≡ b
  ok-injective h = cc
