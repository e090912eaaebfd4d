-- ===== src/Product/Batch/Outcome.antt =====
-- What DecideBatch of internal/domain/product/batch.go promises for a whole page.
use cross_border_ecommerce.Base.{
  ℕ, ◌≡◌, ◌≢◌, refl, subst, ◌==◌, List, [], ◌∷◌, Option, inl, inr, Bool-cases, arith, length,
  length-append, Text, Result, ok,
}
use cross_border_ecommerce.Product.Canonical.{Codec}
use cross_border_ecommerce.Product.Transition.{Snapshot}
use cross_border_ecommerce.Product.Batch.Plan.{BatchPlan, empty_plan}
use cross_border_ecommerce.Product.Batch.Grouping.{
  BatchIncomingRecord, IdentityGroup, group_by_identity,
}
use cross_border_ecommerce.Product.Batch.Partition.{
  gather, length-Perm, group_by_identity-IsPartition,
}
use cross_border_ecommerce.Product.Batch.Fold.{decide_batch}
use cross_border_ecommerce.Product.Batch.Accounting.{IsAccounted, total, decide_groups-IsAccounted}
use cross_border_ecommerce.Product.Batch.Running.{Answers, decide_groups-Gives}

total-gather : (gs : List IdentityGroup) → total gs ≡ length (gather gs)
unfolding gather
total-gather [] = refl
total-gather (g ∷ gs) = omega (arith, total-gather gs, length-append g.records (gather gs))

empty_plan-IsAccounted : (seen : ℕ) → IsAccounted seen 0 (empty_plan seen)
empty_plan-IsAccounted seen = record {
  all_seen = refl;
  all_handled = refl;
  versions = refl;
  changes = refl;
  events = refl;
  no_failures = refl;
}

-- A page that is decided is accounted for in full: every record is seen and counted once as new,
-- changed or unchanged, none as a failure, and the plan inserts one version, one change and one event
-- for each record that is new or changed, and for no other.
pub decide_batch-IsAccounted :
    (c : Codec) (gen : ℕ → Result Text) (snapshots : Text → Option Snapshot)
    (incoming : List BatchIncomingRecord) (now : ℕ) (plan : BatchPlan)
    → decide_batch c gen snapshots incoming now ≡ ok plan
    → IsAccounted (length incoming) (length incoming) plan
unfolding decide_batch
decide_batch-IsAccounted c gen snapshots incoming now plan h = elim (Bool-cases (now == 0)) [
  | inl e ↦ ground arith
  | inr e ↦
      subst (λ n. IsAccounted (length incoming) n plan)
        (omega (
          arith,
          total-gather (group_by_identity incoming),
          length-Perm ((group_by_identity-IsPartition incoming).same_records),
        ))
        (decide_groups-IsAccounted (length incoming) 0 c gen snapshots now
          (empty_plan (length incoming)) 0 (group_by_identity incoming) plan (rw e at h)
          (empty_plan-IsAccounted (length incoming)))
]

-- DecideBatch is total: where the clock is set and every identifier is generated, it returns a plan for
-- any page and any stored snapshots, and follows no nil pointer.
pub decide_batch-total :
    (c : Codec) (gen : ℕ → Result Text) (snapshots : Text → Option Snapshot)
    (incoming : List BatchIncomingRecord) (now : ℕ)
    → Answers gen
    → now ≢ 0
    → (plan : BatchPlan) × (decide_batch c gen snapshots incoming now ≡ ok plan)
unfolding decide_batch
decide_batch-total c gen snapshots incoming now a n = elim (Bool-cases (now == 0)) [
  | inl e ↦ ground arith
  | inr e ↦
      let (p, e', u) =
        decide_groups-Gives c gen snapshots now (empty_plan (length incoming)) 0
          (group_by_identity incoming) a ((group_by_identity-IsPartition incoming).keyed) in
      rw e (p, e')
]
