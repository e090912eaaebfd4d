-- ===== src/Product/Batch/Partition.antt =====
-- groupByIdentity of internal/domain/product/batch.go as a partition of the page.
use Prim.Native.Nat.{Ordering}
use mathlib.Core.List.{Permᴰ}
use mathlib.Core.List.Permᴰ
use cross_border_ecommerce.Base.{
  suc, ◌≡◌, ◌≢◌, refl, sym, ◌∙◌, ap, subst, Bool, true, false, List, [], ◌∷◌, ◌++◌, arith, length,
  if◌then◌else◌, inl, inr, Bool-cases, All, All-append, Text, text_eq, text_eq→eq, text_eq_refl,
}
use cross_border_ecommerce.Product.Batch.Grouping.{
  BatchIncomingRecord, IdentityGroup, key_of, add_record, group_from, compare_processing_order,
  place_record, insert_record, sort_records, sort_groups, group_by_identity,
}

-- The records of some groups, in their order.
unfoldable pub gather : List IdentityGroup → List BatchIncomingRecord
gather [] = []
gather (g ∷ gs) = g.records ++ gather gs

-- The records of a group share its key, and there is one at least.
abbrev pub IsKeyed : IdentityGroup → Type 0
IsKeyed g = All (λ r. key_of r ≡ g.key) g.records × (g.records ≢ [])

abbrev HasOtherKey : Text → IdentityGroup → Type 0
HasOtherKey k g = g.key ≢ k

-- No two groups have one key.
abbrev pub HasDistinctKeys : List IdentityGroup → Type 0
HasDistinctKeys [] = Unit
HasDistinctKeys (g ∷ gs) = All (HasOtherKey g.key) gs × HasDistinctKeys gs

pub record IsPartition (rs : List BatchIncomingRecord) (gs : List IdentityGroup) : Type 0 where
  pub keyed : All IsKeyed gs
  pub distinct : HasDistinctKeys gs
  pub same_records : Permᴰ (gather gs) rs

place_record-Perm :
    (o : Ordering) (r s : BatchIncomingRecord) (ss rest : List BatchIncomingRecord)
    → Permᴰ rest (r ∷ ss)
    → Permᴰ (place_record o r s ss rest) (r ∷ s ∷ ss)
unfolding place_record
place_record-Perm Ordering.gt r s ss rest p = Permᴰ.trans (Permᴰ.cons refl p) (Permᴰ.swap refl refl)
place_record-Perm Ordering.eq r s ss rest p = Permᴰ.refl _
place_record-Perm Ordering.lt r s ss rest p = Permᴰ.refl _

insert_record-Perm :
    (r : BatchIncomingRecord) (ss : List BatchIncomingRecord) → Permᴰ (insert_record r ss) (r ∷ ss)
unfolding insert_record
insert_record-Perm r [] = Permᴰ.refl _
insert_record-Perm r (s ∷ ss) =
    place_record-Perm (compare_processing_order r s) r s ss _ (insert_record-Perm r ss)

pub sort_records-Perm : (rs : List BatchIncomingRecord) → Permᴰ (sort_records rs) rs
unfolding sort_records
sort_records-Perm [] = Permᴰ.nil
sort_records-Perm (r ∷ rs) =
    Permᴰ.trans (insert_record-Perm r (sort_records rs)) (Permᴰ.cons refl (sort_records-Perm rs))

Perm-append : {a b c d : List BatchIncomingRecord} → Permᴰ a b → Permᴰ c d → Permᴰ (a ++ c) (b ++ d)
Perm-append {b = b} {c = c} p q = Permᴰ.trans (Permᴰ.append_right c p) (Permᴰ.append_left b q)

gather-sort_groups : (gs : List IdentityGroup) → Permᴰ (gather (sort_groups gs)) (gather gs)
unfolding gather sort_groups
gather-sort_groups [] = Permᴰ.nil
gather-sort_groups (g ∷ gs) = Perm-append (sort_records-Perm g.records) (gather-sort_groups gs)

-- A group that a record joins, by the test of its key.
join-Perm :
    (b : Bool) (r : BatchIncomingRecord) (g : IdentityGroup) (gs rest : List IdentityGroup)
    → Permᴰ (gather rest) (r ∷ gather gs)
    → Permᴰ
        (gather (if b then record g { records = g.records ++ (r ∷ []) } ∷ gs else g ∷ rest))
        (r ∷ (g.records ++ gather gs))
unfolding gather
join-Perm true r g gs rest p = Permᴰ.append_right (gather gs) (Permᴰ.append_comm g.records (r ∷ []))
join-Perm false r g gs rest p =
    Permᴰ.trans (Permᴰ.append_left g.records p) (Permᴰ.middle r g.records (gather gs))

gather-add_record :
    (r : BatchIncomingRecord) (gs : List IdentityGroup)
    → Permᴰ (gather (add_record r gs)) (r ∷ gather gs)
unfolding gather add_record
gather-add_record r [] = Permᴰ.refl _
gather-add_record r (g ∷ gs) =
    join-Perm (text_eq g.key (key_of r)) r g gs (add_record r gs) (gather-add_record r gs)

gather-group_from :
    (gs : List IdentityGroup) (rs : List BatchIncomingRecord)
    → Permᴰ (gather (group_from gs rs)) (gather gs ++ rs)
unfolding group_from
gather-group_from gs [] = Permᴰ.symm (Permᴰ.append-nil _)
gather-group_from gs (r ∷ rs) = Permᴰ.trans (gather-group_from (add_record r gs) rs) (
    Permᴰ.trans (Permᴰ.append_right rs (gather-add_record r gs))
      (Permᴰ.symm (Permᴰ.middle r (gather gs) rs)))

-- A predicate on records holds of a list in another order.
pub All-Perm :
    (P : BatchIncomingRecord → Type 0) {a b : List BatchIncomingRecord}
    → Permᴰ a b
    → All P b
    → All P a
All-Perm P Permᴰ.nil h = tt
All-Perm P (Permᴰ.cons e p) h = (subst P (sym e) h.0, All-Perm P p h.1)
All-Perm P (Permᴰ.swap e e') h = (subst P (sym e) h.1.0, (subst P (sym e') h.0, h.1.1))
All-Perm P (Permᴰ.trans p q) h = All-Perm P p (All-Perm P q h)

pub length-Perm : {a b : List BatchIncomingRecord} → Permᴰ a b → length a ≡ length b
length-Perm Permᴰ.nil = refl
length-Perm (Permᴰ.cons e p) = ap suc (length-Perm p)
length-Perm (Permᴰ.swap e e') = refl
length-Perm (Permᴰ.trans p q) = length-Perm p ∙ length-Perm q

append-ne-nil : (rs : List BatchIncomingRecord) (r : BatchIncomingRecord) → (rs ++ (r ∷ [])) ≢ []
append-ne-nil [] r h = cc
append-ne-nil (x ∷ rs) r h = cc

Perm-ne-nil : (a b : List BatchIncomingRecord) → Permᴰ a b → b ≢ [] → a ≢ []
Perm-ne-nil [] [] p n h = n refl
Perm-ne-nil [] (x ∷ b) p n h = ground (arith, length-Perm p)
Perm-ne-nil (x ∷ a) b p n h = cc

-- Every group of a list of keyed groups that gets a record of its key stays keyed.
join-IsKeyed :
    (r : BatchIncomingRecord) (g : IdentityGroup)
    → key_of r ≡ g.key
    → IsKeyed g
    → IsKeyed (record g { records = g.records ++ (r ∷ []) })
join-IsKeyed r g e k =
    (All-append (λ x. key_of x ≡ g.key) g.records (r ∷ []) k.0 (e, tt), append-ne-nil g.records r)

add_record-IsKeyed :
    (r : BatchIncomingRecord) (gs : List IdentityGroup)
    → All IsKeyed gs
    → All IsKeyed (add_record r gs)
unfolding add_record
add_record-IsKeyed r [] h = (((refl, tt), λ e. cc), tt)
add_record-IsKeyed r (g ∷ gs) h = elim (Bool-cases (text_eq g.key (key_of r))) [
  | inl e ↦ rw e (join-IsKeyed r g (sym (text_eq→eq g.key (key_of r) e)) h.0, h.1)
  | inr e ↦ rw e (h.0, add_record-IsKeyed r gs h.1)
]

-- The groups keep their keys, but for the one of a new group.
add_record-OtherKey :
    (k : Text) (r : BatchIncomingRecord) (gs : List IdentityGroup)
    → key_of r ≢ k
    → All (HasOtherKey k) gs
    → All (HasOtherKey k) (add_record r gs)
unfolding add_record
add_record-OtherKey k r [] n h = (n, tt)
add_record-OtherKey k r (g ∷ gs) n h = elim (Bool-cases (text_eq g.key (key_of r))) [
  | inl e ↦ rw e h
  | inr e ↦ rw e (h.0, add_record-OtherKey k r gs n h.1)
]

add_record-HasDistinctKeys :
    (r : BatchIncomingRecord) (gs : List IdentityGroup)
    → HasDistinctKeys gs
    → HasDistinctKeys (add_record r gs)
unfolding add_record
add_record-HasDistinctKeys r [] h = (tt, tt)
add_record-HasDistinctKeys r (g ∷ gs) h = elim (Bool-cases (text_eq g.key (key_of r))) [
  | inl e ↦ rw e h
  | inr e ↦ rw e (
    add_record-OtherKey g.key r gs (λ same. ground (arith, text_eq_refl g.key)) h.0,
    add_record-HasDistinctKeys r gs h.1,
  )
]

group_from-IsKeyed :
    (gs : List IdentityGroup) (rs : List BatchIncomingRecord)
    → All IsKeyed gs
    → HasDistinctKeys gs
    → All IsKeyed (group_from gs rs) × HasDistinctKeys (group_from gs rs)
unfolding group_from
group_from-IsKeyed gs [] k d = (k, d)
group_from-IsKeyed gs (r ∷ rs) k d =
    group_from-IsKeyed (add_record r gs) rs (add_record-IsKeyed r gs k)
      (add_record-HasDistinctKeys r gs d)

sort_groups-IsKeyed : (gs : List IdentityGroup) → All IsKeyed gs → All IsKeyed (sort_groups gs)
unfolding sort_groups
sort_groups-IsKeyed [] h = tt
sort_groups-IsKeyed (g ∷ gs) h = (
  (
    All-Perm (λ r. key_of r ≡ g.key) (sort_records-Perm g.records) h.0.0,
    Perm-ne-nil _ _ (sort_records-Perm g.records) h.0.1,
  ),
  sort_groups-IsKeyed gs h.1,
)

sort_groups-OtherKey :
    (k : Text) (gs : List IdentityGroup)
    → All (HasOtherKey k) gs
    → All (HasOtherKey k) (sort_groups gs)
unfolding sort_groups
sort_groups-OtherKey k [] h = tt
sort_groups-OtherKey k (g ∷ gs) h = (h.0, sort_groups-OtherKey k gs h.1)

sort_groups-HasDistinctKeys :
    (gs : List IdentityGroup) → HasDistinctKeys gs → HasDistinctKeys (sort_groups gs)
unfolding sort_groups
sort_groups-HasDistinctKeys [] h = tt
sort_groups-HasDistinctKeys (g ∷ gs) h =
    (sort_groups-OtherKey g.key gs h.0, sort_groups-HasDistinctKeys gs h.1)

-- Grouping partitions the page: the groups hold its records, each once, every record of a group has the
-- group's identity key, no group is empty, and no two groups share a key.
pub group_by_identity-IsPartition :
    (rs : List BatchIncomingRecord) → IsPartition rs (group_by_identity rs)
unfolding group_by_identity gather
group_by_identity-IsPartition rs =
    let (k, d) = group_from-IsKeyed [] rs tt tt in
    record {
      keyed = sort_groups-IsKeyed (group_from [] rs) k;
      distinct = sort_groups-HasDistinctKeys (group_from [] rs) d;
      same_records = Permᴰ.trans (gather-sort_groups (group_from [] rs)) (gather-group_from [] rs);
    }
