-- ===== src/Regulatory/Service/Counting.antt =====
-- How a statement on regulatory_datasets changes the number of versions in force (Activate of
-- internal/application/regulatory/service.go).
use cross_border_ecommerce.Base.{
  ℕ, suc, ◌+◌, ◌≤◌, ◌≡◌, refl, sym, ap, ◌∙◌, Bool, true, false, ◌&&◌, &&_iff, List, [], ◌∷◌, none,
  some, if◌then◌else◌, arith, inl, inr, Bool-cases, some-injective, Text, text_eq, text_eq_refl,
}
use cross_border_ecommerce.Regulatory.Dataset.{
  Dataset, Status, loaded, active, superseded, rejected, is_active,
}
use cross_border_ecommerce.Regulatory.Service.{
  same_key, in_force, find_active, status_eq, is_target, set_lifecycle, update_rows,
}

abbrev one_if : Bool → ℕ
one_if true = 1
one_if false = 0

-- The active versions with the key of a dataset.
unfoldable pub count_active : Dataset → List Dataset → ℕ
count_active d [] = 0
count_active d (e ∷ es) = one_if (in_force d e) + count_active d es

-- The rows with an id.
unfoldable pub count_id : Text → List Dataset → ℕ
count_id id [] = 0
count_id id (e ∷ es) = one_if (text_eq e.id id) + count_id id es

absurd_none : (e : Dataset) (n : ℕ) → some e ≡ none → n ≡ 0
absurd_none e n h = cc

pub find_active-none :
    (d : Dataset) (rows : List Dataset) → find_active d rows ≡ none → count_active d rows ≡ 0
unfolding find_active count_active
find_active-none d [] h = refl
find_active-none d (e ∷ es) h = elim (Bool-cases (in_force d e)) [
  | inl b ↦ absurd_none e _ (rw b at h)
  | inr b ↦ rw b (omega (arith, find_active-none d es (rw b at h)))
]

and_false-le : (a : Bool) (n : ℕ) → one_if (a && false) ≤ n
and_false-le true n = omega arith
and_false-le false n = omega arith

-- A version that is not active takes no place in force.
closing-row :
    (d p e : Dataset) (b : Bool)
    → is_active p.status ≡ false
    → one_if (in_force d (if b then set_lifecycle p e else e)) ≤ one_if (in_force d e)
closing-row d p e false h = omega arith
closing-row d p e true h = rw h (and_false-le (same_key d (set_lifecycle p e)) _)

closing-le :
    (d p : Dataset) (expected : Status) (rows : List Dataset)
    → is_active p.status ≡ false
    → count_active d (update_rows p expected rows) ≤ count_active d rows
unfolding count_active update_rows
closing-le d p expected [] h = omega arith
closing-le d p expected (e ∷ es) h =
    omega (arith, closing-row d p e (is_target p expected e) h, closing-le d p expected es h)

active-status_eq : (s : Status) → is_active s ≡ true → status_eq s active ≡ true
active-status_eq loaded h = cc
active-status_eq active h = refl
active-status_eq superseded h = cc
active-status_eq rejected h = cc

target-found :
    (p e : Dataset) → p.id ≡ e.id → is_active e.status ≡ true → is_target p active e ≡ true
target-found p e i h = rw (i, text_eq_refl e.id, active-status_eq e.status h) refl

-- Closing the version that was found in force frees a place.
pub closing-found :
    (d f p : Dataset) (rows : List Dataset)
    → find_active d rows ≡ some f
    → p.id ≡ f.id
    → is_active p.status ≡ false
    → suc (count_active d (update_rows p active rows)) ≤ count_active d rows
unfolding find_active count_active update_rows
closing-found d f p [] h i c = cc
closing-found d f p (e ∷ es) h i c = elim (Bool-cases (in_force d e)) [
  | inl b ↦
      let same = some-injective (rw b at h) in
      let (k, a) = (&&_iff (same_key d e) (is_active e.status)).0 b in
      rw (target-found p e (i ∙ ap (λ (x : Dataset). x.id) (sym same)) a, b)
        (rw c (
          omega
            (arith, and_false-le (same_key d (set_lifecycle p e)) 0, closing-le d p active es c)))
  | inr b ↦
      omega
        (arith, closing-row d p e (is_target p active e) c, closing-found d f p es (rw b at h) i c)
]

one_if-le : (b : Bool) (n : ℕ) → one_if b ≤ n + 1
one_if-le true n = omega arith
one_if-le false n = omega arith

activating-row :
    (d p e : Dataset) (b b' : Bool)
    → one_if (in_force d (if b && b' then set_lifecycle p e else e))
      ≤ one_if (in_force d e) + one_if b
activating-row d p e true true = one_if-le _ _
activating-row d p e true false = omega arith
activating-row d p e false b' = omega arith

pub activating-le :
    (d p : Dataset) (expected : Status) (rows : List Dataset)
    → count_active d (update_rows p expected rows) ≤ count_active d rows + count_id p.id rows
unfolding count_active update_rows count_id
activating-le d p expected [] = omega arith
activating-le d p expected (e ∷ es) = omega (
  arith,
  activating-row d p e (text_eq e.id p.id) (status_eq e.status expected),
  activating-le d p expected es,
)

pub count_id-update_rows :
    (id : Text) (p : Dataset) (expected : Status) (rows : List Dataset)
    → count_id id (update_rows p expected rows) ≡ count_id id rows
unfolding count_id update_rows
count_id-update_rows id p expected [] = refl
count_id-update_rows id p expected (e ∷ es) = elim (Bool-cases (is_target p expected e)) [
  | inl b ↦ rw b (omega (arith, count_id-update_rows id p expected es))
  | inr b ↦ rw b (omega (arith, count_id-update_rows id p expected es))
]
