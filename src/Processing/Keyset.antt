-- ===== src/Processing/Keyset.antt =====
-- The listing of a run's raw records by pages (ListKeysetByRunID of
-- internal/infrastructure/postgres/raw_record_repository.go). The records are in the order of their ids.
use cross_border_ecommerce.Base.{
  ℕ, zero, suc, ◌+◌, ◌-◌, ◌≤◌, ◌<◌, ◌≡◌, refl, ltb, List, [], ◌∷◌, Option, none, some, inl, inr,
  Bool-cases, lt→ltb, ltb→lt, arith, if◌then◌else◌, length,
}
use cross_border_ecommerce.Ingestion.RawRecord.{RawRecord}

-- A raw record with its id as a number.
pub record Stored : Type 0 where
  pub key : ℕ
  pub record_ : RawRecord

-- The listLimit of the page: 50 where it is not positive, and at most maxListLimit.
abbrev pub max_list_limit : ℕ
max_list_limit = 1000

unfoldable pub page_limit : ℕ → ℕ
page_limit zero = 50
page_limit (suc n) = if ltb max_list_limit (suc n) then max_list_limit else suc n

-- `id > $2`, for a cursor that may be missing.
unfoldable pub after : Option ℕ → List Stored → List Stored
after none rs = rs
after (some c) [] = []
after (some c) (r ∷ rs) = let rest = after (some c) rs in if ltb c r.key then r ∷ rest else rest

unfoldable pub take : ℕ → List Stored → List Stored
take zero rs = []
take (suc n) [] = []
take (suc n) (r ∷ rs) = r ∷ take n rs

-- ListKeysetByRunID.
unfoldable pub list_keyset : Option ℕ → ℕ → List Stored → List Stored
unfolding after take page_limit
list_keyset cursor limit rs = take (page_limit limit) (after cursor rs)

-- The id of the last record of a page that is not empty.
unfoldable pub last_key : ℕ → List Stored → ℕ
last_key k [] = k
last_key k (r ∷ rs) = last_key r.key rs

-- The ids rise.
abbrev pub AllAbove : ℕ → List Stored → Type 0
AllAbove c [] = Unit
AllAbove c (r ∷ rs) = (c < r.key) × AllAbove c rs

abbrev pub IsSorted : List Stored → Type 0
IsSorted [] = Unit
IsSorted (r ∷ rs) = AllAbove r.key rs × IsSorted rs

-- How many records the cursor has passed.
abbrev pub passed : Option ℕ → List Stored → ℕ
passed cursor rs = length rs - length (after cursor rs)

after_all : (k : ℕ) (rs : List Stored) → AllAbove k rs → after (some k) rs ≡ rs
unfolding after
after_all k [] h = refl
after_all k (r ∷ rs) h = rw (lt→ltb k r.key h.0, after_all k rs h.1)

last_key-ge :
    (k n : ℕ) (rs : List Stored) → AllAbove k rs → IsSorted rs → k ≤ last_key k (take n rs)
unfolding last_key take
last_key-ge k zero rs h s = omega arith
last_key-ge k (suc n) [] h s = omega arith
last_key-ge k (suc n) (r ∷ rs) h s = omega (arith, last_key-ge r.key n rs s.0 s.1)

length-after :
    (k : ℕ) (r : Stored) (rs : List Stored)
    → r.key ≤ k
    → after (some k) (r ∷ rs) ≡ after (some k) rs
unfolding after
length-after k r rs h = ground arith

-- A page from the start.
first_page :
    (n : ℕ) (r : Stored) (rs : List Stored)
    → IsSorted (r ∷ rs)
    → length (after (some (last_key r.key (take n rs))) (r ∷ rs)) + suc (length (take n rs))
      ≡ suc (length rs)
unfolding take last_key
first_page zero r rs s =
    rw (length-after r.key r rs (omega arith), after_all r.key rs s.0) (omega arith)
first_page (suc n) r [] s =
    rw (length-after r.key r [] (omega arith), after_all r.key [] tt) (omega arith)
first_page (suc n) r (x ∷ xs) s =
    let above = last_key-ge x.key n xs s.1.0 s.1.1 in
    rw (length-after (last_key x.key (take n xs)) r (x ∷ xs) (omega arith))
      (omega (arith, first_page n x xs s.1))

-- A page that is not empty moves the cursor on, and leaves the records behind it.
abbrev pub Advances : Option ℕ → List Stored → List Stored → Type 0
Advances cursor rs [] = Unit
Advances cursor rs (p ∷ ps) =
    length (after (some (last_key p.key ps)) rs) + suc (length ps) ≡ length (after cursor rs)

abbrev Climbs : ℕ → List Stored → Type 0
Climbs c [] = Unit
Climbs c (p ∷ ps) = c < last_key p.key ps

AllAbove-lower : (a b : ℕ) (rs : List Stored) → a < b → AllAbove b rs → AllAbove a rs
AllAbove-lower a b [] h l = tt
AllAbove-lower a b (r ∷ rs) h l = (omega arith, AllAbove-lower a b rs h l.1)

skip-Advances :
    (c : ℕ) (r : Stored) (rs page : List Stored)
    → r.key ≤ c
    → Climbs c page
    → Advances (some c) rs page
    → Advances (some c) (r ∷ rs) page
skip-Advances c r rs [] h u a = tt
skip-Advances c r rs (p ∷ ps) h u a =
    rw (length-after (last_key p.key ps) r rs (omega arith), length-after c r rs h) a

next_page :
    (c n : ℕ) (rs : List Stored)
    → IsSorted rs
    → Climbs c (take (suc n) (after (some c) rs))
      × Advances (some c) rs (take (suc n) (after (some c) rs))
next_page c n [] s = unfold after take in (tt, tt)
next_page c n (r ∷ rs) s = elim (Bool-cases (ltb c r.key)) [
  | inl b ↦
      let l = ltb→lt c r.key b in
      let all = after_all c (r ∷ rs) (l, AllAbove-lower c r.key rs l s.0) in
      unfold take in
      rw (all, all) ((omega (arith, last_key-ge r.key n rs s.0 s.1)), (first_page n r rs s))
  | inr b ↦
      let h : r.key ≤ c = ground arith in
      let (u, a) = next_page c n rs s.1 in
      rw (length-after c r rs h) (u, skip-Advances c r rs _ h u a)
]

page_limit-pos : (limit : ℕ) → page_limit limit ≡ suc (page_limit limit - 1)
unfolding page_limit
page_limit-pos zero = omega arith
page_limit-pos (suc n) = ground arith

take-Advances :
    (cursor : Option ℕ) (n : ℕ) (rs : List Stored)
    → IsSorted rs
    → Advances cursor rs (take (suc n) (after cursor rs))
take-Advances none n [] s = unfold take after in tt
take-Advances none n (r ∷ rs) s = unfold take after in first_page n r rs s
take-Advances (some c) n rs s = (next_page c n rs s).1

take-nil : (n : ℕ) (rs : List Stored) → take (suc n) rs ≡ [] → length rs ≡ 0
unfolding take
take-nil n [] h = refl
take-nil n (r ∷ rs) h = cc

pub length-after-le : (cursor : Option ℕ) (rs : List Stored) → length (after cursor rs) ≤ length rs
unfolding after
length-after-le none rs = omega arith
length-after-le (some c) [] = omega arith
length-after-le (some c) (r ∷ rs) = ground (arith, length-after-le (some c) rs)

-- A page of ListKeysetByRunID and the records behind it are the records behind the cursor.
pub list_keyset-Advances :
    (cursor : Option ℕ) (limit : ℕ) (rs : List Stored)
    → IsSorted rs
    → Advances cursor rs (list_keyset cursor limit rs)
unfolding list_keyset
list_keyset-Advances cursor limit rs s =
    rw (page_limit-pos limit) (take-Advances cursor (page_limit limit - 1) rs s)

-- A page is empty only where nothing is left.
pub list_keyset-nil :
    (cursor : Option ℕ) (limit : ℕ) (rs : List Stored)
    → list_keyset cursor limit rs ≡ []
    → length (after cursor rs) ≡ 0
unfolding list_keyset
list_keyset-nil cursor limit rs h =
    take-nil (page_limit limit - 1) (after cursor rs) (rw (page_limit-pos limit) at h)
