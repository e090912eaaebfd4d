-- ===== src/Regulatory/Tariff/Sorting.antt =====
-- Sorting the keys of the selection (slices.SortedFunc) keeps its entries.
use Prim.Native.Nat.{Ordering}
use cross_border_ecommerce.Base.{◌≡◌, refl, List, [], ◌∷◌, arith, All, ◌∙◌}
use cross_border_ecommerce.Regulatory.Tariff.{
  MeasureKey, Entry, key_of, has_key, compare_measure_keys, insert_entry, place_by, sort_entries,
}
use cross_border_ecommerce.Regulatory.Tariff.Counting.{key_eq_sym}
use cross_border_ecommerce.Regulatory.Tariff.Selection.{IsDistinct}

module _ {D : Type 0} where
  -- Sorting keeps the entries.
  has_key-place_by :
      (o : Ordering) (k : MeasureKey) (e f : Entry D) (fs rest : List (Entry D))
      → has_key k rest ≡ has_key k (e ∷ fs)
      → has_key k (place_by o e f fs rest) ≡ has_key k (e ∷ f ∷ fs)
  unfolding place_by has_key
  has_key-place_by Ordering.gt k e f fs rest h = ground arith
  has_key-place_by Ordering.lt k e f fs rest h = refl
  has_key-place_by Ordering.eq k e f fs rest h = refl

  has_key-insert_entry :
      (k : MeasureKey) (e : Entry D) (es : List (Entry D))
      → has_key k (insert_entry e es) ≡ has_key k (e ∷ es)
  unfolding insert_entry
  has_key-insert_entry k e [] = refl
  has_key-insert_entry k e (f ∷ fs) =
      has_key-place_by (compare_measure_keys (key_of e.best) (key_of f.best)) k e f fs
        (insert_entry e fs) (has_key-insert_entry k e fs)

  has_key-cons :
      (k : MeasureKey) (e : Entry D) (xs ys : List (Entry D))
      → has_key k xs ≡ has_key k ys
      → has_key k (e ∷ xs) ≡ has_key k (e ∷ ys)
  unfolding has_key
  has_key-cons k e xs ys h = rw h

  pub has_key-sort_entries :
      (k : MeasureKey) (es : List (Entry D)) → has_key k (sort_entries es) ≡ has_key k es
  unfolding sort_entries
  has_key-sort_entries k [] = refl
  has_key-sort_entries k (e ∷ es) =
      has_key-insert_entry k e (sort_entries es)
      ∙ has_key-cons k e (sort_entries es) es (has_key-sort_entries k es)

  All-place_by :
      (P : Entry D → Type 0) (o : Ordering) (e f : Entry D) (fs rest : List (Entry D))
      → P e
      → P f
      → All P fs
      → All P rest
      → All P (place_by o e f fs rest)
  unfolding place_by
  All-place_by P Ordering.gt e f fs rest p q v w = (q, w)
  All-place_by P Ordering.lt e f fs rest p q v w = (p, (q, v))
  All-place_by P Ordering.eq e f fs rest p q v w = (p, (q, v))

  All-insert_entry :
      (P : Entry D → Type 0) (e : Entry D) (es : List (Entry D))
      → P e
      → All P es
      → All P (insert_entry e es)
  unfolding insert_entry
  All-insert_entry P e [] p v = (p, tt)
  All-insert_entry P e (f ∷ fs) p v =
      All-place_by P (compare_measure_keys (key_of e.best) (key_of f.best)) e f fs
        (insert_entry e fs) p v.0 v.1 (All-insert_entry P e fs p v.1)

  pub All-sort_entries :
      (P : Entry D → Type 0) (es : List (Entry D)) → All P es → All P (sort_entries es)
  unfolding sort_entries
  All-sort_entries P [] v = tt
  All-sort_entries P (e ∷ es) v =
      All-insert_entry P e (sort_entries es) v.0 (All-sort_entries P es v.1)

  place_by-IsDistinct :
      (o : Ordering) (e f : Entry D) (fs rest : List (Entry D))
      → IsDistinct (e ∷ f ∷ fs)
      → IsDistinct rest
      → ((k : MeasureKey) → has_key k rest ≡ has_key k (e ∷ fs))
      → IsDistinct (place_by o e f fs rest)
  unfolding place_by has_key
  place_by-IsDistinct Ordering.gt e f fs rest d r same =
      (same (key_of f.best) ∙ ground (arith, key_eq_sym (key_of f.best) (key_of e.best)), r)
  place_by-IsDistinct Ordering.lt e f fs rest d r same = d
  place_by-IsDistinct Ordering.eq e f fs rest d r same = d

  insert_entry-IsDistinct :
      (e : Entry D) (es : List (Entry D)) → IsDistinct (e ∷ es) → IsDistinct (insert_entry e es)
  unfolding insert_entry
  insert_entry-IsDistinct e [] d = d
  insert_entry-IsDistinct e (f ∷ fs) d =
      place_by-IsDistinct (compare_measure_keys (key_of e.best) (key_of f.best)) e f fs
        (insert_entry e fs) d
        (insert_entry-IsDistinct e fs (unfold has_key in ground (arith, d.0), d.1.1))
        (λ k. has_key-insert_entry k e fs)

  pub sort_entries-IsDistinct : (es : List (Entry D)) → IsDistinct es → IsDistinct (sort_entries es)
  unfolding sort_entries
  sort_entries-IsDistinct [] d = tt
  sort_entries-IsDistinct (e ∷ es) d =
      insert_entry-IsDistinct e (sort_entries es)
        (has_key-sort_entries (key_of e.best) es ∙ d.0, sort_entries-IsDistinct es d.1)
