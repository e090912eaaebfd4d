-- ===== src/Outbox/Store/Occurs.antt =====
-- How often an id stands among the ids of internal/application/outbox/relay.go.
use mathlib.Core.List.{Permᴰ}
use cross_border_ecommerce.Base.{
  ℕ, ◌+◌, ◌≤◌, ◌≡◌, refl, ap, ◌∙◌, ◌⊎◌, inl, inr, true, false, List, [], ◌∷◌, ◌++◌, if◌then◌else◌,
  arith, Bool-cases, Text, text_eq,
}
use cross_border_ecommerce.Outbox.Store.{has_id}

abbrev pub hit : Text → Text → ℕ
hit id i = if text_eq i id then 1 else 0

-- How often an id stands in a list.
unfoldable pub occurs : Text → List Text → ℕ
occurs id [] = 0
occurs id (i ∷ is) = hit id i + occurs id is

pub occurs-append : (id : Text) (a b : List Text) → occurs id (a ++ b) ≡ occurs id a + occurs id b
unfolding occurs
occurs-append id [] b = omega arith
occurs-append id (i ∷ is) b = omega (arith, occurs-append id is b)

pub occurs-Perm : (id : Text) {a b : List Text} → Permᴰ a b → occurs id a ≡ occurs id b
unfolding occurs
occurs-Perm id Permᴰ.nil = refl
occurs-Perm id (Permᴰ.cons e p) = omega (arith, ap (hit id) e, occurs-Perm id p)
occurs-Perm id (Permᴰ.swap e e') = omega (arith, ap (hit id) e, ap (hit id) e')
occurs-Perm id (Permᴰ.trans p q) = occurs-Perm id p ∙ occurs-Perm id q

pub has_id-occurs :
    (ids : List Text) (id : Text)
    → ((has_id ids id ≡ true) × (1 ≤ occurs id ids))
      ⊎ ((has_id ids id ≡ false) × (occurs id ids ≡ 0))
unfolding has_id occurs
has_id-occurs [] id = inr (refl, refl)
has_id-occurs (i ∷ is) id = elim (Bool-cases (text_eq i id)) [
  | inl e ↦ rw e (inl (refl, omega arith))
  | inr e ↦ rw e (elim (has_id-occurs is id) [
    | inl h ↦ inl (h.0, omega (arith, h.1))
    | inr h ↦ inr (h.0, omega (arith, h.1))
  ])
]
