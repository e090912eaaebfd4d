-- ===== src/Outbox/Published.antt =====
-- Which events RunOnce of internal/application/outbox/relay.go marks as published.
use mathlib.Core.List.{append_assoc, append-nil}
use cross_border_ecommerce.Base.{
  ℕ, suc, ◌≡◌, refl, sym, ap, ◌∙◌, ◌⊎◌, inl, inr, List, [], ◌∷◌, ◌++◌, Option, none, some,
  Bool-cases, All, All-append, Text, Error, error_eq, broker_unavailable,
}
use cross_border_ecommerce.Outbox.Relay.{
  Event, RelayConfig, Call, mark_published, record_failure, release, World, Report, Progress,
  event_ids, marks, settle_on_cancel, publish_one, fail_one, relay_answer, relay_events,
  no_progress, relay_claimed,
}

-- The ids that some calls mark as published.
unfoldable pub marked : List Call → List Text
marked [] = []
marked (mark_published ids ∷ cs) = ids ++ marked cs
marked (record_failure id attempts backoff ∷ cs) = marked cs
marked (release ids ∷ cs) = marked cs

marked-append : (cs ds : List Call) → marked (cs ++ ds) ≡ marked cs ++ marked ds
unfolding marked
marked-append [] ds = refl
marked-append (mark_published ids ∷ cs) ds =
    ap (λ l. ids ++ l) (marked-append cs ds) ∙ sym (append_assoc ids (marked cs) (marked ds))
marked-append (record_failure id attempts backoff ∷ cs) ds = marked-append cs ds
marked-append (release ids ∷ cs) ds = marked-append cs ds

marked-marks : (ids : List Text) → marked (marks ids) ≡ ids
unfolding marked marks
marked-marks [] = refl
marked-marks (id ∷ ids) = append-nil (id ∷ ids)

marked-marks-release :
    (published ids : List Text) → marked (marks published ++ (release ids ∷ [])) ≡ published
unfolding marked
marked-marks-release published ids =
    marked-append (marks published) (release ids ∷ [])
    ∙ (ap (λ l. l ++ []) (marked-marks published) ∙ append-nil published)

-- The broker accepted an event of the batch with this id, from its i-th event on.
abbrev pub Accepted : World → ℕ → List Event → Text → Type 0
Accepted w i [] id = ⊥
Accepted w i (e ∷ es) id = ((e.id ≡ id) × (w.publish i e ≡ none)) ⊎ Accepted w (suc i) es id

-- The calls mark what is reported as published, all of which has the property.
abbrev IsMarked : (Text → Type 0) → Report → Type 0
IsMarked P r = (marked r.calls ≡ r.published) × All P r.published

abbrev IsUnmarked : (Text → Type 0) → Progress → Type 0
IsUnmarked P p = (marked p.calls ≡ []) × All P p.published

marked-last :
    (calls last : List Call) (published : List Text)
    → marked calls ≡ []
    → marked last ≡ published
    → marked (calls ++ last) ≡ published
marked-last calls last published e e' =
    marked-append calls last ∙ (ap (λ l. l ++ marked last) e ∙ e')

fail_one-unmarked :
    (w : World) (c : RelayConfig) (e : Event) (p : Progress)
    → marked p.calls ≡ []
    → marked (fail_one w c e p).calls ≡ []
unfolding marked
fail_one-unmarked w c e p h = marked-last p.calls _ [] h refl

relay_answer-IsMarked :
    (P : Text → Type 0) (w : World) (c : RelayConfig) (i : ℕ) (e : Event) (ids : List Text)
    (answer : Option Error) (p : Progress) (next : Progress → Report)
    → (answer ≡ none → P e.id)
    → ((q : Progress) → IsUnmarked P q → IsMarked P (next q))
    → IsUnmarked P p
    → IsMarked P (relay_answer w c i e (e.id ∷ ids) answer p next)
unfolding relay_answer settle_on_cancel
relay_answer-IsMarked P w c i e ids none p next a k u =
    k (publish_one e.id p) (u.0, All-append P p.published (e.id ∷ []) u.1 (a refl, tt))
relay_answer-IsMarked P w c i e ids (some cause) p next a k u =
    let last =
      marked-last p.calls (marks p.published ++ (release (e.id ∷ ids) ∷ [])) p.published u.0
        (marked-marks-release p.published (e.id ∷ ids)) in
    elim (Bool-cases (error_eq cause broker_unavailable)) [
      | inl b ↦ rw b (last, u.1)
      | inr b ↦ elim (Bool-cases (w.cancelled_after i)) [
        | inl b' ↦ rw (b, b') (last, u.1)
        | inr b' ↦ rw (b, b') (k (fail_one w c e p) (fail_one-unmarked w c e p u.0, u.1))
      ]
    ]

relay_events-IsMarked :
    (P : Text → Type 0) (w : World) (c : RelayConfig) (i : ℕ) (es : List Event) (p : Progress)
    → ((id : Text) → Accepted w i es id → P id)
    → IsUnmarked P p
    → IsMarked P (relay_events w c i es p)
unfolding relay_events event_ids settle_on_cancel
relay_events-IsMarked P w c i [] p a u =
    (marked-last p.calls (marks p.published) p.published u.0 (marked-marks p.published), u.1)
relay_events-IsMarked P w c i (e ∷ es) p a u = elim (Bool-cases (w.cancelled_before i)) [
  | inl b ↦ rw b (
    marked-last p.calls (marks p.published ++ (release (event_ids (e ∷ es)) ∷ [])) p.published u.0
        (marked-marks-release p.published (event_ids (e ∷ es))),
    u.1,
  )
  | inr b ↦ rw b (
      relay_answer-IsMarked P w c i e (event_ids es) (w.publish i e) p (relay_events w c (suc i) es)
        (λ n. a e.id (inl (refl, n)))
        (λ q. relay_events-IsMarked P w c (suc i) es q (λ id x. a id (inr x))) u)
]

-- Nothing is marked as published that the broker did not accept: the ids that RunOnce asks the store to
-- mark are the ones that it reports as published, in the same order, and each is the id of an event of
-- the claimed batch whose publication returned nil.
pub relay_claimed-marked :
    (w : World) (c : RelayConfig) (es : List Event)
    → (marked (relay_claimed w c es).calls ≡ (relay_claimed w c es).published)
      × All (Accepted w 0 es) (relay_claimed w c es).published
unfolding marked
relay_claimed-marked w c [] = (refl, tt)
relay_claimed-marked w c (e ∷ es) =
    relay_events-IsMarked (Accepted w 0 (e ∷ es)) w c 0 (e ∷ es) no_progress (λ id x. x) (refl, tt)
