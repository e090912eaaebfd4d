-- ===== src/Outbox/Settlement.antt =====
-- What becomes of the events that RunOnce of internal/application/outbox/relay.go has claimed.
use mathlib.Core.List.{Permᴰ, append_assoc, append-nil}
use mathlib.Core.List.Permᴰ
use cross_border_ecommerce.Base.{
  ℕ, suc, ◌≡◌, refl, sym, ap, ◌∙◌, subst, inl, inr, List, [], ◌∷◌, ◌++◌, Option, none, some,
  Bool-cases, Text, Error, error_eq, broker_unavailable,
}
use cross_border_ecommerce.Outbox.Relay.{
  Event, RelayConfig, Call, mark_published, record_failure, release, World, Report, Progress,
  event_ids, marks, settle_on_cancel, publish_one, fail_one, relay_answer, relay_events,
  no_progress, relay_claimed,
}

-- The ids that some calls of the store settle, each as often as they do.
unfoldable pub settled : List Call → List Text
settled [] = []
settled (mark_published ids ∷ cs) = ids ++ settled cs
settled (record_failure id attempts backoff ∷ cs) = id ∷ settled cs
settled (release ids ∷ cs) = ids ++ settled cs

settled-append : (cs ds : List Call) → settled (cs ++ ds) ≡ settled cs ++ settled ds
unfolding settled
settled-append [] ds = refl
settled-append (mark_published ids ∷ cs) ds =
    ap (λ l. ids ++ l) (settled-append cs ds) ∙ sym (append_assoc ids (settled cs) (settled ds))
settled-append (record_failure id attempts backoff ∷ cs) ds =
    ap (λ l. id ∷ l) (settled-append cs ds)
settled-append (release ids ∷ cs) ds =
    ap (λ l. ids ++ l) (settled-append cs ds) ∙ sym (append_assoc ids (settled cs) (settled ds))

settled-marks : (ids : List Text) → settled (marks ids) ≡ ids
unfolding settled marks
settled-marks [] = refl
settled-marks (id ∷ ids) = append-nil (id ∷ ids)

settled-marks-release :
    (published ids : List Text) → settled (marks published ++ (release ids ∷ [])) ≡ published ++ ids
unfolding settled
settled-marks-release published ids =
    settled-append (marks published) (release ids ∷ [])
    ∙ (ap (λ l. l ++ (ids ++ [])) (settled-marks published)
        ∙ ap (λ l. published ++ l) (append-nil ids))

-- The calls that end a batch settle what was published and what was not processed.
settled-last :
    (calls last : List Call) (published ids : List Text)
    → settled last ≡ published ++ ids
    → settled (calls ++ last) ≡ settled calls ++ (published ++ ids)
settled-last calls last published ids e = settled-append calls last ∙ ap (λ l. settled calls ++ l) e

abbrev pub IsSettled : Progress → List Text → Report → Type 0
IsSettled p ids r = Permᴰ (settled r.calls) (settled p.calls ++ (p.published ++ ids))

eq-Perm : {a b : List Text} → a ≡ b → Permᴰ a b
eq-Perm {a = a} e = subst (Permᴰ a) e (Permᴰ.refl a)

published-IsSettled :
    (w : World) (p : Progress) (id : Text) (ids : List Text) (r : Report)
    → IsSettled (publish_one id p) ids r
    → IsSettled p (id ∷ ids) r
published-IsSettled w p id ids r s =
    Permᴰ.trans s
      (eq-Perm (ap (λ l. settled p.calls ++ l) (append_assoc p.published (id ∷ []) ids)))

failed-IsSettled :
    (w : World) (c : RelayConfig) (p : Progress) (e : Event) (ids : List Text) (r : Report)
    → IsSettled (fail_one w c e p) ids r
    → IsSettled p (e.id ∷ ids) r
unfolding settled
failed-IsSettled w c p e ids r s = Permᴰ.trans s (
    Permᴰ.trans
      (eq-Perm (
        ap (λ l. l ++ (p.published ++ ids)) (settled-append p.calls _)
        ∙ append_assoc (settled p.calls) (e.id ∷ []) (p.published ++ ids)))
      (Permᴰ.append_left (settled p.calls) (Permᴰ.symm (Permᴰ.middle e.id p.published ids))))

relay_answer-IsSettled :
    (w : World) (c : RelayConfig) (i : ℕ) (e : Event) (ids : List Text) (answer : Option Error)
    (p : Progress) (next : Progress → Report)
    → ((q : Progress) → IsSettled q ids (next q))
    → IsSettled p (e.id ∷ ids) (relay_answer w c i e (e.id ∷ ids) answer p next)
unfolding relay_answer settle_on_cancel
relay_answer-IsSettled w c i e ids none p next k =
    published-IsSettled w p e.id ids (next (publish_one e.id p)) (k (publish_one e.id p))
relay_answer-IsSettled w c i e ids (some cause) p next k =
    let last = eq-Perm (
      settled-last p.calls (marks p.published ++ (release (e.id ∷ ids) ∷ [])) p.published
        (e.id ∷ ids) (settled-marks-release p.published (e.id ∷ ids))) in
    elim (Bool-cases (error_eq cause broker_unavailable)) [
      | inl b ↦ rw b last
      | inr b ↦ elim (Bool-cases (w.cancelled_after i)) [
        | inl b' ↦ rw (b, b') last
        | inr b' ↦
            rw (b, b')
              (failed-IsSettled w c p e ids (next (fail_one w c e p)) (k (fail_one w c e p)))
      ]
    ]

pub relay_events-IsSettled :
    (w : World) (c : RelayConfig) (i : ℕ) (es : List Event) (p : Progress)
    → IsSettled p (event_ids es) (relay_events w c i es p)
unfolding relay_events event_ids settle_on_cancel
relay_events-IsSettled w c i [] p = eq-Perm (
    settled-last p.calls (marks p.published) p.published []
      (settled-marks p.published ∙ sym (append-nil p.published)))
relay_events-IsSettled w c i (e ∷ es) p = elim (Bool-cases (w.cancelled_before i)) [
  | inl b ↦ rw b (
      eq-Perm (
        settled-last p.calls (marks p.published ++ (release (event_ids (e ∷ es)) ∷ [])) p.published
          (event_ids (e ∷ es)) (settled-marks-release p.published (event_ids (e ∷ es)))))
  | inr b ↦ rw b (
      relay_answer-IsSettled w c i e (event_ids es) (w.publish i e) p (relay_events w c (suc i) es)
        (λ q. relay_events-IsSettled w c (suc i) es q))
]

-- Every claimed event is settled exactly once: whatever the broker answers, wherever the context is
-- cancelled and whatever the store reports, the calls of RunOnce that mark events as published, record
-- failures and release claims name together the ids of the claimed batch, each as often as the batch
-- has it.
pub relay_claimed-settled :
    (w : World) (c : RelayConfig) (es : List Event)
    → Permᴰ (settled (relay_claimed w c es).calls) (event_ids es)
unfolding settled event_ids
relay_claimed-settled w c [] = Permᴰ.nil
relay_claimed-settled w c (e ∷ es) = relay_events-IsSettled w c 0 (e ∷ es) no_progress
