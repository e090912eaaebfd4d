-- ===== src/Streams/Dispatch.antt =====
-- dispatchMessage of internal/infrastructure/redis/consumer.go with the set of messages in flight, as
-- the atomic steps between which the tasks of the pool run. One goroutine dispatches.
use cross_border_ecommerce.Base.{
  ℕ, ◌+◌, ◌≤◌, ◌<◌, ◌≡◌, refl, sym, inl, inr, Bool, true, false, List, [], ◌∷◌, Option, none, some,
  arith, ltb, ltb→lt, if◌then◌else◌, Bool-cases, Text, text_eq, text_eq_refl, text_eq→eq,
}

-- `in_flight` is the map of the consumer; `entering` is the message of the dispatcher that waits in
-- Pool.Dispatch; `tasks` has the messages whose task the pool took and whose task did not end.
pub record Consumer : Type 0 where
  pub in_flight : Text → Bool
  pub entering : Option Text
  pub tasks : List Text

abbrev pub idle : Consumer
idle = record { in_flight = λ k. false; entering = none; tasks = [] }

pub data Step : Type 0 where
  -- The lines of dispatchMessage up to Pool.Dispatch.
  begin : Text → Step
  -- Pool.Dispatch takes the task, or returns an error.
  accept refuse : Step
  -- A task for the message ends, by a panic or not.
  finish : Text → Step

abbrev pub mark : Bool → Text → (Text → Bool) → Text → Bool
mark b id in_flight k = if text_eq k id then b else in_flight k

unfoldable pub occurs : Text → List Text → ℕ
occurs k [] = 0
occurs k (x ∷ xs) = (if text_eq k x then 1 else 0) + occurs k xs

-- The list without the first occurrence.
unfoldable pub remove : Text → List Text → List Text
remove k [] = []
remove k (x ∷ xs) = if text_eq k x then xs else x ∷ remove k xs

-- A message that is in flight is skipped.
unfoldable pub begin_dispatch : Text → Option Text → Consumer → Consumer
begin_dispatch id (some other) s = s
begin_dispatch id none s =
    if s.in_flight id
    then s
    else record s { in_flight = mark true id s.in_flight; entering = some id }

unfoldable pub accept_dispatch : Option Text → Consumer → Consumer
accept_dispatch none s = s
accept_dispatch (some id) s = record s { entering = none; tasks = id ∷ s.tasks }

unfoldable pub refuse_dispatch : Option Text → Consumer → Consumer
refuse_dispatch none s = s
refuse_dispatch (some id) s = record s { entering = none; in_flight = mark false id s.in_flight }

unfoldable pub finish_task : Text → Consumer → Consumer
finish_task id s =
    if ltb 0 (occurs id s.tasks)
    then record s { in_flight = mark false id s.in_flight; tasks = remove id s.tasks }
    else s

unfoldable pub step : Step → Consumer → Consumer
unfolding begin_dispatch accept_dispatch refuse_dispatch finish_task
step (begin id) s = begin_dispatch id s.entering s
step accept s = accept_dispatch s.entering s
step refuse s = refuse_dispatch s.entering s
step (finish id) s = finish_task id s

unfoldable pub run : List Step → Consumer → Consumer
run [] s = s
run (x ∷ xs) s = run xs (step x s)

abbrev pub entering_list : Option Text → List Text
entering_list none = []
entering_list (some id) = id ∷ []

-- The messages that are being dispatched or processed are the ones in flight, each once.
abbrev pub IsExclusive : Consumer → Type 0
IsExclusive s =
    (k : Text)
    → occurs k (entering_list s.entering) + occurs k s.tasks ≡ (if s.in_flight k then 1 else 0)

text_eq-sym : (a b : Text) → text_eq a b ≡ false → text_eq b a ≡ false
text_eq-sym a b h = elim (Bool-cases (text_eq b a)) [
  | inl e ↦ let e' : a ≡ b = sym (text_eq→eq b a e) in ground (arith, e', text_eq_refl a)
  | inr e ↦ e
]

occurs-remove :
    (k id : Text) (xs : List Text)
    → 0 < occurs id xs
    → occurs k (remove id xs) + (if text_eq k id then 1 else 0) ≡ occurs k xs
unfolding occurs remove
occurs-remove k id [] h = absurd (omega arith)
occurs-remove k id (x ∷ xs) h = elim (Bool-cases (text_eq id x)) [
  | inl e ↦ let e' = text_eq→eq id x e in rw (e', text_eq_refl x) (omega arith)
  | inr e ↦
      let h' : 0 < occurs id xs = omega (arith, rw e at h) in
      rw e (omega (arith, occurs-remove k id xs h'))
]

flag-le-one : (b : Bool) → (if b then 1 else 0) ≤ 1
flag-le-one true = omega arith
flag-le-one false = omega arith

flagged :
    (id : Text) (s : Consumer) (k : Text)
    → s.in_flight id ≡ false
    → s.entering ≡ none
    → occurs k (entering_list s.entering) + occurs k s.tasks ≡ (if s.in_flight k then 1 else 0)
    → occurs k (id ∷ []) + occurs k s.tasks ≡ (if mark true id s.in_flight k then 1 else 0)
unfolding occurs
flagged id s k b e v =
    let v' = rw e at v in
    elim (Bool-cases (text_eq k id)) [
      | inl t ↦
          let k' = text_eq→eq k id t in
          let f : s.in_flight k ≡ false = rw k' b in rw t (omega (arith, rw f at v'))
      | inr t ↦ rw t (omega (arith, v'))
    ]

finished :
    (id : Text) (s : Consumer) (k : Text)
    → 0 < occurs id s.tasks
    → occurs k (entering_list s.entering) + occurs k s.tasks ≡ (if s.in_flight k then 1 else 0)
    → occurs k (entering_list s.entering) + occurs k (remove id s.tasks)
      ≡ (if mark false id s.in_flight k then 1 else 0)
finished id s k h v =
    let r = occurs-remove k id s.tasks h in
    elim (Bool-cases (text_eq k id)) [
      | inl t ↦ rw t (omega (arith, rw t at r, v, flag-le-one (s.in_flight k)))
      | inr t ↦ rw t (omega (arith, rw t at r, v))
    ]

begin_dispatch-IsExclusive :
    (id : Text) (entering : Option Text) (s : Consumer)
    → s.entering ≡ entering
    → IsExclusive s
    → IsExclusive (begin_dispatch id entering s)
unfolding begin_dispatch occurs
begin_dispatch-IsExclusive id (some other) s e v k = v k
begin_dispatch-IsExclusive id none s e v k = elim (Bool-cases (s.in_flight id)) [
  | inl b ↦ rw b (v k)
  | inr b ↦ rw b (flagged id s k b e (v k))
]

accept_dispatch-IsExclusive :
    (entering : Option Text) (s : Consumer)
    → s.entering ≡ entering
    → IsExclusive s
    → IsExclusive (accept_dispatch entering s)
unfolding accept_dispatch occurs
accept_dispatch-IsExclusive none s e v k = v k
accept_dispatch-IsExclusive (some id) s e v k = let v' = rw e at (v k) in omega (arith, v')

refuse_dispatch-IsExclusive :
    (entering : Option Text) (s : Consumer)
    → s.entering ≡ entering
    → IsExclusive s
    → IsExclusive (refuse_dispatch entering s)
unfolding refuse_dispatch occurs
refuse_dispatch-IsExclusive none s e v k = v k
refuse_dispatch-IsExclusive (some id) s e v k =
    let v' = rw e at (v k) in
    elim (Bool-cases (text_eq k id)) [
      | inl b ↦ rw b (omega (arith, rw b at v', flag-le-one (s.in_flight k)))
      | inr b ↦ rw b (omega (arith, rw b at v'))
    ]

finish_task-IsExclusive :
    (id : Text) (s : Consumer) → IsExclusive s → IsExclusive (finish_task id s)
unfolding finish_task
finish_task-IsExclusive id s v k = elim (Bool-cases (ltb 0 (occurs id s.tasks))) [
  | inl b ↦ rw b (finished id s k (ltb→lt 0 (occurs id s.tasks) b) (v k))
  | inr b ↦ rw b (v k)
]

step-IsExclusive : (x : Step) (s : Consumer) → IsExclusive s → IsExclusive (step x s)
unfolding step
step-IsExclusive (begin id) s v = begin_dispatch-IsExclusive id s.entering s refl v
step-IsExclusive accept s v = accept_dispatch-IsExclusive s.entering s refl v
step-IsExclusive refuse s v = refuse_dispatch-IsExclusive s.entering s refl v
step-IsExclusive (finish id) s v = finish_task-IsExclusive id s v

-- No message is processed twice at a time: in every history of dispatches and of tasks that end, in any
-- order and with any answers of the pool, the messages that wait in Pool.Dispatch or whose task did
-- not end are exactly those of the map in flight, and each is there once, however often the broker
-- delivers or the consumer claims it meanwhile.
pub run-IsExclusive : (steps : List Step) (s : Consumer) → IsExclusive s → IsExclusive (run steps s)
unfolding run
run-IsExclusive [] s v = v
run-IsExclusive (x ∷ xs) s v = run-IsExclusive xs (step x s) (step-IsExclusive x s v)
