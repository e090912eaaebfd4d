-- ===== src/Worker/Soundness.antt =====
-- The invariant of the worker pool (internal/platform/worker/pool.go) under every interleaving.
use mathlib.Core.List.{Permᴰ, append_assoc}
use mathlib.Core.List.Permᴰ
use cross_border_ecommerce.Base.{
  ℕ, zero, suc, ◌+◌, ◌≤◌, ◌<◌, ◌≡◌, refl, sym, ap, ◌∙◌, subst, ◌⊎◌, inl, inr, ltb, Bool, true,
  false, ◌||◌, List, [], ◌∷◌, ◌++◌, Option, none, some, if◌then◌else◌, arith, Bool-cases, length,
  length-append,
}
use cross_border_ecommerce.Worker.Pool.{
  Phase, open_phase, awaiting_dispatchers, draining, returned, Pool, pick, enter, send, hand_over,
  give_up, receive, run_task,
}

abbrev pub PhaseFits : Phase → Bool → Bool → ℕ → ℕ → Type 0
PhaseFits open_phase closed tasks_closed gone size = (closed ≡ false) × (tasks_closed ≡ false)
PhaseFits awaiting_dispatchers closed tasks_closed gone size =
    (closed ≡ true) × (tasks_closed ≡ false)
PhaseFits draining closed tasks_closed gone size = (closed ≡ true) × (tasks_closed ≡ true)
PhaseFits (returned none) closed tasks_closed gone size =
    (closed ≡ true) × ((tasks_closed ≡ true) × (gone ≡ size))
PhaseFits (returned (some e)) closed tasks_closed gone size =
    (closed ≡ true) × (tasks_closed ≡ true)

pub record IsSound (p : Pool) : Type 0 where
  -- No dispatcher is left in its select once the channel is closed.
  pub no_sender : p.tasks_closed ≡ true → p.waiting ≡ []
  pub phase_fits : PhaseFits p.phase p.closed p.tasks_closed p.gone p.size
  pub bounded : length p.queue ≤ p.queue_size
  pub workers : p.idle + length p.running + p.gone ≡ p.size
  pub last_gone : (p.gone ≡ 0) ⊎ ((p.tasks_closed ≡ true) × (p.queue ≡ []))
  pub kept : Permᴰ p.accepted (p.queue ++ (p.running ++ p.finished))
  pub calm : p.panicked ≡ false
  pub staffed : 0 < p.size

abbrev pub Sound : Option Pool → Type 0
Sound none = Unit
Sound (some p) = IsSound p

abbrev pub Picked : List ℕ → Option (ℕ × List ℕ) → Type 0
Picked xs none = Unit
Picked xs (some found) = Permᴰ xs (found.0 ∷ found.1)

Picked-later :
    (x : ℕ) (xs : List ℕ) (o : Option (ℕ × List ℕ))
    → Picked xs o
    → Picked (x ∷ xs) (elim o [ none ↦ none | some found ↦ some (found.0, x ∷ found.1) ])
Picked-later x xs none h = tt
Picked-later x xs (some found) h = Permᴰ.trans (Permᴰ.cons refl h) (Permᴰ.swap refl refl)

pub pick-Picked : (k : ℕ) (xs : List ℕ) → Picked xs (pick k xs)
unfolding pick
pick-Picked k [] = tt
pick-Picked zero (x ∷ xs) = Permᴰ.refl _
pick-Picked (suc k) (x ∷ xs) = Picked-later x xs (pick k xs) (pick-Picked k xs)

length-Perm : {a b : List ℕ} → Permᴰ a b → length a ≡ length b
length-Perm Permᴰ.nil = refl
length-Perm (Permᴰ.cons e p) = ap suc (length-Perm p)
length-Perm (Permᴰ.swap e e') = refl
length-Perm (Permᴰ.trans p q) = length-Perm p ∙ length-Perm q

-- A dispatcher in its select finds the channel open.
found-open :
    (p : Pool) (found : ℕ × List ℕ)
    → IsSound p
    → Picked p.waiting (some found)
    → p.tasks_closed ≡ false
found-open p found s h = elim (Bool-cases p.tasks_closed) [
  | inl e ↦ ground (arith, length-Perm h, ap length (s.no_sender e))
  | inr e ↦ e
]

open-no_sender : (b : Bool) (waiting : List ℕ) → b ≡ false → b ≡ true → waiting ≡ []
open-no_sender b waiting e e' = cc

pub if-Sound : (b : Bool) (p : Pool) → (b ≡ true → IsSound p) → Sound (if b then some p else none)
if-Sound true p h = h refl
if-Sound false p h = tt

unless-Sound : (b : Bool) (p : Pool) → (b ≡ false → IsSound p) → Sound (if b then none else some p)
unless-Sound true p h = tt
unless-Sound false p h = h refl

-- A pool that is not closed has an open channel.
phase-open :
    (phase : Phase) (closed tasks_closed : Bool) (gone size : ℕ)
    → PhaseFits phase closed tasks_closed gone size
    → closed ≡ false
    → tasks_closed ≡ false
phase-open open_phase closed tasks_closed gone size h e = h.1
phase-open awaiting_dispatchers closed tasks_closed gone size h e = h.1
phase-open draining closed tasks_closed gone size h e = cc
phase-open (returned none) closed tasks_closed gone size h e = cc
phase-open (returned (some x)) closed tasks_closed gone size h e = cc

-- While the channel is open, no worker is gone.
open-none_gone :
    (gone : ℕ) (closed : Bool) (queue : List ℕ)
    → (gone ≡ 0) ⊎ ((closed ≡ true) × (queue ≡ []))
    → closed ≡ false
    → gone ≡ 0
open-none_gone gone closed queue (inl e) h = e
open-none_gone gone closed queue (inr e) h = cc

sent-Perm :
    (t : ℕ) (queue rest : List ℕ) {accepted : List ℕ}
    → Permᴰ accepted (queue ++ rest)
    → Permᴰ (t ∷ accepted) ((queue ++ (t ∷ [])) ++ rest)
sent-Perm t queue rest p = Permᴰ.trans (Permᴰ.cons refl p) (
    Permᴰ.trans (Permᴰ.symm (Permᴰ.middle t queue rest))
      (subst (Permᴰ (queue ++ (t ∷ rest))) (sym (append_assoc queue (t ∷ []) rest)) (Permᴰ.refl _)))

ran-Perm :
    (t : ℕ) (rest running finished : List ℕ)
    → Permᴰ running (t ∷ rest)
    → Permᴰ (running ++ finished) (rest ++ (t ∷ finished))
ran-Perm t rest running finished p =
    Permᴰ.trans (Permᴰ.append_right finished p) (Permᴰ.symm (Permᴰ.middle t rest finished))

-- A worker is gone only from an empty queue.
received-last :
    (gone : ℕ) (closed : Bool) (queue : List ℕ) (t : ℕ) (rest : List ℕ)
    → queue ≡ t ∷ rest
    → (gone ≡ 0) ⊎ ((closed ≡ true) × (queue ≡ []))
    → (gone ≡ 0) ⊎ ((closed ≡ true) × (rest ≡ []))
received-last gone closed queue t rest e (inl h) = inl h
received-last gone closed queue t rest e (inr h) = cc

pub enter-Sound : (task : ℕ) (p : Pool) → IsSound p → Sound (enter task p)
unfolding enter
enter-Sound task p s = unless-Sound p.closed _ (λ e. record {
  no_sender =
      open-no_sender p.tasks_closed (task ∷ p.waiting)
        (phase-open p.phase p.closed p.tasks_closed p.gone p.size s.phase_fits e);
  phase_fits = s.phase_fits;
  bounded = s.bounded;
  workers = s.workers;
  last_gone = s.last_gone;
  kept = s.kept;
  calm = s.calm;
  staffed = s.staffed;
})

or-calm : (a b : Bool) → a ≡ false → b ≡ false → (a || b) ≡ false
or-calm a b e e' = rw (e, e') refl

room : (closed : Bool) (n size : ℕ) → closed ≡ false → (closed || ltb n size) ≡ true → suc n ≤ size
room closed n size e h = ground arith

pub send-Sound :
    (o : Option (ℕ × List ℕ)) (p : Pool) → IsSound p → Picked p.waiting o → Sound (send o p)
unfolding send
send-Sound none p s h = tt
send-Sound (some found) p s h =
    let o = found-open p found s h in
    if-Sound (p.tasks_closed || ltb (length p.queue) p.queue_size) _ (λ e. record {
      no_sender = open-no_sender p.tasks_closed found.1 o;
      phase_fits = s.phase_fits;
      bounded = omega (
        arith,
        length-append p.queue (found.0 ∷ []),
        room p.tasks_closed (length p.queue) p.queue_size o e,
      );
      workers = s.workers;
      last_gone = inl (open-none_gone p.gone p.tasks_closed p.queue s.last_gone o);
      kept = sent-Perm found.0 p.queue (p.running ++ p.finished) s.kept;
      calm = or-calm p.panicked p.tasks_closed s.calm o;
      staffed = s.staffed;
    })

pub hand_over-Sound :
    (o : Option (ℕ × List ℕ)) (idle : ℕ) (queue : List ℕ) (p : Pool)
    → p.idle ≡ idle
    → p.queue ≡ queue
    → IsSound p
    → Picked p.waiting o
    → Sound (hand_over o idle queue p)
unfolding hand_over
hand_over-Sound (some found) (suc idle) [] p ei eq s h =
    let o = found-open p found s h in
    record {
      no_sender = open-no_sender p.tasks_closed found.1 o;
      phase_fits = s.phase_fits;
      bounded = s.bounded;
      workers = omega (arith, s.workers, ei);
      last_gone = s.last_gone;
      kept =
          Permᴰ.trans (Permᴰ.cons refl s.kept)
            (Permᴰ.symm (Permᴰ.middle found.0 p.queue (p.running ++ p.finished)));
      calm = or-calm p.panicked p.tasks_closed s.calm o;
      staffed = s.staffed;
    }
hand_over-Sound (some found) zero queue p ei eq s h = tt
hand_over-Sound (some found) (suc idle) (t ∷ queue) p ei eq s h = tt
hand_over-Sound none idle queue p ei eq s h = tt

pub give_up-Sound :
    (b : Bool) (o : Option (ℕ × List ℕ)) (p : Pool)
    → IsSound p
    → Picked p.waiting o
    → Sound (give_up b o p)
unfolding give_up
give_up-Sound b none p s h = tt
give_up-Sound b (some found) p s h =
    let o = found-open p found s h in
    if-Sound (b || p.closed) _ (λ e. record {
      no_sender = open-no_sender p.tasks_closed found.1 o;
      phase_fits = s.phase_fits;
      bounded = s.bounded;
      workers = s.workers;
      last_gone = s.last_gone;
      kept = s.kept;
      calm = s.calm;
      staffed = s.staffed;
    })

pub receive-Sound :
    (idle : ℕ) (queue : List ℕ) (p : Pool)
    → p.idle ≡ idle
    → p.queue ≡ queue
    → IsSound p
    → Sound (receive idle queue p)
unfolding receive
receive-Sound zero queue p ei eq s = tt
receive-Sound (suc idle) [] p ei eq s = tt
receive-Sound (suc idle) (t ∷ queue) p ei eq s = record {
  no_sender = s.no_sender;
  phase_fits = s.phase_fits;
  bounded = omega (arith, s.bounded, ap length eq);
  workers = omega (arith, s.workers, ei);
  last_gone = received-last p.gone p.tasks_closed p.queue t queue eq s.last_gone;
  kept =
      Permᴰ.trans (subst (λ l. Permᴰ p.accepted (l ++ (p.running ++ p.finished))) eq s.kept)
        (Permᴰ.symm (Permᴰ.middle t queue (p.running ++ p.finished)));
  calm = s.calm;
  staffed = s.staffed;
}

pub run_task-Sound :
    (o : Option (ℕ × List ℕ)) (p : Pool) → IsSound p → Picked p.running o → Sound (run_task o p)
unfolding run_task
run_task-Sound none p s h = tt
run_task-Sound (some found) p s h = record {
  no_sender = s.no_sender;
  phase_fits = s.phase_fits;
  bounded = s.bounded;
  workers = omega (arith, s.workers, length-Perm h);
  last_gone = s.last_gone;
  kept =
      Permᴰ.trans s.kept
        (Permᴰ.append_left p.queue (ran-Perm found.0 found.1 p.running p.finished h));
  calm = s.calm;
  staffed = s.staffed;
}
