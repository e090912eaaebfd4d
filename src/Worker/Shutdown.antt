-- ===== src/Worker/Shutdown.antt =====
-- The shutdown of the worker pool (internal/platform/worker/pool.go), and what holds in every reachable
-- state.
use mathlib.Core.List.{Permᴰ}
use cross_border_ecommerce.Base.{
  ℕ, zero, suc, ◌+◌, ◌<◌, ◌≡◌, refl, subst, ◌⊎◌, inl, inr, ◌==◌, ==_iff, Bool, true, false, List,
  [], ◌∷◌, ◌++◌, Option, none, some, arith, length, Error, not, is_negative, sle, invalid_config,
  ok, ◌>>◌, >>=-eq-ok, ok-injective, fail_if,
}
use cross_border_ecommerce.Worker.Pool.{
  Phase, open_phase, awaiting_dispatchers, draining, returned, Pool, new_pool, fresh, pick, leave,
  begin_shutdown, close_tasks, drained, time_out, Event, entered, sent, handed_over, given_up, ran,
  cancelled, received, left, shut, tasks_closed_event, drained_event, timed_out, step, run, or_same,
}
use cross_border_ecommerce.Worker.Soundness.{
  PhaseFits, IsSound, Sound, pick-Picked, if-Sound, enter-Sound, send-Sound, hand_over-Sound,
  give_up-Sound, receive-Sound, run_task-Sound,
}

-- The last return of Shutdown leaves no worker that could still leave.
leave-fits :
    (phase : Phase) (closed tasks_closed : Bool) (idle running gone size : ℕ)
    → suc idle + running + gone ≡ size
    → PhaseFits phase closed tasks_closed gone size
    → PhaseFits phase closed tasks_closed (suc gone) size
leave-fits open_phase closed tasks_closed idle running gone size e h = h
leave-fits awaiting_dispatchers closed tasks_closed idle running gone size e h = h
leave-fits draining closed tasks_closed idle running gone size e h = h
leave-fits (returned none) closed tasks_closed idle running gone size e h = ground arith
leave-fits (returned (some x)) closed tasks_closed idle running gone size e h = h

leave-Sound :
    (idle : ℕ) (queue : List ℕ) (p : Pool)
    → p.idle ≡ idle
    → p.queue ≡ queue
    → IsSound p
    → Sound (leave idle queue p)
unfolding leave
leave-Sound zero queue p ei eq s = tt
leave-Sound (suc idle) (t ∷ queue) p ei eq s = tt
leave-Sound (suc idle) [] p ei eq s =
    let e = subst (λ n. n + length p.running + p.gone ≡ p.size) ei s.workers in
    if-Sound p.tasks_closed _ (λ c. record {
      no_sender = s.no_sender;
      phase_fits =
          leave-fits p.phase p.closed p.tasks_closed idle (length p.running) p.gone p.size e
            s.phase_fits;
      bounded = s.bounded;
      workers = omega (arith, e);
      last_gone = inr (c, eq);
      kept = s.kept;
      calm = s.calm;
      staffed = s.staffed;
    })

begin_shutdown-Sound :
    (phase : Phase) (p : Pool) → p.phase ≡ phase → IsSound p → Sound (begin_shutdown phase p)
unfolding begin_shutdown
begin_shutdown-Sound awaiting_dispatchers p e s = tt
begin_shutdown-Sound draining p e s = tt
begin_shutdown-Sound (returned r) p e s = tt
begin_shutdown-Sound open_phase p e s =
    let h = subst (λ x. PhaseFits x p.closed p.tasks_closed p.gone p.size) e s.phase_fits in
    record {
      no_sender = s.no_sender;
      phase_fits = (refl, h.1);
      bounded = s.bounded;
      workers = s.workers;
      last_gone = s.last_gone;
      kept = s.kept;
      calm = s.calm;
      staffed = s.staffed;
    }

closed-last :
    (gone : ℕ) (closed : Bool) (queue : List ℕ)
    → (gone ≡ 0) ⊎ ((closed ≡ true) × (queue ≡ []))
    → (gone ≡ 0) ⊎ ((true ≡ true) × (queue ≡ []))
closed-last gone closed queue (inl h) = inl h
closed-last gone closed queue (inr h) = inr (refl, h.1)

close_tasks-Sound :
    (phase : Phase) (waiting : List ℕ) (p : Pool)
    → p.phase ≡ phase
    → p.waiting ≡ waiting
    → IsSound p
    → Sound (close_tasks phase waiting p)
unfolding close_tasks
close_tasks-Sound open_phase waiting p e ew s = tt
close_tasks-Sound draining waiting p e ew s = tt
close_tasks-Sound (returned r) waiting p e ew s = tt
close_tasks-Sound awaiting_dispatchers (t ∷ waiting) p e ew s = tt
close_tasks-Sound awaiting_dispatchers [] p e ew s =
    let h = subst (λ x. PhaseFits x p.closed p.tasks_closed p.gone p.size) e s.phase_fits in
    record {
      no_sender = λ c. ew;
      phase_fits = (h.0, refl);
      bounded = s.bounded;
      workers = s.workers;
      last_gone = closed-last p.gone p.tasks_closed p.queue s.last_gone;
      kept = s.kept;
      calm = s.calm;
      staffed = s.staffed;
    }

drained-Sound : (phase : Phase) (p : Pool) → p.phase ≡ phase → IsSound p → Sound (drained phase p)
unfolding drained
drained-Sound open_phase p e s = tt
drained-Sound awaiting_dispatchers p e s = tt
drained-Sound (returned r) p e s = tt
drained-Sound draining p e s =
    let h = subst (λ x. PhaseFits x p.closed p.tasks_closed p.gone p.size) e s.phase_fits in
    if-Sound (p.gone == p.size) _ (λ g. record {
      no_sender = s.no_sender;
      phase_fits = (h.0, (h.1, (==_iff p.gone p.size).0 g));
      bounded = s.bounded;
      workers = s.workers;
      last_gone = s.last_gone;
      kept = s.kept;
      calm = s.calm;
      staffed = s.staffed;
    })

time_out-Sound : (phase : Phase) (p : Pool) → p.phase ≡ phase → IsSound p → Sound (time_out phase p)
unfolding time_out
time_out-Sound open_phase p e s = tt
time_out-Sound awaiting_dispatchers p e s = tt
time_out-Sound (returned r) p e s = tt
time_out-Sound draining p e s = record {
  no_sender = s.no_sender;
  phase_fits = subst (λ x. PhaseFits x p.closed p.tasks_closed p.gone p.size) e s.phase_fits;
  bounded = s.bounded;
  workers = s.workers;
  last_gone = s.last_gone;
  kept = s.kept;
  calm = s.calm;
  staffed = s.staffed;
}

step-Sound : (e : Event) (p : Pool) → IsSound p → Sound (step e p)
unfolding step
step-Sound (entered task) p s = enter-Sound task p s
step-Sound (sent k) p s = send-Sound (pick k p.waiting) p s (pick-Picked k p.waiting)
step-Sound (handed_over k) p s =
    hand_over-Sound (pick k p.waiting) p.idle p.queue p refl refl s (pick-Picked k p.waiting)
step-Sound (given_up k) p s = give_up-Sound false (pick k p.waiting) p s (pick-Picked k p.waiting)
step-Sound (cancelled k) p s = give_up-Sound true (pick k p.waiting) p s (pick-Picked k p.waiting)
step-Sound received p s = receive-Sound p.idle p.queue p refl refl s
step-Sound (ran k) p s = run_task-Sound (pick k p.running) p s (pick-Picked k p.running)
step-Sound left p s = leave-Sound p.idle p.queue p refl refl s
step-Sound shut p s = begin_shutdown-Sound p.phase p refl s
step-Sound tasks_closed_event p s = close_tasks-Sound p.phase p.waiting p refl refl s
step-Sound drained_event p s = drained-Sound p.phase p refl s
step-Sound timed_out p s = time_out-Sound p.phase p refl s

or_same-IsSound : (o : Option Pool) (p : Pool) → IsSound p → Sound o → IsSound (or_same o p)
or_same-IsSound none p s h = s
or_same-IsSound (some q) p s h = h

-- The pool stays sound under every interleaving of its dispatchers, workers and Shutdown: no dispatcher
-- ever sends on the closed channel, the queue stays within its bound, every worker is idle, running or
-- gone, none is gone before the channel is closed and empty, and the tasks whose Dispatch returned
-- nil are exactly the ones in the queue, running or finished, each as often as it was accepted.
pub run-IsSound : (es : List Event) (p : Pool) → IsSound p → IsSound (run es p)
unfolding run
run-IsSound [] p s = s
run-IsSound (e ∷ es) p s = run-IsSound es _ (or_same-IsSound (step e p) p s (step-Sound e p s))

positive : (n : ℕ) → sle n 0 ≡ false → 0 < n
positive n h = ground arith

checked : (b : Bool) (e : Error) → fail_if b e ≡ ok tt → b ≡ false
checked true e h = cc
checked false e h = refl

fresh-IsSound : (size queue_size : ℕ) → 0 < size → IsSound (fresh size queue_size)
fresh-IsSound size queue_size n = record {
  no_sender = λ e. refl;
  phase_fits = (refl, refl);
  bounded = omega arith;
  workers = omega arith;
  last_gone = inl refl;
  kept = Permᴰ.nil;
  calm = refl;
  staffed = n;
}

empty_when_gone :
    (n : ℕ) (closed : Bool) (queue : List ℕ) (size : ℕ)
    → (n ≡ 0) ⊎ ((closed ≡ true) × (queue ≡ []))
    → n ≡ size
    → 0 < size
    → queue ≡ []
empty_when_gone n closed queue size (inl e) e' h = ground arith
empty_when_gone n closed queue size (inr e) e' h = e.1

none_running :
    (idle : ℕ) (running : List ℕ) (gone size : ℕ)
    → idle + length running + gone ≡ size
    → gone ≡ size
    → running ≡ []
none_running idle [] gone size e g = refl
none_running idle (t ∷ running) gone size e g = ground arith

returned-finished : (p : Pool) → IsSound p → p.phase ≡ returned none → Permᴰ p.accepted p.finished
returned-finished p s e =
    let (c, (t, g)) =
      subst (λ x. PhaseFits x p.closed p.tasks_closed p.gone p.size) e s.phase_fits in
    let eq = empty_when_gone p.gone p.tasks_closed p.queue p.size s.last_gone g s.staffed in
    let er = none_running p.idle p.running p.gone p.size s.workers g in
    subst (λ l. Permᴰ p.accepted (l ++ p.finished)) er
      (subst (λ l. Permᴰ p.accepted (l ++ (p.running ++ p.finished))) eq s.kept)

-- A pool that NewPool returns is sound.
pub new_pool-IsSound :
    (a : Bool) (size queue_size : ℕ) (b : Bool) (p : Pool)
    → new_pool a size queue_size b ≡ ok p
    → IsSound p
unfolding new_pool
new_pool-IsSound a size queue_size b p h =
    let (u3, e3, h3) = >>=-eq-ok (_ >> fail_if (not b) invalid_config) _ h in
    let (u2, e2, h2) = >>=-eq-ok (_ >> fail_if (is_negative queue_size) invalid_config) _ e3 in
    let (u1, e1, h1) = >>=-eq-ok (_ >> fail_if (sle size 0) invalid_config) _ e2 in
    let (u0, e0, h0) = >>=-eq-ok (fail_if (not a) invalid_config) _ e1 in
    subst IsSound (ok-injective h3)
      (fresh-IsSound size queue_size (positive size (checked (sle size 0) invalid_config h0)))

-- A Shutdown that returned nil lost nothing: in every history of a pool from NewPool in which Shutdown
-- came back without the timeout, the tasks that have finished are exactly the tasks whose Dispatch
-- returned nil, each as often as it was accepted; none is queued or running.
pub drained-finished :
    (a : Bool) (size queue_size : ℕ) (b : Bool) (p : Pool) (es : List Event)
    → new_pool a size queue_size b ≡ ok p
    → (run es p).phase ≡ returned none
    → Permᴰ (run es p).accepted (run es p).finished
drained-finished a size queue_size b p es h e =
    returned-finished (run es p) (run-IsSound es p (new_pool-IsSound a size queue_size b p h)) e
