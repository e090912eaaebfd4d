-- ===== src/Worker/Pool.antt =====
-- internal/platform/worker/pool.go as a state and its atomic steps, which its goroutines interleave in
-- any order. A task is a number, and a step gives none where the code would wait.
use cross_border_ecommerce.Base.{
  ℕ, zero, suc, ltb, ◌==◌, Bool, true, false, not, ◌||◌, List, [], ◌∷◌, ◌++◌, Option, none, some,
  if◌then◌else◌, length, is_negative, sle, Result, ok, ◌>>◌, fail_if, Error, drain_timeout,
  invalid_config,
}

-- Where the one call of Shutdown that does the work stands.
pub data Phase : Type 0 where
  open_phase : Phase
  awaiting_dispatchers : Phase
  draining : Phase
  returned : Option Error → Phase

-- Pool. `waiting` has the tasks of the Dispatch calls in their select, which dispatcherWg counts; the
-- workers are idle, running a task or gone. `accepted` and `finished` are the history: the tasks whose
-- Dispatch returned nil, and the tasks that ended. `panicked` says that some send met a closed channel.
pub record Pool : Type 0 where
  pub size : ℕ
  pub queue_size : ℕ
  pub closed : Bool
  pub tasks_closed : Bool
  pub waiting : List ℕ
  pub queue : List ℕ
  pub idle : ℕ
  pub running : List ℕ
  pub gone : ℕ
  pub phase : Phase
  pub tasks_cancelled : Bool
  pub accepted : List ℕ
  pub finished : List ℕ
  pub panicked : Bool

abbrev pub fresh : ℕ → ℕ → Pool
fresh size queue_size = record {
  size = size;
  queue_size = queue_size;
  closed = false;
  tasks_closed = false;
  waiting = [];
  queue = [];
  idle = size;
  running = [];
  gone = 0;
  phase = open_phase;
  tasks_cancelled = false;
  accepted = [];
  finished = [];
  panicked = false;
}

-- NewPool, by whether there are a context and a logger.
unfoldable pub new_pool : Bool → ℕ → ℕ → Bool → Result Pool
new_pool has_context size queue_size has_logger =
    fail_if (not has_context) invalid_config
    >> fail_if (sle size 0) invalid_config
    >> fail_if (is_negative queue_size) invalid_config
    >> fail_if (not has_logger) invalid_config
    >> ok (fresh size queue_size)

-- The k-th element, and the others.
unfoldable pub pick : ℕ → List ℕ → Option (ℕ × List ℕ)
pick k [] = none
pick zero (x ∷ xs) = some (x, xs)
pick (suc k) (x ∷ xs) = elim (pick k xs) [ none ↦ none | some found ↦ some (found.0, x ∷ found.1) ]

-- Dispatch up to its select: the test of `closed` and dispatcherWg.Add under the read lock.
unfoldable pub enter : ℕ → Pool → Option Pool
enter task p = if p.closed then none else some (record p { waiting = task ∷ p.waiting })

-- The send of the select into the buffer, for a dispatcher that waits.
unfoldable pub send : Option (ℕ × List ℕ) → Pool → Option Pool
send none p = none
send (some found) p =
    if p.tasks_closed || ltb (length p.queue) p.queue_size
    then some (record p {
      waiting = found.1;
      queue = p.queue ++ (found.0 ∷ []);
      accepted = found.0 ∷ p.accepted;
      panicked = p.panicked || p.tasks_closed;
    })
    else none

-- The send of the select to a worker that waits at the empty channel.
unfoldable pub hand_over : Option (ℕ × List ℕ) → ℕ → List ℕ → Pool → Option Pool
hand_over (some found) (suc idle) [] p = some (record p {
  waiting = found.1;
  idle = idle;
  running = found.0 ∷ p.running;
  accepted = found.0 ∷ p.accepted;
  panicked = p.panicked || p.tasks_closed;
})
hand_over (some found) zero queue p = none
hand_over (some found) (suc idle) (t ∷ queue) p = none
hand_over none idle queue p = none

-- The two cases of the select that give up: the pool is closing, or the caller's context is done.
unfoldable pub give_up : Bool → Option (ℕ × List ℕ) → Pool → Option Pool
give_up context_done none p = none
give_up context_done (some found) p =
    if context_done || p.closed then some (record p { waiting = found.1 }) else none

-- worker: the receive of its range loop.
unfoldable pub receive : ℕ → List ℕ → Pool → Option Pool
receive zero queue p = none
receive (suc idle) [] p = none
receive (suc idle) (t ∷ queue) p =
    some (record p { idle = idle; queue = queue; running = t ∷ p.running })

-- runTask, which returns also where the task panics.
unfoldable pub run_task : Option (ℕ × List ℕ) → Pool → Option Pool
run_task none p = none
run_task (some found) p =
    some (record p { idle = suc p.idle; running = found.1; finished = found.0 ∷ p.finished })

-- worker: the end of its range loop, at a channel that is closed and empty.
unfoldable pub leave : ℕ → List ℕ → Pool → Option Pool
leave zero queue p = none
leave (suc idle) (t ∷ queue) p = none
leave (suc idle) [] p =
    if p.tasks_closed then some (record p { idle = idle; gone = suc p.gone }) else none

-- Shutdown up to its first wait.
unfoldable pub begin_shutdown : Phase → Pool → Option Pool
begin_shutdown open_phase p = some (record p { closed = true; phase = awaiting_dispatchers })
begin_shutdown awaiting_dispatchers p = none
begin_shutdown draining p = none
begin_shutdown (returned r) p = none

-- dispatcherWg.Wait, and the close of the channel.
unfoldable pub close_tasks : Phase → List ℕ → Pool → Option Pool
close_tasks awaiting_dispatchers [] p = some (record p { tasks_closed = true; phase = draining })
close_tasks awaiting_dispatchers (t ∷ waiting) p = none
close_tasks open_phase waiting p = none
close_tasks draining waiting p = none
close_tasks (returned r) waiting p = none

-- The select of Shutdown: the workers are gone, or the timer fires. Both cancel the tasks' context.
unfoldable pub drained : Phase → Pool → Option Pool
drained draining p =
    if p.gone == p.size
    then some (record p { phase = returned none; tasks_cancelled = true })
    else none
drained open_phase p = none
drained awaiting_dispatchers p = none
drained (returned r) p = none

unfoldable pub time_out : Phase → Pool → Option Pool
time_out draining p =
    some (record p { phase = returned (some drain_timeout); tasks_cancelled = true })
time_out open_phase p = none
time_out awaiting_dispatchers p = none
time_out (returned r) p = none

pub data Event : Type 0 where
  entered sent handed_over given_up cancelled ran : ℕ → Event
  received left shut tasks_closed_event drained_event timed_out : Event

-- One step of one goroutine.
unfoldable pub step : Event → Pool → Option Pool
unfolding enter send hand_over give_up receive run_task leave begin_shutdown close_tasks drained
    time_out
step (entered task) p = enter task p
step (sent k) p = send (pick k p.waiting) p
step (handed_over k) p = hand_over (pick k p.waiting) p.idle p.queue p
step (given_up k) p = give_up false (pick k p.waiting) p
step (cancelled k) p = give_up true (pick k p.waiting) p
step received p = receive p.idle p.queue p
step (ran k) p = run_task (pick k p.running) p
step left p = leave p.idle p.queue p
step shut p = begin_shutdown p.phase p
step tasks_closed_event p = close_tasks p.phase p.waiting p
step drained_event p = drained p.phase p
step timed_out p = time_out p.phase p

-- The pools that a history of steps leads to; a step that would wait is left out.
abbrev pub or_same : Option Pool → Pool → Pool
or_same none p = p
or_same (some q) p = q

unfoldable pub run : List Event → Pool → Pool
run [] p = p
run (e ∷ es) p = run es (or_same (step e p) p)
