-- ===== src/Tests/Workers.antt =====
-- A pool of two workers from its start to its shutdown (internal/platform/worker/pool.go).
use mathlib.Core.List.{Permᴰ}
use cross_border_ecommerce.Worker.Pool.{pick}
use cross_border_ecommerce.Worker.Pool.{step}
use cross_border_ecommerce.Base.{refl, true, List, [], ◌∷◌}
use cross_border_ecommerce.Worker.Pool.{
  Pool, fresh, new_pool, run, Event, entered, sent, handed_over, received, ran, left, shut,
  tasks_closed_event, drained_event,
}
use cross_border_ecommerce.Worker.Soundness.{IsSound}
use cross_border_ecommerce.Worker.Shutdown.{run-IsSound, new_pool-IsSound, drained-finished}

abbrev started : Pool
started = fresh 2 1

abbrev day : List Event
day =
    entered 7
    ∷ handed_over 0
    ∷ entered 8
    ∷ sent 0
    ∷ received
    ∷ ran 0
    ∷ shut
    ∷ tasks_closed_event
    ∷ ran 0
    ∷ left
    ∷ left
    ∷ drained_event
    ∷ []

run-IsSound_example : IsSound (run day started)
unfolding new_pool
run-IsSound_example = run-IsSound day started (new_pool-IsSound true 2 1 true started refl)

drained-finished_example : Permᴰ (run day started).accepted (run day started).finished
unfolding new_pool pick run step
drained-finished_example = drained-finished true 2 1 true started day refl refl
