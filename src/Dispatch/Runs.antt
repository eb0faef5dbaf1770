-- ===== src/Dispatch/Runs.antt =====
-- Any sequence of operations on a new queue.
use aistudio2api.Prelude.{◌≡◌, refl, Option, none, some, List, ◌∷◌, [], Text}
use aistudio2api.Dispatch.{Waiter, Dispatch, new_dispatch_queue, join, leave, wake_heads}
use aistudio2api.Dispatch.Joining.{IsFilled, join_lem}
use aistudio2api.Dispatch.Heads.{leave_lem, wake_heads_lem}

pub data Op : Type 0 where
  joins : Text → Op
  leaves : Waiter → Op
  wakes : Op

pub step : Dispatch → Op → Option Dispatch
step d (joins key) = elim (join d key) [ none ↦ none | some (e, w) ↦ some e ]
step d (leaves w) = leave d w
step d wakes = wake_heads d

pub run : Dispatch → List Op → Option Dispatch
run d [] = some d
run d (o ∷ os) = elim (step d o) [ none ↦ none | some e ↦ run e os ]

step-IsFilled :
    (d : Dispatch) (o : Op)
    → IsFilled d.queues
    → (e : Dispatch) × (step d o ≡ some e) × IsFilled e.queues
unfolding step
step-IsFilled d (joins key) h =
    let (e, k, filled, _, _) = join_lem d key h in (e, rw (k, step) refl, filled)
step-IsFilled d (leaves w) h = let (e, k, (filled, _, _)) = leave_lem d w h in (e, k, filled)
step-IsFilled d wakes h = let (e, k, same, _) = wake_heads_lem d h in (e, k, rw same h)

run-IsFilled :
    (d : Dispatch) (os : List Op)
    → IsFilled d.queues
    → (e : Dispatch) × (run d os ≡ some e) × IsFilled e.queues
unfolding run
run-IsFilled d [] h = (d, refl, h)
run-IsFilled d (o ∷ os) h =
    let (e, k, filled) = step-IsFilled d o h in
    let (last, l, full) = run-IsFilled e os filled in (last, rw (k, run) l, full)

-- From a new queue, no sequence of joining, leaving (of anybody, again or without having joined) and
-- waking panics, and no empty queue is left behind.
pub run-new_dispatch_queue-IsFilled :
    (os : List Op) → (e : Dispatch) × (run new_dispatch_queue os ≡ some e) × IsFilled e.queues
unfolding new_dispatch_queue
run-new_dispatch_queue-IsFilled os = run-IsFilled new_dispatch_queue os tt
