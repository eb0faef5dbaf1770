-- ===== src/Tests.antt =====
-- The theorems on the queues, the gate, the event loop and the sparse reader, at concrete runs.
use aistudio2api.Prelude.{
  ℕ, ◌++◌, ◌<◌, ◌≡◌, refl, arith, true, false, if◌then◌else◌, some, List, ◌∷◌, [], Text, codes,
  str_eq,
}
use aistudio2api.Dispatch.{Waiter, Dispatch, queue, new_dispatch_queue, join, leave}
use aistudio2api.Dispatch.Joining.{IsFilled, NewHeadsWoken, join_lem}
use aistudio2api.Dispatch.Runs.{Op, joins, leaves, wakes, run, run-new_dispatch_queue-IsFilled}
use aistudio2api.Dispatch.Heads.{Left, leave_lem}
use aistudio2api.Gate.{
  Gate, new_bidi_release_gate, release_locked, commit_locked, release_now, Step, Reach,
}
use aistudio2api.Gate.Safety.{IsSafe, Reach-IsSafe}
use aistudio2api.Loop.{new_event_loop, runs, closes, posts, fires, schedules, steps}
use aistudio2api.Loop.Order.{InOrder, steps-new_event_loop-InOrder}
use aistudio2api.Stop.{StopSequenceMatcher, new_stop_sequence_matcher, write}
use aistudio2api.Stop.Earliest.{Written, write-Written}
use aistudio2api.SparseJson.{SparseJsonReader, new_sparse_json_reader, read}
use aistudio2api.SparseJson.Stream.{IsRead, normalized, read-IsRead}

abbrev busy_queues : Dispatch
busy_queues = record { queues = (codes "m", 0 ∷ 1 ∷ []) ∷ []; woken = []; next = 2 }

busy-IsFilled : IsFilled busy_queues.queues
busy-IsFilled = (λ e. cc, tt)

join_lem_example :
    (e : Dispatch) × (join busy_queues (codes "m")
      ≡ some (e, record { pointer = 2; key = codes "m" }))
    × IsFilled e.queues
    × ((other : Text)
        → queue e other ≡ (
            if str_eq (codes "m") other
            then queue busy_queues (codes "m") ++ 2 ∷ []
            else queue busy_queues other))
    × NewHeadsWoken busy_queues e
join_lem_example = join_lem busy_queues (codes "m") busy-IsFilled

abbrev first_waiter : Waiter
first_waiter = record { pointer = 0; key = codes "m" }

leave_lem_example :
    (e : Dispatch) × (leave busy_queues first_waiter ≡ some e) × Left busy_queues first_waiter e
leave_lem_example = leave_lem busy_queues first_waiter busy-IsFilled

-- A release, the commit, and the two calls that go on to run it.
abbrev run_gate : Gate
run_gate = release_now (commit_locked (release_locked new_bidi_release_gate))

one_entered : 0 < (commit_locked (release_locked new_bidi_release_gate)).entered
unfolding commit_locked release_locked new_bidi_release_gate
one_entered = omega arith

gate_runs : Reach new_bidi_release_gate run_gate
gate_runs =
    Reach.next (Reach.next (Reach.next Reach.here Step.release) Step.commit)
      (Step.go_on one_entered)

Reach-IsSafe_example : IsSafe run_gate
Reach-IsSafe_example = Reach-IsSafe gate_runs

steps-new_event_loop-InOrder_example : InOrder (
    steps new_event_loop
      (posts 1 ∷ posts 2 ∷ schedules true 7 3 ∷ runs ∷ fires 7 ∷ posts 3 ∷ closes ∷ posts 4 ∷ []))
steps-new_event_loop-InOrder_example =
    steps-new_event_loop-InOrder
      (posts 1 ∷ posts 2 ∷ schedules true 7 3 ∷ runs ∷ fires 7 ∷ posts 3 ∷ closes ∷ posts 4 ∷ [])

-- [,1,]
abbrev sparse : List ℕ
sparse = 91 ∷ 44 ∷ 49 ∷ 44 ∷ 93 ∷ []

read-IsRead_example :
    IsRead new_sparse_json_reader sparse 4 false
      (read (λ rest. false) new_sparse_json_reader sparse 4 false)
read-IsRead_example = read-IsRead (λ rest. false) new_sparse_json_reader sparse 4 false

-- [null,1,null]
full_array :
    normalized new_sparse_json_reader sparse
    ≡ 91 ∷ 110 ∷ 117 ∷ 108 ∷ 108 ∷ 44 ∷ 49 ∷ 44 ∷ 110 ∷ 117 ∷ 108 ∷ 108 ∷ 93 ∷ []
unfolding normalized aistudio2api.SparseJson.normalize new_sparse_json_reader
full_array = refl

-- The sequences "ab" and "b", with "a" held back.
abbrev holding : StopSequenceMatcher
holding = record {
  sequences = codes "ab" ∷ codes "b" ∷ [];
  prefixes = codes "a" ∷ [];
  pending = codes "a";
}

write-Written_example : Written holding (codes "bc") (write holding (codes "bc"))
write-Written_example = write-Written holding (codes "bc")

made :
    new_stop_sequence_matcher (codes "ab" ∷ [] ∷ codes "b" ∷ codes "ab" ∷ [])
    ≡ some (record holding { pending = [] })
unfolding new_stop_sequence_matcher str_eq
made = refl

abbrev comings : List Op
comings =
    joins (codes "m") ∷ joins (codes "m") ∷ leaves first_waiter ∷ leaves first_waiter ∷ wakes ∷ []

run-new_dispatch_queue-IsFilled_example :
    (e : Dispatch) × (run new_dispatch_queue comings ≡ some e) × IsFilled e.queues
run-new_dispatch_queue-IsFilled_example = run-new_dispatch_queue-IsFilled comings
