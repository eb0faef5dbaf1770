-- ===== src/Loop.antt =====
-- The event loop of the WAA virtual machine: internal/waa/loop.go. A part under the mutex is one
-- step; jobs and timers are known by numbers. `taken` and `accepted` keep the history: the jobs that
-- `run` took from the queue, and those for which `post` returned true, oldest first.
pub mod Order
use aistudio2api.Prelude.{
  ℕ, ◌≡◌, Bool, true, false, not, if◌then◌else◌, ◌==◌, List, ◌∷◌, [], ◌++◌, keep,
}

pub record Loop : Type 0 where
  pub queue : List ℕ
  pub closed : Bool
  pub timers : List ℕ
  pub taken : List ℕ
  pub accepted : List ℕ

pub new_event_loop : Loop
new_event_loop = record { queue = []; closed = false; timers = []; taken = []; accepted = [] }

-- One round of `run`. On an empty queue it waits; when closed it returns.
run_from : List ℕ → Loop → Loop
run_from [] l = l
run_from (job ∷ jobs) l = record l { queue = jobs; taken = l.taken ++ job ∷ [] }

pub run : Loop → Loop
unfolding run_from
run l = if l.closed then l else run_from l.queue l

pub post : Loop → ℕ → Loop × Bool
post l job =
    if l.closed
    then (l, false)
    else (record l { queue = l.queue ++ job ∷ []; accepted = l.accepted ++ job ∷ [] }, true)

-- A delay of at most 0 posts at once. Otherwise a timer is armed; a loop that has closed stops it.
pub schedule : Loop → Bool → ℕ → ℕ → Loop
unfolding post
schedule l delayed timer job =
    if not delayed
    then (post l job).0
    else if l.closed
    then l
    else record l { timers = timer ∷ l.timers }

-- The timer's function first takes it off the map, and then posts its job.
pub timer_fires : Loop → ℕ → Loop
timer_fires l timer = record l { timers = keep (λ t. not (t == timer)) l.timers }

pub close : Loop → Loop
close l = if l.closed then l else record l { closed = true; timers = []; queue = [] }

pub data Op : Type 0 where
  runs closes : Op
  posts fires : ℕ → Op
  schedules : Bool → ℕ → ℕ → Op

pub step : Loop → Op → Loop
unfolding run post schedule timer_fires close
step l runs = run l
step l (posts job) = (post l job).0
step l (schedules delayed timer job) = schedule l delayed timer job
step l (fires timer) = timer_fires l timer
step l closes = close l

pub steps : Loop → List Op → Loop
steps l [] = l
steps l (o ∷ os) = steps (step l o) os
