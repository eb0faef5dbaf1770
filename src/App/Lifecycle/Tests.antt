-- ===== src/App/Lifecycle/Tests.antt =====
-- The theorems on the lifecycle of the service at a start that is stopped again.
use aistudio2api.Prelude.{◌≡◌, refl, ℕ, true, false, some, none, ◌∷◌, []}
use aistudio2api.App.Lifecycle.{
  Service, service_stopped, service_launching, launches, reports, resets, start, stop, stop_waited,
  finish_stop, new_tracked_service,
}
use aistudio2api.App.Lifecycle.World.{
  World, launch, has, new_world, Step, started, Steps, here, then_one,
}
use aistudio2api.App.Lifecycle.Invariant.{IsSound}
use aistudio2api.App.Lifecycle.Safety.{Steps-IsSound}
use aistudio2api.App.Lifecycle.Endings.{OwnSteps, transition_done-Ends, stop-late}

abbrev launching : Service ℕ
launching = record {
  state = service_launching;
  transition_done = some 0;
  transition_err = [];
  transition_timed_out = false;
  data_context = some 1;
  data_cancel = some 1;
  model_refresh_done = none;
}

abbrev launching_world : World ℕ
launching_world = record {
  service = launching;
  tasks = launch 0 1 true ∷ [];
  closed = [];
  cancelled = [];
  pending = [];
  lifecycle_done = false;
  next = 2;
}

starts : start 0 1 (new_tracked_service {E = ℕ}) ≡ launches launching
unfolding start new_tracked_service
starts = refl

one_step : Step new_world launching_world
unfolding new_world new_tracked_service
one_step = started launching starts

one_start : Steps new_world launching_world
one_start = then_one here one_step

Steps-IsSound_example : IsSound launching_world
Steps-IsSound_example = Steps-IsSound launching_world one_start

transition_done-Ends_example :
    (u : World ℕ) × OwnSteps 0 launching_world u
    × (u.service.transition_done ≡ none)
    × (has 0 u.closed ≡ true)
    × (u.tasks ≡ [])
transition_done-Ends_example = transition_done-Ends launching_world 0 one_start refl

abbrev stopping : Service ℕ
stopping = record {
  state = service_stopped;
  transition_done = some 5;
  transition_err = [];
  transition_timed_out = false;
  data_context = some 1;
  data_cancel = some 1;
  model_refresh_done = none;
}

stop-late_example :
    (s : Service ℕ) × (stop 6 (finish_stop 5 (7 ∷ []) (8 ∷ []) (stop_waited (9 ∷ []) stopping).1).0
      ≡ reports (7 ∷ 8 ∷ []) s)
    × (stop 6 s ≡ resets)
stop-late_example = stop-late 6 5 stopping [] (7 ∷ []) (8 ∷ []) 9 refl refl
