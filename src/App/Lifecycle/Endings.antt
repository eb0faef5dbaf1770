-- ===== src/App/Lifecycle/Endings.antt =====
-- What a Stop leaves: the service refuses, the transition can end, and its error is told.
use aistudio2api.Prelude.{
  ℕ, ◌≡◌, refl, ap, ◌∙◌, true, false, Option, none, some, List, ◌∷◌, [], ◌++◌, arith,
}
use aistudio2api.App.Lifecycle.{
  service_stopped, Service, transitioning, reports, resets, ends_run, start, finish_launch, stop,
  stop_waited, finish_stop_refresh, finish_stop, data_request_context,
}
use aistudio2api.App.Lifecycle.World.{
  Task, launch, end_launch, end_run, end_workers, World, has, close_if, new_world, launch_failed,
  launch_ended, refresh_ended, run_ended, Step, Steps,
}
use aistudio2api.App.Lifecycle.Invariant.{Held}
use aistudio2api.App.Lifecycle.Stopping.{stop_running}
use aistudio2api.App.Lifecycle.Safety.{Steps-IsSound}

module _ {E : Type 0} where
  -- Stopping a service that runs or starts: until the transition ends, a request and a call of Start are refused.
  pub stop-refuses_run :
      (n done context : ℕ) (s s' : Service E) (cancel refresh : Option ℕ)
      → stop n s ≡ ends_run cancel refresh s'
      → (data_request_context s' ≡ none) × (start done context s' ≡ transitioning)
  unfolding data_request_context start
  stop-refuses_run n done context s s' cancel refresh h =
      let (st, ca, is) = stop_running n s s' cancel refresh h in ground (arith, is)

  -- Whose step it is: the channel of the transition, for a step of the goroutine that ends it.
  unfoldable pub owner : {w v : World E} → Step w v → Option ℕ
  owner (launch_failed done _ _ _ _ _) = some done
  owner (launch_ended done _ _ _ _ _) = some done
  owner (refresh_ended done _ _ _ _) = some done
  owner (run_ended done _ _ _ _ _) = some done
  owner _ = none

-- What the goroutine of one transition does, with no step of another between.
pub data OwnSteps {E : Type 0} (done : ℕ) (w : World E) : World E → Type 0 where
  at_once : OwnSteps done w w
  then_own :
      {u v : World E} → OwnSteps done w u → (s : Step u v) → owner s ≡ some done → OwnSteps done w v

module _ {E : Type 0} where
  abbrev Ends : ℕ → World E → Type 0
  Ends done w =
      (u : World E) × OwnSteps done w u
      × (u.service.transition_done ≡ none)
      × (has done u.closed ≡ true)
      × (u.tasks ≡ [])

  end_launch-Ends :
      (w v : World E) (done : ℕ)
      → OwnSteps done w v
      → v.tasks ≡ end_launch done ∷ []
      → v.service.transition_done ≡ some done
      → Ends done w
  unfolding finish_launch has owner
  end_launch-Ends w v done steps at going =
      let (s, closes) = finish_launch done [] [] v.service in
      (
        record v { service = s; tasks = []; closed = close_if closes done v.closed },
        then_own steps (launch_ended done [] [] [] [] at) refl,
        ground arith,
        ground arith,
        refl,
      )

  end_workers-Ends :
      (w v : World E) (done : ℕ) (refresh_err : List E)
      → OwnSteps done w v
      → v.tasks ≡ end_workers done refresh_err ∷ []
      → v.service.transition_done ≡ some done
      → Ends done w
  unfolding finish_stop has owner
  end_workers-Ends w v done refresh_err steps at going =
      let (s, closes) = finish_stop done refresh_err [] v.service in
      (
        record v { service = s; tasks = []; closed = close_if closes done v.closed },
        then_own steps (run_ended done [] [] refresh_err [] at) refl,
        ground arith,
        ground arith,
        refl,
      )

  task-Ends :
      (ts : List (Task E)) (w : World E) (done : ℕ)
      → w.tasks ≡ ts
      → Held ts w
      → w.service.transition_done ≡ some done
      → Ends done w
  unfolding finish_stop_refresh owner
  task-Ends [] w done at h going = absurd (ground arith)
  task-Ends (launch c d attached ∷ []) w done at h going =
      let same : c ≡ done = ground (arith, h.0, going) in
      end_launch-Ends w (record w { tasks = end_launch c ∷ []; cancelled = d ∷ w.cancelled }) done
        (then_own at_once (launch_failed c d attached [] [] at) (ap some same))
        (ap (λ x. end_launch x ∷ []) same) going
  task-Ends (end_launch c ∷ []) w done at h going =
      let same : c ≡ done = ground (arith, h.0, going) in
      end_launch-Ends w w done at_once (at ∙ ap (λ x. end_launch x ∷ []) same) going
  task-Ends (end_run c ∷ []) w done at h going =
      let same : c ≡ done = ground (arith, h.0, going) in
      end_workers-Ends w
        (record w { service = finish_stop_refresh c [] w.service; tasks = end_workers c [] ∷ [] })
        done [] (then_own at_once (refresh_ended c [] [] [] at) (ap some same))
        (ap (λ x. end_workers x [] ∷ []) same) (ground (arith, going))
  task-Ends (end_workers c e ∷ []) w done at h going =
      let same : c ≡ done = ground (arith, h.0, going) in
      end_workers-Ends w w done e at_once (at ∙ ap (λ x. end_workers x e ∷ []) same) going
  task-Ends (t ∷ t' ∷ ts) w done at h going = absurd (ground arith)

  -- Wherever a transition is going on, in what comes of a new service, what its own goroutine still
  -- does, with no step of another between, can end it: then the channel that Stop waits for is closed,
  -- and no transition and no goroutine is left.
  pub transition_done-Ends :
      (w : World E) (done : ℕ)
      → Steps new_world w
      → w.service.transition_done ≡ some done
      → Ends done w
  transition_done-Ends w done steps going =
      task-Ends w.tasks w done refl (Steps-IsSound w steps).held going

  -- Of a stopped service with a transition going on, Stop gives up waiting, and then finishStop ends
  -- with errors: the next Stop tells these, and the one after it goes on to reset the workers.
  pub stop-late :
      (n done : ℕ) (s : Service E) (wait_err refresh_err reset_err : List E) (problem : E)
      → s.state ≡ service_stopped
      → s.transition_done ≡ some done
      → let given_up = (stop_waited (problem ∷ wait_err) s).1 in
        let cleaned = (finish_stop done refresh_err reset_err given_up).0 in
        (s' : Service E) × (stop n cleaned ≡ reports (refresh_err ++ reset_err) s')
        × (stop n s' ≡ resets)
  unfolding stop stop_waited finish_stop
  stop-late n done s wait_err refresh_err reset_err problem st going =
      let cleaned =
        (finish_stop done refresh_err reset_err (stop_waited (problem ∷ wait_err) s).1).0 in
      (
        record cleaned { transition_err = []; transition_timed_out = false },
        ground arith,
        ground arith,
      )
