-- ===== src/App/Lifecycle/Stopping.antt =====
-- The part of Stop before it waits keeps the invariant.
use aistudio2api.Prelude.{
  ℕ, suc, ◌<◌, ◌≡◌, inl, inr, refl, sym, subst, ◌∙◌, true, false, Option, some, Option-cases, List,
  ◌∷◌, [], arith,
}
use aistudio2api.App.Lifecycle.{
  Lifecycle, service_stopped, service_launching, service_running, Service, reports, ends_launch,
  ends_run, stop,
}
use aistudio2api.App.Lifecycle.World.{
  Task, launch, end_launch, end_run, end_workers, World, with_some,
}
use aistudio2api.App.Lifecycle.Invariant.{below, has-below, below_mono, Held, IsSound, one-Held}

module _ {E : Type 0} where
  -- What Stop takes along from a service that starts, and from one that runs.
  pub stop_launching :
      (n : ℕ) (s s' : Service E) (cancel transition : Option ℕ)
      → stop n s ≡ ends_launch cancel transition s'
      → (s.state ≡ service_launching)
        × (cancel ≡ s.data_cancel)
        × (transition ≡ s.transition_done)
        × (s' ≡ record s { state = service_stopped })
  unfolding stop
  stop_launching n s s' cancel transition h = go s.state refl
    where
      go :
          (l : Lifecycle)
          → s.state ≡ l
          → (s.state ≡ service_launching)
            × (cancel ≡ s.data_cancel)
            × (transition ≡ s.transition_done)
            × (s' ≡ record s { state = service_stopped })
      go service_stopped e = elim (Option-cases s.transition_done) [
        | inl none_left ↦ absurd (ground arith)
        | inr (c, some_left) ↦ absurd (ground arith)
      ]
      go service_launching e = ground arith
      go service_running e = absurd (ground arith)

  pub stop_running :
      (n : ℕ) (s s' : Service E) (cancel refresh : Option ℕ)
      → stop n s ≡ ends_run cancel refresh s'
      → (s.state ≡ service_running)
        × (cancel ≡ s.data_cancel)
        × (s' ≡ record s { transition_done = some n; state = service_stopped })
  unfolding stop
  stop_running n s s' cancel refresh h = go s.state refl
    where
      go :
          (l : Lifecycle)
          → s.state ≡ l
          → (s.state ≡ service_running)
            × (cancel ≡ s.data_cancel)
            × (s' ≡ record s { transition_done = some n; state = service_stopped })
      go service_stopped e = elim (Option-cases s.transition_done) [
        | inl none_left ↦ absurd (ground arith)
        | inr (c, some_left) ↦ absurd (ground arith)
      ]
      go service_launching e = absurd (ground arith)
      go service_running e = ground arith

  pub stop_reports :
      (n : ℕ) (s s' : Service E) (e : List E)
      → stop n s ≡ reports e s'
      → s' ≡ record s { transition_err = []; transition_timed_out = false }
  unfolding stop
  stop_reports n s s' e h = go s.state refl
    where
      go :
          (l : Lifecycle)
          → s.state ≡ l
          → s' ≡ record s { transition_err = []; transition_timed_out = false }
      go service_stopped e' = elim (Option-cases s.transition_done) [
        | inl none_left ↦ ground arith
        | inr (c, some_left) ↦ absurd (ground arith)
      ]
      go service_launching e' = absurd (ground arith)
      go service_running e' = absurd (ground arith)

  stopped-Held :
      (ts : List (Task E)) (w u : World E)
      → w.service.state ≡ service_launching
      → u.service ≡ record w.service { state = service_stopped }
      → u.closed ≡ w.closed
      → u.next ≡ w.next
      → Held ts w
      → Held ts u
  stopped-Held [] w u st su closed next h = absurd (ground arith)
  stopped-Held (launch done context attached ∷ []) w u st su closed next h = ground arith
  stopped-Held (end_launch done ∷ []) w u st su closed next (a, b, c, d, e, f) = (
    ground arith,
    ground arith,
    ground arith,
    ground arith,
    ground arith,
    λ x hx. ground (arith, f x),
  )
  stopped-Held (end_run done ∷ []) w u st su closed next h = ground arith
  stopped-Held (end_workers done refresh_err ∷ []) w u st su closed next h = ground arith
  stopped-Held (t ∷ t' ∷ ts) w u st su closed next h = h

  -- Where the service starts, there is a context to cancel and a channel to wait for.
  pub launching_lem :
      (ts : List (Task E)) (w : World E)
      → w.service.state ≡ service_launching
      → Held ts w
      → ((d : ℕ) × (w.service.data_cancel ≡ some d) × (d < w.next))
        × ((c : ℕ) × (w.service.transition_done ≡ some c))
  launching_lem [] w st h = absurd (ground arith)
  launching_lem (launch done context attached ∷ []) w st h = ((context, h.6, h.4), (done, h.0))
  launching_lem (end_launch done ∷ []) w st (a, b, c, d, e, f) =
      elim (Option-cases w.service.data_cancel) [
        | inl none_set ↦ absurd (ground arith)
        | inr (x, is) ↦ ((x, is, f x is), (done, a))
      ]
  launching_lem (end_run done ∷ []) w st h = absurd (ground arith)
  launching_lem (end_workers done refresh_err ∷ []) w st h = absurd (ground arith)
  launching_lem (t ∷ t' ∷ ts) w st h = absurd (ground arith)

  pub idle_running :
      (ts : List (Task E)) (w : World E) → w.service.state ≡ service_running → Held ts w → ts ≡ []
  idle_running [] w st h = refl
  idle_running (launch done context attached ∷ []) w st h = absurd (ground arith)
  idle_running (end_launch done ∷ []) w st h = absurd (ground arith)
  idle_running (end_run done ∷ []) w st h = absurd (ground arith)
  idle_running (end_workers done refresh_err ∷ []) w st h = absurd (ground arith)
  idle_running (t ∷ t' ∷ ts) w st h = absurd (ground arith)

  pub launch_stopped-IsSound :
      (w : World E) (cancel transition : Option ℕ) (s : Service E)
      → stop w.next w.service ≡ ends_launch cancel transition s
      → IsSound w
      → IsSound (record w { service = s; pending = with_some cancel w.pending })
  unfolding below
  launch_stopped-IsSound w cancel transition s h v =
      let (st, ca, tr, is) = stop_launching w.next w.service s cancel transition h in
      let ((d, dc, small), found) = launching_lem w.tasks w st v.held in
      record {
        held =
            stopped-Held w.tasks w (record w { service = s; pending = with_some cancel w.pending })
              st is refl refl v.held;
        serves = λ run. absurd (ground (arith, is, run));
        closed_below = v.closed_below;
        cancelled_below = v.cancelled_below;
        pending_below =
            subst (λ x. below w.next (with_some x w.pending) ≡ true) (sym (ca ∙ dc))
              (ground (arith, v.pending_below));
        once = v.once;
      }

  pub run_stopped-IsSound :
      (w : World E) (cancel refresh : Option ℕ) (s : Service E)
      → stop w.next w.service ≡ ends_run cancel refresh s
      → IsSound w
      → IsSound (record w {
        service = s;
        tasks = end_run w.next ∷ w.tasks;
        pending = with_some cancel w.pending;
        next = suc w.next;
      })
  unfolding below
  run_stopped-IsSound w cancel refresh s h v =
      let (st, ca, is) = stop_running w.next w.service s cancel refresh h in
      let (d, ctx, dc, small, c4, c5) = v.serves (ground arith) in
      record {
        held =
            one-Held (end_run w.next) [] w.tasks
              (record w {
                service = s;
                tasks = end_run w.next ∷ w.tasks;
                pending = with_some cancel w.pending;
                next = suc w.next;
              })
              refl (idle_running w.tasks w st v.held)
              (ground (arith, is, has-below w.next w.next w.closed v.closed_below (omega arith)));
        serves = λ run. absurd (ground (arith, is, run));
        closed_below = below_mono w.next (suc w.next) w.closed v.closed_below (omega arith);
        cancelled_below =
            below_mono w.next (suc w.next) w.cancelled v.cancelled_below (omega arith);
        pending_below =
            subst (λ x. below (suc w.next) (with_some x w.pending) ≡ true) (sym (ca ∙ dc))
              (ground
                (arith, below_mono w.next (suc w.next) w.pending v.pending_below (omega arith)));
        once = v.once;
      }
