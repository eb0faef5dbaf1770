-- ===== src/App/Lifecycle/Safety.antt =====
-- Every step keeps the invariant of the lifecycle, and what follows for all interleavings.
use aistudio2api.Prelude.{ℕ, ◌≡◌, ◌≢◌, refl, subst, true, false, some, ◌∷◌, [], arith}
use aistudio2api.App.Lifecycle.{
  is_running, start, keep_refresh, finish_model_launch, finish_launch, stop_waited, stop_reset,
  finish_stop_refresh, finish_stop, data_request_context, transitioning,
}
use aistudio2api.App.Lifecycle.World.{
  launch, end_launch, end_run, end_workers, World, has, new_world, Step, started, refreshing,
  caller_gone, caller_detached, launch_failed, launched, launch_ended, stop_reported,
  launch_stopped, run_stopped, cancelled_now, stop_ended, reset_ended, refresh_ended, run_ended,
  server_ended, Steps, here, then_one,
}
use aistudio2api.App.Lifecycle.Invariant.{
  below, has-split, below-split, Held, IsSound, new_world-IsSound,
}
use aistudio2api.App.Lifecycle.Parts.{still-IsSound, started-IsSound, moved-IsSound, ended-IsSound}
use aistudio2api.App.Lifecycle.Stopping.{stop_reports, launch_stopped-IsSound, run_stopped-IsSound}

module _ {E : Type 0} where
  pub Step-IsSound : (w u : World E) → Step w u → IsSound w → IsSound u
  Step-IsSound w u (started s h) v = started-IsSound w s h v
  Step-IsSound w u (refreshing done context refresh attached before after at) v =
      still-IsSound w u refl (unfold keep_refresh in ground arith)
        (unfold keep_refresh in ground arith) (unfold keep_refresh in ground arith)
        (unfold keep_refresh in ground arith) refl refl (λ d h. h) (λ run d p ctx h. h)
        v.cancelled_below v.pending_below v
  Step-IsSound w u (caller_gone done context before after at) v =
      moved-IsSound w u (launch done context true) (launch done context true) before after at at
        (λ own. own) (λ own. own.2) refl refl
        (λ own. unfold below in ground (arith, v.cancelled_below, own.4)) refl v
  Step-IsSound w u (caller_detached done context before after at) v =
      moved-IsSound w u (launch done context true) (launch done context false) before after at refl
        (λ own. own) (λ own. own.2) refl refl (λ own. v.cancelled_below) refl v
  Step-IsSound w u (launch_failed done context attached before after at) v =
      moved-IsSound w u (launch done context attached) (end_launch done) before after at refl
        (λ own. (
          own.0,
          own.1,
          own.2,
          own.3,
          ground (arith, own.6),
          λ d e. ground (arith, own.4, own.6, e),
        ))
        (λ own. own.2) refl refl (λ own. unfold below in ground (arith, v.cancelled_below, own.4))
        refl v
  Step-IsSound w u (launched done context before after s at h) v =
      unfold finish_model_launch in
      ended-IsSound w u (launch done context false) done before after at refl
        (λ own. (own.1, own.3)) (λ own. ground (arith, own, h))
        (λ own run. (
          context,
          ground (arith, own.5, h),
          ground (arith, own.6, h),
          own.4,
          ground (arith, h),
          ground (arith, own.7, h),
        ))
        (λ own. refl) refl refl refl v
  Step-IsSound w u (launch_ended done before after refresh_err reset_err at) v =
      ended-IsSound w u (end_launch done) done before after at refl (λ own. (own.1, own.3))
        (λ own. unfold finish_launch in ground (arith, own.0))
        (λ own run. absurd (unfold finish_launch in ground (arith, own.0, run)))
        (λ own. unfold finish_launch in ground (arith, own.0)) refl refl refl v
  Step-IsSound w u (stop_reported e s h) v =
      let is = stop_reports w.next w.service s e h in
      still-IsSound w u refl (ground (arith, is)) (ground (arith, is)) (ground (arith, is))
        (ground (arith, is)) refl refl (λ d x. x) (λ run d p ctx x. x) v.cancelled_below
        v.pending_below v
  Step-IsSound w u (launch_stopped cancel transition s h) v =
      launch_stopped-IsSound w cancel transition s h v
  Step-IsSound w u (run_stopped cancel refresh s h) v = run_stopped-IsSound w cancel refresh s h v
  Step-IsSound w u (cancelled_now context before after at) v =
      still-IsSound w u refl refl refl refl refl refl refl
        (λ d h. ground (arith, has-split d context before after, at, h))
        (λ run d p ctx h. unfold has in ground (arith, has-split d context before after, at, h, p))
        (unfold below in
          ground (
            arith,
            below-split w.next context before after,
            at,
            v.pending_below,
            v.cancelled_below,
          ))
        (ground (arith, below-split w.next context before after, at, v.pending_below)) v
  Step-IsSound w u (stop_ended []) v =
      unfold stop_waited in
      still-IsSound w u refl refl refl refl refl refl refl (λ d h. h) (λ run d p ctx h. h)
        v.cancelled_below v.pending_below v
  Step-IsSound w u (stop_ended (problem ∷ rest)) v =
      unfold stop_waited in
      still-IsSound w u refl refl refl refl refl refl refl (λ d h. h) (λ run d p ctx h. h)
        v.cancelled_below v.pending_below v
  Step-IsSound w u (reset_ended reset_err) v =
      unfold stop_reset in
      still-IsSound w u refl refl refl refl refl refl refl (λ d h. h) (λ run d p ctx h. h)
        v.cancelled_below v.pending_below v
  Step-IsSound w u (refresh_ended done before after refresh_err at) v =
      moved-IsSound w u (end_run done) (end_workers done refresh_err) before after at refl
        (λ own. unfold finish_stop_refresh in ground (arith, own))
        (λ own. unfold finish_stop_refresh in ground (arith, own)) refl refl
        (λ own. v.cancelled_below) refl v
  Step-IsSound w u (run_ended done before after refresh_err reset_err at) v =
      ended-IsSound w u (end_workers done refresh_err) done before after at refl
        (λ own. (own.1, own.3)) (λ own. unfold finish_stop in ground (arith, own))
        (λ own run. absurd (unfold finish_stop in ground (arith, own, run)))
        (λ own. unfold finish_stop in ground (arith, own)) refl refl refl v
  Step-IsSound w u server_ended v =
      still-IsSound w u refl refl refl refl refl refl refl (λ d h. h) (λ run d p ctx h. h)
        v.cancelled_below v.pending_below v

  -- Whatever calls of Start and Stop and the goroutines that they leave interleave, from a new service
  -- on: no channel is closed twice, at most one goroutine is left to end a transition, it still has
  -- its channel to close, and the data context of a running service is there and no call has cancelled
  -- it or is about to.
  pub Steps-IsSound : (w : World E) → Steps new_world w → IsSound w
  Steps-IsSound w here = new_world-IsSound
  Steps-IsSound w (then_one {u = u} steps step) = Step-IsSound u w step (Steps-IsSound u steps)

  -- Once no goroutine is left, a call of Start is not told that a transition is going on.
  pub start-ready :
      (w : World E) (done context : ℕ)
      → Steps new_world w
      → w.tasks ≡ []
      → start done context w.service ≢ transitioning
  unfolding start
  start-ready w done context steps free h =
      let (none_set, other) = subst (λ ts. Held ts w) free (Steps-IsSound w steps).held in
      ground (arith, none_set, other, h)

  -- A request is only let in under a context that no call has cancelled or is about to.
  pub data_request_context-live :
      (w : World E) (d : ℕ)
      → Steps new_world w
      → data_request_context w.service ≡ some d
      → (has d w.cancelled ≡ false) × (has d w.pending ≡ false)
  unfolding data_request_context
  data_request_context-live w d steps h =
      let run : is_running w.service.state ≡ true = ground (arith, h) in
      let (c, ctx, cancel, small, live, kept) = (Steps-IsSound w steps).serves run in
      let same : c ≡ d = ground (arith, run, h, ctx) in
      (
        subst (λ x. has x w.cancelled ≡ false) same live,
        subst (λ x. has x w.pending ≡ false) same kept,
      )
