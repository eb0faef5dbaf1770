-- ===== src/App/Lifecycle/World.antt =====
-- The calls of Start and Stop and the goroutines that they leave, interleaved: one step for each part
-- that holds the mutex, and one for each cancelling. The steps allow at least what the code does: a
-- wait may end at any time, and a refresh, a reset or a launch may fail at any time.
-- Where the caller's context ends after a launch has failed, the data context is cancelled already, and
-- there is no step.
use aistudio2api.Prelude.{
  ℕ, suc, ◌≡◌, Bool, true, false, ◌||◌, if◌then◌else◌, ◌==◌, Option, none, some, List, ◌∷◌, [],
  ◌++◌,
}
use aistudio2api.App.Lifecycle.{
  Service, launches, reports, ends_launch, ends_run, new_tracked_service, start, keep_refresh,
  finish_model_launch, finish_launch, stop, stop_waited, stop_reset, finish_stop_refresh,
  finish_stop,
}

-- Where a goroutine is that ends a transition: a call of Start, with its channel, its data context and
-- whether the caller's context can still cancel that one; finishLaunch after its `dataCancel`;
-- finishStop, before and after the wait for the refresh.
pub data Task (E : Type 0) : Type 0 where
  launch : (done context : ℕ) → Bool → Task E
  end_launch : ℕ → Task E
  end_run : ℕ → Task E
  end_workers : ℕ → List E → Task E

-- `closed` lists the calls of close, `cancelled` those of a cancel function; `pending` are the cancel
-- functions that a Stop took along and has not called yet. `next` names the next channel or context.
pub record World (E : Type 0) : Type 0 where
  pub service : Service E
  pub tasks : List (Task E)
  pub closed : List ℕ
  pub cancelled : List ℕ
  pub pending : List ℕ
  pub lifecycle_done : Bool
  pub next : ℕ

unfoldable pub has : ℕ → List ℕ → Bool
has n [] = false
has n (m ∷ ms) = (m == n) || has n ms

abbrev pub with_some : Option ℕ → List ℕ → List ℕ
with_some none ns = ns
with_some (some n) ns = n ∷ ns

abbrev pub close_if : Bool → ℕ → List ℕ → List ℕ
close_if b n ns = if b then n ∷ ns else ns

module _ {E : Type 0} where
  unfoldable pub new_world : World E
  new_world = record {
    service = new_tracked_service;
    tasks = [];
    closed = [];
    cancelled = [];
    pending = [];
    lifecycle_done = false;
    next = 0;
  }

  abbrev pub Picks : World E → Task E → List (Task E) → List (Task E) → Type 0
  Picks w t before after = w.tasks ≡ before ++ t ∷ after

pub data Step {E : Type 0} (w : World E) : World E → Type 0 where
  started :
      (s : Service E)
      → start w.next (suc w.next) w.service ≡ launches s
      → Step w (record w {
        service = s;
        tasks = launch w.next (suc w.next) true ∷ w.tasks;
        next = suc (suc w.next);
      })
  refreshing :
      (done context refresh : ℕ) (attached : Bool) (before after : List (Task E))
      → Picks w (launch done context attached) before after
      → Step w (record w { service = keep_refresh context refresh w.service })
  caller_gone :
      (done context : ℕ) (before after : List (Task E))
      → Picks w (launch done context true) before after
      → Step w (record w { cancelled = context ∷ w.cancelled })
  caller_detached :
      (done context : ℕ) (before after : List (Task E))
      → Picks w (launch done context true) before after
      → Step w (record w { tasks = before ++ launch done context false ∷ after })
  launch_failed :
      (done context : ℕ) (attached : Bool) (before after : List (Task E))
      → Picks w (launch done context attached) before after
      → Step w (record w {
        tasks = before ++ end_launch done ∷ after;
        cancelled = context ∷ w.cancelled;
      })
  launched :
      (done context : ℕ) (before after : List (Task E)) (s : Service E)
      → Picks w (launch done context false) before after
      → finish_model_launch done (has context w.cancelled || w.lifecycle_done) w.service ≡ some s
      → Step w (record w { service = s; tasks = before ++ after; closed = done ∷ w.closed })
  launch_ended :
      (done : ℕ) (before after : List (Task E)) (refresh_err reset_err : List E)
      → Picks w (end_launch done) before after
      → Step w (record w {
        service = (finish_launch done refresh_err reset_err w.service).0;
        tasks = before ++ after;
        closed = close_if (finish_launch done refresh_err reset_err w.service).1 done w.closed;
      })
  stop_reported :
      (e : List E) (s : Service E)
      → stop w.next w.service ≡ reports e s
      → Step w (record w { service = s })
  launch_stopped :
      (cancel done : Option ℕ) (s : Service E)
      → stop w.next w.service ≡ ends_launch cancel done s
      → Step w (record w { service = s; pending = with_some cancel w.pending })
  run_stopped :
      (cancel refresh : Option ℕ) (s : Service E)
      → stop w.next w.service ≡ ends_run cancel refresh s
      → Step w (record w {
        service = s;
        tasks = end_run w.next ∷ w.tasks;
        pending = with_some cancel w.pending;
        next = suc w.next;
      })
  cancelled_now :
      (context : ℕ) (before after : List ℕ)
      → w.pending ≡ before ++ context ∷ after
      → Step w (record w { pending = before ++ after; cancelled = context ∷ w.cancelled })
  stop_ended :
      (wait_err : List E) → Step w (record w { service = (stop_waited wait_err w.service).1 })
  reset_ended :
      (reset_err : List E) → Step w (record w { service = stop_reset reset_err w.service })
  refresh_ended :
      (done : ℕ) (before after : List (Task E)) (refresh_err : List E)
      → Picks w (end_run done) before after
      → Step w (record w {
        service = finish_stop_refresh done refresh_err w.service;
        tasks = before ++ end_workers done refresh_err ∷ after;
      })
  run_ended :
      (done : ℕ) (before after : List (Task E)) (refresh_err reset_err : List E)
      → Picks w (end_workers done refresh_err) before after
      → Step w (record w {
        service = (finish_stop done refresh_err reset_err w.service).0;
        tasks = before ++ after;
        closed = close_if (finish_stop done refresh_err reset_err w.service).1 done w.closed;
      })
  server_ended : Step w (record w { lifecycle_done = true })

pub data Steps {E : Type 0} (w : World E) : World E → Type 0 where
  here : Steps w w
  then_one : {u v : World E} → Steps w u → Step u v → Steps w v
