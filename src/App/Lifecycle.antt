-- ===== src/App/Lifecycle.antt =====
-- The lifecycle of the generation service: trackedService of internal/app/runtime.go. Each
-- definition is one part that holds `lifecycleMu`; what a part leaves to do after it comes back as
-- its answer. A channel and a context are numbers, and `E` is what an error is made of: errors.Join
-- puts the parts one after the other, and no error is the empty list.
pub mod World
pub mod Invariant
pub mod Parts
pub mod Stopping
pub mod Safety
pub mod Endings
mod Tests
use aistudio2api.Prelude.{
  ℕ, Bool, true, false, not, ◌||◌, ◌&&◌, if◌then◌else◌, ◌==◌, Option, none, some, List, [], ◌∷◌,
  ◌++◌,
}

pub data Lifecycle : Type 0 where
  service_stopped service_launching service_running : Lifecycle

pub record Service (E : Type 0) : Type 0 where
  pub state : Lifecycle
  pub transition_done : Option ℕ
  pub transition_err : List E
  pub transition_timed_out : Bool
  pub data_context : Option ℕ
  pub data_cancel : Option ℕ
  pub model_refresh_done : Option ℕ

abbrev pub is_running : Lifecycle → Bool
is_running service_stopped = false
is_running service_launching = false
is_running service_running = true

abbrev pub is_launching : Lifecycle → Bool
is_launching service_stopped = false
is_launching service_launching = true
is_launching service_running = false

abbrev pub is_set : Option ℕ → Bool
is_set none = false
is_set (some n) = true

abbrev pub is_the : ℕ → Option ℕ → Bool
is_the n none = false
is_the n (some m) = m == n

pub data StartAnswer (E : Type 0) : Type 0 where
  already_running transitioning : StartAnswer E
  launches : Service E → StartAnswer E

-- What Stop goes on with: an old error to report; a transition to wait for; no transition, so that
-- it resets the workers; a launch that it cancels and waits for; a running service that it shuts down.
pub data StopAnswer (E : Type 0) : Type 0 where
  reports : List E → Service E → StopAnswer E
  waits : ℕ → StopAnswer E
  resets : StopAnswer E
  ends_launch : Option ℕ → Option ℕ → Service E → StopAnswer E
  ends_run : Option ℕ → Option ℕ → Service E → StopAnswer E

module _ {E : Type 0} where
  unfoldable pub new_tracked_service : Service E
  new_tracked_service = record {
    state = service_stopped;
    transition_done = none;
    transition_err = [];
    transition_timed_out = false;
    data_context = none;
    data_cancel = none;
    model_refresh_done = none;
  }

  -- Start, up to the first unlocking, with the channel and the context that it makes.
  unfoldable pub start : ℕ → ℕ → Service E → StartAnswer E
  start done context s =
      if is_running s.state
      then already_running
      else if is_launching s.state || is_set s.transition_done
      then transitioning
      else launches (record s {
        data_context = some context;
        data_cancel = some context;
        transition_done = some done;
        transition_err = [];
        transition_timed_out = false;
        state = service_launching;
      })

  -- Start again, once the refresh of the catalog runs.
  unfoldable pub keep_refresh : ℕ → ℕ → Service E → Service E
  keep_refresh context refresh s =
      if is_the context s.data_context then record s { model_refresh_done = some refresh } else s

  -- finishModelLaunch, once the revision is the one that was read: nothing where the launch fails;
  -- otherwise `done` is closed. `cancelled` says whether the data context is.
  unfoldable pub finish_model_launch : ℕ → Bool → Service E → Option (Service E)
  finish_model_launch done cancelled s =
      if not (is_the done s.transition_done) || not (is_launching s.state) || cancelled
      then none
      else some (record s { state = service_running; transition_done = none })

  -- finishLaunch, and whether it closes `done`.
  unfoldable pub finish_launch : ℕ → List E → List E → Service E → Service E × Bool
  finish_launch done refresh_err reset_err s =
      if is_the done s.transition_done
      then (
        record s {
          state = service_stopped;
          data_context = none;
          data_cancel = none;
          model_refresh_done = none;
          transition_err = refresh_err ++ reset_err;
          transition_done = none;
        },
        true,
      )
      else (s, false)

  -- Stop, up to the first unlocking, with the channel that it makes for a running service.
  unfoldable pub stop : ℕ → Service E → StopAnswer E
  stop done s = elim s.state [
    | service_stopped ↦ (elim s.transition_done [
      | none ↦
          if s.transition_timed_out
          then reports s.transition_err
              (record s { transition_err = []; transition_timed_out = false })
          else resets
      | some transition ↦ waits transition
    ])
    | service_launching ↦
        ends_launch s.data_cancel s.transition_done (record s { state = service_stopped })
    | service_running ↦
        ends_run s.data_cancel s.model_refresh_done
          (record s { transition_done = some done; state = service_stopped })
  ]

  -- The last part of Stop, after it waited: the error that it gives back and the service.
  unfoldable pub stop_waited : List E → Service E → List E × Service E
  stop_waited wait_err s = elim wait_err [
    | [] ↦ (s.transition_err, record s { transition_err = []; transition_timed_out = false })
    | problem ∷ rest ↦
        ((problem ∷ rest) ++ s.transition_err, record s { transition_timed_out = true })
  ]

  -- The last part of Stop where nothing ran: the error of the reset.
  unfoldable pub stop_reset : List E → Service E → Service E
  stop_reset reset_err s = record s { transition_err = reset_err; transition_timed_out = false }

  -- The two parts of finishStop, and whether the second closes `done`.
  unfoldable pub finish_stop_refresh : ℕ → List E → Service E → Service E
  finish_stop_refresh done refresh_err s =
      if is_the done s.transition_done then record s { transition_err = refresh_err } else s

  unfoldable pub finish_stop : ℕ → List E → List E → Service E → Service E × Bool
  finish_stop done refresh_err reset_err s =
      if is_the done s.transition_done
      then (
        record s {
          data_context = none;
          data_cancel = none;
          model_refresh_done = none;
          transition_err = refresh_err ++ reset_err;
          transition_done = none;
        },
        true,
      )
      else (s, false)

  -- dataRequestContext: the context that the request depends on, nothing where the service is stopped.
  unfoldable pub data_request_context : Service E → Option ℕ
  data_request_context s = if is_running s.state then s.data_context else none
