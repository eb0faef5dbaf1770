-- ===== src/Gate.antt =====
-- The gate that holds back the release of a lease until a bidi session is set up: `bidiReleaseGate`
-- of internal/app/auth_retry.go. A call's part under the mutex is one step, and what follows it
-- (`releaseNow`, once) another, so that calls of several goroutines interleave between them.
pub mod Safety
use aistudio2api.Prelude.{ℕ, suc, ◌-◌, ◌<◌, ◌≡◌, Bool, true, false, if◌then◌else◌}

-- `entered` calls have passed the mutex and go on to `releaseNow`; `runs` counts the calls of
-- `release`.
pub record Gate : Type 0 where
  pub requested : Bool
  pub committed : Bool
  pub abandoned : Bool
  pub entered : ℕ
  pub fired : Bool
  pub runs : ℕ

unfoldable pub new_bidi_release_gate : Gate
new_bidi_release_gate = record {
  requested = false;
  committed = false;
  abandoned = false;
  entered = 0;
  fired = false;
  runs = 0;
}

unfoldable pub release_locked : Gate → Gate
release_locked g =
    if g.abandoned
    then g
    else if g.committed
    then record g { entered = suc g.entered }
    else record g { requested = true }

unfoldable pub commit_locked : Gate → Gate
commit_locked g =
    if g.requested
    then record g { committed = true; entered = suc g.entered }
    else record g { committed = true }

pub abandon : Gate → Gate
abandon g = record g { abandoned = true }

-- once.Do
pub release_now : Gate → Gate
release_now g =
    if g.fired
    then record g { entered = g.entered - 1 }
    else record g { entered = g.entered - 1; fired = true; runs = suc g.runs }

pub data Step (g : Gate) : Gate → Type 0 where
  release : Step g (release_locked g)
  commit : Step g (commit_locked g)
  give_up : Step g (abandon g)
  go_on : 0 < g.entered → Step g (release_now g)

pub data Reach (g : Gate) : Gate → Type 0 where
  here : Reach g g
  next : {h k : Gate} → Reach g h → Step h k → Reach g k
