-- ===== src/Gate/Safety.antt =====
-- The lease is released at most once, never before the commit, and not lost.
use aistudio2api.Prelude.{◌<◌, ◌≤◌, ◌≡◌, ◌⊎◌, true, false, arith}
use aistudio2api.Gate.{
  Gate, new_bidi_release_gate, release_locked, commit_locked, abandon, release_now, Step, release,
  commit, give_up, go_on, Reach, here, next,
}

pub record IsSafe (g : Gate) : Type 0 where
  pub once : g.runs ≤ 1
  pub ran : 0 < g.runs → g.fired ≡ true
  pub idle : g.fired ≡ true → 0 < g.runs
  pub early : g.committed ≡ false → (g.runs ≡ 0) × (g.entered ≡ 0)
  pub kept : g.committed ≡ true → g.requested ≡ true → (g.fired ≡ true) ⊎ (0 < g.entered)

new-IsSafe : IsSafe new_bidi_release_gate
unfolding new_bidi_release_gate
new-IsSafe = ground arith

Step-IsSafe : {g h : Gate} → Step g h → IsSafe g → IsSafe h
Step-IsSafe release v = unfold release_locked in ground arith
Step-IsSafe commit v = unfold commit_locked in ground arith
Step-IsSafe give_up v = unfold abandon in ground arith
Step-IsSafe (go_on p) v = unfold release_now in ground arith

-- From a new gate, whatever the order of the calls: `release` runs at most once and only after the
-- commit, and a release that was asked for before the commit has run or is about to.
pub Reach-IsSafe : {g : Gate} → Reach new_bidi_release_gate g → IsSafe g
Reach-IsSafe here = new-IsSafe
Reach-IsSafe (next r s) = Step-IsSafe s (Reach-IsSafe r)
