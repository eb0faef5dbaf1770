-- ===== src/Pool/Acquire/Tests.antt =====
-- The theorems on `AcquireFor` at a pool of two accounts.
use aistudio2api.Prelude.{ℕ, zero, suc, arith, false, none, List, ◌∷◌, [], Option}
use aistudio2api.Pool.Types.{Error, ok}
use aistudio2api.Pool.Samples.{two_accounts, generation, unlocked}
use aistudio2api.Pool.Leases.World.{World, Ledger}
use aistudio2api.Pool.Acquire.{Turn, acquire_for, try_acquire_for}
use aistudio2api.Pool.Acquire.Slots.{IsFair}
use aistudio2api.Pool.Acquire.Balance.{IsBalanced, acquire_for-IsBalanced}

abbrev start : World
start = record { pool = two_accounts; leases = [] }

start-Ledger : Ledger start
start-Ledger zero a e = ground arith
start-Ledger (suc zero) a e = ground arith
start-Ledger (suc (suc n)) a e = absurd (cc e)

abbrev quiet : World → World × Option Error
quiet w = (w, none)

abbrev turn_at : ℕ → Turn
turn_at now = record {
  now = now;
  os = unlocked;
  meanwhile = λ w. w;
  file = ok none;
  later = now;
  refresh_selection = quiet;
  wait = λ w. w;
  is_done = false;
}

turn-IsFair : (now : ℕ) → IsFair (turn_at now)
turn-IsFair now = record {
  meanwhile_keeps = λ w l h. h;
  refresh_keeps = λ w h. h;
  wait_keeps = λ w h. h;
}

abbrev turns : List Turn
turns = turn_at 5 ∷ turn_at 6 ∷ []

acquire_for-IsBalanced_example :
    IsBalanced (acquire_for quiet generation start turns)
    × IsBalanced (try_acquire_for quiet generation start turns)
acquire_for-IsBalanced_example =
    acquire_for-IsBalanced quiet generation start turns (λ v h. h)
      (turn-IsFair 5, (turn-IsFair 6, tt)) start-Ledger
