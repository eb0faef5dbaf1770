-- ===== src/Pool/Acquire/Balance.antt =====
-- No slot is lost on any way through `AcquireFor` and `TryAcquireFor`.
use aistudio2api.Prelude.{Option, List}
use aistudio2api.Pool.Types.{Selection, Error}
use aistudio2api.Pool.Leases.World.{World, Ledger}
use aistudio2api.Pool.Acquire.{Turn, Answer, try_acquire_for, acquire_for}
use aistudio2api.Pool.Acquire.Slots.{hold, IsFair, settle-Settles, acquired-Ledger}
use aistudio2api.Pool.Acquire.Rounds.{Holds, All, acquire_for-Holds}

-- What `IsBalanced` says of an answer: exactly the leases that are out, with the one granted, are
-- accounted for.
abbrev pub IsBalanced : Answer → Type 0
IsBalanced = Holds Ledger (λ w l. Ledger (hold w l))

-- Where the rest of the world keeps slots and leases in agreement, so does every way through
-- `AcquireFor` and `TryAcquireFor`: a lease that is returned has its slot, and with every other result no
-- slot of this request is left in use.
pub acquire_for-IsBalanced :
    (refresh_resource : World → World × Option Error) (s : Selection) (w : World) (ts : List Turn)
    → ((v : World) → Ledger v → Ledger (refresh_resource v).0)
    → All IsFair ts
    → Ledger w
    → IsBalanced (acquire_for refresh_resource s w ts)
      × IsBalanced (try_acquire_for refresh_resource s w ts)
acquire_for-IsBalanced refresh_resource s w ts =
    acquire_for-Holds Ledger (λ v l. Ledger (hold v l)) IsFair s
      (λ t v q l f h e.
        let (new, held) = acquired-Ledger s t v q l e h in
        settle-Settles s t (record v { pool = q }) l f new held)
      (λ t v f h. f.refresh_keeps v h) (λ t v f h. f.wait_keeps v h) refresh_resource w ts
