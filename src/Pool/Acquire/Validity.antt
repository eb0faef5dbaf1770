-- ===== src/Pool/Acquire/Validity.antt =====
-- What a lease is good for when `AcquireFor` returns it.
use aistudio2api.Prelude.{
  ℕ, ◌≡◌, ◌⊎◌, true, false, some, List, IsIn, get_elem?, is_empty, trim_space,
}
use aistudio2api.Pool.Types.{Account, Selection, Pool, Lease}
use aistudio2api.Pool.Cooldown.{account_cooldown, channel_cooldown_scope, selection_access_scope}
use aistudio2api.Pool.Channels.{channel_supports}
use aistudio2api.Pool.Leases.{lease_channel}
use aistudio2api.Pool.Leases.World.{World}
use aistudio2api.Pool.Acquire.{owns, Turn, Answer}
use aistudio2api.Pool.Resources.{is_registered}
use aistudio2api.Pool.Acquire.Rounds.{Holds}

-- The account of the lease is the pool's, can do what is asked on the channel of the lease, is not on
-- cooldown for it and owns the resource that is asked for.
pub record IsUsable (s : Selection) (now : ℕ) (p : Pool) (l : Lease) : Type 0 where
  pub account : Account
  pub stored : get_elem? p.store l.account ≡ some account
  pub registered : is_registered p l.account account ≡ true
  pub supports :
      (is_empty s.model_id ≡ true) ⊎ (channel_supports p account (lease_channel l) s ≡ true)
  pub rested :
      (is_empty s.resource_id ≡ false)
      ⊎ ((account_cooldown account
            (channel_cooldown_scope (lease_channel l) (selection_access_scope s))
            now).1
          ≡ false)
  pub owned :
      (is_empty (trim_space s.resource_id) ≡ true)
      ⊎ (owns p (trim_space s.resource_id) account ≡ true)
  pub generation : l.model_access_generation ≡ account.model_access_generation

-- A lease that is returned was found usable in one of the rounds, and is so in the pool then.
abbrev pub IsChecked : Selection → List Turn → World → Lease → Type 0
IsChecked s ts w l = (t : Turn) × IsIn t ts × IsUsable s t.later w.pool l

abbrev pub Grants : (World → Lease → Type 0) → Answer → Type 0
Grants G = Holds (λ w. Unit) G
