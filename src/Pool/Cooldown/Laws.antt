-- ===== src/Pool/Cooldown/Laws.antt =====
-- `accountCooldown` against the cooldowns that hold for the account and for the scope.
use aistudio2api.Prelude.{
  ℕ, ◌<◌, ◌≡◌, ◌↔◌, ◌⊎◌, true, none, some, max, Text, is_empty, lookup, arith, if◌then◌else◌,
}
use aistudio2api.Pool.Types.{CooldownState, no_cooldown, Account}
use aistudio2api.Pool.Cooldown.{
  is_active, global_cooldown_key, consider, selected_cooldown, account_cooldown,
}

-- Until when the cooldown stored under the key bars requests; 0 if it does not at `now`.
abbrev pub barred_until : Account → Text → ℕ → ℕ
barred_until a key now = elim (lookup key a.runtime.cooldowns) [
  | none ↦ 0
  | some c ↦ if is_active c now then c.until else 0
]

abbrev pub scope_barred_until : Account → Text → ℕ → ℕ
scope_barred_until a scope now = if is_empty scope then 0 else barred_until a scope now

consider-until :
    (a : Account) (now : ℕ) (c : CooldownState) (key : Text)
    → (consider a now c key).until ≡ max c.until (scope_barred_until a key now)
unfolding consider is_active
consider-until a now c key = ground arith

-- The cooldown that `accountCooldown` reports ends when the later of the account's own and the
-- scope's ends, counting those that hold now; it reports one exactly if one of them holds.
pub account_cooldown-until :
    (a : Account) (scope : Text) (now : ℕ)
    → ((account_cooldown a scope now).0.until
        ≡ max (barred_until a global_cooldown_key now) (scope_barred_until a scope now))
      × (((account_cooldown a scope now).1 ≡ true)
          ↔ ((0 < barred_until a global_cooldown_key now) ⊎ (0 < scope_barred_until a scope now)))
unfolding account_cooldown selected_cooldown
account_cooldown-until a scope now =
    let first = consider-until a now no_cooldown global_cooldown_key in
    let both = consider-until a now (consider a now no_cooldown global_cooldown_key) scope in
    (ground (arith, first, both), ground (arith, first, both))
