-- ===== src/Pool/Cooldown.antt =====
-- The cooldown of an account in a scope: quota.go, `accountCooldown`, `ModelAccessKey` and
-- `selectionAccessScope` of accounts.go, `ChannelCooldownScope` of channel.go.
pub mod Laws
pub mod Quota
use aistudio2api.Prelude.{
  ℕ, ◌<◌, ◌≡◌, Bool, true, false, not, ◌&&◌, ◌||◌, if◌then◌else◌, ◌==◌, ltb, Option, none, some,
  ◌∷◌, [], ◌++◌, max, Text, codes, is_empty, trim_space, lookup,
}
use aistudio2api.Pool.Types.{
  Channel, build, channel_eq, CooldownState, no_cooldown, Account, Selection,
}
use aistudio2api.Pool.Catalog.{bare_model_id}

unfoldable pub is_active : CooldownState → ℕ → Bool
is_active c now = not (c.until == 0) && ltb now c.until

abbrev pub global_cooldown_key : Text
global_cooldown_key = codes "*"

-- One round of the loop over the keys; `selected` is what the rounds before chose.
consider : Account → ℕ → CooldownState → Text → CooldownState
consider a now selected key =
    if is_empty key then selected else (elim (lookup key a.runtime.cooldowns) [
      | none ↦ selected
      | some c ↦
          if not (is_active c now)
          then selected
          else if selected.until == 0 || ltb selected.until c.until
          then c
          else selected
    ])

selected_cooldown : Account → Text → ℕ → CooldownState
unfolding consider
selected_cooldown a scope now =
    consider a now (consider a now no_cooldown global_cooldown_key) scope

unfoldable pub account_cooldown : Account → Text → ℕ → CooldownState × Bool
unfolding selected_cooldown
account_cooldown a scope now = let c = selected_cooldown a scope now in (c, not (c.until == 0))

unfoldable pub model_access_key : Text → Text → Text
model_access_key scope id =
    let trimmed = trim_space scope in
    let model_id = bare_model_id id in
    if is_empty trimmed || is_empty model_id then model_id else trimmed ++ b':' ∷ model_id

unfoldable pub channel_cooldown_scope : Channel → Text → Text
channel_cooldown_scope channel scope =
    let trimmed = trim_space scope in
    if channel_eq channel build && not (is_empty trimmed)
    then model_access_key (codes "build") trimmed
    else trimmed

unfoldable pub selection_access_scope : Selection → Text
selection_access_scope s =
    let scope = trim_space s.model_access_scope in
    if not (is_empty scope) then scope else bare_model_id s.model_id
