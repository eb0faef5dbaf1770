-- ===== src/Pool/Classify/Slots.antt =====
-- The classification of an account against what `tryAcquireLocked` would do with it.
use aistudio2api.Prelude.{
  ℕ, ◌<◌, ◌≡◌, ◌≢◌, ◌⊎◌, inl, inr, refl, Bool, true, false, none, some, List, ◌∷◌, [], Text,
  is_empty, trim_space_empty, IsIn, arith, any, Bool-cases, Option-cases,
}
use aistudio2api.Pool.Types.{Channel, channel_eq, Account, Selection, Pool}
use aistudio2api.Pool.Cooldown.{account_cooldown, channel_cooldown_scope, selection_access_scope}
use aistudio2api.Pool.Channels.{
  channel_supports, selection_channels, generation_channel_selection, account_supports_any_channel,
  channels_cooldown, account_channel_cooldown,
}
use aistudio2api.Pool.Leases.{TryLock, file_lock, acquire_account_file_lease}
use aistudio2api.Pool.Leases.Grants.{Grants}
use aistudio2api.Pool.Classify.{Group, group_of, is_candidate}

cooldown_until_pos :
    (a : Account) (scope : Text) (now : ℕ)
    → (account_cooldown a scope now).1 ≡ true
    → (account_cooldown a scope now).0.until ≢ 0
unfolding account_cooldown
cooldown_until_pos a scope now h = ground arith

module _ (p : Pool) (a : Account) (s : Selection) (now : ℕ) where
  abbrev cools : Channel → Bool
  cools c = (account_cooldown a (channel_cooldown_scope c (selection_access_scope s)) now).1

  -- A channel that serves the selection now.
  abbrev pub Usable : List Channel → Type 0
  Usable cs = (c : Channel) × IsIn c cs × (channel_supports p a c s ≡ true) × (cools c ≡ false)

  later_Usable : (c : Channel) (cs : List Channel) → Usable cs → Usable (c ∷ cs)
  later_Usable c cs (d, m, x, y) = (d, inr m, x, y)

  kept_pos :
      (cs : List Channel) (e e' : ℕ) → channels_cooldown p a s now cs e ≡ some e' → e ≢ 0 → e' ≢ 0
  unfolding channels_cooldown
  kept_pos [] e e' h n = ground arith
  kept_pos (c ∷ cs) e e' h n = ground (
    arith,
    kept_pos cs e e',
    kept_pos cs
        (account_cooldown a (channel_cooldown_scope c (selection_access_scope s)) now).0.until e',
    cooldown_until_pos a (channel_cooldown_scope c (selection_access_scope s)) now,
  )

  abbrev cooling_until : Channel → ℕ
  cooling_until c =
      (account_cooldown a (channel_cooldown_scope c (selection_access_scope s)) now).0.until

  none-Usable : (cs : List Channel) (e : ℕ) → channels_cooldown p a s now cs e ≡ none → Usable cs
  unfolding channels_cooldown
  none-Usable [] e h = cc
  none-Usable (c ∷ cs) e h = elim (Bool-cases (channel_supports p a c s)) [
    | inr skip ↦ later_Usable c cs (none-Usable cs e (ground arith))
    | inl serve ↦ elim (Bool-cases (cools c)) [
      | inr free ↦ (c, inl refl, serve, free)
      | inl cold ↦ later_Usable c cs (none-Usable cs _ (rw (serve, cold) at h))
    ]
  ]

  some_pos :
      (cs : List Channel) (e e' : ℕ)
      → channels_cooldown p a s now cs e ≡ some e'
      → any (λ c. channel_supports p a c s) cs ≡ true
      → e' ≢ 0
  unfolding channels_cooldown
  some_pos [] e e' h k = cc
  some_pos (c ∷ cs) e e' h k = ground (
    arith,
    some_pos cs e e',
    kept_pos cs e e',
    kept_pos cs (cooling_until c) e',
    cooldown_until_pos a (channel_cooldown_scope c (selection_access_scope s)) now,
  )

  -- An account that serves the selection and is not reported as cooling down has a usable channel.
  not_cooling-Usable :
      account_supports_any_channel p a s ≡ true
      → (account_channel_cooldown p a s now).1 ≡ false
      → Usable (selection_channels p s)
  unfolding account_channel_cooldown account_supports_any_channel
  not_cooling-Usable h k =
      elim (Option-cases (channels_cooldown p a s now (selection_channels p s) 0)) [
        | inl e ↦ none-Usable (selection_channels p s) 0 e
        | inr (e', e) ↦ absurd (some_pos (selection_channels p s) 0 e' e h (ground arith))
      ]

supports_any_empty :
    (p : Pool) (a : Account) (s : Selection)
    → is_empty s.model_id ≡ true
    → account_supports_any_channel p a s ≡ true
unfolding account_supports_any_channel channel_supports selection_channels
    generation_channel_selection channel_eq
supports_any_empty p a s h = ground (arith, trim_space_empty s.model_id h)

candidate_supports :
    (p : Pool) (a : Account) (s : Selection)
    → is_candidate p s a ≡ true
    → account_supports_any_channel p a s ≡ true
unfolding is_candidate
candidate_supports p a s h = ground (arith, supports_any_empty p a s)

-- An account that the classification finds ready or available has a slot, if every account may serve a
-- request and its file lock is free.
pub group-Grants :
    (p : Pool) (s : Selection) (os : Text → TryLock) (now : ℕ) (is_warm : Bool) (a : Account)
    (lock : Bool)
    → is_candidate p s a ≡ true
    → (account_channel_cooldown p a s now).1 ≡ false
    → group_of p is_warm a ≢ Group.warm_busy
    → group_of p is_warm a ≢ Group.standby_busy
    → 0 < p.per_account_concurrency
    → ((a.active ≡ 0) × (acquire_account_file_lease os a.storage_path ≡ file_lock lock))
      ⊎ ((0 < a.active) × (lock ≡ a.lease_lock))
    → (c : Channel) × IsIn c (selection_channels p s) × Grants p s os now c a lock
unfolding group_of is_candidate
group-Grants p s os now is_warm a lock h k b d cap f =
    let (c, m, serve, free) = not_cooling-Usable p a s now (candidate_supports p a s h) k in
    (c, m, ground arith)

-- And one that it calls busy has no slot for anybody.
pub busy_group-not-Grants :
    (p : Pool) (s : Selection) (os : Text → TryLock) (now : ℕ) (c : Channel) (a : Account)
    (lock : Bool)
    → group_of p true a ≡ Group.warm_busy
    → ¬ Grants p s os now c a lock
unfolding group_of
busy_group-not-Grants p s os now c a lock h g = ground arith
