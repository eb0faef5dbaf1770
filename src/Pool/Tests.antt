-- ===== src/Pool/Tests.antt =====
-- The pool's theorems on a pool of two accounts.
use aistudio2api.Prelude.{
  ℕ, zero, suc, ◌≡◌, ◌⊎◌, inl, inr, IsIn, arith, refl, Bool, true, false, Option, none, some, List,
  ◌∷◌, [], get_elem?, Text, codes, lookup, trim_space, str_eq, rotate, str_lt, trim_prefix,
  has_prefix, contains, not, is_empty,
}
use aistudio2api.Pool.Types.{
  Channel, unset, playground, build, free, AccountState, ready, Model, CooldownState, RuntimeState,
  Account, Selection, Pool, Lease, ok,
}
use aistudio2api.Pool.Catalog.{
  bare_model_id, supports_model, account_supports_selection, has_method, has_capability,
  model_matches_id, model_allowed_by_tier,
}
use aistudio2api.Pool.Cooldown.{
  account_cooldown, is_active, channel_cooldown_scope, selection_access_scope,
}
use aistudio2api.Pool.Channels.{
  generation_channel_selection, selection_channels, account_channel_cooldown, channel_enabled,
  enabled_channels, channel_supports,
}
use aistudio2api.Pool.Candidates.{
  Candidate, round_robin, selection_indices, free_indices, channel_candidates, id_at,
}
use aistudio2api.Pool.Leases.{
  TryLock, taken, leased, grant, end_auth_refresh, release, FileLease, file_lock,
  acquire_account_file_lease, lease_of, verdict, scan, try_acquire,
}
use aistudio2api.Pool.Samples.{idle, two_accounts, generation, unlocked}
use aistudio2api.Pool.Leases.Grants.{Grants, Taken, try_acquire-Taken}
use aistudio2api.Pool.Leases.World.{World, Ledger, Reach, here, next, acquire, give_back}
use aistudio2api.Pool.Leases.Ledger.{Reach-Ledger}
use aistudio2api.Pool.Leases.Progress.{IsLeased, try_acquire_finds}
use aistudio2api.Pool.Classify.{Group, Groups, no_groups, group_of, classify_candidates}
use aistudio2api.Pool.Classify.Listed.{classify_candidates-Grants}

offered : selection_indices two_accounts generation ≡ ok (2 ∷ 0 ∷ [])
unfolding selection_indices selection_access_scope trim_space str_eq rotate str_lt id_at lookup
    bare_model_id trim_prefix has_prefix contains
offered = refl

abbrev first_lease : Lease
first_lease = lease_of 5 playground (idle (codes "a")) 0 false

abbrev after_first : Pool
after_first = grant two_accounts generation 5 playground (idle (codes "a")) 0 false

-- The account `a`, at index 2, is leased.
leases_a : try_acquire two_accounts generation unlocked 5 ≡ leased after_first first_lease
unfolding try_acquire selection_indices trim_space scan channel_candidates str_eq rotate str_lt
    id_at lookup selection_access_scope bare_model_id trim_prefix selection_channels
    generation_channel_selection aistudio2api.Pool.Types.channel_eq enabled_channels verdict
    aistudio2api.Pool.Candidates.allowed_indices free_indices
    aistudio2api.Pool.Candidates.pinned_account aistudio2api.Pool.Candidates.sorted_indices
    account_supports_selection aistudio2api.Pool.Catalog.build_excluded_playground_model
    aistudio2api.Pool.Catalog.build_requires_special_tool has_capability has_method
    model_allowed_by_tier model_matches_id aistudio2api.Pool.Channels.build_supports_model
    channel_enabled channel_supports aistudio2api.Pool.Channels.pool_accounts account_cooldown
    channel_cooldown_scope is_active aistudio2api.Pool.Cooldown.model_access_key
    aistudio2api.Pool.Leases.acquire_account_file_lease grant lease_of aistudio2api.Prelude.insert
    aistudio2api.Prelude.insert_sorted aistudio2api.Prelude.sort_stable contains has_prefix
leases_a = refl

try_acquire-Taken_example :
    (indices : List ℕ) × (selection_indices two_accounts generation ≡ ok indices)
    × Taken two_accounts generation unlocked 5
        (channel_candidates two_accounts indices generation)
        after_first
        first_lease
try_acquire-Taken_example = try_acquire-Taken two_accounts generation unlocked 5 leases_a

abbrev start : World
start = record { pool = two_accounts; leases = [] }

start-Ledger : Ledger start
start-Ledger zero a e = ground arith
start-Ledger (suc zero) a e = ground arith
start-Ledger (suc (suc n)) a e = absurd (cc e)

abbrev given_back : World
given_back = record {
  pool = (release after_first first_lease).0;
  leases = (release after_first first_lease).1 ∷ [];
}

taken_and_given_back : Reach start given_back
taken_and_given_back =
    next (next here (acquire generation unlocked 5 after_first first_lease leases_a))
      (give_back 0 first_lease refl)

Reach-Ledger_example : Ledger given_back
Reach-Ledger_example = Reach-Ledger start-Ledger taken_and_given_back

abbrev second_candidate : Candidate
second_candidate = record { index = 0; channel = playground }

second-IsIn : IsIn second_candidate (channel_candidates two_accounts (2 ∷ 0 ∷ []) generation)
unfolding channel_candidates str_eq rotate selection_channels generation_channel_selection
    trim_space aistudio2api.Pool.Types.channel_eq enabled_channels id_at str_lt lookup
    selection_access_scope bare_model_id trim_prefix
second-IsIn = inr (inl refl)

second_serves : channel_supports two_accounts (idle (codes "b")) playground generation ≡ true
unfolding channel_supports trim_space generation_channel_selection str_eq channel_enabled
    aistudio2api.Pool.Types.channel_eq account_supports_selection bare_model_id trim_prefix
    model_matches_id model_allowed_by_tier has_method
second_serves = refl

second_warm :
    (account_cooldown
      (idle (codes "b"))
      (channel_cooldown_scope playground (selection_access_scope generation))
      5).1
    ≡ false
unfolding account_cooldown channel_cooldown_scope aistudio2api.Pool.Types.channel_eq trim_space
    selection_access_scope bare_model_id trim_prefix lookup
second_warm = refl

second_file : acquire_account_file_lease unlocked (codes "") ≡ file_lock false
unfolding acquire_account_file_lease
second_file = refl

second-Grants : Grants two_accounts generation unlocked 5 playground (idle (codes "b")) false
second-Grants = record {
  enabled = refl;
  is_open = refl;
  supported = inr second_serves;
  not_exclusive = refl;
  no_waiters = refl;
  no_refreshers = refl;
  has_slot = omega arith;
  not_cooling = inr second_warm;
  file_locked = inl (refl, second_file);
}

try_acquire_finds_example : IsLeased (try_acquire two_accounts generation unlocked 5)
try_acquire_finds_example =
    try_acquire_finds two_accounts generation unlocked 5 (2 ∷ 0 ∷ []) second_candidate
      (idle (codes "b")) 1 false (λ path. cc) offered second-IsIn refl refl second-Grants

abbrev groups : Groups
groups = record no_groups {
  warm_ready = codes "b" ∷ [];
  standby_ready = codes "a" ∷ [];
  eligible = true;
}

classified : classify_candidates two_accounts generation (codes "b" ∷ []) 5 ≡ ok groups
unfolding classify_candidates aistudio2api.Pool.Channels.has_model_catalog
    aistudio2api.Pool.Channels.pool_accounts aistudio2api.Pool.Channels.has_model
    aistudio2api.Pool.Channels.has_playground_model model_matches_id str_eq
    aistudio2api.Pool.Channels.has_model_method has_method selection_indices trim_space rotate
    str_lt id_at lookup selection_access_scope bare_model_id
    aistudio2api.Pool.Candidates.allowed_indices free_indices
    aistudio2api.Pool.Candidates.pinned_account aistudio2api.Pool.Candidates.sorted_indices
    account_supports_selection aistudio2api.Pool.Catalog.build_excluded_playground_model
    aistudio2api.Pool.Catalog.build_requires_special_tool has_capability model_allowed_by_tier
    account_channel_cooldown aistudio2api.Pool.Channels.account_supports_any_channel
    aistudio2api.Pool.Channels.build_supports_model channel_enabled channel_supports
    aistudio2api.Pool.Channels.channels_cooldown enabled_channels generation_channel_selection
    aistudio2api.Pool.Channels.has_build_model selection_channels group_of
    aistudio2api.Pool.Classify.is_candidate account_cooldown channel_cooldown_scope is_active
    aistudio2api.Pool.Cooldown.model_access_key aistudio2api.Pool.Types.channel_eq
    aistudio2api.Prelude.insert_sorted aistudio2api.Prelude.sort_stable contains has_prefix
    trim_prefix
classified = refl

locks_free :
    (path : Text) → (lock : Bool) × (acquire_account_file_lease unlocked path ≡ file_lock lock)
unfolding acquire_account_file_lease
locks_free path = (not (is_empty path), ground arith)

classify_candidates-Grants_example :
    (indices : List ℕ) × (index : ℕ) × (address : ℕ) × (a : Account) × (c : Channel) × (lock : Bool)
    × (selection_indices two_accounts generation ≡ ok indices)
    × IsIn index indices
    × (get_elem? two_accounts.accounts index ≡ some (some address))
    × (get_elem? two_accounts.store address ≡ some a)
    × (codes "a" ≡ a.id)
    × IsIn c (selection_channels two_accounts generation)
    × Grants two_accounts generation unlocked 5 c a lock
classify_candidates-Grants_example =
    classify_candidates-Grants two_accounts generation (codes "b" ∷ []) 5 unlocked groups
      (codes "a") locks_free (omega arith) classified (inr (inr (inl refl)))

abbrev full : Account
full = record (idle (codes "b")) { active = 2 }

full_group : group_of two_accounts true full ≡ Group.warm_busy
unfolding group_of
full_group = refl
