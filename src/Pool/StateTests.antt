-- ===== src/Pool/StateTests.antt =====
-- The theorems on cooldowns, resources and the order of candidates, on the pool of two accounts.
use aistudio2api.Prelude.{
  ℕ, ◌++◌, ◌+◌, ◌<◌, ◌↔◌, ◌⊎◌, max, ◌≡◌, inl, inr, IsIn, arith, refl, not, true, Option, none, some,
  List, ◌∷◌, [], get_elem?, Text, codes, lookup, str_eq, str_lt, trim_space, keep, lookup_or,
  IsSorted, Perm, is_empty,
}
use aistudio2api.Pool.Types.{
  CooldownState, ResourceBinding, RuntimeState, Account, Selection, Pool, ok,
}
use aistudio2api.Pool.Samples.{blank_runtime, idle, two_accounts, generation}
use aistudio2api.Pool.Cooldown.{global_cooldown_key, account_cooldown, selection_access_scope}
use aistudio2api.Pool.Cooldown.Laws.{barred_until, scope_barred_until, account_cooldown-until}
use aistudio2api.Pool.Runtime.{mark_at, clear_both}
use aistudio2api.Pool.Runtime.Verdicts.{entry_at, mark_at-clear_both}
use aistudio2api.Pool.Resources.{Outside, sync_account_runtime}
use aistudio2api.Pool.Candidates.{
  id_at, sorted_indices, free_indices, pinned_account, selection_indices,
}
use aistudio2api.Pool.Candidates.Order.{free_indices-round_robin}

abbrev until_nine : CooldownState
until_nine = record { until = 9; reason = codes "quota" }

abbrev cooling_runtime : RuntimeState
cooling_runtime = record blank_runtime { cooldowns = (codes "gemini", until_nine) ∷ [] }

abbrev cooling : Account
cooling = record (idle (codes "a")) { runtime = cooling_runtime }

account_cooldown-until_example :
    ((account_cooldown cooling (codes "gemini") 5).0.until
      ≡ max
          (barred_until cooling global_cooldown_key 5)
          (scope_barred_until cooling (codes "gemini") 5))
    × (((account_cooldown cooling (codes "gemini") 5).1 ≡ true) ↔ (
        (0 < barred_until cooling global_cooldown_key 5)
        ⊎ (0 < scope_barred_until cooling (codes "gemini") 5)))
account_cooldown-until_example = account_cooldown-until cooling (codes "gemini") 5

mark_at-clear_both_example :
    entry_at
      (mark_at (codes "gemini") 3 until_nine (clear_both (codes "gemini") 4 cooling_runtime).0).0
      (codes "gemini")
    ≡ entry_at
        (clear_both (codes "gemini") 4 (mark_at (codes "gemini") 3 until_nine cooling_runtime).0).0
        (codes "gemini")
mark_at-clear_both_example =
    mark_at-clear_both (codes "gemini") (codes "gemini") (codes "gemini") 3 4 until_nine
      cooling_runtime

-- Nothing else happens during the update, and the account has no file.
abbrev alone : Outside
alone = record { before = λ p. p; between = λ p. p; file = ok none; write_error = none }

abbrev song : ResourceBinding
song = record { kind = codes "file"; created_at = 5; video = none }

abbrev singing : RuntimeState
singing = record blank_runtime { resources = (codes "song", song) ∷ [] }

abbrev after_sync : Pool
after_sync = record two_accounts {
  store = idle (codes "a") ∷ record (idle (codes "b")) { runtime = singing } ∷ [];
  resources = (codes "song", codes "b") ∷ [];
}

syncs_song : sync_account_runtime two_accounts 1 (idle (codes "b")) singing ≡ ok (after_sync, true)
unfolding sync_account_runtime lookup str_eq aistudio2api.Pool.Equality.tier_eq
    aistudio2api.Pool.Equality.runtime_eq aistudio2api.Prelude.insert aistudio2api.Prelude.erase
syncs_song = refl

free_indices-round_robin_example :
    (free_indices two_accounts generation
      ≡ keep
          (λ index.
            str_lt
              (lookup_or (codes "") (selection_access_scope generation) two_accounts.last_picked)
              (id_at two_accounts index))
          (sorted_indices two_accounts generation)
        ++ keep
            (λ index. not (
              str_lt
                (lookup_or (codes "") (selection_access_scope generation) two_accounts.last_picked)
                (id_at two_accounts index)))
            (sorted_indices two_accounts generation))
    × IsSorted
        (λ left right. str_lt (id_at two_accounts left) (id_at two_accounts right))
        (sorted_indices two_accounts generation)
free_indices-round_robin_example = free_indices-round_robin two_accounts generation refl

abbrev only_b : Option (List Text)
only_b = some (codes "b" ∷ [])

abbrev for_video : Selection
for_video = record generation { resource_id = codes "video" }

video_indices : selection_indices two_accounts for_video ≡ ok (0 ∷ [])
unfolding selection_indices lookup str_eq trim_space
video_indices = refl

video_account : pinned_account two_accounts for_video ≡ ok (codes "b")
unfolding pinned_account lookup str_eq trim_space
video_account = refl
