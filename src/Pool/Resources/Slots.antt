-- ===== src/Pool/Resources/Slots.antt =====
-- What the sync of a runtime state does to a pool: it leaves the slots of the accounts alone.
use aistudio2api.Prelude.{
  ℕ, ◌≡◌, ◌⊎◌, inl, inr, refl, Bool, Option-cases, Bool-cases, none, some, not, ◌||◌, set,
  get_elem?, arith,
}
use aistudio2api.Pool.Types.{RuntimeState, Account, Pool, ok}
use aistudio2api.Pool.Equality.{tier_eq, runtime_eq}
use aistudio2api.Pool.Leases.Ledger.{KeepsSlots}
use aistudio2api.Pool.Resources.{
  foreign_owner, keys, index_differs, synced, generation_after, claim, drop_owned,
  sync_account_runtime,
}

abbrev pub renewed : Account → RuntimeState → Account
renewed a r = record a {
  runtime = r;
  benefit_tier = r.benefit_tier;
  model_access_generation = generation_after a r;
}

pub sync-KeepsSlots :
    (p : Pool) (address : ℕ) (a : Account) (r : RuntimeState) (q : Pool) (changed : Bool)
    → get_elem? p.store address ≡ some a
    → sync_account_runtime p address a r ≡ ok (q, changed)
    → KeepsSlots p q
unfolding sync_account_runtime synced
sync-KeepsSlots p address a r q changed e h =
    elim (Option-cases (foreign_owner p.resources a.id (keys r.resources))) [
      | inr (owner, f) ↦ absurd (ground (arith, h, f))
      | inl f ↦
          elim (Bool-cases (
            not (tier_eq a.benefit_tier r.benefit_tier)
            || not (runtime_eq a.runtime r)
            || index_differs p.resources a.id r.resources)) [
              | inl moved ↦ inr (
                address,
                a,
                renewed a r,
                e,
                ground (arith, h, f, moved),
                ground (arith, h, f, moved),
                refl,
                refl,
              )
              | inr same ↦ inl (ground (arith, h, f, same))
            ]
    ]

-- What a sync that changes the pool does to it.
abbrev pub IsSynced : Pool → ℕ → Account → RuntimeState → Pool → Type 0
IsSynced p address a r q =
    (foreign_owner p.resources a.id (keys r.resources) ≡ none)
    × (q.store ≡ set p.store address (renewed a r))
    × (q.by_id ≡ p.by_id)
    × (q.resources
        ≡ claim a.id (keys r.resources)
            (drop_owned a.id p.resources (keys p.resources) p.resources))

pub sync-IsSynced :
    (p : Pool) (address : ℕ) (a : Account) (r : RuntimeState) (q : Pool) (changed : Bool)
    → sync_account_runtime p address a r ≡ ok (q, changed)
    → (q ≡ p) ⊎ IsSynced p address a r q
unfolding sync_account_runtime synced
sync-IsSynced p address a r q changed h =
    elim (Option-cases (foreign_owner p.resources a.id (keys r.resources))) [
      | inr (owner, f) ↦ absurd (ground (arith, h, f))
      | inl f ↦
          elim (Bool-cases (
            not (tier_eq a.benefit_tier r.benefit_tier)
            || not (runtime_eq a.runtime r)
            || index_differs p.resources a.id r.resources)) [
              | inl moved ↦ inr (
                f,
                ground (arith, h, f, moved),
                ground (arith, h, f, moved),
                ground (arith, h, f, moved),
              )
              | inr same ↦ inl (ground (arith, h, f, same))
            ]
    ]
