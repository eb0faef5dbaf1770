-- ===== src/Pool/Resources/Owners.antt =====
-- The index of owners: no update of one account takes a resource from another, and after a sync the
-- index and the account's own list of resources agree.
use aistudio2api.Prelude.{
  ℕ, ◌≡◌, ◌⊎◌, inl, inr, Bool, false, not, ◌||◌, none, some, Option-cases, Bool-cases, get_elem?,
  Text, lookup, arith,
}
use aistudio2api.Pool.Types.{RuntimeState, Account, Pool, ok}
use aistudio2api.Pool.Equality.{tier_eq, runtime_eq}
use aistudio2api.Pool.Resources.{
  keys, owned_by, foreign_owner, index_differs, synced, sync_account_runtime,
}
use aistudio2api.Pool.Resources.Index.{is_key, owned_alike, owned_claimed}

module _ (p : Pool) (address : ℕ) (a : Account) (r : RuntimeState) {q : Pool} {moved : Bool}
    (done : sync_account_runtime p address a r ≡ ok (q, moved)) where
  sync_free : foreign_owner p.resources a.id (keys r.resources) ≡ none
  unfolding sync_account_runtime
  sync_free = elim (Option-cases (foreign_owner p.resources a.id (keys r.resources))) [
    | inl e ↦ e
    | inr (owner, e) ↦ absurd (ground arith)
  ]

  sync_cases :
      ((q ≡ p) × (index_differs p.resources a.id r.resources ≡ false)) ⊎ (q ≡ synced p address a r)
  unfolding sync_account_runtime
  sync_cases =
      elim (Bool-cases (
        not (tier_eq a.benefit_tier r.benefit_tier)
        || not (runtime_eq a.runtime r)
        || index_differs p.resources a.id r.resources)) [
          | inl h ↦ inr (ground (arith, sync_free))
          | inr h ↦ inl (ground (arith, sync_free), ground arith)
        ]

  -- After a sync that is not refused, the index gives the account exactly the resources of the state
  -- that was synced.
  pub sync_exact : (k : Text) → owned_by a.id q.resources k ≡ is_key k (keys r.resources)
  unfolding synced
  sync_exact k = elim sync_cases [
    | inl (same, alike) ↦ rw same (owned_alike a.id k p.resources r.resources alike)
    | inr new ↦ rw new (owned_claimed a.id k p.resources (keys r.resources))
  ]

-- What other goroutines do leaves a resource its owner, and an address its account's id.
abbrev pub LeavesOwner : ℕ → Text → Text → Text → (Pool → Pool) → Type 0
LeavesOwner address id k owner others =
    (q : Pool) (b : Account)
    → get_elem? q.store address ≡ some b
    → b.id ≡ id
    → lookup k q.resources ≡ some owner
    → (lookup k (others q).resources ≡ some owner)
      × (c : Account) × (get_elem? (others q).store address ≡ some c)
      × (c.id ≡ id)
