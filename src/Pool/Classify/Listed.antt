-- ===== src/Pool/Classify/Listed.antt =====
-- The ids that the classification lists as ready or available, against what `tryAcquireLocked` would do
-- with their accounts.
use aistudio2api.Prelude.{
  ℕ, ◌<◌, ◌≡◌, ◌≢◌, ◌⊎◌, inl, inr, refl, subst, ◌==◌, Bool, true, false, Option, none, some, List,
  ◌∷◌, [], ◌++◌, get_elem?, Text, IsIn, arith, Bool-cases, Option-cases,
}
use aistudio2api.Pool.Types.{Channel, Account, Selection, Pool, Result, ok, err}
use aistudio2api.Pool.Channels.{selection_channels, account_channel_cooldown}
use aistudio2api.Pool.Candidates.{selection_indices}
use aistudio2api.Pool.Leases.{TryLock, file_lock, acquire_account_file_lease}
use aistudio2api.Pool.Leases.Grants.{Grants}
use aistudio2api.Pool.Classify.{
  Group, Groups, no_groups, group_of, add_to, is_warm_id, is_candidate, classify_account,
  classify_from, classify_candidates,
}
use aistudio2api.Pool.Classify.Slots.{group-Grants}

-- The classification lists an id as warm ready, as warm available or as standby ready.
abbrev pub IsListed : Text → Groups → Type 0
IsListed id g = IsIn id g.warm_ready ⊎ IsIn id g.warm_available ⊎ IsIn id g.standby_ready

IsIn-append : (x y : Text) (xs : List Text) → IsIn x (xs ++ y ∷ []) → IsIn x xs ⊎ (x ≡ y)
IsIn-append x y [] (inl e) = inr e
IsIn-append x y [] (inr m) = absurd m
IsIn-append x y (z ∷ zs) (inl e) = inl (inl e)
IsIn-append x y (z ∷ zs) (inr m) = elim (IsIn-append x y zs m) [
  | inl k ↦ inl (inr k)
  | inr e ↦ inr e
]

abbrev HasSlots : Group → Type 0
HasSlots g = (g ≢ Group.warm_busy) × (g ≢ Group.standby_busy)

add_to-IsListed :
    (id id' : Text) (g : Groups) (group : Group)
    → IsListed id (add_to g id' group)
    → IsListed id g ⊎ ((id ≡ id') × HasSlots group)
unfolding add_to
add_to-IsListed id id' g Group.warm_ready (inl m) = elim (IsIn-append id id' g.warm_ready m) [
  | inl k ↦ inl (inl k)
  | inr e ↦ inr (e, ((λ x. cc), (λ x. cc)))
]
add_to-IsListed id id' g Group.warm_ready (inr m) = inl (inr m)
add_to-IsListed id id' g Group.warm_available (inl m) = inl (inl m)
add_to-IsListed id id' g Group.warm_available (inr (inl m)) =
    elim (IsIn-append id id' g.warm_available m) [
      | inl k ↦ inl (inr (inl k))
      | inr e ↦ inr (e, ((λ x. cc), (λ x. cc)))
    ]
add_to-IsListed id id' g Group.warm_available (inr (inr m)) = inl (inr (inr m))
add_to-IsListed id id' g Group.warm_busy m = inl m
add_to-IsListed id id' g Group.standby_ready (inl m) = inl (inl m)
add_to-IsListed id id' g Group.standby_ready (inr (inl m)) = inl (inr (inl m))
add_to-IsListed id id' g Group.standby_ready (inr (inr m)) =
    elim (IsIn-append id id' g.standby_ready m) [
      | inl k ↦ inl (inr (inr k))
      | inr e ↦ inr (e, ((λ x. cc), (λ x. cc)))
    ]
add_to-IsListed id id' g Group.standby_busy m = inl m

module _ (p : Pool) (s : Selection) (warm : List Text) (now : ℕ) where
  abbrev IsReady : Account → Type 0
  IsReady a =
      (is_candidate p s a ≡ true)
      × ((account_channel_cooldown p a s now).1 ≡ false)
      × HasSlots (group_of p (is_warm_id warm a.id) a)

  classify_account-IsListed :
      (id : Text) (a : Account) (g : Groups)
      → IsListed id (classify_account p s warm now a g)
      → IsListed id g ⊎ ((id ≡ a.id) × IsReady a)
  unfolding classify_account
  classify_account-IsListed id a g m = elim (Bool-cases (is_candidate p s a)) [
    | inr other ↦ inl (rw other at m)
    | inl fits ↦ elim (Bool-cases (account_channel_cooldown p a s now).1) [
      | inl cold ↦ inl (rw (fits, cold) at m)
      | inr free ↦
          (let e = record g { eligible = true } in
            elim (add_to-IsListed id a.id e (group_of p (is_warm_id warm a.id) a)
              (rw (fits, free) at m)) [
                | inl k ↦ inl k
                | inr (is, slots) ↦ inr (is, (fits, free, slots))
              ])
    ]
  ]

  -- An account of one of the indices, under its id.
  abbrev Found : Text → List ℕ → Type 0
  Found id indices =
      (index : ℕ) × (address : ℕ) × (a : Account) × IsIn index indices
      × (get_elem? p.accounts index ≡ some (some address))
      × (get_elem? p.store address ≡ some a)
      × (id ≡ a.id)
      × IsReady a

  later_Found :
      (id : Text) (index : ℕ) (indices : List ℕ) → Found id indices → Found id (index ∷ indices)
  later_Found id index indices (i, address, a, m, at, stored, named, ready) =
      (i, address, a, inr m, at, stored, named, ready)

  classify_from-IsListed :
      (id : Text) (indices : List ℕ) (g : Groups)
      → IsListed id (classify_from p s warm now indices g)
      → IsListed id g ⊎ Found id indices
  unfolding classify_from
  classify_from-IsListed id [] g m = inl m
  classify_from-IsListed id (index ∷ indices) g m =
      go (get_elem? p.accounts index) refl (λ h. classify_from-IsListed id indices h)
    where
      go :
          (o : Option (Option ℕ))
          → get_elem? p.accounts index ≡ o
          → ((h : Groups)
              → IsListed id (classify_from p s warm now indices h)
              → IsListed id h ⊎ Found id indices)
          → IsListed id g ⊎ Found id (index ∷ indices)
      go none e ih = elim (ih g (rw (classify_from, e) at m)) [
        | inl k ↦ inl k
        | inr f ↦ inr (later_Found id index indices f)
      ]
      go (some none) e ih = elim (ih g (rw (classify_from, e) at m)) [
        | inl k ↦ inl k
        | inr f ↦ inr (later_Found id index indices f)
      ]
      go (some (some address)) e ih = elim (Option-cases (get_elem? p.store address)) [
        | inl gone ↦ elim (ih g (rw (classify_from, e, gone) at m)) [
          | inl k ↦ inl k
          | inr f ↦ inr (later_Found id index indices f)
        ]
        | inr (a, is) ↦
            elim (ih (classify_account p s warm now a g) (rw (classify_from, e, is) at m)) [
              | inr f ↦ inr (later_Found id index indices f)
              | inl k ↦ elim (classify_account-IsListed id a g k) [
                | inl l ↦ inl l
                | inr (named, ready) ↦ inr (index, address, a, inl refl, e, is, named, ready)
              ]
            ]
      ]

  classified :
      (g : Groups)
      → classify_candidates p s warm now ≡ ok g
      → (indices : List ℕ) × (selection_indices p s ≡ ok indices)
        × (g ≡ classify_from p s warm now indices no_groups)
  unfolding classify_candidates
  classified g h = go (selection_indices p s) refl
    where
      go :
          (r : Result (List ℕ))
          → selection_indices p s ≡ r
          → (indices : List ℕ) × (selection_indices p s ≡ ok indices)
            × (g ≡ classify_from p s warm now indices no_groups)
      go (err e) is = absurd (ground (arith, h, is))
      go (ok indices) is = (indices, is, ground (arith, h, is))

  -- Where every account may serve a request and every file lock can be taken, an id that
  -- classifyCandidatesLocked lists as warm ready, warm available or standby ready is that of an account
  -- among those that the selection allows, which tryAcquireLocked finds free on a channel of the
  -- selection at that time.
  pub classify_candidates-Grants :
      (os : Text → TryLock) (g : Groups) (id : Text)
      → ((path : Text) → (lock : Bool) × (acquire_account_file_lease os path ≡ file_lock lock))
      → 0 < p.per_account_concurrency
      → classify_candidates p s warm now ≡ ok g
      → IsListed id g
      → (indices : List ℕ) × (index : ℕ) × (address : ℕ) × (a : Account) × (c : Channel)
        × (lock : Bool) × (selection_indices p s ≡ ok indices)
        × IsIn index indices
        × (get_elem? p.accounts index ≡ some (some address))
        × (get_elem? p.store address ≡ some a)
        × (id ≡ a.id)
        × IsIn c (selection_channels p s)
        × Grants p s os now c a lock
  classify_candidates-Grants os g id locks some_slots h m =
      let (indices, is, from) : (indices : List ℕ) × (selection_indices p s ≡ ok indices)
          × (g ≡ classify_from p s warm now indices no_groups) =
        classified g h in
      elim (classify_from-IsListed id indices no_groups (subst (IsListed id) from m)) [
        | inl nowhere ↦ absurd (ground (arith, nowhere))
        | inr (index, address, a, i, at, stored, named, (candidate, free, (no_warm, no_standby))) ↦
            (let (lock, taken) = locks a.storage_path in
              elim (Bool-cases (a.active == 0)) [
                | inl idle ↦
                    (let (c, k, grants) =
                        group-Grants p s os now (is_warm_id warm a.id) a lock candidate free no_warm
                          no_standby some_slots (inl (ground (arith, idle), taken)) in
                      (indices, index, address, a, c, lock, is, i, at, stored, named, k, grants))
                | inr in_use ↦
                    (let (c, k, grants) =
                        group-Grants p s os now (is_warm_id warm a.id) a a.lease_lock candidate free
                          no_warm no_standby some_slots (inr (ground (arith, in_use), refl)) in
                      (
                        indices, index, address, a, c, a.lease_lock, is, i, at, stored, named, k,
                        grants,
                      ))
              ])
      ]
