-- ===== src/Pool/Resources.antt =====
-- Which account owns a resource, and the update of an account's runtime state that keeps the pool's
-- index of owners: `syncAccountRuntimeLocked`, `updateRuntimeContext` and
-- `markStaleAccountUnavailable` of accounts.go. What the locks, the checks of files and the file of the
-- state give is an argument, and so is what other goroutines do where the mutex is given up.
pub mod Bindings
pub mod Index
pub mod Owners
pub mod Slots
use aistudio2api.Prelude.{
  ℕ, suc, ◌+◌, ◌≡◌, Bool, true, false, not, ◌&&◌, ◌||◌, if◌then◌else◌, ◌==◌, ltb, leb, Option, none,
  some, List, ◌∷◌, [], ◌++◌, any, map, get_elem?, Text, codes, str_eq, is_empty, trim_space, Assoc,
  lookup, lookup_or, insert, erase,
}
use aistudio2api.Pool.Types.{
  BenefitTier, VideoResourceMetadata, ResourceBinding, RuntimeState, Account, unavailable, Pool,
  Error, account_not_found, resource_not_found, resource_bound, invalid_argument, Result, ok, err,
}
use aistudio2api.Pool.Equality.{tier_eq, runtime_eq}
use aistudio2api.Pool.Leases.{notify, put}
use aistudio2api.Pool.Runtime.{Change, unchanged, rewritten}

abbrev pub keys {ℓ} : {V : Type ℓ} → Assoc V → List Text
keys [] = []
keys ((k, v) ∷ m) = k ∷ keys m

abbrev pub owned_by : Text → Assoc Text → Text → Bool
owned_by id m k = elim (lookup k m) [ none ↦ false | some owner ↦ str_eq owner id ]

-- The owner of the first of the resources that another account has.
pub foreign_owner : Assoc Text → Text → List Text → Option Text
foreign_owner owners id [] = none
foreign_owner owners id (k ∷ ks) =
    let rest = foreign_owner owners id ks in
    elim (lookup k owners) [
      | none ↦ rest
      | some owner ↦ if str_eq owner id then rest else some owner
    ]

-- for resourceID, owner := range p.resources { if owner == id { delete } }
pub drop_owned : Text → Assoc Text → List Text → Assoc Text → Assoc Text
drop_owned id owners [] m = m
drop_owned id owners (k ∷ ks) m =
    drop_owned id owners ks (if owned_by id owners k then erase k m else m)

-- for resourceID := range resources { p.resources[resourceID] = id }
pub claim : Text → List Text → Assoc Text → Assoc Text
claim id [] m = m
claim id (k ∷ ks) m = claim id ks (insert k id m)

pub index_differs : Assoc Text → Text → Assoc ResourceBinding → Bool
index_differs owners id resources =
    any (λ k. not (owned_by id owners k)) (keys resources)
    || any
        (λ k. owned_by id owners k && (elim (lookup k resources) [ none ↦ true | some b ↦ false ]))
        (keys owners)

abbrev pub generation_after : Account → RuntimeState → ℕ
generation_after a r =
    if not (tier_eq a.runtime.benefit_tier r.benefit_tier)
      || not (str_eq a.runtime.catalog_fingerprint r.catalog_fingerprint)
    then suc a.model_access_generation
    else a.model_access_generation

synced : Pool → ℕ → Account → RuntimeState → Pool
synced p address a r = record p {
  store =
      (put p address (record a {
        runtime = r;
        benefit_tier = r.benefit_tier;
        model_access_generation = generation_after a r;
      })).store;
  resources =
      claim a.id (keys r.resources) (drop_owned a.id p.resources (keys p.resources) p.resources);
}

unfoldable pub sync_account_runtime : Pool → ℕ → Account → RuntimeState → Result (Pool × Bool)
unfolding foreign_owner drop_owned claim index_differs synced
sync_account_runtime p address a r = elim (foreign_owner p.resources a.id (keys r.resources)) [
  | some owner ↦ err (resource_bound owner)
  | none ↦
      if not (tier_eq a.benefit_tier r.benefit_tier)
        || not (runtime_eq a.runtime r)
        || index_differs p.resources a.id r.resources
      then ok (synced p address a r, true)
      else ok (p, false)
]

abbrev pub Mutation : Type 0
Mutation = Pool → Account → RuntimeState → Result Change

abbrev pub is_registered : Pool → ℕ → Account → Bool
is_registered p address a = elim (lookup a.id p.by_id) [
  | none ↦ false
  | some other ↦ other == address
]

abbrev pub stale : Account → Account
stale a = record a {
  state = unavailable;
  state_message = codes "account not found";
  runtime = record (a.runtime) { resources = [] };
}

unfoldable pub mark_stale_account_unavailable : Pool → ℕ → Pool
mark_stale_account_unavailable p address = elim (get_elem? p.store address) [
  | none ↦ p
  | some a ↦
      if is_registered p address a
      then notify (record p {
        store = (put p address (stale a)).store;
        resources = drop_owned a.id p.resources (keys p.resources) p.resources;
      })
      else p
]

abbrev pub is_not_found : Error → Bool
is_not_found account_not_found = true
is_not_found _ = false

-- What is outside an update: what other goroutines do to the pool before the mutation, and between the
-- mutation and the last part; what lockRuntimeState, validatePersistentAccountFiles and readRuntime
-- give, `none` for an account without a file; and the error of writeRuntime.
pub record Outside : Type 0 where
  pub before : Pool → Pool
  pub between : Pool → Pool
  pub file : Result (Option RuntimeState)
  pub write_error : Option Error

-- The last part, when the new state has been written: sync again, apply, announce.
commit : Pool → ℕ → Bool → Change → Pool × Result Bool
commit p address refreshed c = elim (get_elem? p.store address) [
  | none ↦ (p, err account_not_found)
  | some a ↦
      if not (is_registered p address a)
      then (p, err account_not_found)
      else (elim (sync_account_runtime p address a c.working) [
        | err e ↦ (p, err e)
        | ok (q, moved) ↦ elim (get_elem? q.store address) [
          | none ↦ (q, err account_not_found)
          | some b ↦ (
            if c.changed || (refreshed || (moved || c.applies))
                then notify (put q address (c.apply b))
                else put q address (c.apply b),
            ok c.changed,
          )
        ]
      ])
]

abbrev pub error_of_write : Outside → Change → Option Error
error_of_write outside c = if c.changed then outside.write_error else none

-- The mutation, under the mutex; then the write and the last part.
mutated : Pool → ℕ → Outside → RuntimeState → Bool → Mutation → Pool × Result Bool
unfolding commit
mutated p address outside current refreshed mutate = elim (get_elem? p.store address) [
  | none ↦ (p, err account_not_found)
  | some a ↦ elim (mutate p a current) [
    | err e ↦ (p, err e)
    | ok c ↦ elim (error_of_write outside c) [
      | some e ↦ (outside.between p, err e)
      | none ↦ commit (outside.between p) address refreshed c
    ]
  ]
]

-- The state that the mutation starts from: the file's, or without a file the account's own.
abbrev pub current_runtime : Account → Option RuntimeState → RuntimeState
current_runtime a none = record (a.runtime) { benefit_tier = a.benefit_tier }
current_runtime a (some r) = r

-- An account whose files are gone becomes unavailable. The looks at `byID` before and after the files
-- are read are one here.
unfoldable pub update_account : Pool → ℕ → Outside → Mutation → Pool × Result Bool
unfolding mutated mark_stale_account_unavailable
update_account p address outside mutate = elim (get_elem? p.store address) [
  | none ↦ (p, err account_not_found)
  | some a ↦
      if not (is_registered p address a) then (p, err account_not_found) else (elim outside.file [
        | err e ↦ (if is_not_found e then mark_stale_account_unavailable p address else p, err e)
        | ok state ↦ elim (sync_account_runtime p address a (current_runtime a state)) [
          | err e ↦ (p, err e)
          | ok (q, refreshed) ↦ mutated q address outside (current_runtime a state) refreshed mutate
        ]
      ])
]

-- An error after the first sync leaves what that brought in.
pub update_runtime : Pool → Text → Outside → Mutation → Pool × Result Bool
unfolding update_account
update_runtime p account_id outside mutate = elim (lookup (trim_space account_id) p.by_id) [
  | none ↦ (p, err account_not_found)
  | some address ↦ update_account (outside.before p) address outside mutate
]
