-- ===== src/Pool/Membership.antt =====
-- Which accounts the pool has: `Add` and `Remove` of accounts.go.
pub mod Leaving
pub mod Indexes
pub mod Synced
pub mod Steps
mod Tests
use aistudio2api.Prelude.{
  ℕ, Bool, true, false, not, ◌&&◌, ◌||◌, if◌then◌else◌, ◌==◌, ltb, Option, none, some, List, ◌∷◌,
  [], ◌++◌, length, get_elem?, Text, str_eq, is_empty, trim_space, Assoc, lookup, insert, erase,
  has_key,
}
use aistudio2api.Pool.Types.{
  RuntimeState, Account, Pool, Error, account_not_found, account_leased, account_not_initialized,
  account_exists, resource_bound, Result, ok, err,
}
use aistudio2api.Pool.Leases.{notify, put}
use aistudio2api.Pool.Resources.{keys, claim, drop_owned}

-- The owner of the first of the resources that has one.
unfoldable pub first_owner : Assoc Text → List Text → Option Text
first_owner owners [] = none
first_owner owners (k ∷ ks) =
    let rest = first_owner owners ks in
    elim (lookup k owners) [ none ↦ rest | some owner ↦ some owner ]

-- A nil map is an empty one.
abbrev pub with_file : Account → Option RuntimeState → Account
with_file a none = a
with_file a (some r) = record a { runtime = r; benefit_tier = r.benefit_tier }

abbrev pub joined : Pool → Account → Pool
joined p a = notify (record p {
  store = p.store ++ a ∷ [];
  accounts = p.accounts ++ some (length p.store) ∷ [];
  by_id = insert a.id (length p.store) p.by_id;
  resources = claim a.id (keys a.runtime.resources) p.resources;
})

-- `file` is what the locks, the checks of files and readRuntime give, `none` for an account without_account
-- a ConfigPath. The account is a new object, which goes to the end of the store.
unfoldable pub add : Pool → Account → Result (Option RuntimeState) → Result Pool
unfolding first_owner
add p account (err e) =
    if is_empty (trim_space account.id) then err account_not_initialized else err e
add p account (ok file) =
    let a = with_file account file in
    if is_empty (trim_space account.id)
    then err account_not_initialized
    else if has_key account.id p.by_id
    then err account_exists
    else (elim (first_owner p.resources (keys a.runtime.resources)) [
      | some owner ↦ err (resource_bound owner)
      | none ↦ ok (joined p a)
    ])

-- The first part of `Remove`, until the mutex is given up for the file locks; a function that deletes
-- the directory is given.
unfoldable pub begin_remove : Pool → Text → Result (Pool × ℕ)
begin_remove p account_id = elim (lookup (trim_space account_id) p.by_id) [
  | none ↦ err account_not_found
  | some address ↦ elim (get_elem? p.store address) [
    | none ↦ err account_not_found
    | some a ↦
        if a.exclusive || (ltb 0 a.exclusive_waiters || ltb 0 a.active)
        then err account_leased
        else ok (notify (put p address (record a { exclusive = true })), address)
  ]
]

-- Where a lock or the deletion of the directory fails.
unfoldable pub cancel_remove : Pool → ℕ → Pool
cancel_remove p address = elim (get_elem? p.store address) [
  | none ↦ p
  | some a ↦ notify (put p address (record a { exclusive = false }))
]

-- The loop over the accounts, which takes out the first with the id.
unfoldable pub without_account : Text → List Account → List (Option ℕ) → List (Option ℕ)
without_account id store [] = []
without_account id store (none ∷ rest) = none ∷ without_account id store rest
without_account id store (some address ∷ rest) =
    let later = some address ∷ without_account id store rest in
    elim (get_elem? store address) [
      | none ↦ later
      | some a ↦ if str_eq a.id id then rest else later
    ]

-- The last part, once the directory is deleted.
unfoldable pub end_remove : Pool → Text → Pool
unfolding without_account
end_remove p account_id =
    let id = trim_space account_id in
    notify (record p {
      resources = drop_owned id p.resources (keys p.resources) p.resources;
      by_id = erase id p.by_id;
      accounts = without_account id p.store p.accounts;
    })
