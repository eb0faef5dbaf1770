-- ===== src/Pool/Leases.antt =====
-- Taking and giving back account slots: `tryAcquireLocked`, `Release`, `AcquireAccount`,
-- `BeginAuthRefresh` and `classifyCandidatesLocked` of accounts.go. The
-- mutex makes each of these steps atomic. The file lock of an account is another process's concern:
-- what flock's TryLock answers is an argument.
pub mod Grants
pub mod Progress
pub mod World
pub mod Exchange
pub mod Ledger
use aistudio2api.Prelude.{
  ℕ, suc, ◌+◌, ◌-◌, ◌≡◌, Bool, true, false, not, ◌&&◌, ◌||◌, if◌then◌else◌, ◌==◌, ltb, leb, Option,
  none, some, List, ◌∷◌, [], ◌++◌, any, set, get_elem?, Text, codes, str_eq, is_empty, trim_space,
  lookup, insert,
}
use aistudio2api.Pool.Types.{
  Channel, unset, playground, channel_eq, ready, is_ready, Account, Selection, Pool, Lease, Error,
  no_eligible_account, account_not_found, resource_not_found, model_not_found, account_leased,
  lease_failed, Result, ok, err,
}
use aistudio2api.Pool.Catalog.{bare_model_id}
use aistudio2api.Pool.Cooldown.{account_cooldown, channel_cooldown_scope, selection_access_scope}
use aistudio2api.Pool.Channels.{
  deref, channel_supports, account_supports_any_channel, account_channel_cooldown, has_model,
  has_model_catalog, has_model_method, has_model_capability,
}
use aistudio2api.Pool.Candidates.{Candidate, selection_indices, channel_candidates}

-- What TryLock answers: the lock is taken, another process has it, or the call fails.
pub data TryLock : Type 0 where
  taken held broken : TryLock

pub data FileLease : Type 0 where
  file_lock : Bool → FileLease
  file_busy file_error : FileLease

-- An account without a file needs no lock.
unfoldable pub acquire_account_file_lease : (Text → TryLock) → Text → FileLease
acquire_account_file_lease os path =
    if is_empty path
    then file_lock false
    else (elim (os path) [ taken ↦ file_lock true | held ↦ file_busy | broken ↦ file_error ])

-- notifyLocked
abbrev pub notify : Pool → Pool
notify p = record p { changes = suc p.changes }

abbrev pub put : Pool → ℕ → Account → Pool
put p address a = record p { store = set p.store address a }

-- account.exclusive || account.exclusiveWaiters > 0 || account.authRefreshers > 0
abbrev pub is_reserved : Account → Bool
is_reserved a = a.exclusive || ltb 0 a.exclusive_waiters || ltb 0 a.auth_refreshers

abbrev pub external_lease_poll : ℕ
external_lease_poll = 100000000

-- What one candidate comes to: it is passed over, is waited for (until a time, or until a change),
-- gives an error, or is taken with or without a new file lock.
pub data Verdict : Type 0 where
  pass wait : Verdict
  wait_until : ℕ → Verdict
  fail : Verdict
  take_slot : Account → ℕ → Bool → Verdict

file_verdict : Account → ℕ → ℕ → FileLease → Verdict
file_verdict a address now (file_lock lock) = take_slot a address lock
file_verdict a address now file_busy = wait_until (now + external_lease_poll)
file_verdict a address now file_error = fail

-- The tests on an account that is there, in the order of the loop's body.
account_verdict : Pool → Selection → (Text → TryLock) → ℕ → Channel → ℕ → Account → Verdict
unfolding file_verdict
account_verdict p s os now channel address a =
    let cooling =
      account_cooldown a (channel_cooldown_scope channel (selection_access_scope s)) now in
    if not a.enabled || not (is_ready a.state)
    then pass
    else if not (is_empty s.model_id) && not (channel_supports p a channel s)
    then pass
    else if is_reserved a || leb p.per_account_concurrency a.active
    then wait
    else if is_empty s.resource_id && cooling.1
    then wait_until cooling.0.until
    else if a.active == 0
    then file_verdict a address now (acquire_account_file_lease os a.storage_path)
    else take_slot a address a.lease_lock

unfoldable pub verdict : Pool → Selection → (Text → TryLock) → ℕ → Candidate → Verdict
unfolding account_verdict
verdict p s os now c = elim (get_elem? p.accounts c.index) [
  | none ↦ pass
  | some none ↦ pass
  | some (some address) ↦ elim (get_elem? p.store address) [
    | none ↦ pass
    | some a ↦ account_verdict p s os now c.channel address a
  ]
]

-- `earliest` is the sooner of the two, 0 standing for none.
abbrev pub sooner : ℕ → ℕ → ℕ
sooner earliest t = if earliest == 0 || ltb t earliest then t else earliest

pub data Acquired : Type 0 where
  leased : Pool → Lease → Acquired
  nothing : ℕ → Bool → Acquired
  failed : Error → Acquired

-- The account takes one more request.
abbrev pub occupy : Account → ℕ → Bool → Account
occupy a now lock = record a { active = suc a.active; last_used = now; lease_lock = lock }

unfoldable pub grant : Pool → Selection → ℕ → Channel → Account → ℕ → Bool → Pool
grant p s now channel a address lock =
    let q = put p address (occupy a now lock) in
    record q {
      last_picked = insert (selection_access_scope s) a.id q.last_picked;
      last_picked_channel = insert (selection_access_scope s) channel q.last_picked_channel;
    }

unfoldable pub lease_of : ℕ → Channel → Account → ℕ → Bool → Lease
lease_of now channel a address lock = record {
  account = address;
  exclusive = false;
  auth_generation = a.auth_generation;
  model_access_generation = a.model_access_generation;
  checked_at = now;
  refresh_runtime = (a.active == 0) && lock;
  channel = channel;
  released = false;
}

unfoldable pub scan : Pool → Selection → (Text → TryLock) → ℕ → List Candidate → Bool → ℕ → Acquired
scan p s os now [] waitable earliest = nothing earliest waitable
scan p s os now (c ∷ cs) waitable earliest = elim (verdict p s os now c) [
  | pass ↦ scan p s os now cs waitable earliest
  | wait ↦ scan p s os now cs true earliest
  | wait_until t ↦ scan p s os now cs true (sooner earliest t)
  | fail ↦ failed lease_failed
  | take_slot a address lock ↦
      leased (grant p s now c.channel a address lock) (lease_of now c.channel a address lock)
]

unfoldable pub try_acquire : Pool → Selection → (Text → TryLock) → ℕ → Acquired
try_acquire p s os now = elim (selection_indices p s) [
  | err e ↦ failed e
  | ok indices ↦ scan p s os now (channel_candidates p indices s) false 0
]

-- The slot and, with the last of them, the file lock are given back.
abbrev pub unlock : Account → Account
unlock a =
    if (a.active == 0) && (not a.exclusive && (a.auth_refreshers == 0))
    then record a { lease_lock = false }
    else a

-- `l.account.active > 0` guards the decrement, and ℕ's `0 - 1` is 0.
abbrev pub vacate : Bool → Account → Account
vacate true a = unlock (record a { exclusive = false })
vacate false a = unlock (record a { active = a.active - 1 })

-- `once` makes a second call do nothing.
pub release : Pool → Lease → Pool × Lease
release p l = if l.released then (p, l) else (elim (get_elem? p.store l.account) [
  | none ↦ (p, l)
  | some a ↦ (notify (put p l.account (vacate l.exclusive a)), record l { released = true })
])

-- Entering `AcquireAccount`: the waiter is counted, so that no new slot is given out.
pub add_waiter : Pool → Text → Result (Pool × ℕ)
add_waiter p account_id = elim (lookup (trim_space account_id) p.by_id) [
  | none ↦ err account_not_found
  | some address ↦ elim (get_elem? p.store address) [
    | none ↦ err account_not_found
    | some a ↦
        ok (
          notify (put p address (record a { exclusive_waiters = suc a.exclusive_waiters })),
          address,
        )
  ]
]

-- Leaving it, by the deferred function.
pub remove_waiter : Pool → ℕ → Pool
remove_waiter p address = elim (get_elem? p.store address) [
  | none ↦ p
  | some a ↦ notify (put p address (record a { exclusive_waiters = a.exclusive_waiters - 1 }))
]

abbrev pub seize : Account → Bool → Account
seize a lock = record a { exclusive = true; lease_lock = lock }

pub exclusive_lease : ℕ → Account → ℕ → Lease
exclusive_lease now a address = record {
  account = address;
  exclusive = true;
  auth_generation = a.auth_generation;
  model_access_generation = a.model_access_generation;
  checked_at = now;
  refresh_runtime = false;
  channel = unset;
  released = false;
}

-- One round of the loop of `AcquireAccount`.
pub try_exclusive : Pool → (Text → TryLock) → ℕ → Text → Acquired
try_exclusive p os now account_id = elim (lookup (trim_space account_id) p.by_id) [
  | none ↦ failed account_not_found
  | some address ↦ elim (get_elem? p.store address) [
    | none ↦ failed account_not_found
    | some a ↦
        if not a.exclusive && ((a.auth_refreshers == 0) && (a.active == 0))
        then (elim (acquire_account_file_lease os a.storage_path) [
          | file_lock lock ↦ leased (put p address (seize a lock)) (exclusive_lease now a address)
          | file_busy ↦ nothing 0 true
          | file_error ↦ failed lease_failed
        ])
        else nothing 0 true
  ]
]

-- BeginAuthRefresh: a refresh of the credentials keeps the account from new slots. The second part
-- of the result says whether the refresh was let in.
pub begin_auth_refresh : Pool → Lease → Pool × Bool
begin_auth_refresh p l = elim (get_elem? p.store l.account) [
  | none ↦ (p, false)
  | some a ↦
      if l.released
      then (p, false)
      else if l.exclusive
      then (p, true)
      else if a.exclusive
      then (p, false)
      else (notify (put p l.account (record a { auth_refreshers = suc a.auth_refreshers })), true)
]

-- The function that it returns, for a lease that shares the account.
pub end_auth_refresh : Pool → ℕ → Pool
end_auth_refresh p address = elim (get_elem? p.store address) [
  | none ↦ p
  | some a ↦ notify (put p address (record a { auth_refreshers = a.auth_refreshers - 1 }))
]

-- `validateSelectionLocked`; the message names the model.
unfoldable pub validate_selection : Pool → Selection → Option Error
validate_selection p s =
    let model_id = bare_model_id s.model_id in
    if is_empty model_id
    then none
    else if not (has_model_catalog p)
    then some no_eligible_account
    else if not (has_model p model_id)
    then some (model_not_found model_id)
    else if not (is_empty s.method) && not (has_model_method p model_id s.method)
    then some (model_not_found model_id)
    else if not (is_empty s.capability) && not (has_model_capability p model_id s.capability)
    then some (model_not_found model_id)
    else none

-- AccountLease.Channel
abbrev pub lease_channel : Lease → Channel
lease_channel l = if channel_eq l.channel unset then playground else l.channel
