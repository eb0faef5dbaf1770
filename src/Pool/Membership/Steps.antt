-- ===== src/Pool/Membership/Steps.antt =====
-- The indexes along any sequence of changes to the accounts of a pool.
use aistudio2api.Prelude.{ℕ, ◌≡◌, Bool, Option, some, get_elem?, Text, lookup}
use aistudio2api.Pool.Types.{RuntimeState, Account, Pool, Result, ok}
use aistudio2api.Pool.Membership.{add, begin_remove, cancel_remove, end_remove}
use aistudio2api.Pool.Resources.{sync_account_runtime}
use aistudio2api.Pool.Membership.Indexes.{IsIndexed, add-IsIndexed}
use aistudio2api.Pool.Membership.Leaving.{
  begin_remove-IsIndexed, cancel_remove-IsIndexed, end_remove-IsIndexed,
}
use aistudio2api.Pool.Membership.Synced.{sync-IsIndexed}

-- What `Add`, `Remove` and the sync of a registered account do to a pool, a part under the mutex at a time.
pub data MemberStep : Pool → Pool → Type 0 where
  added :
      {p q : Pool} (a : Account) (file : Result (Option RuntimeState))
      → add p a file ≡ ok q
      → MemberStep p q
  began :
      {p q : Pool} (id : Text) (address : ℕ) → begin_remove p id ≡ ok (q, address) → MemberStep p q
  cancelled : {p : Pool} (address : ℕ) → MemberStep p (cancel_remove p address)
  syncs :
      {p q : Pool} (address : ℕ) (a : Account) (r : RuntimeState) (changed : Bool)
      → get_elem? p.store address ≡ some a
      → lookup a.id p.by_id ≡ some address
      → sync_account_runtime p address a r ≡ ok (q, changed)
      → MemberStep p q
  ended : {p : Pool} (id : Text) → MemberStep p (end_remove p id)

pub data MemberSteps (p : Pool) : Pool → Type 0 where
  none_yet : MemberSteps p p
  then_one : {q r : Pool} → MemberSteps p q → MemberStep q r → MemberSteps p r

MemberStep-IsIndexed : (p q : Pool) → MemberStep p q → IsIndexed p → IsIndexed q
MemberStep-IsIndexed p q (added a file h) v = add-IsIndexed p a file q h v
MemberStep-IsIndexed p q (began id address h) v = begin_remove-IsIndexed p id q address h v
MemberStep-IsIndexed p q (cancelled address) v = cancel_remove-IsIndexed p address v
MemberStep-IsIndexed p q (syncs address a r changed e n h) v =
    sync-IsIndexed p address a r q changed e n h v
MemberStep-IsIndexed p q (ended id) v = end_remove-IsIndexed p id v

-- `Add`, `Remove` and the sync of runtime states, however their parts interleave, keep the two indexes in agreement with the
-- accounts: an id leads to the account with that id, and a resource belongs to the account, and that one
-- alone, whose runtime state lists it.
pub MemberSteps-IsIndexed : (p q : Pool) → IsIndexed p → MemberSteps p q → IsIndexed q
MemberSteps-IsIndexed p q v none_yet = v
MemberSteps-IsIndexed p q v (then_one {q = r} cs c) =
    MemberStep-IsIndexed r q c (MemberSteps-IsIndexed p r v cs)
