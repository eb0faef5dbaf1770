-- ===== src/Pool/Leases/Ledger.antt =====
-- The account slots against the leases that are out: a step relation over the pool's operations on
-- slots, in any order, with the leases that callers hold.
use aistudio2api.Prelude.{
  ℕ, suc, ◌-◌, ◌≡◌, ◌⊎◌, inl, inr, refl, ◌||◌, Option, none, some, Option-cases, Bool-cases,
  get_elem?, set, Text, trim_space, lookup, arith,
}
use aistudio2api.Pool.Types.{Account, Pool, Lease, ok}
use aistudio2api.Pool.Leases.{remove_waiter, begin_auth_refresh, end_auth_refresh, add_waiter}
use aistudio2api.Pool.Leases.Exchange.{acquire_account-Ledger, give_back-Ledger}
use aistudio2api.Pool.Leases.World.{
  Ledger, Reach, Step, World, acquire, acquire-Ledger, acquire_account, begin_refresh, end_refresh,
  give_back, here, next, put-Ledger, start_waiting, stop_waiting,
}

-- An operation that changes neither the slots in use nor the exclusive flag of one account.
abbrev pub KeepsSlots : Pool → Pool → Type 0
KeepsSlots p q =
    (q ≡ p)
    ⊎ ((address : ℕ) × (a : Account) × (b : Account) × (get_elem? p.store address ≡ some a)
        × (q.store ≡ set p.store address b)
        × (q.per_account_concurrency ≡ p.per_account_concurrency)
        × (b.active ≡ a.active)
        × (b.exclusive ≡ a.exclusive))

pub KeepsSlots-Ledger :
    (w : World) (q : Pool) → KeepsSlots w.pool q → Ledger w → Ledger (record w { pool = q })
KeepsSlots-Ledger w q (inl e) h = rw e h
KeepsSlots-Ledger w q (inr (address, a, b, e, st, cap, act, excl)) h =
    put-Ledger w address a b q w.leases h e st cap (ground (arith, h address a e))
      (λ kind other miss. refl)

begin_auth_refresh-KeepsSlots : (p : Pool) (l : Lease) → KeepsSlots p (begin_auth_refresh p l).0
unfolding begin_auth_refresh
begin_auth_refresh-KeepsSlots p l = elim (Option-cases (get_elem? p.store l.account)) [
  | inl gone ↦ inl (ground arith)
  | inr (a, e) ↦ elim (Bool-cases (l.released || (l.exclusive || a.exclusive))) [
    | inl kept ↦ inl (ground arith)
    | inr counted ↦ inr (
      l.account,
      a,
      record a { auth_refreshers = suc a.auth_refreshers },
      e,
      ground arith,
      ground arith,
      refl,
      refl,
    )
  ]
]

end_auth_refresh-KeepsSlots : (p : Pool) (address : ℕ) → KeepsSlots p (end_auth_refresh p address)
unfolding end_auth_refresh
end_auth_refresh-KeepsSlots p address = elim (Option-cases (get_elem? p.store address)) [
  | inl gone ↦ inl (ground arith)
  | inr (a, e) ↦ inr (
    address,
    a,
    record a { auth_refreshers = a.auth_refreshers - 1 },
    e,
    ground arith,
    ground arith,
    refl,
    refl,
  )
]

add_waiter-KeepsSlots :
    (p : Pool) (id : Text) (q : Pool) (address : ℕ)
    → add_waiter p id ≡ ok (q, address)
    → KeepsSlots p q
unfolding add_waiter
add_waiter-KeepsSlots p id q address h = go (lookup (trim_space id) p.by_id) refl
  where
    at :
        (i : ℕ)
        → lookup (trim_space id) p.by_id ≡ some i
        → (o : Option Account) → get_elem? p.store i ≡ o
        → KeepsSlots p q
    at i k none e = absurd (ground arith)
    at i k (some a) e = inr (
      i,
      a,
      record a { exclusive_waiters = suc a.exclusive_waiters },
      e,
      ground arith,
      ground arith,
      refl,
      refl,
    )

    go : (o : Option ℕ) → lookup (trim_space id) p.by_id ≡ o → KeepsSlots p q
    go none k = absurd (ground arith)
    go (some i) k = at i k (get_elem? p.store i) refl

remove_waiter-KeepsSlots : (p : Pool) (address : ℕ) → KeepsSlots p (remove_waiter p address)
unfolding remove_waiter
remove_waiter-KeepsSlots p address = elim (Option-cases (get_elem? p.store address)) [
  | inl gone ↦ inl (ground arith)
  | inr (a, e) ↦ inr (
    address,
    a,
    record a { exclusive_waiters = a.exclusive_waiters - 1 },
    e,
    ground arith,
    ground arith,
    refl,
    refl,
  )
]

pub Step-Ledger : {w v : World} → Step w v → Ledger w → Ledger v
Step-Ledger {w} (acquire s os now q l t) h = acquire-Ledger w s os now q l t h
Step-Ledger {w} (acquire_account id os now q l t) h = acquire_account-Ledger w os now id q l t h
Step-Ledger {w} (give_back i l g) h = give_back-Ledger w i l g h
Step-Ledger {w} (begin_refresh l) h =
    KeepsSlots-Ledger w _ (begin_auth_refresh-KeepsSlots w.pool l) h
Step-Ledger {w} (end_refresh address) h =
    KeepsSlots-Ledger w _ (end_auth_refresh-KeepsSlots w.pool address) h
Step-Ledger {w} (start_waiting id q address e) h =
    KeepsSlots-Ledger w q (add_waiter-KeepsSlots w.pool id q address e) h
Step-Ledger {w} (stop_waiting address) h =
    KeepsSlots-Ledger w _ (remove_waiter-KeepsSlots w.pool address) h

-- After any interleaving of the slot operations that starts with the slots agreeing with the leases
-- out, every account has as many slots in use as shared leases are out for it, at most the limit,
-- and is exclusive exactly if one exclusive lease is out, and then has no slot in use.
pub Reach-Ledger : {w v : World} → Ledger w → Reach w v → Ledger v
Reach-Ledger h here = h
Reach-Ledger h (next r st) = Step-Ledger st (Reach-Ledger h r)
