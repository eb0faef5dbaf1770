-- ===== src/Pool/Leases/World.antt =====
-- A pool together with the leases that callers hold, and the steps that change them.
use aistudio2api.Prelude.{
  ℕ, zero, suc, ◌+◌, ◌≤◌, ◌≡◌, ◌≢◌, Bool, true, false, not, ◌&&◌, if◌then◌else◌, ◌==◌, some, List,
  ◌∷◌, [], get_elem?, set, get_elem?-set_self, get_elem?-set_ne, Text, arith, ℕ_discrete,
}
use aistudio2api.Pool.Types.{Account, Selection, Pool, Lease, ok}
use aistudio2api.Pool.Leases.{
  TryLock, leased, grant, lease_of, occupy, try_acquire, try_exclusive, release, remove_waiter,
  begin_auth_refresh, end_auth_refresh, add_waiter,
}
use aistudio2api.Pool.Leases.Grants.{try_acquire-Taken}

pub record World : Type 0 where
  pub pool : Pool
  pub leases : List Lease

-- Whether a lease is out, of the given kind, and for the account at the address.
abbrev pub weighs : Bool → ℕ → Lease → ℕ
weighs true address l = if not l.released && (l.exclusive && (l.account == address)) then 1 else 0
weighs false address l =
    if not l.released && (not l.exclusive && (l.account == address)) then 1 else 0

abbrev pub count_leases : Bool → ℕ → List Lease → ℕ
count_leases kind address [] = 0
count_leases kind address (l ∷ ls) = weighs kind address l + count_leases kind address ls

-- The slots of an account agree with `n` shared and `x` exclusive leases that are out.
pub record Accounted (cap : ℕ) (a : Account) (n x : ℕ) : Type 0 where
  pub within : a.active ≤ cap
  pub alone : a.exclusive ≡ true → a.active ≡ 0
  pub shared : a.active ≡ n
  pub owned : (if a.exclusive then 1 else 0) ≡ x

abbrev pub Ledger : World → Type 0
Ledger w =
    (address : ℕ) (a : Account)
    → get_elem? w.pool.store address ≡ some a
    → Accounted w.pool.per_account_concurrency a (count_leases false address w.leases)
        (count_leases true address w.leases)

-- What may happen to a pool: a request gets a slot, a management call gets the whole account, a
-- lease is given back (again, perhaps), a management call begins or ends to wait, a refresh of
-- credentials begins or ends.
pub data Step : World → World → Type 0 where
  acquire :
      {w : World} (s : Selection) (os : Text → TryLock) (now : ℕ) (q : Pool) (l : Lease)
      → try_acquire w.pool s os now ≡ leased q l
      → Step w (record { pool = q; leases = l ∷ w.leases })
  acquire_account :
      {w : World} (id : Text) (os : Text → TryLock) (now : ℕ) (q : Pool) (l : Lease)
      → try_exclusive w.pool os now id ≡ leased q l
      → Step w (record { pool = q; leases = l ∷ w.leases })
  give_back :
      {w : World} (i : ℕ) (l : Lease)
      → get_elem? w.leases i ≡ some l
      → Step w
          (record { pool = (release w.pool l).0; leases = set w.leases i (release w.pool l).1 })
  begin_refresh :
      {w : World} (l : Lease) → Step w (record w { pool = (begin_auth_refresh w.pool l).0 })
  end_refresh :
      {w : World} (address : ℕ) → Step w (record w { pool = end_auth_refresh w.pool address })
  start_waiting :
      {w : World} (id : Text) (q : Pool) (address : ℕ)
      → add_waiter w.pool id ≡ ok (q, address)
      → Step w (record w { pool = q })
  stop_waiting :
      {w : World} (address : ℕ) → Step w (record w { pool = remove_waiter w.pool address })

pub data Reach (w : World) : World → Type 0 where
  here : Reach w w
  next : {u v : World} → Reach w u → Step u v → Reach w v

pub count-set :
    (kind : Bool) (address : ℕ) (ls : List Lease) (i : ℕ) (l m : Lease)
    → get_elem? ls i ≡ some l
    → count_leases kind address (set ls i m) + weighs kind address l
      ≡ count_leases kind address ls + weighs kind address m
count-set kind address [] i l m h = ground arith
count-set kind address (k ∷ ls) zero l m h = let e : k ≡ l = ground arith in rw e (omega arith)
count-set kind address (k ∷ ls) (suc i) l m h = omega (arith, count-set kind address ls i l m h)

-- A change at one address, and the count of leases elsewhere as before.
pub put-Ledger :
    (w : World) (address : ℕ) (a b : Account) (q : Pool) (ls : List Lease)
    → Ledger w
    → get_elem? w.pool.store address ≡ some a
    → q.store ≡ set w.pool.store address b
    → q.per_account_concurrency ≡ w.pool.per_account_concurrency
    → Accounted w.pool.per_account_concurrency b
        (count_leases false address ls)
        (count_leases true address ls)
    → ((kind : Bool) (other : ℕ)
        → address ≢ other
        → count_leases kind other ls ≡ count_leases kind other w.leases)
    → Ledger (record { pool = q; leases = ls })
put-Ledger w address a b q ls h e st cap acc same other c k = elim (ℕ_discrete address other) [
  | yes hit ↦
      let written : c ≡ b = ground (arith, get_elem?-set_self w.pool.store address b a e) in
      rw (cap, written, ← hit) acc
  | no miss ↦
      let old : get_elem? w.pool.store other ≡ some c =
        ground (arith, get_elem?-set_ne w.pool.store address other b miss) in
      rw (cap, same false other miss, same true other miss) (h other c old)
]

pub weighs_other :
    (kind : Bool) (other : ℕ) (l : Lease) → l.account ≢ other → weighs kind other l ≡ 0
weighs_other true other l h = ground arith
weighs_other false other l h = ground arith

pub acquire-Ledger :
    (w : World) (s : Selection) (os : Text → TryLock) (now : ℕ) (q : Pool) (l : Lease)
    → try_acquire w.pool s os now ≡ leased q l
    → Ledger w
    → Ledger (record { pool = q; leases = l ∷ w.leases })
unfolding grant lease_of
acquire-Ledger w s os now q l t h =
    let (indices, _, (c, a, lock, _, _, e, g, qe, le)) = try_acquire-Taken w.pool s os now t in
    put-Ledger w l.account a (occupy a now lock) q (l ∷ w.leases) h e (ground arith) (ground arith)
      (ground (arith, h l.account a e))
      (λ kind other miss. omega (arith, weighs_other kind other l miss))
