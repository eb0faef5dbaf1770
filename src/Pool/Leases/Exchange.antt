-- ===== src/Pool/Leases/Exchange.antt =====
-- Taking and giving back leases keeps the slots in agreement with the leases out.
use aistudio2api.Prelude.{
  ℕ, ◌+◌, ◌≡◌, ◌≢◌, inl, inr, refl, sym, ◌∙◌, Bool, true, false, Option, none, some, Option-cases,
  Bool-cases, List, ◌∷◌, get_elem?, set, Text, trim_space, lookup, arith,
}
use aistudio2api.Pool.Types.{Account, Pool, Lease}
use aistudio2api.Pool.Leases.{
  TryLock, leased, seize, exclusive_lease, try_exclusive, put, notify, vacate, FileLease, file_lock,
  file_busy, file_error, release, acquire_account_file_lease,
}
use aistudio2api.Pool.Leases.World.{
  Accounted, Ledger, World, count-set, count_leases, put-Ledger, weighs, weighs_other,
}

abbrev pub lock_of : FileLease → Bool
lock_of (file_lock lock) = lock
lock_of file_busy = false
lock_of file_error = false

pub try_exclusive-seize :
    (p : Pool) (os : Text → TryLock) (now : ℕ) (id : Text) {q : Pool} {l : Lease}
    → try_exclusive p os now id ≡ leased q l
    → (a : Account) × (lock : Bool) × (get_elem? p.store l.account ≡ some a)
      × (a.exclusive ≡ false)
      × (a.active ≡ 0)
      × (a.auth_refreshers ≡ 0)
      × (q ≡ put p l.account (seize a lock))
      × (l ≡ exclusive_lease now a l.account)
unfolding try_exclusive exclusive_lease
try_exclusive-seize p os now id {q} {l} h = go (lookup (trim_space id) p.by_id) refl
  where
    Found : Type 0
    Found =
        (a : Account) × (lock : Bool) × (get_elem? p.store l.account ≡ some a)
        × (a.exclusive ≡ false)
        × (a.active ≡ 0)
        × (a.auth_refreshers ≡ 0)
        × (q ≡ put p l.account (seize a lock))
        × (l ≡ exclusive_lease now a l.account)

    at :
        (address : ℕ)
        → lookup (trim_space id) p.by_id ≡ some address
        → (o : Option Account) → get_elem? p.store address ≡ o
        → Found
    at address k none e = absurd (ground arith)
    at address k (some a) e = (
      a,
      lock_of (acquire_account_file_lease os a.storage_path),
      ground arith,
      ground arith,
      ground arith,
      ground arith,
      ground arith,
      ground arith,
    )

    go : (o : Option ℕ) → lookup (trim_space id) p.by_id ≡ o → Found
    go none k = absurd (ground arith)
    go (some address) k = at address k (get_elem? p.store address) refl

pub acquire_account-Ledger :
    (w : World) (os : Text → TryLock) (now : ℕ) (id : Text) (q : Pool) (l : Lease)
    → try_exclusive w.pool os now id ≡ leased q l
    → Ledger w
    → Ledger (record { pool = q; leases = l ∷ w.leases })
unfolding exclusive_lease
acquire_account-Ledger w os now id q l t h =
    let (a, lock, e, x, z, _, qe, le) = try_exclusive-seize w.pool os now id t in
    put-Ledger w l.account a (seize a lock) q (l ∷ w.leases) h e (ground arith) (ground arith)
      (ground (arith, h l.account a e))
      (λ kind other miss. omega (arith, weighs_other kind other l miss))

pub count-set_other :
    (kind : Bool) (other : ℕ) (ls : List Lease) (i : ℕ) (l m : Lease)
    → get_elem? ls i ≡ some l
    → l.account ≢ other
    → m.account ≡ l.account
    → count_leases kind other (set ls i m) ≡ count_leases kind other ls
count-set_other kind other ls i l m g h k = omega (
  arith,
  count-set kind other ls i l m g,
  weighs_other kind other l h,
  weighs_other kind other m (λ e. h (sym k ∙ e)),
)

pub set_same-Ledger :
    (w : World) (i : ℕ) (l : Lease)
    → get_elem? w.leases i ≡ some l
    → Ledger w
    → Ledger (record { pool = w.pool; leases = set w.leases i l })
set_same-Ledger w i l g h address a e = ground (
  arith,
  h address a e,
  count-set false address w.leases i l l g,
  count-set true address w.leases i l l g,
)

pub release_old : (p : Pool) (l : Lease) → l.released ≡ true → release p l ≡ (p, l)
unfolding release
release_old p l h = ground arith

pub release_gone :
    (p : Pool) (l : Lease) → get_elem? p.store l.account ≡ none → release p l ≡ (p, l)
unfolding release
release_gone p l h = ground arith

pub release_new :
    (p : Pool) (l : Lease) (a : Account)
    → l.released ≡ false
    → get_elem? p.store l.account ≡ some a
    → release p l ≡ (notify (put p l.account (vacate l.exclusive a)), record l { released = true })
unfolding release
release_new p l a h e = ground arith

-- Giving back a lease that is out takes just its own slot away.
pub vacate-Accounted :
    (cap : ℕ) (a : Account) (l m : Lease) (n x n' x' : ℕ)
    → l.released ≡ false
    → m.released ≡ true
    → Accounted cap a n x
    → n' + weighs false l.account l ≡ n + weighs false l.account m
    → x' + weighs true l.account l ≡ x + weighs true l.account m
    → Accounted cap (vacate l.exclusive a) n' x'
vacate-Accounted cap a l m n x n' x' new done acc p q = ground arith

pub give_back-Ledger :
    (w : World) (i : ℕ) (l : Lease)
    → get_elem? w.leases i ≡ some l
    → Ledger w
    → Ledger (record { pool = (release w.pool l).0; leases = set w.leases i (release w.pool l).1 })
give_back-Ledger w i l g h = elim (Bool-cases l.released) [
  | inl old ↦ rw (release_old w.pool l old) (set_same-Ledger w i l g h)
  | inr new ↦ elim (Option-cases (get_elem? w.pool.store l.account)) [
    | inl gone ↦ rw (release_gone w.pool l gone) (set_same-Ledger w i l g h)
    | inr (a, e) ↦
        let back : Lease = record l { released = true } in
        rw (release_new w.pool l a new e) (
          put-Ledger w l.account a (vacate l.exclusive a)
            (notify (put w.pool l.account (vacate l.exclusive a))) (set w.leases i back) h e refl
            refl
            (vacate-Accounted _ a l back _ _ _ _ new refl (h l.account a e)
              (count-set false l.account w.leases i l back g)
              (count-set true l.account w.leases i l back g))
            (λ kind other miss. count-set_other kind other w.leases i l back g miss refl))
  ]
]
