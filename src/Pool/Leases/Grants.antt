-- ===== src/Pool/Leases/Grants.antt =====
-- What a lease of `tryAcquireLocked` stands for.
use aistudio2api.Prelude.{
  ℕ, ◌<◌, ◌≡◌, ◌⊎◌, inl, inr, refl, subst, Bool, true, false, some, List, ◌∷◌, [], get_elem?, IsIn,
  Text, is_empty, arith,
}
use aistudio2api.Pool.Types.{Channel, Account, ready, Selection, Pool, Lease, Result, ok, err}
use aistudio2api.Pool.Cooldown.{account_cooldown, channel_cooldown_scope, selection_access_scope}
use aistudio2api.Pool.Channels.{channel_supports}
use aistudio2api.Pool.Candidates.{Candidate, selection_indices, channel_candidates}
use aistudio2api.Pool.Leases.{
  TryLock, file_lock, acquire_account_file_lease, Verdict, pass, wait, wait_until, fail, take_slot,
  verdict, Acquired, leased, nothing, failed, grant, lease_of, scan, sooner, try_acquire,
}

-- The account has a free slot, and nothing keeps it from this request.
pub record Grants (p : Pool) (s : Selection) (os : Text → TryLock) (now : ℕ) (channel : Channel)
    (a : Account) (lock : Bool) : Type 0 where
  pub enabled : a.enabled ≡ true
  pub is_open : a.state ≡ ready
  pub supported : (is_empty s.model_id ≡ true) ⊎ (channel_supports p a channel s ≡ true)
  pub not_exclusive : a.exclusive ≡ false
  pub no_waiters : a.exclusive_waiters ≡ 0
  pub no_refreshers : a.auth_refreshers ≡ 0
  pub has_slot : a.active < p.per_account_concurrency
  pub not_cooling :
      (is_empty s.resource_id ≡ false)
      ⊎ ((account_cooldown a (channel_cooldown_scope channel (selection_access_scope s)) now).1
          ≡ false)
  pub file_locked :
      ((a.active ≡ 0) × (acquire_account_file_lease os a.storage_path ≡ file_lock lock))
      ⊎ ((0 < a.active) × (lock ≡ a.lease_lock))

pub verdict_take_slot :
    (p : Pool) (s : Selection) (os : Text → TryLock) (now : ℕ) (c : Candidate) {a : Account}
    {address : ℕ} {lock : Bool}
    → verdict p s os now c ≡ take_slot a address lock
    → Grants p s os now c.channel a lock
      × (get_elem? p.accounts c.index ≡ some (some address))
      × (get_elem? p.store address ≡ some a)
unfolding verdict
verdict_take_slot p s os now c h = ground arith

-- The other way round: such an account is taken.
pub verdict_of_Grants :
    (p : Pool) (s : Selection) (os : Text → TryLock) (now : ℕ) (c : Candidate) (a : Account)
    (address : ℕ) (lock : Bool)
    → Grants p s os now c.channel a lock
    → get_elem? p.accounts c.index ≡ some (some address)
    → get_elem? p.store address ≡ some a
    → verdict p s os now c ≡ take_slot a address lock
unfolding verdict
verdict_of_Grants p s os now c a address lock g i e = ground arith

-- What a lease says of the candidates that were tried.
abbrev pub Taken : Pool → Selection → (Text → TryLock) → ℕ → List Candidate → Pool → Lease → Type 0
Taken p s os now cs q l =
    (c : Candidate) × (a : Account) × (lock : Bool) × IsIn c cs
    × (get_elem? p.accounts c.index ≡ some (some l.account))
    × (get_elem? p.store l.account ≡ some a)
    × Grants p s os now c.channel a lock
    × (q ≡ grant p s now c.channel a l.account lock)
    × (l ≡ lease_of now c.channel a l.account lock)

take_Taken :
    (p : Pool) (s : Selection) (os : Text → TryLock) (now : ℕ) (c : Candidate) (cs : List Candidate)
    (a : Account) (address : ℕ) (lock : Bool)
    → verdict p s os now c ≡ take_slot a address lock
    → Taken p s os now
        (c ∷ cs)
        (grant p s now c.channel a address lock)
        (lease_of now c.channel a address lock)
unfolding lease_of
take_Taken p s os now c cs a address lock h =
    let (g, i, e) = verdict_take_slot p s os now c h in (c, a, lock, inl refl, i, e, g, refl, refl)

-- The same of a result, whatever it is.
abbrev TakenBy : Pool → Selection → (Text → TryLock) → ℕ → List Candidate → Acquired → Type 0
TakenBy p s os now cs (leased q l) = Taken p s os now cs q l
TakenBy p s os now cs (nothing e w) = Unit
TakenBy p s os now cs (failed e) = Unit

later_TakenBy :
    (p : Pool) (s : Selection) (os : Text → TryLock) (now : ℕ) (c : Candidate) (cs : List Candidate)
    (r : Acquired)
    → TakenBy p s os now cs r
    → TakenBy p s os now (c ∷ cs) r
later_TakenBy p s os now c cs (leased q l) (d, a, lock, m, i, b, g, x, y) =
    (d, a, lock, inr m, i, b, g, x, y)
later_TakenBy p s os now c cs (nothing e w) t = tt
later_TakenBy p s os now c cs (failed e) t = tt

scan_step :
    (p : Pool) (s : Selection) (os : Text → TryLock) (now : ℕ) (c : Candidate) (cs : List Candidate)
    (w : Bool) (e : ℕ) (v : Verdict)
    → verdict p s os now c ≡ v
    → ((w' : Bool) (e' : ℕ) → TakenBy p s os now cs (scan p s os now cs w' e'))
    → TakenBy p s os now (c ∷ cs) (scan p s os now (c ∷ cs) w e)
unfolding scan
scan_step p s os now c cs w e pass k ih = rw (k, scan) (later_TakenBy p s os now c cs _ (ih w e))
scan_step p s os now c cs w e wait k ih = rw (k, scan) (later_TakenBy p s os now c cs _ (ih true e))
scan_step p s os now c cs w e (wait_until t) k ih =
    rw (k, scan) (later_TakenBy p s os now c cs _ (ih true (sooner e t)))
scan_step p s os now c cs w e fail k ih = rw (k, scan) tt
scan_step p s os now c cs w e (take_slot a address lock) k ih =
    rw (k, scan) (take_Taken p s os now c cs a address lock k)

scan-TakenBy :
    (p : Pool) (s : Selection) (os : Text → TryLock) (now : ℕ) (cs : List Candidate) (w : Bool)
    (e : ℕ)
    → TakenBy p s os now cs (scan p s os now cs w e)
scan-TakenBy p s os now [] w e = unfold scan in tt
scan-TakenBy p s os now (c ∷ cs) w e =
    scan_step p s os now c cs w e (verdict p s os now c) refl
      (λ w' e'. scan-TakenBy p s os now cs w' e')

-- A lease that `tryAcquireLocked` hands out is for a candidate of the selection whose account is
-- enabled, ready, serves the model on that channel, is not reserved, has a slot left and is not
-- cooling down unless a resource pins it; the pool changes by that one grant.
pub try_acquire-Taken :
    (p : Pool) (s : Selection) (os : Text → TryLock) (now : ℕ) {q : Pool} {l : Lease}
    → try_acquire p s os now ≡ leased q l
    → (indices : List ℕ) × (selection_indices p s ≡ ok indices)
      × Taken p s os now (channel_candidates p indices s) q l
unfolding try_acquire
try_acquire-Taken p s os now {q} {l} h = go (selection_indices p s) refl
  where
    go :
        (r : Result (List ℕ))
        → selection_indices p s ≡ r
        → (indices : List ℕ) × (selection_indices p s ≡ ok indices)
          × Taken p s os now (channel_candidates p indices s) q l
    go (err e) k = absurd (cc (rw (k, try_acquire) at h))
    go (ok indices) k = (
      indices,
      k,
      subst (TakenBy p s os now (channel_candidates p indices s)) (rw (k, try_acquire) at h)
          (scan-TakenBy p s os now (channel_candidates p indices s) false 0),
    )
