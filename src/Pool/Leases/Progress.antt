-- ===== src/Pool/Leases/Progress.antt =====
-- What a refusal of `tryAcquireLocked` means: no candidate had a free slot, and the time it gives is
-- early enough to try again.
use aistudio2api.Prelude.{
  ℕ, ◌≡◌, ◌≢◌, inl, inr, refl, Bool, true, false, some, List, ◌∷◌, [], get_elem?, IsIn, Text, arith,
}
use aistudio2api.Pool.Types.{Account, Selection, Pool, ok}
use aistudio2api.Pool.Candidates.{Candidate, selection_indices, channel_candidates}
use aistudio2api.Pool.Leases.{
  acquire_account_file_lease, TryLock, broken, Verdict, pass, wait, wait_until, fail, take_slot,
  verdict, Acquired, leased, nothing, failed, scan, sooner, try_acquire,
}
use aistudio2api.Pool.Leases.Grants.{Grants, verdict_of_Grants}

abbrev pub IsLeased : Acquired → Type 0
IsLeased (leased q l) = Unit
IsLeased (nothing e w) = ⊥
IsLeased (failed e) = ⊥

verdict-ne-fail :
    (p : Pool) (s : Selection) (os : Text → TryLock) (now : ℕ) (c : Candidate)
    → ((path : Text) → os path ≢ broken)
    → verdict p s os now c ≢ fail
unfolding verdict acquire_account_file_lease
verdict-ne-fail p s os now c h e = grind (arith, h)

finds_step :
    (p : Pool) (s : Selection) (os : Text → TryLock) (now : ℕ) (c d : Candidate)
    (cs : List Candidate) (w : Bool) (e : ℕ) (v : Verdict) {a : Account} {address : ℕ} {lock : Bool}
    → verdict p s os now d ≡ v
    → v ≢ fail
    → verdict p s os now c ≡ take_slot a address lock
    → IsIn c (d ∷ cs)
    → (IsIn c cs → (w' : Bool) (e' : ℕ) → IsLeased (scan p s os now cs w' e'))
    → IsLeased (scan p s os now (d ∷ cs) w e)
unfolding scan
finds_step p s os now c d cs w e pass k f g (inl m) ih = absurd (cc)
finds_step p s os now c d cs w e pass k f g (inr m) ih = rw (k, scan) (ih m w e)
finds_step p s os now c d cs w e wait k f g (inl m) ih = absurd (cc)
finds_step p s os now c d cs w e wait k f g (inr m) ih = rw (k, scan) (ih m true e)
finds_step p s os now c d cs w e (wait_until t) k f g (inl m) ih = absurd (cc)
finds_step p s os now c d cs w e (wait_until t) k f g (inr m) ih =
    rw (k, scan) (ih m true (sooner e t))
finds_step p s os now c d cs w e fail k f g m ih = absurd (f refl)
finds_step p s os now c d cs w e (take_slot b address' lock') k f g m ih = rw (k, scan) tt

scan_finds :
    (p : Pool) (s : Selection) (os : Text → TryLock) (now : ℕ) (c : Candidate) (cs : List Candidate)
    (w : Bool) (e : ℕ) {a : Account} {address : ℕ} {lock : Bool}
    → ((path : Text) → os path ≢ broken)
    → verdict p s os now c ≡ take_slot a address lock
    → IsIn c cs
    → IsLeased (scan p s os now cs w e)
scan_finds p s os now c [] w e h g m = absurd m
scan_finds p s os now c (d ∷ cs) w e h g m =
    finds_step p s os now c d cs w e (verdict p s os now d) refl (verdict-ne-fail p s os now d h) g
      m (λ i w' e'. scan_finds p s os now c cs w' e' h g i)

-- If the file lock never fails and some candidate of the selection has a free slot and is barred by
-- nothing, `tryAcquireLocked` hands out a lease.
pub try_acquire_finds :
    (p : Pool) (s : Selection) (os : Text → TryLock) (now : ℕ) (indices : List ℕ) (c : Candidate)
    (a : Account) (address : ℕ) (lock : Bool)
    → ((path : Text) → os path ≢ broken)
    → selection_indices p s ≡ ok indices
    → IsIn c (channel_candidates p indices s)
    → get_elem? p.accounts c.index ≡ some (some address)
    → get_elem? p.store address ≡ some a
    → Grants p s os now c.channel a lock
    → IsLeased (try_acquire p s os now)
unfolding try_acquire
try_acquire_finds p s os now indices c a address lock h k m i b g =
    rw (k, try_acquire)
      (scan_finds p s os now c (channel_candidates p indices s) false 0 h
        (verdict_of_Grants p s os now c a address lock g i b) m)
