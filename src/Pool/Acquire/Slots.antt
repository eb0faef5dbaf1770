-- ===== src/Pool/Acquire/Slots.antt =====
-- The slots while a lease is checked and given back.
use aistudio2api.Prelude.{
  ℕ, ◌≡◌, inl, inr, refl, Bool, true, false, not, if◌then◌else◌, Bool-cases, Option-cases, if_cases,
  Option, some, List, ◌∷◌, get_elem?, arith,
}
use aistudio2api.Pool.Types.{RuntimeState, Account, Selection, Pool, Lease, Result, ok, err}
use aistudio2api.Pool.Leases.{leased, lease_of, notify, release, try_acquire}
use aistudio2api.Pool.Leases.Grants.{try_acquire-Taken}
use aistudio2api.Pool.Leases.World.{World, Ledger, acquire-Ledger, weighs, weighs_other}
use aistudio2api.Pool.Leases.Exchange.{give_back-Ledger, release_gone, release_new}
use aistudio2api.Pool.Leases.Ledger.{KeepsSlots, KeepsSlots-Ledger}
use aistudio2api.Pool.Resources.{current_runtime, sync_account_runtime}
use aistudio2api.Pool.Resources.Slots.{sync-KeepsSlots}
use aistudio2api.Pool.Acquire.{
  refresh_account_runtime, validate_lease, refresh_and_validate_lease, Turn, Settled, hand_back,
  is_free, settle_checked, settle,
}
use aistudio2api.Pool.Resources.{is_registered, stale, mark_stale_account_unavailable, is_not_found}
use aistudio2api.Pool.Acquire.Rounds.{Settles}

-- The world with one more lease out.
abbrev pub hold : World → Lease → World
hold w l = record w { leases = l ∷ w.leases }

-- What comes from outside keeps the account of slots, also while this request holds a lease.
pub record IsFair (t : Turn) : Type 0 where
  pub meanwhile_keeps :
      (w : World) (l : Lease) → Ledger (hold w l) → Ledger (hold (t.meanwhile w) l)
  pub refresh_keeps : (w : World) → Ledger w → Ledger (t.refresh_selection w).0
  pub wait_keeps : (w : World) → Ledger w → Ledger (t.wait w)

announced_lem :
    (w : World) (q : Pool) (changed : Bool)
    → Ledger (record w { pool = q })
    → Ledger (record w { pool = if changed then notify q else q })
announced_lem w q false h = h
announced_lem w q true h = h

synced_lem :
    (w : World) (address : ℕ) (a : Account) (state : Option RuntimeState)
    → get_elem? w.pool.store address ≡ some a
    → is_registered w.pool address a ≡ true
    → Ledger w
    → (x : Result (Pool × Bool))
    → sync_account_runtime w.pool address a (current_runtime a state) ≡ x
    → Ledger (record w { pool = (refresh_account_runtime w.pool address (ok state)).0 })
unfolding refresh_account_runtime
synced_lem w address a state e on l (err x) h =
    let same : (refresh_account_runtime w.pool address (ok state)).0 ≡ w.pool =
      ground (arith, e, on, h) in
    rw same l
synced_lem w address a state e on l (ok (q, changed)) h =
    let same : (refresh_account_runtime w.pool address (ok state)).0
        ≡ (if changed then notify q else q) =
      ground (arith, e, on, h) in
    rw same (
      announced_lem w q changed (
        KeepsSlots-Ledger w q
          (sync-KeepsSlots w.pool address a (current_runtime a state) q changed e h) l))

unread_lem :
    (w : World) (address : ℕ) (file : Result (Option RuntimeState))
    → Ledger w
    → (refresh_account_runtime w.pool address file).0 ≡ w.pool
    → Ledger (record w { pool = (refresh_account_runtime w.pool address file).0 })
unread_lem w address file l same = rw same l

pub refresh-Ledger :
    (w : World) (address : ℕ) (file : Result (Option RuntimeState))
    → Ledger w
    → Ledger (record w { pool = (refresh_account_runtime w.pool address file).0 })
unfolding refresh_account_runtime
refresh-Ledger w address (err x) l =
    unread_lem w address (err x) l (elim (Option-cases (get_elem? w.pool.store address)) [
      | inl gone ↦ ground (arith, gone)
      | inr (a, e) ↦ ground (arith, e)
    ])
refresh-Ledger w address (ok state) l = elim (Option-cases (get_elem? w.pool.store address)) [
  | inl gone ↦ unread_lem w address (ok state) l (ground (arith, gone))
  | inr (a, e) ↦ elim (Bool-cases (is_registered w.pool address a)) [
    | inr off ↦ unread_lem w address (ok state) l (ground (arith, e, off))
    | inl on ↦
        synced_lem w address a state e on l
          (sync_account_runtime w.pool address a (current_runtime a state)) refl
  ]
]

mark-KeepsSlots : (p : Pool) (address : ℕ) → KeepsSlots p (mark_stale_account_unavailable p address)
unfolding mark_stale_account_unavailable
mark-KeepsSlots p address = elim (Option-cases (get_elem? p.store address)) [
  | inl gone ↦ inl (ground (arith))
  | inr (a, e) ↦ elim (Bool-cases (is_registered p address a)) [
    | inl on ↦ inr (address, a, stale a, e, ground (arith), ground (arith), refl, refl)
    | inr off ↦ inl (ground (arith))
  ]
]

drop-Ledger :
    (p : Pool) (m : Lease) (ls : List Lease)
    → Ledger (record { pool = p; leases = m ∷ ls })
    → ((kind : Bool) (address : ℕ) (a : Account)
        → get_elem? p.store address ≡ some a
        → weighs kind address m ≡ 0)
    → Ledger (record { pool = p; leases = ls })
drop-Ledger p m ls h z address a e =
    let acc = h address a e in
    record {
      within = acc.within;
      alone = acc.alone;
      shared = omega (arith, acc.shared, z false address a e);
      owned = omega (arith, acc.owned, z true address a e);
    }

released_weight :
    (kind : Bool) (address : ℕ) (m : Lease) → m.released ≡ true → weighs kind address m ≡ 0
released_weight true address m h = ground (arith)
released_weight false address m h = ground (arith)

hand_back-Ledger :
    (w : World) (l : Lease) → l.released ≡ false → Ledger (hold w l) → Ledger (hand_back w l)
hand_back-Ledger w l new h = elim (Option-cases (get_elem? w.pool.store l.account)) [
  | inl gone ↦ rw (release_gone w.pool l gone) (
      drop-Ledger w.pool l w.leases h (λ kind address a e.
        weighs_other kind address l (λ same. absurd (ground (arith, gone, e, same)))))
  | inr (a, e) ↦
      let back : Ledger
          (record { pool = (release w.pool l).0; leases = (release w.pool l).1 ∷ w.leases }) =
        give_back-Ledger (hold w l) 0 l refl h in
      drop-Ledger (release w.pool l).0 (release w.pool l).1 w.leases back (λ kind address b f.
        released_weight kind address (release w.pool l).1 (rw (release_new w.pool l a new e) refl))
]

-- A lease that takes the same slot as another.
abbrev pub SameSlot : Lease → Lease → Type 0
SameSlot l m = (m.account ≡ l.account) × (m.exclusive ≡ l.exclusive) × (m.released ≡ l.released)

same_weight :
    (kind : Bool) (address : ℕ) (l m : Lease)
    → SameSlot l m
    → weighs kind address m ≡ weighs kind address l
same_weight true address l m h = ground (arith)
same_weight false address l m h = ground (arith)

exchange-Ledger : (w : World) (l m : Lease) → SameSlot l m → Ledger (hold w l) → Ledger (hold w m)
exchange-Ledger w l m s h address a e =
    let acc = h address a e in
    record {
      within = acc.within;
      alone = acc.alone;
      shared = omega (arith, acc.shared, same_weight false address l m s);
      owned = omega (arith, acc.owned, same_weight true address l m s);
    }

validate_lease-SameSlot :
    (p : Pool) (l : Lease) (s : Selection) (now : ℕ) (m : Lease) (eligible : Bool)
    → validate_lease p l s now ≡ ok (m, eligible)
    → SameSlot l m
unfolding validate_lease
validate_lease-SameSlot p l s now m eligible h = elim (Option-cases (get_elem? p.store l.account)) [
  | inl gone ↦ absurd (ground (arith))
  | inr (a, e) ↦
      let fresh : m ≡ record l { model_access_generation = a.model_access_generation } =
        ground (arith, h, e) in
      rw fresh (refl, refl, refl)
]

checked-SameSlot :
    (p : Pool) (l : Lease) (s : Selection) (file : Result (Option RuntimeState)) (now : ℕ)
    (m : Lease) (eligible : Bool)
    → (refresh_and_validate_lease p l s file now).1 ≡ ok (m, eligible)
    → SameSlot l m
unfolding refresh_and_validate_lease
checked-SameSlot p l s file now m eligible h = elim (Bool-cases l.refresh_runtime) [
  | inr seen ↦ validate_lease-SameSlot p l s now m eligible (ground (arith, h, seen))
  | inl unseen ↦ elim (Option-cases (refresh_account_runtime p l.account file).1) [
    | inr (x, e) ↦ absurd (ground (arith, h, unseen, e))
    | inl e ↦
        validate_lease-SameSlot (refresh_account_runtime p l.account file).0
          (record l { refresh_runtime = false }) s now m eligible (ground (arith, h, unseen, e))
  ]
]

checked-Ledger :
    (w : World) (l : Lease) (s : Selection) (file : Result (Option RuntimeState)) (now : ℕ)
    → Ledger (hold w l)
    → Ledger (hold (record w { pool = (refresh_and_validate_lease w.pool l s file now).0 }) l)
unfolding refresh_and_validate_lease
checked-Ledger w l s file now h = elim (Bool-cases l.refresh_runtime) [
  | inr seen ↦
      let same : (refresh_and_validate_lease w.pool l s file now).0 ≡ w.pool =
        ground (arith, seen) in
      rw same h
  | inl unseen ↦
      let same : (refresh_and_validate_lease w.pool l s file now).0
          ≡ (refresh_account_runtime w.pool l.account file).0 =
        elim (Option-cases (refresh_account_runtime w.pool l.account file).1) [
          | inr (x, e) ↦ ground (arith, unseen, e)
          | inl e ↦ ground (arith, unseen, e)
        ] in
      rw same (refresh-Ledger (hold w l) l.account file h)
]

abbrev IsSettled : Settled → Type 0
IsSettled = Settles Ledger (λ w l. Ledger (hold w l))

settle_checked-Settles :
    (s : Selection) (w : World) (l : Lease) (r : Result (Lease × Bool))
    → l.released ≡ false
    → Ledger (hold w l)
    → ((fresh : Lease) (eligible : Bool) → r ≡ ok (fresh, eligible) → SameSlot l fresh)
    → IsSettled (settle_checked s w l r)
unfolding settle_checked
settle_checked-Settles s w l (ok (fresh, true)) new h same =
    exchange-Ledger w l fresh (same fresh true refl) h
settle_checked-Settles s w l (ok (fresh, false)) new h same = hand_back-Ledger w l new h
settle_checked-Settles s w l (err e) new h same =
    let back = hand_back-Ledger w l new h in
    let marked =
      KeepsSlots-Ledger (hand_back w l) _ (mark-KeepsSlots (release w.pool l).0 l.account) back in
    if_cases IsSettled (not (is_not_found e)) (λ x. back)
      (λ x. if_cases IsSettled (is_free s) (λ y. marked) (λ y. marked))

pub settle-Settles :
    (s : Selection) (t : Turn) (w : World) (l : Lease)
    → IsFair t
    → l.released ≡ false
    → Ledger (hold w l)
    → Settles Ledger (λ v m. Ledger (hold v m)) (settle s t w l)
unfolding settle
settle-Settles s t w l f new h =
    let v = t.meanwhile w in
    let r = refresh_and_validate_lease v.pool l s t.file t.later in
    settle_checked-Settles s (record v { pool = r.0 }) l r.1 new
      (checked-Ledger v l s t.file t.later (f.meanwhile_keeps w l h))
      (checked-SameSlot v.pool l s t.file t.later)

pub acquired-Ledger :
    (s : Selection) (t : Turn) (w : World) (q : Pool) (l : Lease)
    → try_acquire w.pool s t.os t.now ≡ leased q l
    → Ledger w
    → (l.released ≡ false) × Ledger (hold (record w { pool = q }) l)
unfolding lease_of
acquired-Ledger s t w q l e h =
    let (indices, _, (c, a, lock, _, _, _, _, _, le)) = try_acquire-Taken w.pool s t.os t.now e in
    (ground (arith, le), acquire-Ledger w s t.os t.now q l e h)
