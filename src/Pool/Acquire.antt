-- ===== src/Pool/Acquire.antt =====
-- `AcquireFor`, `TryAcquireFor`, `refreshAndValidateLease` and `refreshAccountRuntime` of
-- accounts.go. A list of turns says what comes from outside in the
-- rounds of the loop; the lock of a file that is given back is taken to be unlocked.
pub mod Slots
pub mod Rounds
pub mod Balance
pub mod Validity
mod Tests
use aistudio2api.Prelude.{
  ℕ, Bool, true, false, not, ◌&&◌, ◌||◌, if◌then◌else◌, ◌==◌, Option, none, some, List, ◌∷◌, [],
  get_elem?, Text, codes, str_eq, is_empty, trim_space, lookup,
}
use aistudio2api.Pool.Types.{
  RuntimeState, Account, unavailable, Selection, Pool, Lease, Error, no_eligible_account,
  account_not_found, resource_not_found, Result, ok, err,
}
use aistudio2api.Pool.Cooldown.{account_cooldown, channel_cooldown_scope, selection_access_scope}
use aistudio2api.Pool.Channels.{channel_supports}
use aistudio2api.Pool.Leases.{
  TryLock, Acquired, leased, nothing, failed, notify, put, release, try_acquire, validate_selection,
  lease_channel,
}
use aistudio2api.Pool.Leases.World.{World}
use aistudio2api.Pool.Resources.{
  is_registered, is_not_found, mark_stale_account_unavailable, current_runtime, drop_owned, keys,
  sync_account_runtime,
}

-- `file` is what lockRuntimeState, validatePersistentAccountFiles and readRuntime give, `none` for an
-- account without a file. The look at `byID` before them is the same as the one after.
unfoldable pub refresh_account_runtime :
    Pool → ℕ → Result (Option RuntimeState) → Pool × Option Error
unfolding sync_account_runtime
refresh_account_runtime p address file = elim (get_elem? p.store address) [
  | none ↦ (p, some account_not_found)
  | some a ↦ if not (is_registered p address a) then (p, some account_not_found) else (elim file [
    | err e ↦ (p, some e)
    | ok state ↦ elim (sync_account_runtime p address a (current_runtime a state)) [
      | err e ↦ (p, some e)
      | ok (q, changed) ↦ (if changed then notify q else q, none)
    ]
  ])
]

abbrev pub owns : Pool → Text → Account → Bool
owns p resource_id a = elim (lookup resource_id p.resources) [
  | none ↦ false
  | some owner ↦ str_eq owner a.id
]

-- The part of `refreshAndValidateLease` under the mutex.
unfoldable pub validate_lease : Pool → Lease → Selection → ℕ → Result (Lease × Bool)
validate_lease p l s now = elim (get_elem? p.store l.account) [
  | none ↦ err no_eligible_account
  | some a ↦
      let fresh = record l { model_access_generation = a.model_access_generation } in
      if not (is_registered p l.account a)
      then err no_eligible_account
      else if not (is_empty (trim_space s.resource_id)) && not (owns p (trim_space s.resource_id) a)
      then err resource_not_found
      else if not (is_empty s.model_id) && not (channel_supports p a (lease_channel l) s)
      then ok (fresh, false)
      else if is_empty s.resource_id
          && (account_cooldown a
              (channel_cooldown_scope (lease_channel l) (selection_access_scope s)) now).1
      then ok (fresh, false)
      else ok (fresh, true)
]

unfoldable pub refresh_and_validate_lease :
    Pool → Lease → Selection → Result (Option RuntimeState) → ℕ → Pool × Result (Lease × Bool)
unfolding refresh_account_runtime validate_lease
refresh_and_validate_lease p l s file now =
    if l.refresh_runtime
    then (let (q, failure) = refresh_account_runtime p l.account file in
        elim failure [
          | some e ↦ (q, err e)
          | none ↦ (q, validate_lease q (record l { refresh_runtime = false }) s now)
        ])
    else (p, validate_lease p l s now)

-- One round's share of the world: the clock and the file locks at the first look, what other
-- goroutines do before the lease is checked, the file of the account and the clock then,
-- `refreshSelectionRuntimes`, and the wait with what others do in it, which the context may end.
pub record Turn : Type 0 where
  pub now : ℕ
  pub os : Text → TryLock
  pub meanwhile : World → World
  pub file : Result (Option RuntimeState)
  pub later : ℕ
  pub refresh_selection : World → World × Option Error
  pub wait : World → World
  pub is_done : Bool

pub data Settled : Type 0 where
  kept : World → Lease → Settled
  again : World → Settled
  gave_up : World → Error → Settled

abbrev pub is_free : Selection → Bool
is_free s = is_empty s.account_id && is_empty s.resource_id

abbrev pub hand_back : World → Lease → World
hand_back w l = record w { pool = (release w.pool l).0 }

-- What follows the check of a lease, `w` holding the leases of others.
unfoldable pub settle_checked : Selection → World → Lease → Result (Lease × Bool) → Settled
unfolding mark_stale_account_unavailable
settle_checked s w l (ok (fresh, eligible)) =
    if eligible then kept w fresh else again (hand_back w l)
settle_checked s w l (err e) =
    let back = hand_back w l in
    let marked = record back { pool = mark_stale_account_unavailable back.pool l.account } in
    if not (is_not_found e)
    then gave_up back e
    else if is_free s
    then again marked
    else gave_up marked e

unfoldable pub settle : Selection → Turn → World → Lease → Settled
unfolding refresh_and_validate_lease settle_checked
settle s t w l =
    let v = t.meanwhile w in
    let (q, result) = refresh_and_validate_lease v.pool l s t.file t.later in
    settle_checked s (record v { pool = q }) l result

-- `canceled` stands for ctx.Err(), `unsettled` for rounds that the list of turns says nothing of.
pub data Answer : Type 0 where
  granted : World → Lease → Answer
  none_now : World → Bool → Answer
  error : World → Error → Answer
  accounts_not_ready canceled unsettled : World → Answer

abbrev pub resume : (World → Answer) → Settled → Answer
resume next (kept w fresh) = granted w fresh
resume next (again w) = next w
resume next (gave_up w e) = error w e

abbrev pub proceed : (World → Answer) → World × Option Error → Answer
proceed next (w, none) = next w
proceed next (w, some e) = error w e

abbrev pub unless_invalid : World → Option Error → Answer → Answer
unless_invalid w none answer = answer
unless_invalid w (some e) answer = error w e

abbrev pub wants_refresh : Bool → ℕ → Bool → Bool
wants_refresh refreshed earliest waitable = not refreshed && (not waitable || not (earliest == 0))

-- The rest of a round of `TryAcquireFor`, and of `AcquireFor`, `next` being the rounds after it.
unfoldable pub try_turn :
    Selection → Bool → World → Turn → (Bool → World → Answer) → Acquired → Answer
unfolding settle
try_turn s refreshed w t next (failed e) = error w e
try_turn s refreshed w t next (nothing earliest waitable) =
    if wants_refresh refreshed earliest waitable
    then proceed (next true) (t.refresh_selection w)
    else none_now w waitable
try_turn s refreshed w t next (leased q l) =
    resume (next refreshed) (settle s t (record w { pool = q }) l)

unfoldable pub turn : Selection → Bool → World → Turn → (Bool → World → Answer) → Acquired → Answer
unfolding settle
turn s refreshed w t next (failed e) = error w e
turn s refreshed w t next (nothing earliest waitable) =
    if wants_refresh refreshed earliest waitable
    then proceed (next true) (t.refresh_selection w)
    else if not waitable
    then accounts_not_ready w
    else if t.is_done
    then canceled (t.wait w)
    else next refreshed (t.wait w)
turn s refreshed w t next (leased q l) =
    resume (next refreshed) (settle s t (record w { pool = q }) l)

unfoldable pub try_rounds : Selection → Bool → World → List Turn → Answer
unfolding try_turn
try_rounds s refreshed w [] = unsettled w
try_rounds s refreshed w (t ∷ ts) = unless_invalid w (validate_selection w.pool s) (
    try_turn s refreshed w t (λ again_refreshed v. try_rounds s again_refreshed v ts)
      (try_acquire w.pool s t.os t.now))

unfoldable pub rounds : Selection → Bool → World → List Turn → Answer
unfolding turn
rounds s refreshed w [] = unsettled w
rounds s refreshed w (t ∷ ts) = unless_invalid w (validate_selection w.pool s) (
    turn s refreshed w t (λ again_refreshed v. rounds s again_refreshed v ts)
      (try_acquire w.pool s t.os t.now))

-- Both begin with `refreshResource`, which is an argument. The flag that goes with a lease or an error
-- is left out.
unfoldable pub try_acquire_for :
    (World → World × Option Error) → Selection → World → List Turn → Answer
unfolding try_rounds
try_acquire_for refresh_resource s w ts =
    if is_empty s.resource_id
    then try_rounds s false w ts
    else proceed (λ v. try_rounds s false v ts) (refresh_resource w)

unfoldable pub acquire_for : (World → World × Option Error) → Selection → World → List Turn → Answer
unfolding rounds
acquire_for refresh_resource s w ts =
    if is_empty s.resource_id
    then rounds s false w ts
    else proceed (λ v. rounds s false v ts) (refresh_resource w)
