-- ===== src/Pool/Runtime/Verdicts.antt =====
-- Cooldowns and their lifting, told apart by when the request they come from was checked: the order
-- in which such reports arrive does not matter.
use aistudio2api.Prelude.{
  ℕ, ◌≡◌, ◌≢◌, inl, inr, ◌||◌, Option, none, some, Bool-cases, Text, str_eq, str_eq_iff, lookup,
  lookup-insert, lookup-erase, arith, if◌then◌else◌, ltb,
}
use aistudio2api.Pool.Types.{CooldownState, ModelAccess, RuntimeState}
use aistudio2api.Pool.Cooldown.{global_cooldown_key}
use aistudio2api.Pool.Runtime.{access_at, mark_at, clear_at, clear_both}

-- What scheduling reads at a key: since when it was checked, whether it was verified, and the cooldown.
abbrev pub Entry : Type 0
Entry = ModelAccess × Option CooldownState

abbrev pub entry_at : RuntimeState → Text → Entry
entry_at r key = (access_at r key, lookup key r.cooldowns)

-- The two reports on the entry alone.
mark_entry : ℕ → CooldownState → Entry → Entry
mark_entry t next (access, cooling) =
    if ltb access.checked_at t
    then (record access { checked_at = t }, some next)
    else (access, cooling)

clear_entry : ℕ → Entry → Entry
clear_entry t (access, cooling) =
    if ltb t access.checked_at then (access, cooling) else (record access { checked_at = t }, none)

entry-mark_at :
    (key k : Text) (t : ℕ) (next : CooldownState) (r : RuntimeState)
    → entry_at (mark_at key t next r).0 k
      ≡ (if str_eq key k then mark_entry t next (entry_at r k) else entry_at r k)
unfolding mark_at mark_entry
entry-mark_at key k t next r = ground (
  arith,
  str_eq_iff key k,
  lookup-insert key k (record (access_at r key) { checked_at = t }) r.model_access,
  lookup-insert key k next r.cooldowns,
)

entry-clear_at :
    (key k : Text) (t : ℕ) (r : RuntimeState)
    → entry_at (clear_at key t r).0 k
      ≡ (if str_eq key k then clear_entry t (entry_at r k) else entry_at r k)
unfolding clear_at clear_entry
entry-clear_at key k t r = ground (
  arith,
  str_eq_iff key k,
  lookup-insert key k (record (access_at r key) { checked_at = t }) r.model_access,
  lookup-erase key k r.cooldowns,
)

entries_commute :
    (t u : ℕ) (next : CooldownState) (e : Entry)
    → mark_entry t next (clear_entry u e) ≡ clear_entry u (mark_entry t next e)
unfolding mark_entry clear_entry
entries_commute t u next (access, cooling) = ground arith

entry-clear_both :
    (key k : Text) (t : ℕ) (r : RuntimeState)
    → entry_at (clear_both key t r).0 k ≡ (
        if str_eq key k || str_eq global_cooldown_key k
        then clear_entry t (entry_at r k)
        else entry_at r k)
unfolding clear_both
entry-clear_both key k t r = elim (Bool-cases (str_eq key global_cooldown_key)) [
  | inl h ↦
      let same : key ≡ global_cooldown_key = (str_eq_iff key global_cooldown_key).0 h in
      rw same (
        ground (
          arith,
          str_eq_iff global_cooldown_key global_cooldown_key,
          entry-clear_at global_cooldown_key k t r,
        ))
  | inr h ↦
      rw (h, entry-clear_at global_cooldown_key k t (clear_at key t r).0, entry-clear_at key k t r)
        (ground (
          arith,
          str_eq_iff key k,
          str_eq_iff global_cooldown_key k,
          str_eq_iff key global_cooldown_key,
        ))
]

-- A report that a scope cools down and a report that lifts a scope's and the account's cooldown
-- leave the same verification, time of check and cooldown at every key, whichever is recorded first.
pub mark_at-clear_both :
    (key lifted k : Text) (t u : ℕ) (next : CooldownState) (r : RuntimeState)
    → entry_at (mark_at key t next (clear_both lifted u r).0).0 k
      ≡ entry_at (clear_both lifted u (mark_at key t next r).0).0 k
mark_at-clear_both key lifted k t u next r =
    rw
      (
        entry-mark_at key k t next (clear_both lifted u r).0,
        entry-clear_both lifted k u r,
        entry-clear_both lifted k u (mark_at key t next r).0,
        entry-mark_at key k t next r,
      )
      (ground (arith, entries_commute t u next (entry_at r k)))

marks_commute :
    (t u : ℕ) (next other : CooldownState) (e : Entry)
    → t ≢ u
    → mark_entry t next (mark_entry u other e) ≡ mark_entry u other (mark_entry t next e)
unfolding mark_entry
marks_commute t u next other (access, cooling) h = ground arith

-- Two reports of cooldowns checked at different times leave the same entries in either order: the
-- one checked last wins.
pub mark_at-mark_at :
    (key key' k : Text) (t u : ℕ) (next other : CooldownState) (r : RuntimeState)
    → t ≢ u
    → entry_at (mark_at key t next (mark_at key' u other r).0).0 k
      ≡ entry_at (mark_at key' u other (mark_at key t next r).0).0 k
mark_at-mark_at key key' k t u next other r h =
    rw
      (
        entry-mark_at key k t next (mark_at key' u other r).0,
        entry-mark_at key' k u other r,
        entry-mark_at key' k u other (mark_at key t next r).0,
        entry-mark_at key k t next r,
      )
      (ground (arith, marks_commute t u next other (entry_at r k)))
