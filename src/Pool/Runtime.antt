-- ===== src/Pool/Runtime.antt =====
-- The persistent part of an account: `updateRuntime`, `syncAccountRuntimeLocked` and the mutations
-- that go through them, in accounts.go. A mutation sees the account and its runtime state, and
-- gives a new state, whether it changed, and what is done to the account afterwards.
pub mod Verdicts
use aistudio2api.Prelude.{
  ℕ, suc, ◌+◌, ◌≡◌, Bool, true, false, not, ◌&&◌, ◌||◌, if◌then◌else◌, ◌==◌, ltb, leb, Option, none,
  some, List, ◌∷◌, [], ◌++◌, any, get_elem?, Text, codes, str_eq, is_empty, trim_space, Assoc,
  lookup, lookup_or, insert, erase,
}
use aistudio2api.Pool.Types.{
  BenefitTier, free, pro, ultra, plus, unrecognised, Model, CooldownState, VideoResourceMetadata,
  ResourceBinding, ModelAccess, no_access, RuntimeState, Account, AccountState, ready, unavailable,
  disabled, auth_required, Pool, Lease, Error, account_not_found, resource_not_found,
  resource_bound, invalid_argument, Result, ok, err,
}
use aistudio2api.Pool.Catalog.{bare_model_id, canonical_account_model_id}
use aistudio2api.Pool.Cooldown.{global_cooldown_key}
use aistudio2api.Pool.Leases.{notify, put}

pub record Change : Type 0 where
  pub changed : Bool
  pub working : RuntimeState
  pub applies : Bool
  pub apply : Account → Account

abbrev pub unchanged : RuntimeState → Result Change
unchanged r = ok (record { changed = false; working = r; applies = false; apply = λ a. a })

abbrev pub rewritten : RuntimeState → Result Change
rewritten r = ok (record { changed = true; working = r; applies = false; apply = λ a. a })

abbrev pub access_at : RuntimeState → Text → ModelAccess
access_at r key = lookup_or no_access key r.model_access

abbrev pub is_cooling : RuntimeState → Text → Bool
is_cooling r key = elim (lookup key r.cooldowns) [ none ↦ false | some c ↦ true ]

-- The argument checks of `MarkCooldownIfGeneration`, and the key of the empty scope.
abbrev pub scope_key : Text → Text
scope_key scope = if is_empty (trim_space scope) then global_cooldown_key else trim_space scope

unfoldable pub mark_at : Text → ℕ → CooldownState → RuntimeState → RuntimeState × Bool
mark_at key checked_at next r =
    if not (ltb (access_at r key).checked_at checked_at) then (r, false) else (
      record r {
        model_access =
            insert key (record (access_at r key) { checked_at = checked_at }) r.model_access;
        cooldowns = insert key next r.cooldowns;
      },
      true,
    )

abbrev pub change_of : RuntimeState × Bool → Result Change
change_of (r, changed) =
    ok (record { changed = changed; working = r; applies = false; apply = λ a. a })

unfoldable pub mark_cooldown :
    Text → ℕ → ℕ → ℕ → CooldownState → Account → RuntimeState → Result Change
mark_cooldown scope generation checked_at now next a r =
    if not (ltb now next.until)
    then err invalid_argument
    else if checked_at == 0
    then err invalid_argument
    else if not (generation == a.model_access_generation)
    then unchanged r
    else change_of (mark_at (canonical_account_model_id a (scope_key scope)) checked_at next r)

-- One key of `ClearCooldownIfGeneration`.
pub clear_at : Text → ℕ → RuntimeState → RuntimeState × Bool
clear_at key checked_at r =
    if ltb checked_at (access_at r key).checked_at
    then (r, false)
    else if ltb (access_at r key).checked_at checked_at || is_cooling r key
    then (
      record r {
        model_access =
            insert key (record (access_at r key) { checked_at = checked_at }) r.model_access;
        cooldowns = erase key r.cooldowns;
      },
      true,
    )
    else (r, false)

pub clear_both : Text → ℕ → RuntimeState → RuntimeState × Bool
unfolding clear_at
clear_both key checked_at r =
    let (first, changed) = clear_at key checked_at r in
    if str_eq key global_cooldown_key
    then (first, changed)
    else (let (second, changed') = clear_at global_cooldown_key checked_at first in
        (second, changed || changed'))

unfoldable pub clear_cooldown : Text → ℕ → ℕ → Account → RuntimeState → Result Change
clear_cooldown scope generation checked_at a r =
    if checked_at == 0
    then err invalid_argument
    else if not (generation == a.model_access_generation)
    then unchanged r
    else change_of (clear_both (canonical_account_model_id a (scope_key scope)) checked_at r)

-- The two halves of the mutation of `markModelAccessVerified`.
pub verify_at : Text → ℕ → RuntimeState → RuntimeState × Bool
verify_at key checked_at r = if ltb checked_at (access_at r key).checked_at then (r, false) else (
  record r {
    model_access = insert key (record { verified = true; checked_at = checked_at }) r.model_access;
    cooldowns = erase key r.cooldowns;
  },
  ltb (access_at r key).checked_at checked_at || not (access_at r key).verified || is_cooling r key,
)

pub settle_global : ℕ → RuntimeState → RuntimeState × Bool
settle_global checked_at r =
    let key = global_cooldown_key in
    if ltb checked_at (access_at r key).checked_at then (r, false) else (
      record r {
        model_access =
            insert key (record (access_at r key) { checked_at = checked_at }) r.model_access;
        cooldowns = erase key r.cooldowns;
      },
      ltb (access_at r key).checked_at checked_at || is_cooling r key,
    )

unfoldable pub verify_both : Text → ℕ → RuntimeState → RuntimeState × Bool
unfolding verify_at settle_global
verify_both key checked_at r =
    let (first, changed) = verify_at key checked_at r in
    let (second, changed') = settle_global checked_at first in (second, changed || changed')

-- The first look, without the lock on the file, only saves a write that would change nothing.
unfoldable pub mark_model_access_verified : Text → ℕ → ℕ → Account → RuntimeState → Result Change
mark_model_access_verified id generation checked_at a r =
    let model_id = bare_model_id id in
    if is_empty model_id || checked_at == 0
    then err invalid_argument
    else if not (generation == a.model_access_generation)
    then unchanged r
    else change_of (verify_both (canonical_account_model_id a model_id) checked_at r)

unfoldable pub forget_at : Text → ℕ → RuntimeState → RuntimeState × Bool
forget_at key checked_at r =
    if not (ltb (access_at r key).checked_at checked_at) then (r, false) else (
      record r {
        model_access =
            insert key (record { verified = false; checked_at = checked_at }) r.model_access;
      },
      true,
    )

unfoldable pub forget_model_access_verified : Text → ℕ → ℕ → Account → RuntimeState → Result Change
forget_model_access_verified id generation checked_at a r =
    let model_id = bare_model_id id in
    if is_empty model_id || checked_at == 0
    then err invalid_argument
    else if not (generation == a.model_access_generation)
    then unchanged r
    else change_of (forget_at (canonical_account_model_id a model_id) checked_at r)

-- ResetModelAccess
unfoldable pub reset_model_access : Account → RuntimeState → Result Change
reset_model_access a r = ok (record {
  changed = (elim r.model_access [ [] ↦ false | entry ∷ rest ↦ true ]);
  working = record r { model_access = [] };
  applies = true;
  apply = λ b. record b { model_access_generation = suc b.model_access_generation };
})
