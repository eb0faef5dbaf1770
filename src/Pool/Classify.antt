-- ===== src/Pool/Classify.antt =====
-- The dispatcher's view of an account selection: `classifyCandidatesLocked`, `EnabledAccounts`,
-- `noEligibleErrorLocked` and `setAccountState` of accounts.go.
pub mod Slots
pub mod Listed
use aistudio2api.Prelude.{
  ℕ, suc, ◌+◌, ◌≡◌, Bool, true, false, not, ◌&&◌, ◌||◌, if◌then◌else◌, ◌==◌, ltb, leb, Option, none,
  some, List, ◌∷◌, [], ◌++◌, any, get_elem?, Text, codes, str_eq, is_empty, trim_space, lookup,
}
use aistudio2api.Pool.Types.{
  Account, AccountState, ready, busy, cooldown, auth_required, unavailable, disabled, is_ready,
  Selection, Pool, Error, no_eligible_account, model_not_found, account_not_found, Result, ok, err,
}
use aistudio2api.Pool.Catalog.{bare_model_id}
use aistudio2api.Pool.Cooldown.{account_cooldown}
use aistudio2api.Pool.Channels.{
  deref, pool_accounts, account_supports_any_channel, account_channel_cooldown, has_model,
  has_model_catalog, has_model_method,
}
use aistudio2api.Pool.Candidates.{selection_indices}
use aistudio2api.Pool.Leases.{is_reserved, notify, put}

pub data Group : Type 0 where
  warm_ready warm_available warm_busy standby_ready standby_busy : Group

pub record Groups : Type 0 where
  pub warm_ready : List Text
  pub warm_available : List Text
  pub warm_busy : List Text
  pub standby_ready : List Text
  pub standby_busy : List Text
  pub earliest_cooldown : ℕ
  pub eligible : Bool

abbrev pub no_groups : Groups
no_groups = record {
  warm_ready = [];
  warm_available = [];
  warm_busy = [];
  standby_ready = [];
  standby_busy = [];
  earliest_cooldown = 0;
  eligible = false;
}

-- The switch on an account that does not cool down.
unfoldable pub group_of : Pool → Bool → Account → Group
group_of p is_warm a =
    if is_warm && not (is_reserved a) && a.active == 0
    then Group.warm_ready
    else if is_warm && not (is_reserved a) && ltb a.active p.per_account_concurrency
    then Group.warm_available
    else if is_warm
    then Group.warm_busy
    else if is_reserved a || ltb 0 a.active
    then Group.standby_busy
    else Group.standby_ready

add_to : Groups → Text → Group → Groups
add_to g id Group.warm_ready = record g { warm_ready = g.warm_ready ++ id ∷ [] }
add_to g id Group.warm_available = record g { warm_available = g.warm_available ++ id ∷ [] }
add_to g id Group.warm_busy = record g { warm_busy = g.warm_busy ++ id ∷ [] }
add_to g id Group.standby_ready = record g { standby_ready = g.standby_ready ++ id ∷ [] }
add_to g id Group.standby_busy = record g { standby_busy = g.standby_busy ++ id ∷ [] }

abbrev is_warm_id : List Text → Text → Bool
is_warm_id warm id =
    any (λ given. not (is_empty (trim_space given)) && str_eq (trim_space given) id) warm

-- The tests that let an account into the loop's second half.
unfoldable pub is_candidate : Pool → Selection → Account → Bool
is_candidate p s a =
    a.enabled && is_ready a.state && (is_empty s.model_id || account_supports_any_channel p a s)

classify_account : Pool → Selection → List Text → ℕ → Account → Groups → Groups
unfolding add_to is_candidate
classify_account p s warm now a g =
    let (until, cooling) = account_channel_cooldown p a s now in
    let e = record g { eligible = true } in
    if not (is_candidate p s a)
    then g
    else if cooling
    then record e {
      earliest_cooldown =
          (if e.earliest_cooldown == 0 || ltb until e.earliest_cooldown
            then until
            else e.earliest_cooldown);
    }
    else add_to e a.id (group_of p (is_warm_id warm a.id) a)

classify_from : Pool → Selection → List Text → ℕ → List ℕ → Groups → Groups
classify_from p s warm now [] g = g
classify_from p s warm now (index ∷ indices) g =
    classify_from p s warm now indices (elim (get_elem? p.accounts index) [
      | none ↦ g
      | some pointer ↦ elim (deref p pointer) [
        | none ↦ g
        | some a ↦ classify_account p s warm now a g
      ]
    ])

unfoldable pub classify_candidates : Pool → Selection → List Text → ℕ → Result Groups
unfolding classify_from classify_account
classify_candidates p s warm now =
    if not (is_empty s.model_id) && not (has_model_catalog p)
    then err no_eligible_account
    else if not (is_empty s.model_id) && not (has_model p s.model_id)
    then err (model_not_found s.model_id)
    else if not (is_empty s.model_id)
        && not (is_empty s.method)
        && not (has_model_method p s.model_id s.method)
    then err (model_not_found s.model_id)
    else (elim (selection_indices p s) [
      | err e ↦ err e
      | ok indices ↦ ok (classify_from p s warm now indices no_groups)
    ])

-- EnabledAccounts: the ids, and how many could be given work.
count_enabled : ℕ → List Account → List Text × ℕ
count_enabled now [] = ([], 0)
count_enabled now (a ∷ rest) =
    let (ids, n) = count_enabled now rest in
    if not a.enabled then (ids, n) else (
      a.id ∷ ids,
      if is_reserved a
            || ltb 0 a.active
            || (is_ready a.state && not (account_cooldown a (codes "") now).1)
          then suc n
          else n,
    )

unfoldable pub enabled_accounts : Pool → ℕ → List Text × ℕ
unfolding count_enabled
enabled_accounts p now = count_enabled now (pool_accounts p)

-- What noEligibleErrorLocked lists, as ids and messages; no reason is ErrNoEligibleAccount.
not_ready : Pool → Selection → List Account → List (Text × Text)
not_ready p s [] = []
not_ready p s (a ∷ rest) =
    let later = not_ready p s rest in
    if a.enabled && is_ready a.state
    then later
    else if not (is_empty s.model_id) && not (account_supports_any_channel p a s)
    then later
    else (a.id, trim_space a.state_message) ∷ later

unfoldable pub no_eligible_reasons : Pool → Selection → List (Text × Text)
unfolding not_ready
no_eligible_reasons p s =
    not_ready p (record s { model_id = bare_model_id s.model_id }) (pool_accounts p)

unfoldable pub set_account_state : Pool → Text → AccountState → Text → Result Pool
set_account_state p account_id state reason = elim (lookup account_id p.by_id) [
  | none ↦ err account_not_found
  | some address ↦ elim (get_elem? p.store address) [
    | none ↦ err account_not_found
    | some a ↦ ok (
        notify (
          put p address (record a {
            state = (if not a.enabled then disabled else state);
            state_message = trim_space reason;
          })))
  ]
]

-- markAuthenticationStateAt, with the generation of the lease and the time of the check.
auth_state : Bool → Account → AccountState
auth_state required a =
    if not a.enabled
    then disabled
    else if required
    then auth_required
    else (elim a.state [ auth_required ↦ ready | other ↦ other ])

abbrev auth_message : Bool → Text → Account → Text
auth_message required reason a =
    if required then trim_space reason else if is_ready a.state then codes "" else a.state_message

unfoldable pub mark_authentication : Bool → Text → ℕ → ℕ → Account → Account × Bool
unfolding auth_state
mark_authentication required reason generation checked_at a =
    if not (generation == a.auth_generation) || ltb checked_at a.auth_checked_at
    then (a, false)
    else if required && (checked_at == a.auth_checked_at) && is_ready a.state
    then (a, false)
    else (let b = record a { auth_checked_at = checked_at; state = auth_state required a } in
        (record b { state_message = auth_message required reason b }, true))
