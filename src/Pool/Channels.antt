-- ===== src/Pool/Channels.antt =====
-- Which channels serve a selection: channel.go, and the catalog tests of accounts.go.
use aistudio2api.Prelude.{
  ℕ, Bool, true, false, not, ◌&&◌, ◌||◌, if◌then◌else◌, ◌==◌, ltb, Option, none, some, List, ◌∷◌,
  [], ◌++◌, any, keep, length, get_elem?, Text, codes, str_eq, is_empty, trim_space, lookup,
}
use aistudio2api.Pool.Types.{
  Channel, unset, playground, build, channel_eq, Model, Account, Selection, Pool,
}
use aistudio2api.Pool.Catalog.{
  bare_model_id, model_matches_id, has_method, has_capability, model_allowed_by_tier,
  account_supports_selection, build_excluded_playground_model, build_requires_special_tool,
  generate_content,
}
use aistudio2api.Pool.Cooldown.{account_cooldown, channel_cooldown_scope, selection_access_scope}

abbrev pub deref : Pool → Option ℕ → Option Account
deref p none = none
deref p (some address) = get_elem? p.store address

-- The accounts of the slice in its order, as the loops `if account == nil { continue }` see them.
live_accounts : Pool → List (Option ℕ) → List Account
live_accounts p [] = []
live_accounts p (pointer ∷ pointers) = elim (deref p pointer) [
  | none ↦ live_accounts p pointers
  | some a ↦ a ∷ live_accounts p pointers
]

unfoldable pub pool_accounts : Pool → List Account
unfolding live_accounts
pool_accounts p = live_accounts p p.accounts

is_nil_channels : List Channel → Bool
is_nil_channels [] = true
is_nil_channels (c ∷ cs) = false

unfoldable pub channel_enabled : Pool → Channel → Bool
unfolding is_nil_channels
channel_enabled p channel =
    if is_nil_channels p.channels
    then channel_eq channel playground
    else any (λ c. channel_eq c channel) p.channels

unfoldable pub enabled_channels : Pool → List Channel
unfolding is_nil_channels
enabled_channels p = if is_nil_channels p.channels then playground ∷ [] else p.channels

unfoldable pub generation_channel_selection : Selection → Bool
generation_channel_selection s =
    not (is_empty (trim_space s.model_id))
    && str_eq s.method generate_content
    && is_empty (trim_space s.model_access_scope)
    && is_empty (trim_space s.resource_id)
    && is_empty (trim_space s.capability)
    && not s.playground_only

unfoldable pub selection_channels : Pool → Selection → List Channel
selection_channels p s =
    if not (generation_channel_selection s)
    then playground ∷ []
    else if not (channel_eq s.channel unset)
    then (if channel_enabled p s.channel then s.channel ∷ [] else [])
    else enabled_channels p

abbrev matching : Text → Account → List Model
matching model_id a = keep (λ m. model_matches_id m model_id) a.models

first_matching : Text → List Account → Option Model
first_matching model_id [] = none
first_matching model_id (a ∷ as') = elim (matching model_id a) [
  | [] ↦ first_matching model_id as'
  | m ∷ ms ↦ some m
]

-- The first Playground model of that id in the whole pool decides; without one, the id itself.
unfoldable pub build_supports_model : Pool → Account → Text → Bool
unfolding first_matching
build_supports_model p a id =
    let model_id = bare_model_id id in
    if not (any (λ m. str_eq m.id model_id && has_method m generate_content) a.build_models)
    then false
    else (elim (first_matching model_id (pool_accounts p)) [
      | none ↦ not (build_requires_special_tool model_id)
      | some m ↦ not (build_excluded_playground_model m) && model_allowed_by_tier m a.benefit_tier
    ])

unfoldable pub channel_supports : Pool → Account → Channel → Selection → Bool
channel_supports p a channel s =
    if is_empty (trim_space s.model_id) then channel_eq channel playground else (elim channel [
      | playground ↦
          if generation_channel_selection s && not (channel_enabled p playground)
          then false
          else account_supports_selection a s
      | build ↦
          generation_channel_selection s
          && channel_enabled p build
          && build_supports_model p a s.model_id
      | _ ↦ false
    ])

unfoldable pub account_supports_any_channel : Pool → Account → Selection → Bool
account_supports_any_channel p a s =
    any (λ channel. channel_supports p a channel s) (selection_channels p s)

-- The loop of `accountChannelCooldownLocked`; `none` is its early return.
unfoldable pub channels_cooldown : Pool → Account → Selection → ℕ → List Channel → ℕ → Option ℕ
channels_cooldown p a s now [] earliest = some earliest
channels_cooldown p a s now (channel ∷ channels) earliest =
    let cooling =
      account_cooldown a (channel_cooldown_scope channel (selection_access_scope s)) now in
    let sooner = earliest == 0 || ltb cooling.0.until earliest in
    let skipped = channels_cooldown p a s now channels earliest in
    let counted =
      channels_cooldown p a s now channels (if sooner then cooling.0.until else earliest) in
    if not (channel_supports p a channel s)
    then skipped
    else if not cooling.1
    then none
    else counted

unfoldable pub account_channel_cooldown : Pool → Account → Selection → ℕ → ℕ × Bool
unfolding channels_cooldown
account_channel_cooldown p a s now = elim (channels_cooldown p a s now (selection_channels p s) 0) [
  | none ↦ (0, false)
  | some earliest ↦ (earliest, not (earliest == 0))
]

unfoldable pub has_playground_model : Pool → Text → Bool
has_playground_model p model_id =
    any (λ a. any (λ m. model_matches_id m model_id) a.models) (pool_accounts p)

unfoldable pub has_build_model : Pool → Text → Text → Bool
has_build_model p model_id method =
    if not (channel_enabled p build)
    then false
    else any
        (λ a.
          any
            (λ m.
              str_eq m.id model_id
              && (is_empty method || has_method m method)
              && build_supports_model p a model_id)
            a.build_models)
        (pool_accounts p)

unfoldable pub has_model : Pool → Text → Bool
has_model p model_id = has_playground_model p model_id || has_build_model p model_id (codes "")

unfoldable pub has_model_catalog : Pool → Bool
has_model_catalog p = any (λ a. ltb 0 (length a.models)) (pool_accounts p)

unfoldable pub has_model_method : Pool → Text → Text → Bool
has_model_method p model_id method =
    any (λ a. any (λ m. model_matches_id m model_id && has_method m method) a.models)
      (pool_accounts p)
    || has_build_model p model_id method

unfoldable pub has_model_capability : Pool → Text → Text → Bool
has_model_capability p model_id capability =
    any (λ a. any (λ m. model_matches_id m model_id && has_capability m capability) a.models)
      (pool_accounts p)

-- The loops of `buildOnlyModelsLocked`: `models` holds what was taken, so it also is `seen`.
build_only_from : Pool → Account → List Model → List Model → List Model
build_only_from p a [] models = models
build_only_from p a (m ∷ ms) models = build_only_from p a ms (
    if any (λ n. str_eq n.id m.id) models
      || has_playground_model p m.id
      || not (build_supports_model p a m.id)
    then models
    else models ++ m ∷ [])

build_only_accounts : Pool → List Account → List Model → List Model
build_only_accounts p [] models = models
build_only_accounts p (a ∷ rest) models =
    build_only_accounts p rest
      (if not a.enabled then models else build_only_from p a a.build_models models)

unfoldable pub build_only_models : Pool → List Model
unfolding build_only_from build_only_accounts
build_only_models p =
    if not (channel_enabled p build) then [] else build_only_accounts p (pool_accounts p) []

abbrev probe_selection : Model → Selection
probe_selection m = record {
  model_id = m.id;
  model_access_scope = codes "";
  method = (if has_method m generate_content then generate_content else codes "");
  capability = codes "";
  account_id = codes "";
  resource_id = codes "";
  allowed_account_ids = none;
  playground_only = false;
  channel = unset;
}

unfoldable pub model_channels : Pool → Model → List Channel
model_channels p m =
    keep
      (λ channel.
        any (λ a. a.enabled && channel_supports p a channel (probe_selection m)) (pool_accounts p))
      (selection_channels p (probe_selection m))

unfoldable pub eligible_models : Pool → List Model → List (Model × List Channel)
unfolding is_nil_channels
eligible_models p [] = []
eligible_models p (m ∷ ms) =
    if is_nil_channels (model_channels p m)
    then eligible_models p ms
    else (m, model_channels p m) ∷ eligible_models p ms

unfoldable pub account_channel_available : Pool → Text → Selection → ℕ → Bool
account_channel_available p account_id s now = elim (lookup (trim_space account_id) p.by_id) [
  | none ↦ false
  | some address ↦ elim (get_elem? p.store address) [
    | none ↦ false
    | some a ↦
        if not a.enabled || not (account_supports_any_channel p a s)
        then false
        else not (account_channel_cooldown p a s now).1
  ]
]
