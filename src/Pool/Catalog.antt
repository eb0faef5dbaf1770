-- ===== src/Pool/Catalog.antt =====
-- Which account may call which model: accounts.go, benefit.go, tools.go and channel.go.
use aistudio2api.Prelude.{
  ℕ, Bool, true, false, not, ◌&&◌, ◌||◌, if◌then◌else◌, ◌==◌, List, [], ◌∷◌, ◌++◌, any, Text, codes,
  str_eq, is_empty, trim_space, trim_prefix, contains, lookup_or,
}
use aistudio2api.Pool.Types.{
  Model, BenefitTier, free, pro, ultra, plus, unrecognised, Account, Selection, no_access,
}

-- strings.TrimPrefix(strings.TrimSpace(id), "models/")
unfoldable pub bare_model_id : Text → Text
bare_model_id id = trim_prefix (trim_space id) (codes "models/")

unfoldable pub has_capability : Model → Text → Bool
has_capability model name = lookup_or false name model.capabilities

unfoldable pub model_matches_id : Model → Text → Bool
model_matches_id model model_id =
    if str_eq model.id model_id
    then true
    else any (λ alias. str_eq alias model_id)
        (lookup_or [] (codes "aliases") model.capability_options)

unfoldable pub has_method : Model → Text → Bool
has_method model method = any (λ candidate. str_eq candidate method) model.methods

tier_mode : BenefitTier → ℕ → Bool
tier_mode pro mode = mode == 3
tier_mode ultra mode = mode == 3 || mode == 4
tier_mode _ mode = false

modes_allow : BenefitTier → List ℕ → Bool
modes_allow tier [] = true
modes_allow tier (m ∷ ms) = any (tier_mode tier) (m ∷ ms)

unfoldable pub model_allowed_by_tier : Model → BenefitTier → Bool
unfolding tier_mode modes_allow
model_allowed_by_tier model tier = modes_allow tier model.access_modes

supports_model_in : List Model → BenefitTier → Text → Bool
supports_model_in [] tier model_id = false
supports_model_in (model ∷ models) tier model_id =
    if model_matches_id model model_id && model_allowed_by_tier model tier
    then true
    else supports_model_in models tier model_id

unfoldable pub supports_model : Account → Text → Bool
unfolding supports_model_in
supports_model a id =
    let model_id = bare_model_id id in
    if is_empty model_id then true else supports_model_in a.models a.benefit_tier model_id

supports_method_in : List Model → BenefitTier → Text → Text → Bool
supports_method_in [] tier model_id method = false
supports_method_in (model ∷ models) tier model_id method =
    let rest = supports_method_in models tier model_id method in
    if not (model_matches_id model model_id)
    then rest
    else if not (model_allowed_by_tier model tier)
    then false
    else if has_method model method
    then true
    else rest

unfoldable pub supports_method : Account → Text → Text → Bool
unfolding supports_method_in
supports_method a id method =
    if is_empty (trim_space method)
    then supports_model a id
    else supports_method_in a.models a.benefit_tier (bare_model_id id) method

-- The first model of the catalog that the id names decides.
supports_selection_in : List Model → BenefitTier → Text → Selection → Bool
supports_selection_in [] tier model_id s = false
supports_selection_in (model ∷ models) tier model_id s =
    let rest = supports_selection_in models tier model_id s in
    if not (model_matches_id model model_id)
    then rest
    else if not (model_allowed_by_tier model tier)
    then false
    else if not (is_empty (trim_space s.method)) && not (has_method model s.method)
    then false
    else is_empty (trim_space s.capability) || has_capability model s.capability

unfoldable pub account_supports_selection : Account → Selection → Bool
unfolding supports_selection_in
account_supports_selection a s =
    let model_id = bare_model_id s.model_id in
    if is_empty model_id then true else supports_selection_in a.models a.benefit_tier model_id s

canonical_in : List Model → Text → Text
canonical_in [] model_id = model_id
canonical_in (model ∷ models) model_id =
    if model_matches_id model model_id then model.id else canonical_in models model_id

unfoldable pub canonical_account_model_id : Account → Text → Text
unfolding canonical_in
canonical_account_model_id a model_id = canonical_in a.models model_id

unfoldable pub model_access_state : Account → Text → Bool
model_access_state a model_id =
    (lookup_or no_access (canonical_account_model_id a model_id) a.runtime.model_access).verified

unfoldable pub benefit_tier_priority : BenefitTier → ℕ
benefit_tier_priority free = 0
benefit_tier_priority plus = 1
benefit_tier_priority pro = 2
benefit_tier_priority ultra = 3
benefit_tier_priority (unrecognised n) = 4

unfoldable pub build_excluded_playground_model : Model → Bool
build_excluded_playground_model model =
    has_capability model (codes "interactions_api")
    || has_capability model (codes "interaction_route")
    || has_capability model (codes "transcription_output")

unfoldable pub build_requires_special_tool : Text → Bool
build_requires_special_tool model_id = contains model_id (codes "computer-use")

abbrev pub generate_content : Text
generate_content = codes "generateContent"

unfoldable pub waa_bootstrap_model_eligible : Account → Text → Bool
waa_bootstrap_model_eligible a model_id =
    any
      (λ model.
        model_matches_id model model_id
        && has_method model generate_content
        && model_allowed_by_tier model a.benefit_tier
        && has_capability model (codes "chat_model"))
      a.models

abbrev preferred_bootstrap_model_id : Text
preferred_bootstrap_model_id = codes "gemini-flash-latest"

-- `appendModel`: an id that is new and eligible joins the list, which also is `seen`.
append_model : Account → List Text → Text → List Text
append_model a models model_id =
    if any (λ m. str_eq m model_id) models || not (waa_bootstrap_model_eligible a model_id)
    then models
    else models ++ model_id ∷ []

append_models : Account → List Text → List Model → List Text
append_models a models [] = models
append_models a models (m ∷ ms) = append_models a (append_model a models m.id) ms

unfoldable pub account_bootstrap_models : Account → List Text
unfolding append_model append_models
account_bootstrap_models a =
    append_models a (append_model a [] preferred_bootstrap_model_id) a.models
