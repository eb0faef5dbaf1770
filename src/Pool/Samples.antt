-- ===== src/Pool/Samples.antt =====
-- A pool of two accounts that serve one model, for the tests.
use aistudio2api.Prelude.{true, false, none, some, ◌∷◌, [], Text, codes}
use aistudio2api.Pool.Types.{unset, free, ready, Model, RuntimeState, Account, Selection, Pool}
use aistudio2api.Pool.Candidates.{round_robin}
use aistudio2api.Pool.Leases.{TryLock, taken}

abbrev pub tested_model : Model
tested_model = record {
  id = codes "gemini";
  methods = codes "generateContent" ∷ [];
  capabilities = [];
  capability_options = [];
  access_modes = [];
}

abbrev pub blank_runtime : RuntimeState
blank_runtime = record {
  cooldowns = [];
  resources = [];
  model_access = [];
  benefit_tier = free;
  catalog_fingerprint = codes "";
}

abbrev pub idle : Text → Account
idle id = record {
  id = id;
  storage_path = codes "";
  enabled = true;
  models = tested_model ∷ [];
  build_models = [];
  benefit_tier = free;
  state = ready;
  state_message = codes "";
  last_used = 0;
  runtime = blank_runtime;
  active = 0;
  exclusive = false;
  exclusive_waiters = 0;
  auth_refreshers = 0;
  lease_lock = false;
  auth_generation = 0;
  auth_checked_at = 0;
  model_access_generation = 0;
}

abbrev pub two_accounts : Pool
two_accounts = record {
  store = idle (codes "a") ∷ idle (codes "b") ∷ [];
  accounts = some 1 ∷ none ∷ some 0 ∷ [];
  by_id = (codes "a", 0) ∷ (codes "b", 1) ∷ [];
  resources = (codes "video", codes "b") ∷ [];
  per_account_concurrency = 2;
  routing_strategy = round_robin;
  last_picked = (codes "", codes "a") ∷ [];
  last_picked_channel = [];
  channels = [];
  changes = 0;
}

abbrev pub generation : Selection
generation = record {
  model_id = codes "gemini";
  model_access_scope = codes "";
  method = codes "generateContent";
  capability = codes "";
  account_id = codes "";
  resource_id = codes "";
  allowed_account_ids = none;
  playground_only = false;
  channel = unset;
}

abbrev pub unlocked : Text → TryLock
unlocked path = taken
