-- ===== src/Pool/Types.antt =====
-- The data of the account pool: types.go, benefit.go and the types of accounts.go. Times are
-- nanoseconds since Go's zero time, so that `IsZero` is a test for 0; counters do not wrap.
use aistudio2api.Prelude.{ℕ, Bool, true, false, Option, List, Text, Assoc, str_eq, codes}

pub data Channel : Type 0 where
  unset playground build : Channel
  other : Text → Channel

unfoldable pub channel_eq : Channel → Channel → Bool
channel_eq unset unset = true
channel_eq playground playground = true
channel_eq build build = true
channel_eq (other s) (other t) = str_eq s t
channel_eq _ _ = false

pub data BenefitTier : Type 0 where
  free pro ultra plus : BenefitTier
  unrecognised : ℕ → BenefitTier

pub data AccountState : Type 0 where
  ready busy cooldown auth_required unavailable disabled : AccountState

abbrev pub is_ready : AccountState → Bool
is_ready ready = true
is_ready _ = false

pub record Model : Type 0 where
  pub id : Text
  pub methods : List Text
  pub capabilities : Assoc Bool
  pub capability_options : Assoc (List Text)
  pub access_modes : List ℕ

pub record CooldownState : Type 0 where
  pub until : ℕ
  pub reason : Text

abbrev pub no_cooldown : CooldownState
no_cooldown = record { until = 0; reason = codes "" }

pub record VideoResourceMetadata : Type 0 where
  pub model : Text
  pub seconds : Text
  pub size : Text

pub record ResourceBinding : Type 0 where
  pub kind : Text
  pub created_at : ℕ
  pub video : Option VideoResourceMetadata

pub record ModelAccess : Type 0 where
  pub verified : Bool
  pub checked_at : ℕ

abbrev pub no_access : ModelAccess
no_access = record { verified = false; checked_at = 0 }

pub record RuntimeState : Type 0 where
  pub cooldowns : Assoc CooldownState
  pub resources : Assoc ResourceBinding
  pub model_access : Assoc ModelAccess
  pub benefit_tier : BenefitTier
  pub catalog_fingerprint : Text

pub record Account : Type 0 where
  pub id : Text
  pub storage_path : Text
  pub enabled : Bool
  pub models : List Model
  pub build_models : List Model
  pub benefit_tier : BenefitTier
  pub state : AccountState
  pub state_message : Text
  pub last_used : ℕ
  pub runtime : RuntimeState
  pub active : ℕ
  pub exclusive : Bool
  pub exclusive_waiters : ℕ
  pub auth_refreshers : ℕ
  pub lease_lock : Bool
  pub auth_generation : ℕ
  pub auth_checked_at : ℕ
  pub model_access_generation : ℕ

-- `none` in `allowed_account_ids` is the nil slice.
pub record Selection : Type 0 where
  pub model_id : Text
  pub model_access_scope : Text
  pub method : Text
  pub capability : Text
  pub account_id : Text
  pub resource_id : Text
  pub allowed_account_ids : Option (List Text)
  pub playground_only : Bool
  pub channel : Channel

-- `store` holds the accounts that pointers lead to, the pointer being the position. `accounts` is
-- the pool's slice of pointers and may hold nil; `changes` counts what `notifyLocked` announced.
pub record Pool : Type 0 where
  pub store : List Account
  pub accounts : List (Option ℕ)
  pub by_id : Assoc ℕ
  pub resources : Assoc Text
  pub per_account_concurrency : ℕ
  pub routing_strategy : Text
  pub last_picked : Assoc Text
  pub last_picked_channel : Assoc Channel
  pub channels : List Channel
  pub changes : ℕ

pub record Lease : Type 0 where
  pub account : ℕ
  pub exclusive : Bool
  pub auth_generation : ℕ
  pub model_access_generation : ℕ
  pub checked_at : ℕ
  pub refresh_runtime : Bool
  pub channel : Channel
  pub released : Bool

pub data Error : Type 0 where
  no_eligible_account account_not_found resource_not_found account_leased : Error
  model_not_found : Text → Error
  resource_bound : Text → Error
  lease_failed : Error
  account_not_initialized account_exists : Error
  invalid_argument : Error

pub data Result {ℓ} (A : Type ℓ) : Type ℓ where
  ok : A → Result A
  err : Error → Result A
