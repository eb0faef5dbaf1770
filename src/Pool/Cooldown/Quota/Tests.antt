-- ===== src/Pool/Cooldown/Quota/Tests.antt =====
-- The theorem on quota errors at a minute quota that holds for all models.
use aistudio2api.Prelude.{
  ℕ, ◌+◌, ◌*◌, ◌<◌, ◌≤◌, ◌≡◌, ◌⊎◌, arith, refl, true, false, Option, none, some, ◌∷◌, [], ◌++◌,
  Text, codes, is_empty,
}
use aistudio2api.Pool.Types.{Result, ok, err, invalid_argument}
use aistudio2api.Pool.Samples.{idle}
use aistudio2api.Pool.Runtime.{Change, access_at, mark_cooldown}
use aistudio2api.Pool.Cooldown.Quota.{
  RpcError, QuotaCooldown, minute_quota, Clock, since, minute_after, quota_cooldown_for_error,
}
use aistudio2api.Pool.Cooldown.Quota.Barring.{quota_key, IsBarred, mark_cooldown-bars}

-- Texts that are in lower case already, no window start, and days that are as short as can be.
abbrev clock : Clock
clock = record {
  to_lower = λ t. t;
  parse_int = λ t. none;
  local_day = λ now. now;
  midnight = λ day. day;
}

abbrev minute_error : RpcError
minute_error = record {
  status_code = 429;
  metadata = (codes "quota_limit", codes "perminuteperprojectperuser") ∷ [];
  message = [];
}

abbrev cooldown : QuotaCooldown
cooldown = record {
  until = 60000000005;
  global = true;
  kind = minute_quota;
  reason = codes "minute quota exceeded: quota";
}

cools : quota_cooldown_for_error clock (codes "quota") (some minute_error) 5 ≡ some cooldown
unfolding quota_cooldown_for_error aistudio2api.Prelude.contains aistudio2api.Prelude.lookup
    aistudio2api.Prelude.str_eq
cools = refl

key_named : is_empty (quota_key clock (idle (codes "a")) cooldown (codes "m")) ≡ false
unfolding aistudio2api.Pool.Catalog.canonical_account_model_id
    aistudio2api.Pool.Catalog.model_matches_id aistudio2api.Prelude.str_eq
    aistudio2api.Prelude.trim_space aistudio2api.Prelude.lookup
key_named = refl

unknown :
    (access_at
      (idle (codes "a")).runtime
      (quota_key clock (idle (codes "a")) cooldown (codes "m"))).checked_at
    ≡ 0
unfolding aistudio2api.Prelude.lookup
unknown = refl

unknown_yet :
    (access_at
      (idle (codes "a")).runtime
      (quota_key clock (idle (codes "a")) cooldown (codes "m"))).checked_at
    < 3
unknown_yet = omega (arith, unknown)

-- A window that starts at the Unix epoch ends a minute later.
window_ends : minute_after (since 0) ≡ some 62135596860
unfolding minute_after
window_ends = refl

abbrev told : Result Change
told =
    mark_cooldown [] (idle (codes "a")).model_access_generation 3 6
      (record { until = 60000000005; reason = cooldown.reason }) (idle (codes "a"))
      (idle (codes "a")).runtime

mark_cooldown-bars_example :
    (5 < cooldown.until)
    × (((cooldown.until ≤ 6) × (told ≡ err invalid_argument))
        ⊎ ((change : Change) × (told ≡ ok change)
            × (change.changed ≡ true)
            × ((cooldown.until ≤ 7)
                ⊎ IsBarred clock
                    (record (idle (codes "a")) { runtime = change.working })
                    (quota_key clock (idle (codes "a")) cooldown (codes "m"))
                    cooldown.until
                    7)))
mark_cooldown-bars_example =
    mark_cooldown-bars clock (codes "quota") minute_error (idle (codes "a")) (codes "m") 3 5 6 7
      cooldown (λ t. omega arith) cools unknown_yet key_named
