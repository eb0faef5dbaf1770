-- ===== src/Pool/Cooldown/Quota.antt =====
-- The cooldown that a quota error of the upstream leads to: quota.go. Times are nanoseconds since Go's
-- zero time. Lower case letters, the reading of an integer and the calendar of the quota's time zone are
-- parameters.
pub mod Barring
mod Tests
use aistudio2api.Prelude.{
  ℕ, ◌+◌, ◌-◌, ◌*◌, min, leb, Bool, true, false, not, ◌&&◌, ◌||◌, if◌then◌else◌, ◌==◌, ltb, Option,
  none, some, List, ◌∷◌, [], ◌++◌, any, Text, codes, contains, trim_space, Assoc, lookup_or,
}

-- An RPCError: its status, metadata and message.
pub record RpcError : Type 0 where
  pub status_code : ℕ
  pub metadata : Assoc Text
  pub message : Text

pub data QuotaKind : Type 0 where
  minute_quota daily_quota : QuotaKind

pub record QuotaCooldown : Type 0 where
  pub until : ℕ
  pub global : Bool
  pub kind : QuotaKind
  pub reason : Text

abbrev pub second : ℕ
second = 1000000000

abbrev contains_any : Text → List Text → Bool
contains_any value = any (contains value)

unfoldable pub minute_quota_evidence : Text → Bool
minute_quota_evidence value = contains_any value (
    codes "/min/"
    ∷ codes "perminute"
    ∷ codes "per_min"
    ∷ codes "per minute"
    ∷ codes "generate_requests_per_model "
    ∷ codes "generate_content_paid_tier_input_token_count"
    ∷ [])

unfoldable pub daily_quota_evidence : Text → Bool
daily_quota_evidence value = contains_any value (
    codes "/day/"
    ∷ codes "perday"
    ∷ codes "per_day"
    ∷ codes "per day"
    ∷ codes "daily limit"
    ∷ codes "try again tomorrow"
    ∷ codes "generate_content_free_tier_requests"
    ∷ codes "generate_requests_per_model_per_user"
    ∷ codes "generate_content_tokens_per_model_per_user"
    ∷ [])

-- An int64 of seconds: that many since the Unix epoch, or before it.
pub data UnixSeconds : Type 0 where
  since before : ℕ → UnixSeconds

-- The seconds from Go's zero time to the Unix epoch, and the largest int64.
abbrev pub unix_epoch : ℕ
unix_epoch = 62135596800

abbrev pub max_int64 : ℕ
max_int64 = 9223372036854775807

-- time.Unix(seconds, 0).Add(time.Minute) in seconds since Go's zero time. The sum with the epoch wraps
-- around past the largest int64, to a time long ago; Add stops there. `none` is a time before zero.
unfoldable pub minute_after : UnixSeconds → Option ℕ
minute_after (since n) =
    if leb (unix_epoch + n) max_int64 then some (min (unix_epoch + n + 60) max_int64) else none
minute_after (before n) = if leb n (unix_epoch + 60) then some (unix_epoch + 60 - n) else none

-- strings.ToLower; strconv.ParseInt, nothing for an error; the number of the day that a time is on in
-- America/Los_Angeles, and the time at which a day starts there.
pub record Clock : Type 0 where
  pub to_lower : Text → Text
  pub parse_int : Text → Option UnixSeconds
  pub local_day : ℕ → ℕ
  pub midnight : ℕ → ℕ

module _ (clock : Clock) where
  unfoldable pub minute_quota_reset : Text → ℕ → ℕ
  unfolding minute_after
  minute_quota_reset window_start now = elim (clock.parse_int (trim_space window_start)) [
    | none ↦ now + 60 * second
    | some seconds ↦ (elim (minute_after seconds) [
      | none ↦ now + 60 * second
      | some until ↦ if ltb now (until * second) then until * second else now + 60 * second
    ])
  ]

  abbrev quota_metadata : RpcError → Text
  quota_metadata e = clock.to_lower (
      lookup_or [] (codes "quota_metric") e.metadata
      ++ codes " "
      ++ lookup_or [] (codes "quota_limit") e.metadata
      ++ codes " "
      ++ lookup_or [] (codes "quota_unit") e.metadata)

  unfoldable pub is_global : Text → Text → Bool
  is_global metadata evidence =
      contains metadata (codes "_global")
      || contains metadata (codes "perprojectperuser")
      || (not (contains evidence (codes "per_model"))
          && not (contains evidence (codes "per model")))

  unfoldable pub next_quota_day : ℕ → ℕ
  next_quota_day now = clock.midnight (clock.local_day now + 1)

  -- QuotaCooldownForError, of what the error says and of the RPCError that it is or wraps, if there is
  -- one.
  unfoldable pub quota_cooldown_for_error : Text → Option RpcError → ℕ → Option QuotaCooldown
  unfolding minute_quota_evidence daily_quota_evidence minute_quota_reset is_global next_quota_day
  quota_cooldown_for_error error none now = none
  quota_cooldown_for_error error (some e) now =
      if not (e.status_code == 429)
      then none
      else (let metadata = quota_metadata e in
          let message = clock.to_lower e.message in
          let evidence = metadata ++ codes " " ++ message in
          if minute_quota_evidence evidence
          then some (record {
            until = minute_quota_reset (lookup_or [] (codes "window_start_time") e.metadata) now;
            global = is_global metadata evidence;
            kind = minute_quota;
            reason = codes "minute quota exceeded: " ++ error;
          })
          else if daily_quota_evidence evidence
              || contains message (codes "you exceeded your current quota")
          then some (record {
            until = next_quota_day now;
            global = false;
            kind = daily_quota;
            reason = codes "daily quota exceeded: " ++ error;
          })
          else none)
