-- ===== src/Pool/Cooldown/Quota/Barring.antt =====
-- A quota error bars the account, or the model of it, until a time that is to come.
use aistudio2api.Prelude.{
  ℕ, ◌+◌, ◌<◌, ◌≤◌, ◌≡◌, ◌⊎◌, inl, inr, true, false, Bool-cases, ltb, if◌then◌else◌, Option, none,
  some, Option-cases, [], Text, codes, is_empty, str_eq_iff, trim_space, lookup, lookup_or,
  lookup-insert, arith,
}
use aistudio2api.Pool.Types.{CooldownState, Account, ok, err, invalid_argument}
use aistudio2api.Pool.Catalog.{canonical_account_model_id}
use aistudio2api.Pool.Runtime.{Change, access_at, scope_key, mark_at, mark_cooldown}
use aistudio2api.Pool.Cooldown.{is_active, account_cooldown}
use aistudio2api.Pool.Cooldown.Laws.{account_cooldown-until}
use aistudio2api.Pool.Cooldown.Quota.{
  RpcError, QuotaCooldown, Clock, minute_after, minute_quota_reset, quota_cooldown_for_error,
  next_quota_day,
}

module _ (clock : Clock) where
  minute_quota_reset-later : (w : Text) (now : ℕ) → now < minute_quota_reset clock w now
  unfolding minute_quota_reset
  minute_quota_reset-later w now = elim (Option-cases (clock.parse_int (trim_space w))) [
    | inl no_number ↦ ground arith
    | inr (n, is) ↦ elim (Option-cases (minute_after n)) [
      | inl long_ago ↦ ground arith
      | inr (until, ends) ↦ ground arith
    ]
  ]

  quota_cooldown_for_error-later :
      (error : Text) (e : Option RpcError) (now : ℕ) (q : QuotaCooldown)
      → now < clock.midnight (clock.local_day now + 1)
      → quota_cooldown_for_error clock error e now ≡ some q
      → now < q.until
  unfolding quota_cooldown_for_error next_quota_day
  quota_cooldown_for_error-later error none now q day h = absurd (ground arith)
  quota_cooldown_for_error-later error (some e) now q day h = ground (
    arith,
    h,
    day,
    minute_quota_reset-later (lookup_or [] (codes "window_start_time") e.metadata) now,
  )

  -- The scope that the pool is told of, as a global cooldown is for the whole account.
  abbrev pub quota_scope : QuotaCooldown → Text → Text
  quota_scope q scope = if q.global then [] else scope

  abbrev pub quota_key : Account → QuotaCooldown → Text → Text
  quota_key a q scope = canonical_account_model_id a (scope_key (quota_scope q scope))

  -- At a time, an account is barred under a key until `until` at least.
  abbrev pub IsBarred : Account → Text → ℕ → ℕ → Type 0
  IsBarred a key until t =
      (until ≤ (account_cooldown a key t).0.until) × ((account_cooldown a key t).1 ≡ true)

  -- A quota error seen at `now` leads to a cooldown, and the pool is told of it, by a later reading of
  -- the clock, under the current generation and by a newer check; each local day starts after the times
  -- of the day before, and the key of the scope is not empty. The cooldown ends after `now`. If it is
  -- over when the pool is told, that is an error; otherwise the change is stored, and at every time
  -- before its end an account with the new state is barred, at least until then, under that key, which
  -- is made from the key of the whole account if the quota is global.
  pub mark_cooldown-bars :
      (error : Text) (e : RpcError) (a : Account) (scope : Text) (checked_at now marked_at t : ℕ)
      (q : QuotaCooldown)
      → ((t : ℕ) → t < clock.midnight (clock.local_day t + 1))
      → quota_cooldown_for_error clock error (some e) now ≡ some q
      → (access_at a.runtime (quota_key a q scope)).checked_at < checked_at
      → is_empty (quota_key a q scope) ≡ false
      → let next : CooldownState = record { until = q.until; reason = q.reason } in
        let told =
          mark_cooldown
            (quota_scope q scope)
            a.model_access_generation
            checked_at
            marked_at
            next
            a
            a.runtime in
        (now < q.until)
        × (((q.until ≤ marked_at) × (told ≡ err invalid_argument))
            ⊎ ((change : Change) × (told ≡ ok change)
                × (change.changed ≡ true)
                × ((q.until ≤ t)
                    ⊎ IsBarred
                        (record a { runtime = change.working })
                        (quota_key a q scope)
                        q.until
                        t)))
  unfolding mark_cooldown mark_at is_active
  mark_cooldown-bars error e a scope checked_at now marked_at t q day h newer named =
      let later = quota_cooldown_for_error-later error (some e) now q (day now) h in
      let key = quota_key a q scope in
      let next : CooldownState = record { until = q.until; reason = q.reason } in
      let (working, changed) = mark_at key checked_at next a.runtime in
      let change : Change = record {
        changed = changed;
        working = working;
        applies = false;
        apply = λ x. x;
      } in
      let stored : lookup key working.cooldowns ≡ some next =
        ground (arith, newer, lookup-insert key key next a.runtime.cooldowns, str_eq_iff key key) in
      let bars = account_cooldown-until (record a { runtime = working }) key t in
      (
        later,
        elim (Bool-cases (ltb marked_at q.until)) [
          | inr over ↦ inl (ground (arith, over), ground (arith, over))
          | inl in_time ↦ inr (
            change,
            ground (arith, in_time, newer),
            ground (arith, newer),
            elim (Bool-cases (ltb t q.until)) [
              | inr gone ↦ inl (ground (arith, gone))
              | inl lasts ↦ inr (
                ground (arith, bars, stored, lasts, named),
                ground (arith, bars, stored, lasts, named),
              )
            ],
          )
        ],
      )
