-- ===== src/Api/AdminAuth/Attempts.antt =====
-- The limit on wrong logins from one address.
use aistudio2api.Prelude.{
  ℕ, suc, ◌+◌, ◌≤◌, ◌<◌, ◌≡◌, ◌⊎◌, inl, inr, refl, sym, subst, ◌∙◌, true, false, ltb, if◌then◌else◌,
  Bool-cases, Option, none, some, List, ◌∷◌, [], Text, str_eq, str_eq_iff, Assoc, lookup, insert,
  erase, lookup-insert, lookup-erase, arith, All,
}
use aistudio2api.Api.AdminAuth.{
  LoginAttempt, AdminAuth, minute, login, attempt_of, Reply, signed_in, status, bad_request,
  rate_limited, wrong_credentials, is_limited, live_attempts, fail_attempt,
}
use aistudio2api.Api.AdminAuth.Logins.{attempts_after, GoesOn, login-attempts, login-limited}

pub record Try : Type 0 where
  pub cookie : Option Text
  pub peer : Text
  pub now : ℕ
  pub token : Text
  pub body : Option (Text × Text)

-- How many wrong logins of an address there were since its last right one.
abbrev pub score : Text → Text → Reply → ℕ → ℕ
score p peer wrong_credentials n = if str_eq peer p then suc n else n
score p peer (signed_in token) n = if str_eq peer p then 0 else n
score p peer status n = n
score p peer bad_request n = n
score p peer rate_limited n = n

-- The state that the logins leave, and that number; a nil pointer would end the run.
unfoldable pub wrongs : Text → AdminAuth → List Try → ℕ → AdminAuth × ℕ
wrongs p auth [] n = (auth, n)
wrongs p auth (t ∷ ts) n = elim (login auth t.cookie t.peer t.now t.token t.body) [
  | none ↦ (auth, n)
  | some (after, reply) ↦ wrongs p after ts (score p t.peer reply n)
]

-- `n` wrong logins are on record until `end` at least.
unfoldable Tallied : Text → ℕ → Assoc LoginAttempt → ℕ → Type 0
Tallied p end m n =
    ((n ≡ 0) × (lookup p m ≡ none))
    ⊎ ((a : LoginAttempt) × (lookup p m ≡ some a)
        × (a.count ≡ n)
        × (0 < n)
        × (n ≤ 5)
        × (end ≤ a.until))

live-none :
    (now : ℕ) (p : Text) (m : Assoc LoginAttempt)
    → lookup p m ≡ none
    → lookup p (live_attempts now m) ≡ none
unfolding live_attempts lookup
live-none now p [] h = refl
live-none now p ((k, a) ∷ m) h = ground (arith, live-none now p m)

live-some :
    (now : ℕ) (p : Text) (m : Assoc LoginAttempt) (a : LoginAttempt)
    → lookup p m ≡ some a
    → now < a.until
    → lookup p (live_attempts now m) ≡ some a
unfolding live_attempts lookup
live-some now p [] a h l = cc
live-some now p ((k, b) ∷ m) a h l = ground (arith, live-some now p m a)

live-Tallied :
    (now : ℕ) (p : Text) (end : ℕ) (m : Assoc LoginAttempt) (n : ℕ)
    → now < end
    → Tallied p end m n
    → Tallied p end (live_attempts now m) n
unfolding Tallied
live-Tallied now p end m n h (inl (z, e)) = inl (z, live-none now p m e)
live-Tallied now p end m n h (inr (a, e, c, pos, five, u)) =
    inr (a, live-some now p m a e (omega arith), c, pos, five, u)

-- A wrong login that is not limited is one of the five.
fail-Tallied :
    (now start : ℕ) (p peer : Text) (m : Assoc LoginAttempt) (n : ℕ)
    → start ≤ now
    → is_limited peer m ≡ false
    → Tallied p (start + minute) m n
    → Tallied p
        (start + minute)
        (insert peer (fail_attempt now (attempt_of peer m)) m)
        (if str_eq peer p then suc n else n)
unfolding Tallied fail_attempt
fail-Tallied now start p peer m n h free t = elim (Bool-cases (str_eq peer p)) [
  | inl same ↦ inr (
    fail_attempt now (attempt_of peer m),
    lookup-insert peer p (fail_attempt now (attempt_of peer m)) m ∙ rw same refl,
    ground (arith, str_eq_iff peer p),
    ground arith,
    ground (arith, str_eq_iff peer p),
    ground (arith, str_eq_iff peer p),
  )
  | inr other ↦ elim t [
    | inl (z, e) ↦
        inl
          (ground arith, lookup-insert peer p (fail_attempt now (attempt_of peer m)) m ∙ rw other e)
    | inr (a, e, c, pos, five, u) ↦ inr (
      a,
      lookup-insert peer p (fail_attempt now (attempt_of peer m)) m ∙ rw other e,
      ground arith,
      ground arith,
      ground arith,
      u,
    )
  ]
]

erase-Tallied :
    (p peer : Text) (end : ℕ) (m : Assoc LoginAttempt) (n : ℕ)
    → Tallied p end m n
    → Tallied p end (erase peer m) (if str_eq peer p then 0 else n)
unfolding Tallied
erase-Tallied p peer end m n t = elim (Bool-cases (str_eq peer p)) [
  | inl same ↦ inl (ground arith, lookup-erase peer p m ∙ rw same refl)
  | inr other ↦ elim t [
    | inl (z, e) ↦ inl (ground arith, lookup-erase peer p m ∙ rw other e)
    | inr (a, e, c, pos, five, u) ↦
        inr (a, lookup-erase peer p m ∙ rw other e, ground arith, ground arith, ground arith, u)
  ]
]

step-Tallied :
    (now start : ℕ) (p peer : Text) (m : Assoc LoginAttempt) (n : ℕ) (reply : Reply)
    → start ≤ now
    → now < start + minute
    → GoesOn m peer now reply
    → Tallied p (start + minute) m n
    → Tallied p (start + minute) (attempts_after m peer now reply) (score p peer reply n)
step-Tallied now start p peer m n status h l g t = t
step-Tallied now start p peer m n bad_request h l g t = t
step-Tallied now start p peer m n rate_limited h l g t = live-Tallied now p (start + minute) m n l t
step-Tallied now start p peer m n wrong_credentials h l g t =
    fail-Tallied now start p peer (live_attempts now m) n h g
      (live-Tallied now p (start + minute) m n l t)
step-Tallied now start p peer m n (signed_in token) h l g t =
    erase-Tallied p peer (start + minute) (live_attempts now m) n
      (live-Tallied now p (start + minute) m n l t)

abbrev pub WithinMinute : ℕ → List Try → Type 0
WithinMinute start = All (λ (t : Try). (start ≤ t.now) × (t.now < start + minute))

Tallied-five : (p : Text) (end : ℕ) (m : Assoc LoginAttempt) (n : ℕ) → Tallied p end m n → n ≤ 5
unfolding Tallied
Tallied-five p end m n (inl (z, e)) = omega arith
Tallied-five p end m n (inr (a, e, c, pos, five, u)) = five

abbrev TalliedRun : Text → ℕ → AdminAuth × ℕ → Type 0
TalliedRun p end (auth, n) = Tallied p end auth.attempts n

wrongs-Tallied :
    (p : Text) (start : ℕ) (auth : AdminAuth) (ts : List Try) (n : ℕ)
    → WithinMinute start ts
    → Tallied p (start + minute) auth.attempts n
    → TalliedRun p (start + minute) (wrongs p auth ts n)
unfolding wrongs
wrongs-Tallied p start auth [] n w t = t
wrongs-Tallied p start auth (x ∷ ts) n ((h, l), w) t =
    go (login auth x.cookie x.peer x.now x.token x.body) refl
      (λ after. wrongs-Tallied p start after ts)
  where
    go :
        (o : Option (AdminAuth × Reply))
        → login auth x.cookie x.peer x.now x.token x.body ≡ o
        → ((after : AdminAuth) (k : ℕ)
            → WithinMinute start ts
            → Tallied p (start + minute) after.attempts k
            → TalliedRun p (start + minute) (wrongs p after ts k))
        → TalliedRun p (start + minute) (wrongs p auth (x ∷ ts) n)
    go none e ih = rw (e, wrongs) t
    go (some (after, reply)) e ih =
        let (same, goes) = login-attempts auth after x.cookie x.peer x.now x.token x.body reply e in
        let kept = step-Tallied x.now start p x.peer auth.attempts n reply h l goes t in
        rw (e, wrongs)
          (ih after (score p x.peer reply n) w
            (subst (λ m. Tallied p (start + minute) m (score p x.peer reply n)) (sym same) kept))

Tallied-limited :
    (p : Text) (end : ℕ) (m : Assoc LoginAttempt) → Tallied p end m 5 → is_limited p m ≡ true
unfolding Tallied
Tallied-limited p end m (inl (z, e)) = absurd (omega arith)
Tallied-limited p end m (inr (a, e, c, pos, five, u)) = ground (arith, e, c)

-- In a minute that begins with no wrong login of an address on record, whatever logins arrive from it
-- and from others, the clock being in that minute at each: at most five of its wrong logins in a row
-- are answered as wrong, and once five were, its next login in that minute at an enabled console is
-- answered with the limit, whatever its credentials, and changes nothing but the attempts that expired.
pub wrongs_at_most_five :
    (p : Text) (start : ℕ) (auth : AdminAuth) (ts : List Try) (cookie : Option Text) (now : ℕ)
    (token username password : Text)
    → WithinMinute start ts
    → lookup p auth.attempts ≡ none
    → start ≤ now
    → now < start + minute
    → (wrongs p auth ts 0).0.enabled ≡ true
    → let (after, n) = wrongs p auth ts 0 in
      (n ≤ 5)
      × ((n < 5)
          ⊎ (login after cookie p now token (some (username, password))
              ≡ some (record after { attempts = live_attempts now after.attempts }, rate_limited)))
unfolding Tallied
wrongs_at_most_five p start auth ts cookie now token username password w e h l on =
    let (after, n) = wrongs p auth ts 0 in
    let tallied = wrongs-Tallied p start auth ts 0 w (inl (refl, e)) in
    let five = Tallied-five p (start + minute) after.attempts n tallied in
    let live = live-Tallied now p (start + minute) after.attempts n l tallied in
    (
      five,
      elim (Bool-cases (ltb n 5)) [
        | inl fewer ↦ inl (ground (arith, fewer))
        | inr all ↦
            (let is : n ≡ 5 = ground (arith, five, all) in
              inr (
                login-limited after cookie p now token username password on (
                  Tallied-limited p (start + minute) (live_attempts now after.attempts) (
                    subst (λ k. Tallied p (start + minute) (live_attempts now after.attempts) k) is
                      live))))
      ],
    )
