-- ===== src/Api/AdminAuth/Tickets.antt =====
-- What a login proves, and how long its token is good for.
use aistudio2api.Prelude.{
  ℕ, ◌+◌, ◌≡◌, inl, inr, refl, sym, subst, true, false, if◌then◌else◌, ltb, Bool-cases, Option,
  none, some, ◌∷◌, [], Text, is_empty, str_eq_iff, str_eq_refl, trim_space, lookup, erase,
  lookup-insert, lookup-erase, arith, IsIn,
}
use aistudio2api.Api.AdminAuth.{
  AdminSession, AdminAuth, admin_session_lifetime, remove_session, session, sweep, add_session,
  make_room, forget, sign_in, login, logout, signed_in, is_limited, live_attempts, are_right,
}

abbrev pub session_from : ℕ → ℕ → AdminSession
session_from context now = record { context = context; expires = now + admin_session_lifetime }

abbrev Opens : ℕ → Text → AdminAuth → Type 0
Opens now token after =
    (context : ℕ) × (lookup token after.sessions ≡ some (session_from context now))

add_session-Opens :
    (now : ℕ) (token : Text) (auth : AdminAuth) → Opens now token (add_session now token auth)
unfolding add_session
add_session-Opens now token auth = (
  auth.contexts,
  ground (
    arith,
    lookup-insert token token (session_from auth.contexts now) auth.sessions,
    str_eq_refl token,
  ),
)

sign_in-Opens :
    (auth after : AdminAuth) (cookie : Option Text) (now : ℕ) (token : Text)
    → sign_in auth cookie now token ≡ some after
    → Opens now token after
unfolding sign_in
sign_in-Opens auth after cookie now token h =
    go (sweep now (forget auth cookie) (forget auth cookie).sessions []) refl
  where
    go :
        (o : Option (AdminAuth × Text))
        → sweep now (forget auth cookie) (forget auth cookie).sessions [] ≡ o
        → Opens now token after
    go none e = absurd (cc (rw (e, sign_in) at h))
    go (some (swept, oldest)) e =
        let same : some (add_session now token (make_room swept oldest)) ≡ some after =
          rw (e, sign_in) at h in
        let same' : add_session now token (make_room swept oldest) ≡ after = cc same in
        subst (Opens now token) same' (add_session-Opens now token (make_room swept oldest))

-- What is true of a login whose reply is a token.
pub record IsEarned (auth : AdminAuth) (peer : Text) (now : ℕ) (token : Text)
    (body : Option (Text × Text)) (after : AdminAuth) : Type 0 where
  pub on : auth.enabled ≡ true
  pub name : Text
  pub secret : Text
  pub given : body ≡ some (name, secret)
  pub right :
      (trim_space name ≡ auth.username)
      × (secret ≡ auth.password)
      × (is_empty auth.password ≡ false)
  pub free : is_limited peer (live_attempts now auth.attempts) ≡ false
  pub opens : (context : ℕ) × (lookup token after.sessions ≡ some (session_from context now))

-- A login that gives out a token was enabled and not rate limited, had the configured name and the
-- configured password, which is not empty, and opened a session of twelve hours under that token.
pub login-IsEarned :
    (auth after : AdminAuth) (cookie : Option Text) (peer : Text) (now : ℕ) (token used : Text)
    (body : Option (Text × Text))
    → login auth cookie peer now token body ≡ some (after, signed_in used)
    → (used ≡ token) × IsEarned auth peer now token body after
unfolding login
login-IsEarned auth after cookie peer now token used body h = with_body body refl
  where
    Earned : Type 0
    Earned = (used ≡ token) × IsEarned auth peer now token body after

    cleared : AdminAuth
    cleared = record auth { attempts = erase peer (live_attempts now auth.attempts) }

    finish :
        (name secret : Text)
        → body ≡ some (name, secret)
        → auth.enabled ≡ true
        → is_limited peer (live_attempts now auth.attempts) ≡ false
        → are_right auth name secret ≡ true
        → (o : Option AdminAuth) → sign_in cleared cookie now token ≡ o
        → Earned
    finish name secret b on free right none e = absurd (ground arith)
    finish name secret b on free right (some x) e =
        let same : x ≡ after = ground arith in
        (
          ground arith,
          record {
            on = on;
            name = name;
            secret = secret;
            given = b;
            right = ground (
              arith,
              str_eq_iff (trim_space name) auth.username,
              str_eq_iff secret auth.password,
            );
            free = free;
            opens = subst (Opens now token) same (sign_in-Opens cleared x cookie now token e);
          },
        )

    with_body : (o : Option (Text × Text)) → body ≡ o → Earned
    with_body none b = absurd (ground arith)
    with_body (some (name, secret)) b = elim (Bool-cases auth.enabled) [
      | inr off ↦ absurd (ground arith)
      | inl on ↦ elim (Bool-cases (is_limited peer (live_attempts now auth.attempts))) [
        | inl limited ↦ absurd (ground arith)
        | inr free ↦ elim (Bool-cases (are_right auth name secret)) [
          | inr wrong ↦ absurd (ground arith)
          | inl right ↦ finish name secret b on free right (sign_in cleared cookie now token) refl
        ]
      ]
    ]

-- The token that a login gave out is good until twelve hours later, and not from then on.
pub session-login :
    (auth after : AdminAuth) (cookie : Option Text) (peer : Text) (now later : ℕ)
    (token used : Text) (body : Option (Text × Text))
    → login auth cookie peer now token body ≡ some (after, signed_in used)
    → (context : ℕ) × ((session after (some used) later).1 ≡ (
        if ltb later (now + admin_session_lifetime) then some (session_from context now) else none))
unfolding session
session-login auth after cookie peer now later token used body h =
    let (same, v) = login-IsEarned auth after cookie peer now token used body h in
    let (context, e) = v.opens in
    let there : lookup used after.sessions ≡ some (session_from context now) = rw same e in
    (context, ground (arith, there))

-- Whoever logs out has no session with that cookie afterwards, and the requests that run under it
-- are cancelled.
pub logout_lem :
    (auth : AdminAuth) (cookie : Text) (s : AdminSession) (later : ℕ)
    → lookup cookie auth.sessions ≡ some s
    → ((session (logout auth (some cookie)) (some cookie) later).1 ≡ none)
      × IsIn s.context (logout auth (some cookie)).cancelled
unfolding session logout forget
logout_lem auth cookie s later h =
    let gone = record auth {
      sessions = erase cookie auth.sessions;
      cancelled = s.context ∷ auth.cancelled;
    } in
    let out : remove_session auth cookie ≡ gone = stored in
    subst
      (λ (a : AdminAuth). ((session a (some cookie) later).1 ≡ none) × IsIn s.context a.cancelled)
      (sym out)
      (ground (arith, lookup-erase cookie cookie auth.sessions, str_eq_refl cookie), inl refl)
  where
    stored : remove_session auth cookie ≡ record auth {
      sessions = erase cookie auth.sessions;
      cancelled = s.context ∷ auth.cancelled;
    }
    stored = rw (h, remove_session) refl
