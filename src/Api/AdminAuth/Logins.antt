-- ===== src/Api/AdminAuth/Logins.antt =====
-- What a login does to the wrong logins on record, by its reply.
use aistudio2api.Prelude.{
  ℕ, ◌≡◌, refl, sym, ap, ◌∙◌, true, false, Option, none, some, ◌∷◌, [], Text, Assoc, insert, erase,
  arith,
}
use aistudio2api.Api.AdminAuth.{
  AdminSession, LoginAttempt, AdminAuth, remove_session, sweep, add_session, make_room, forget,
  sign_in, login, attempt_of, Reply, signed_in, status, bad_request, rate_limited,
  wrong_credentials, is_limited, live_attempts, fail_attempt,
}

remove_session-attempts :
    (auth : AdminAuth) (token : Text) → (remove_session auth token).attempts ≡ auth.attempts
unfolding remove_session
remove_session-attempts auth token = ground arith

sweep-attempts :
    (now : ℕ) (auth : AdminAuth) (rest : Assoc AdminSession) (oldest : Text) (after : AdminAuth)
    (last : Text)
    → sweep now auth rest oldest ≡ some (after, last)
    → after.attempts ≡ auth.attempts
unfolding sweep
sweep-attempts now auth [] oldest after last h = ground arith
sweep-attempts now auth ((token, s) ∷ rest) oldest after last h = ground (
  arith,
  remove_session-attempts auth token,
  sweep-attempts now (remove_session auth token) rest oldest after last,
  sweep-attempts now auth rest token after last,
  sweep-attempts now auth rest oldest after last,
)

forget-attempts :
    (auth : AdminAuth) (cookie : Option Text) → (forget auth cookie).attempts ≡ auth.attempts
unfolding forget
forget-attempts auth none = refl
forget-attempts auth (some old) = remove_session-attempts auth old

add_session-attempts :
    (now : ℕ) (token oldest : Text) (auth : AdminAuth)
    → (add_session now token (make_room auth oldest)).attempts ≡ auth.attempts
unfolding add_session make_room
add_session-attempts now token oldest auth = ground (arith, remove_session-attempts auth oldest)

sign_in-attempts :
    (auth after : AdminAuth) (cookie : Option Text) (now : ℕ) (token : Text)
    → sign_in auth cookie now token ≡ some after
    → after.attempts ≡ auth.attempts
unfolding sign_in
sign_in-attempts auth after cookie now token h =
    go (sweep now (forget auth cookie) (forget auth cookie).sessions []) refl
  where
    go :
        (o : Option (AdminAuth × Text))
        → sweep now (forget auth cookie) (forget auth cookie).sessions [] ≡ o
        → after.attempts ≡ auth.attempts
    go none e = absurd (ground arith)
    go (some (swept, oldest)) e =
        let same : add_session now token (make_room swept oldest) ≡ after = ground arith in
        ap (λ (a : AdminAuth). a.attempts) (sym same)
        ∙ add_session-attempts now token oldest swept
        ∙ sweep-attempts now (forget auth cookie) (forget auth cookie).sessions [] swept oldest e
        ∙ forget-attempts auth cookie

-- What a login does to the attempts, by its reply.
abbrev pub attempts_after : Assoc LoginAttempt → Text → ℕ → Reply → Assoc LoginAttempt
attempts_after m peer now status = m
attempts_after m peer now bad_request = m
attempts_after m peer now rate_limited = live_attempts now m
attempts_after m peer now wrong_credentials =
    insert peer (fail_attempt now (attempt_of peer (live_attempts now m))) (live_attempts now m)
attempts_after m peer now (signed_in token) = erase peer (live_attempts now m)

abbrev pub GoesOn : Assoc LoginAttempt → Text → ℕ → Reply → Type 0
GoesOn m peer now wrong_credentials = is_limited peer (live_attempts now m) ≡ false
GoesOn m peer now status = Unit
GoesOn m peer now bad_request = Unit
GoesOn m peer now rate_limited = Unit
GoesOn m peer now (signed_in token) = Unit

pub login-attempts :
    (auth after : AdminAuth) (cookie : Option Text) (peer : Text) (now : ℕ) (token : Text)
    (body : Option (Text × Text)) (reply : Reply)
    → login auth cookie peer now token body ≡ some (after, reply)
    → (after.attempts ≡ attempts_after auth.attempts peer now reply)
      × GoesOn auth.attempts peer now reply
unfolding login
login-attempts auth after cookie peer now token body status h = ground arith
login-attempts auth after cookie peer now token body bad_request h = ground arith
login-attempts auth after cookie peer now token body rate_limited h = ground arith
login-attempts auth after cookie peer now token body wrong_credentials h = ground arith
login-attempts auth after cookie peer now token body (signed_in used) h = ground (
  arith,
  sign_in-attempts (record auth { attempts = erase peer (live_attempts now auth.attempts) }) after
      cookie now token,
)

pub login-limited :
    (auth : AdminAuth) (cookie : Option Text) (peer : Text) (now : ℕ) (token : Text)
    (username password : Text)
    → auth.enabled ≡ true
    → is_limited peer (live_attempts now auth.attempts) ≡ true
    → login auth cookie peer now token (some (username, password))
      ≡ some (record auth { attempts = live_attempts now auth.attempts }, rate_limited)
unfolding login
login-limited auth cookie peer now token username password on limited = rw (on, limited) refl
