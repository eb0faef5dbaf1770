-- ===== src/Api/AdminAuth/Sessions.antt =====
-- Who is signed in: a login keeps the live sessions, 128 at most, and its own session ends by logout,
-- or twelve hours later.
use aistudio2api.Prelude.{
  ℕ, ◌≡◌, inl, inr, refl, Bool, true, false, Bool-cases, Option, none, some, List, ◌∷◌, [], Text,
  is_empty, Assoc, lookup, insert, erase, arith,
}
use aistudio2api.Api.AdminAuth.{
  LoginAttempt, AdminAuth, new_admin_auth, login, logout, Reply, signed_in, status, bad_request,
  rate_limited, wrong_credentials, is_limited, live_attempts, are_right, fail_attempt, attempt_of,
  require_session, session_status,
}
use aistudio2api.Api.AdminAuth.Sound.{
  IsSound, forget-IsSound, require_session-IsSound, session_status-IsSound, sign_in-IsSound,
}

-- The requests that change the sessions.
pub data Request : Type 0 where
  logs_in : Option Text → Text → ℕ → Text → Option (Text × Text) → Request
  visits asks : Option Text → ℕ → Request
  logs_out : Option Text → Request

pub handle : AdminAuth → Request → Option AdminAuth
handle auth (logs_in cookie peer now token body) = elim (login auth cookie peer now token body) [
  | none ↦ none
  | some (after, reply) ↦ some after
]
handle auth (visits cookie now) = some (require_session auth cookie now).0
handle auth (asks cookie now) = some (session_status auth cookie now).0
handle auth (logs_out cookie) = some (logout auth cookie)

pub handle_all : AdminAuth → List Request → Option AdminAuth
handle_all auth [] = some auth
handle_all auth (r ∷ rs) = elim (handle auth r) [ none ↦ none | some after ↦ handle_all after rs ]

-- The tokens that rand.Text gives are not empty.
abbrev pub HasToken : Request → Type 0
HasToken (logs_in cookie peer now token body) = is_empty token ≡ false
HasToken (visits cookie now) = Unit
HasToken (asks cookie now) = Unit
HasToken (logs_out cookie) = Unit

with_attempts-IsSound :
    (auth : AdminAuth) (attempts : Assoc LoginAttempt)
    → IsSound auth
    → IsSound (record auth { attempts = attempts })
with_attempts-IsSound auth attempts v = record { keyed = v.keyed; named = v.named; few = v.few }

Logged : AdminAuth → Option Text → Text → ℕ → Text → Option (Text × Text) → Type 0
Logged auth cookie peer now token body =
    (after : AdminAuth) × (reply : Reply) × (login auth cookie peer now token body
      ≡ some (after, reply))
    × IsSound after

login-IsSound :
    (auth : AdminAuth) (cookie : Option Text) (peer : Text) (now : ℕ) (token : Text)
    (body : Option (Text × Text))
    → is_empty token ≡ false
    → IsSound auth
    → Logged auth cookie peer now token body
unfolding Logged login
login-IsSound auth cookie peer now token body t v = elim (Bool-cases auth.enabled) [
  | inr off ↦ (auth, status, ground arith, v)
  | inl on ↦ go on body refl
]
  where
    live : Assoc LoginAttempt
    live = live_attempts now auth.attempts

    tried : AdminAuth
    tried = record auth { attempts = insert peer (fail_attempt now (attempt_of peer live)) live }

    right :
        auth.enabled ≡ true
        → (username password : Text) → body ≡ some (username, password)
        → is_limited peer live ≡ false
        → are_right auth username password ≡ true
        → Logged auth cookie peer now token body
    right on username password b free match =
        let cleared : AdminAuth = record auth { attempts = erase peer live } in
        let (after, e, w) =
          sign_in-IsSound cleared cookie now token t
            (with_attempts-IsSound auth (erase peer live) v) in
        (after, signed_in token, ground arith, w)

    go :
        auth.enabled ≡ true
        → (b : Option (Text × Text)) → body ≡ b
        → Logged auth cookie peer now token body
    go on none b = (auth, bad_request, ground arith, v)
    go on (some (username, password)) b = elim (Bool-cases (is_limited peer live)) [
      | inl limited ↦ (
        record auth { attempts = live },
        rate_limited,
        ground arith,
        with_attempts-IsSound auth live v,
      )
      | inr free ↦ elim (Bool-cases (are_right auth username password)) [
        | inr wrong ↦ (tried, wrong_credentials, ground arith, with_attempts-IsSound auth _ v)
        | inl match ↦ right on username password b free match
      ]
    ]

handle-IsSound :
    (auth : AdminAuth) (r : Request)
    → HasToken r
    → IsSound auth
    → (after : AdminAuth) × (handle auth r ≡ some after) × IsSound after
unfolding handle Logged logout
handle-IsSound auth (logs_in cookie peer now token body) t v =
    let (after, reply, e, w) = login-IsSound auth cookie peer now token body t v in
    (after, rw (e, handle) refl, w)
handle-IsSound auth (visits cookie now) t v = (_, refl, require_session-IsSound auth cookie now v)
handle-IsSound auth (asks cookie now) t v = (_, refl, session_status-IsSound auth cookie now v)
handle-IsSound auth (logs_out cookie) t v = (_, refl, forget-IsSound auth cookie v)

abbrev pub HaveTokens : List Request → Type 0
HaveTokens [] = Unit
HaveTokens (r ∷ rs) = HasToken r × HaveTokens rs

handle_all-IsSound :
    (auth : AdminAuth) (rs : List Request)
    → HaveTokens rs
    → IsSound auth
    → (after : AdminAuth) × (handle_all auth rs ≡ some after) × IsSound after
unfolding handle_all
handle_all-IsSound auth [] t v = (auth, refl, v)
handle_all-IsSound auth (r ∷ rs) t v =
    let (next, e, w) = handle-IsSound auth r t.0 v in
    let (after, f, x) = handle_all-IsSound next rs t.1 w in (after, rw (e, handle_all) f, x)

-- However requests log in, visit, ask for the status and log out, no nil pointer is met, and at most 128 sessions are
-- kept, each under one token that is not empty, where the random tokens are not empty.
pub handle_all-new_admin_auth :
    (enabled : Bool) (username password : Text) (rs : List Request)
    → HaveTokens rs
    → (after : AdminAuth) × (handle_all (new_admin_auth enabled username password) rs ≡ some after)
      × IsSound after
unfolding new_admin_auth lookup
handle_all-new_admin_auth enabled username password rs t =
    handle_all-IsSound (new_admin_auth enabled username password) rs t
      (record { keyed = tt; named = λ k s e. absurd (cc e); few = omega arith })
