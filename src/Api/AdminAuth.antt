-- ===== src/Api/AdminAuth.antt =====
-- The login sessions of the admin console: internal/api/admin_auth.go. Each operation runs under the
-- mutex. Times are nanoseconds; `cancelled` keeps the contexts that `cancel` was called for. What
-- rand.Text gives is an argument of `login`, as is the body after encoding/json, `none` where that
-- fails.
pub mod Sweep
pub mod Sound
pub mod Sessions
pub mod Logins
pub mod Attempts
pub mod Tickets
use aistudio2api.Prelude.{
  ℕ, suc, ◌+◌, Bool, true, false, not, ◌&&◌, ◌||◌, if◌then◌else◌, ◌==◌, ltb, leb, Option, none,
  some, List, ◌∷◌, [], keep, length, Text, str_eq, is_empty, trim_space, Assoc, lookup, lookup_or,
  insert, erase,
}

pub record AdminSession : Type 0 where
  pub context : ℕ
  pub expires : ℕ

pub record LoginAttempt : Type 0 where
  pub count : ℕ
  pub until : ℕ

pub record AdminAuth : Type 0 where
  pub enabled : Bool
  pub username : Text
  pub password : Text
  pub sessions : Assoc AdminSession
  pub attempts : Assoc LoginAttempt
  pub contexts : ℕ
  pub cancelled : List ℕ

abbrev pub minute : ℕ
minute = 60000000000

abbrev pub admin_session_lifetime : ℕ
admin_session_lifetime = 43200000000000

abbrev pub max_sessions : ℕ
max_sessions = 128

unfoldable pub new_admin_auth : Bool → Text → Text → AdminAuth
new_admin_auth enabled username password = record {
  enabled = enabled;
  username = username;
  password = password;
  sessions = [];
  attempts = [];
  contexts = 0;
  cancelled = [];
}

unfoldable pub remove_session : AdminAuth → Text → AdminAuth
remove_session auth token = elim (lookup token auth.sessions) [
  | none ↦ auth
  | some s ↦ record auth {
    sessions = erase token auth.sessions;
    cancelled = s.context ∷ auth.cancelled;
  }
]

unfoldable pub session : AdminAuth → Option Text → ℕ → AdminAuth × Option AdminSession
unfolding remove_session
session auth none now = (auth, none)
session auth (some cookie) now = elim (lookup cookie auth.sessions) [
  | none ↦ (auth, none)
  | some s ↦ if not (ltb now s.expires) then (remove_session auth cookie, none) else (auth, some s)
]

abbrev pub is_found : Option AdminSession → Bool
is_found none = false
is_found (some s) = true

-- Whether a request goes on to the console.
unfoldable pub require_session : AdminAuth → Option Text → ℕ → AdminAuth × Bool
unfolding session
require_session auth cookie now =
    if not auth.enabled
    then (auth, true)
    else (let (after, found) = session auth cookie now in (after, is_found found))

-- Whether the login page counts the request as signed in, and under which name.
unfoldable pub session_status : AdminAuth → Option Text → ℕ → AdminAuth × (Bool × Text)
unfolding session
session_status auth cookie now =
    if not auth.enabled
    then (auth, (true, []))
    else (let (after, found) = session auth cookie now in
        (after, (is_found found, if is_found found then auth.username else [])))

pub data Reply : Type 0 where
  status bad_request rate_limited wrong_credentials : Reply
  signed_in : Text → Reply

abbrev pub no_attempt : LoginAttempt
no_attempt = record { count = 0; until = 0 }

abbrev pub attempt_of : Text → Assoc LoginAttempt → LoginAttempt
attempt_of peer attempts = lookup_or no_attempt peer attempts

unfoldable pub live_attempts : ℕ → Assoc LoginAttempt → Assoc LoginAttempt
live_attempts now attempts = keep (λ (e : Text × LoginAttempt). ltb now e.1.until) attempts

abbrev pub is_limited : Text → Assoc LoginAttempt → Bool
is_limited peer attempts = leb 5 (attempt_of peer attempts).count || leb 1024 (length attempts)

unfoldable pub fail_attempt : ℕ → LoginAttempt → LoginAttempt
fail_attempt now attempt = record {
  count = suc attempt.count;
  until = if attempt.count == 0 then now + minute else attempt.until;
}

-- The loop over the sessions: the expired ones go, the live one that expires first is kept in mind.
-- `none` is the nil pointer that `auth.sessions[oldest]` would be without an entry.
unfoldable pub sweep : ℕ → AdminAuth → List (Text × AdminSession) → Text → Option (AdminAuth × Text)
sweep now auth [] oldest = some (auth, oldest)
sweep now auth ((token, s) ∷ rest) oldest =
    let removed = sweep now (remove_session auth token) rest oldest in
    let taken = sweep now auth rest token in
    let passed = sweep now auth rest oldest in
    if not (ltb now s.expires)
    then removed
    else if is_empty oldest
    then taken
    else (elim (lookup oldest auth.sessions) [
      | none ↦ none
      | some o ↦ if ltb s.expires o.expires then taken else passed
    ])

add_session : ℕ → Text → AdminAuth → AdminAuth
add_session now token auth = record auth {
  sessions =
      insert token (record { context = auth.contexts; expires = now + admin_session_lifetime })
        auth.sessions;
  contexts = suc auth.contexts;
}

make_room : AdminAuth → Text → AdminAuth
make_room auth oldest =
    if leb max_sessions (length auth.sessions) then remove_session auth oldest else auth

-- The session of the request's cookie goes.
pub forget : AdminAuth → Option Text → AdminAuth
forget auth none = auth
forget auth (some old) = remove_session auth old

-- The part of `login` after the credentials were found right.
unfoldable pub sign_in : AdminAuth → Option Text → ℕ → Text → Option AdminAuth
unfolding make_room add_session forget sweep
sign_in auth cookie now token =
    elim (sweep now (forget auth cookie) (forget auth cookie).sessions []) [
      | none ↦ none
      | some (swept, oldest) ↦ some (add_session now token (make_room swept oldest))
    ]

abbrev pub are_right : AdminAuth → Text → Text → Bool
are_right auth username password =
    str_eq (trim_space username) auth.username
    && str_eq password auth.password
    && not (is_empty auth.password)

unfoldable pub login :
    AdminAuth → Option Text → Text → ℕ → Text → Option (Text × Text) → Option (AdminAuth × Reply)
unfolding sign_in fail_attempt live_attempts
login auth cookie peer now token body =
    if not auth.enabled then some (auth, status) else (elim body [
      | none ↦ some (auth, bad_request)
      | some (username, password) ↦
          let live = record auth { attempts = live_attempts now auth.attempts } in
          if is_limited peer live.attempts
          then some (live, rate_limited)
          else if not (are_right auth username password)
          then some (
            record live {
              attempts =
                  insert peer (fail_attempt now (attempt_of peer live.attempts)) live.attempts;
            },
            wrong_credentials,
          )
          else (elim (sign_in (record live { attempts = erase peer live.attempts }) cookie now
              token) [ none ↦ none | some after ↦ some (after, signed_in token) ])
    ])

unfoldable pub logout : AdminAuth → Option Text → AdminAuth
unfolding forget
logout auth cookie = forget auth cookie
