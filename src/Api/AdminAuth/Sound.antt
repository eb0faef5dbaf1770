-- ===== src/Api/AdminAuth/Sound.antt =====
-- What each part of a login and of a visit keeps: few sessions, each under one token.
use aistudio2api.Prelude.{
  ℕ, ◌+◌, ◌≤◌, ◌<◌, ◌≡◌, inl, inr, refl, sym, subst, false, if◌then◌else◌, ltb, leb, if_cases,
  Bool-cases, Option, none, some, Option-cases, [], length, Text, is_empty, str_eq_iff, lookup,
  lookup-insert, lookup-erase, IsKeyed, erase-IsKeyed, insert-IsKeyed, length-erase,
  length-erase_le, length-insert, arith,
}
use aistudio2api.Api.AdminAuth.{
  AdminSession, AdminAuth, admin_session_lifetime, max_sessions, remove_session, session, sweep,
  add_session, make_room, forget, sign_in, require_session, session_status,
}
use aistudio2api.Api.AdminAuth.Sweep.{Oldest, IsReady, Swept, sweep-Swept}

-- Each session has one token, which is not empty, and there are at most 128.
pub record IsSound (auth : AdminAuth) : Type 0 where
  pub keyed : IsKeyed auth.sessions
  pub named : (k : Text) (s : AdminSession) → lookup k auth.sessions ≡ some s → is_empty k ≡ false
  pub few : length auth.sessions ≤ max_sessions

remove_session-IsSound :
    (auth : AdminAuth) (token : Text) → IsSound auth → IsSound (remove_session auth token)
unfolding remove_session
remove_session-IsSound auth token v = elim (Option-cases (lookup token auth.sessions)) [
  | inl e ↦ rw (e, remove_session) v
  | inr (s, e) ↦
      rw (e, remove_session)
        (record {
          keyed = erase-IsKeyed token auth.sessions v.keyed;
          named = λ k t h. v.named k t (ground (arith, lookup-erase token k auth.sessions));
          few =
              let less = length-erase_le token auth.sessions in
              let n = v.few in omega (arith, less, n);
        })
]

-- The session that gives way is there, so that there is room for one more.
make_room-few :
    (now : ℕ) (auth : AdminAuth) (oldest : Text)
    → Oldest now auth.sessions oldest 0
    → length auth.sessions ≤ max_sessions
    → length (make_room auth oldest).sessions < max_sessions
unfolding make_room remove_session
make_room-few now auth oldest (inl (e, n)) h = ground (arith, n)
make_room-few now auth oldest (inr (o, e, there, live)) h =
    ground (arith, length-erase oldest o auth.sessions there)

make_room-IsSound :
    (auth : AdminAuth) (oldest : Text) → IsSound auth → IsSound (make_room auth oldest)
unfolding make_room
make_room-IsSound auth oldest v = elim (Bool-cases (leb max_sessions (length auth.sessions))) [
  | inl full ↦ rw full (remove_session-IsSound auth oldest v)
  | inr free ↦ rw free v
]

add_session-IsSound :
    (now : ℕ) (token : Text) (auth : AdminAuth)
    → is_empty token ≡ false
    → IsSound auth
    → length auth.sessions < max_sessions
    → IsSound (add_session now token auth)
unfolding add_session
add_session-IsSound now token auth t v h = record {
  keyed = insert-IsKeyed token _ auth.sessions v.keyed;
  named = λ k s e. ground (
    arith,
    v.named k s,
    lookup-insert token k
        (record { context = auth.contexts; expires = now + admin_session_lifetime }) auth.sessions,
    str_eq_iff token k,
  );
  few =
      let more =
        length-insert token
          (record { context = auth.contexts; expires = now + admin_session_lifetime })
          auth.sessions in
      omega (arith, more, h);
}

pub forget-IsSound :
    (auth : AdminAuth) (cookie : Option Text) → IsSound auth → IsSound (forget auth cookie)
unfolding forget
forget-IsSound auth none v = v
forget-IsSound auth (some old) v = remove_session-IsSound auth old v

start-IsReady : (now : ℕ) (auth : AdminAuth) → IsSound auth → IsReady now auth auth.sessions []
start-IsReady now auth v = record {
  keyed = v.keyed;
  to_do = v.keyed;
  held = λ k s e. e;
  named = v.named;
  known = inl (refl, omega arith);
}

Swept-IsSound :
    (now : ℕ) (auth after : AdminAuth) (oldest : Text)
    → IsSound auth
    → Swept now auth auth.sessions after oldest
    → IsSound after
Swept-IsSound now auth after oldest v w = record {
  keyed = w.keyed;
  named = λ k s e. go k s e (lookup k auth.sessions) refl;
  few = let n = w.fewer in let m = v.few in omega (arith, n, m);
}
  where
    go :
        (k : Text) (s : AdminSession)
        → lookup k after.sessions ≡ some s
        → (o : Option AdminSession) → lookup k auth.sessions ≡ o
        → is_empty k ≡ false
    go k s e none m = absurd (ground (arith, w.kept k))
    go k s e (some t) m = v.named k t m

sign_in_swept :
    (auth swept : AdminAuth) (cookie : Option Text) (now : ℕ) (token oldest : Text)
    → sweep now (forget auth cookie) (forget auth cookie).sessions [] ≡ some (swept, oldest)
    → sign_in auth cookie now token ≡ some (add_session now token (make_room swept oldest))
unfolding sign_in
sign_in_swept auth swept cookie now token oldest e = rw (e, sign_in) refl

-- A login with right credentials never meets the nil pointer, and leaves a sound state.
pub sign_in-IsSound :
    (auth : AdminAuth) (cookie : Option Text) (now : ℕ) (token : Text)
    → is_empty token ≡ false
    → IsSound auth
    → (after : AdminAuth) × (sign_in auth cookie now token ≡ some after) × IsSound after
sign_in-IsSound auth cookie now token t v =
    let u = forget-IsSound auth cookie v in
    let (swept, oldest, e, w) =
      sweep-Swept now (forget auth cookie) (forget auth cookie).sessions []
        (start-IsReady now (forget auth cookie) u) in
    let x = Swept-IsSound now (forget auth cookie) swept oldest u w in
    (
      add_session now token (make_room swept oldest),
      sign_in_swept auth swept cookie now token oldest e,
      add_session-IsSound now token (make_room swept oldest) t (make_room-IsSound swept oldest x)
          (make_room-few now swept oldest w.known x.few),
    )

session-IsSound :
    (auth : AdminAuth) (cookie : Option Text) (now : ℕ)
    → IsSound auth
    → IsSound (session auth cookie now).0
unfolding session
session-IsSound auth none now v = v
session-IsSound auth (some cookie) now v = elim (Option-cases (lookup cookie auth.sessions)) [
  | inl e ↦ rw (e, session) v
  | inr (s, e) ↦ elim (Bool-cases (ltb now s.expires)) [
    | inl live ↦ rw (e, live, session) v
    | inr dead ↦ rw (e, dead, session) (remove_session-IsSound auth cookie v)
  ]
]

pub require_session-IsSound :
    (auth : AdminAuth) (cookie : Option Text) (now : ℕ)
    → IsSound auth
    → IsSound (require_session auth cookie now).0
unfolding require_session
require_session-IsSound auth cookie now v =
    let e : (require_session auth cookie now).0
        ≡ (if auth.enabled then (session auth cookie now).0 else auth) =
      ground arith in
    subst IsSound (sym e)
      (if_cases IsSound auth.enabled (λ on. session-IsSound auth cookie now v) (λ off. v))

pub session_status-IsSound :
    (auth : AdminAuth) (cookie : Option Text) (now : ℕ)
    → IsSound auth
    → IsSound (session_status auth cookie now).0
unfolding session_status
session_status-IsSound auth cookie now v =
    let e : (session_status auth cookie now).0
        ≡ (if auth.enabled then (session auth cookie now).0 else auth) =
      ground arith in
    subst IsSound (sym e)
      (if_cases IsSound auth.enabled (λ on. session-IsSound auth cookie now v) (λ off. v))
