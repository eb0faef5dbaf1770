-- ===== src/Api/Access/Console.antt =====
-- Which requests reach the console.
use aistudio2api.Prelude.{
  ℕ, ◌≡◌, ◌⊎◌, inl, inr, refl, true, false, ltb, Bool-cases, Option-cases, Option, none, some, Text,
  codes, str_eq, is_empty, trim_space, lookup, arith,
}
use aistudio2api.Api.AdminAuth.{AdminAuth, AdminSession, session, require_session}
use aistudio2api.Api.Access.{
  Request, Url, Net, Answer, served, no_content, unauthorized, forbidden, Handler, loopback_host,
  is_web, loopback_middleware, same_origin_middleware, Route, at_status, at_login, at_logout,
  console, reached, admin_gate, admin_handler,
}

-- No page of another site sent it.
abbrev pub IsSameOrigin : Net → Request → Type 0
IsSameOrigin net r =
    (str_eq r.sec_fetch_site (codes "cross-site") ≡ false)
    × ((is_empty (trim_space r.origin) ≡ true)
        ⊎ ((url : Url) × (net.parse_url (trim_space r.origin) ≡ some url)
            × (is_web url.scheme ≡ true)
            × (url.has_user ≡ false)
            × (net.equal_fold url.host r.host ≡ true)))

-- It came over the loopback interface, and was addressed to this machine.
abbrev pub IsFromLoopback : Net → Request → Type 0
IsFromLoopback net r =
    (host : Text) × (net.split_host_port r.remote_addr ≡ some host)
    × (net.is_loopback host ≡ true)
    × (loopback_host net r.host ≡ true)

-- Its cookie names a session that has not expired.
abbrev pub IsSignedIn : AdminAuth → Request → ℕ → Type 0
IsSignedIn auth r now =
    (token : Text) × (s : AdminSession) × (r.cookie ≡ some token)
    × (lookup token auth.sessions ≡ some s)
    × (ltb now s.expires ≡ true)

abbrev serve : Handler
serve r = served

same_origin_lem :
    (net : Net) (r : Request) → same_origin_middleware net serve r ≡ served → IsSameOrigin net r
unfolding same_origin_middleware
same_origin_lem net r h = elim (Bool-cases (str_eq r.sec_fetch_site (codes "cross-site"))) [
  | inl cross ↦ absurd (ground (arith))
  | inr own ↦ elim (Bool-cases (is_empty (trim_space r.origin))) [
    | inl bare ↦ (own, inl bare)
    | inr origin ↦ elim (Option-cases (net.parse_url (trim_space r.origin))) [
      | inl bad ↦ absurd (ground (arith))
      | inr (url, e) ↦ (own, inr (url, e, ground (arith), ground (arith), ground (arith)))
    ]
  ]
]

loopback_lem :
    (net : Net) (r : Request)
    → loopback_middleware net (same_origin_middleware net serve) r ≡ served
    → IsFromLoopback net r × (same_origin_middleware net serve r ≡ served)
unfolding loopback_middleware
loopback_lem net r h = elim (Option-cases (net.split_host_port r.remote_addr)) [
  | inl bad ↦ absurd (ground (arith))
  | inr (host, e) ↦ ((host, e, ground (arith), ground (arith)), ground (arith))
]

session_lem :
    (auth : AdminAuth) (cookie : Option Text) (now : ℕ)
    → auth.enabled ≡ true
    → (require_session auth cookie now).1 ≡ true
    → (token : Text) × (s : AdminSession) × (cookie ≡ some token)
      × (lookup token auth.sessions ≡ some s)
      × (ltb now s.expires ≡ true)
unfolding require_session session
session_lem auth none now on h = absurd (ground (arith))
session_lem auth (some token) now on h = elim (Option-cases (lookup token auth.sessions)) [
  | inl out ↦ absurd (ground (arith))
  | inr (s, e) ↦ (token, s, refl, e, ground (arith))
]

gate_lem :
    (net : Net) (route : Request → Route) (auth after : AdminAuth) (now : ℕ) (r : Request)
    → admin_handler net route auth now r ≡ (after, reached console)
    → (a : Answer) → admin_gate net auth.enabled r ≡ a
    → (admin_gate net auth.enabled r ≡ served) × ((require_session auth r.cookie now).1 ≡ true)
unfolding admin_handler
gate_lem net route auth after now r h served e = routed (route r) refl
  where
    routed :
        (t : Route)
        → route r ≡ t
        → (admin_gate net auth.enabled r ≡ served) × ((require_session auth r.cookie now).1 ≡ true)
    routed console f = (
      e,
      elim (Bool-cases (require_session auth r.cookie now).1) [
        | inl y ↦ y
        | inr n ↦ absurd (ground (arith, h, e, f, n))
      ],
    )
    routed at_status f = absurd (ground (arith, h, e, f))
    routed at_login f = absurd (ground (arith, h, e, f))
    routed at_logout f = absurd (ground (arith, h, e, f))
gate_lem net route auth after now r h no_content e = absurd (ground (arith, h, e))
gate_lem net route auth after now r h (unauthorized p) e = absurd (ground (arith, h, e))
gate_lem net route auth after now r h (forbidden code) e = absurd (ground (arith, h, e))

-- A request that reaches the console came from no other site; where logins are on, it carries the
-- cookie of a session that has not expired, and where they are off, it comes from this machine.
pub admin_handler-IsGuarded :
    (net : Net) (route : Request → Route) (auth after : AdminAuth) (now : ℕ) (r : Request)
    → admin_handler net route auth now r ≡ (after, reached console)
    → IsSameOrigin net r
      × (((auth.enabled ≡ true) × IsSignedIn auth r now)
          ⊎ ((auth.enabled ≡ false) × IsFromLoopback net r))
unfolding admin_gate
admin_handler-IsGuarded net route auth after now r h =
    let (gate, passed) =
      gate_lem net route auth after now r h (admin_gate net auth.enabled r) refl in
    elim (Bool-cases auth.enabled) [
      | inl on ↦ (
        same_origin_lem net r (ground (arith, gate, on)),
        inl (on, session_lem auth r.cookie now on passed),
      )
      | inr off ↦
          (let (near, own) = loopback_lem net r (ground (arith, gate, off)) in
            (same_origin_lem net r own, inr (off, near)))
    ]
