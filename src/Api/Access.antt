-- ===== src/Api/Access.antt =====
-- Who is let in: internal/api/middleware.go from loopbackMiddleware on without the body limit,
-- protocolForRequest of errors.go, and the chains that router.go and admin_auth.go put together.
-- What net, net/url and strings.EqualFold say is the argument `net`; what the ServeMux of the console
-- chooses is the argument `route`.
pub mod Public
pub mod Console
use aistudio2api.Prelude.{
  ℕ, Bool, true, false, not, ◌&&◌, ◌||◌, if◌then◌else◌, ◌==◌, Option, none, some, List, ◌∷◌, [],
  Text, codes, str_eq, is_empty, has_prefix, trim_space,
}
use mathlib.Core.List.{reverse}
use aistudio2api.Api.AdminAuth.{AdminAuth, require_session}

-- A query parameter or a header that is missing is empty; `cookie` is the one of the console.
pub record Request : Type 0 where
  pub method : Text
  pub path : Text
  pub host : Text
  pub remote_addr : Text
  pub query_key : Text
  pub goog_api_key : Text
  pub x_api_key : Text
  pub authorization : Text
  pub origin : Text
  pub sec_fetch_site : Text
  pub anthropic_version : Text
  pub cookie : Option Text

pub record Url : Type 0 where
  pub scheme : Text
  pub has_user : Bool
  pub host : Text

-- url.Parse, the host of net.SplitHostPort, whether net.ParseIP gives a loopback address.
pub record Net : Type 0 where
  pub parse_url : Text → Option Url
  pub split_host_port : Text → Option Text
  pub is_loopback : Text → Bool
  pub equal_fold : Text → Text → Bool

pub data Protocol : Type 0 where
  openai anthropic gemini admin : Protocol

pub data Answer : Type 0 where
  served no_content : Answer
  unauthorized : Protocol → Answer
  forbidden : Text → Answer

abbrev pub Handler : Type 0
Handler = Request → Answer

unfoldable pub protocol_for_request : Request → Protocol
protocol_for_request r =
    if has_prefix r.path (codes "/v1beta/") || str_eq r.path (codes "/v1/interactions")
    then gemini
    else if has_prefix r.path (codes "/v1/messages") || not (is_empty r.anthropic_version)
    then anthropic
    else if has_prefix r.path (codes "/api/")
    then admin
    else openai

is_bracket : ℕ → Bool
is_bracket c = c == 91 || c == 93

drop_brackets : Text → Text
drop_brackets [] = []
drop_brackets (c ∷ s) = let rest = drop_brackets s in if is_bracket c then rest else c ∷ s

-- strings.Trim(name, "[]").
unfoldable pub trim_brackets : Text → Text
unfolding drop_brackets is_bracket
trim_brackets s = reverse (drop_brackets (reverse (drop_brackets s)))

unfoldable pub loopback_host : Net → Text → Bool
unfolding trim_brackets
loopback_host net host =
    let name =
      trim_brackets (elim (net.split_host_port host) [ none ↦ host | some hostname ↦ hostname ]) in
    net.equal_fold name (codes "localhost") || net.is_loopback name

unfoldable pub cors_middleware : Handler → Handler
cors_middleware next r = if str_eq r.method (codes "OPTIONS") then no_content else next r

unfoldable pub loopback_middleware : Net → Handler → Handler
unfolding loopback_host
loopback_middleware net next r = elim (net.split_host_port r.remote_addr) [
  | none ↦ forbidden (codes "control_plane_forbidden")
  | some host ↦
      if not (net.is_loopback host) || not (loopback_host net r.host)
      then forbidden (codes "control_plane_forbidden")
      else next r
]

abbrev pub is_web : Text → Bool
is_web scheme = str_eq scheme (codes "http") || str_eq scheme (codes "https")

unfoldable pub browser_origin_middleware : Net → Text → Handler → Handler
unfolding loopback_host protocol_for_request
browser_origin_middleware net required_key next r =
    let origin = trim_space r.origin in
    if not (is_empty (trim_space required_key))
    then next r
    else if is_empty origin
    then next r
    else (elim (net.parse_url origin) [
      | none ↦ unauthorized (protocol_for_request r)
      | some url ↦
          if (str_eq origin (codes "null") || is_web url.scheme) && not (loopback_host net url.host)
          then unauthorized (protocol_for_request r)
          else next r
    ])

unfoldable pub same_origin_middleware : Net → Handler → Handler
same_origin_middleware net next r =
    let origin = trim_space r.origin in
    let refused = forbidden (codes "control_plane_origin_forbidden") in
    if str_eq r.sec_fetch_site (codes "cross-site")
    then refused
    else if is_empty origin
    then next r
    else (elim (net.parse_url origin) [
      | none ↦ refused
      | some url ↦
          if not (is_web url.scheme)
            || (url.has_user || (is_empty url.host || not (net.equal_fold url.host r.host)))
          then refused
          else next r
    ])

-- strings.Cut at the first space.
unfoldable pub cut_space : Text → Option (Text × Text)
cut_space [] = none
cut_space (c ∷ s) =
    let rest = cut_space s in
    if c == 32
    then some ([], s)
    else (elim rest [ none ↦ none | some (before, after) ↦ some (c ∷ before, after) ])

unfoldable pub bearer_key : Net → Text → Text
unfolding cut_space
bearer_key net authorization = elim (cut_space authorization) [
  | none ↦ []
  | some (scheme, key) ↦ if net.equal_fold scheme (codes "Bearer") then trim_space key else []
]

unfoldable pub request_api_key : Net → Request → Text
unfolding bearer_key
request_api_key net r =
    if not (is_empty (trim_space r.query_key))
    then trim_space r.query_key
    else if not (is_empty (trim_space r.goog_api_key))
    then trim_space r.goog_api_key
    else if not (is_empty (trim_space r.x_api_key))
    then trim_space r.x_api_key
    else bearer_key net (trim_space r.authorization)

unfoldable pub auth_middleware : Net → Text → Handler → Handler
unfolding request_api_key protocol_for_request
auth_middleware net required_key next r =
    if is_empty (trim_space required_key)
    then next r
    else if not (str_eq (request_api_key net r) (trim_space required_key))
    then unauthorized (protocol_for_request r)
    else next r

-- The chain of the routes under /v1/ and /v1beta/.
unfoldable pub public_handler : Net → Text → Handler → Handler
unfolding cors_middleware browser_origin_middleware auth_middleware
public_handler net key public =
    cors_middleware (browser_origin_middleware net key (auth_middleware net key public))

-- Where the console's chain ends: at one of the three session endpoints or behind `requireSession`.
pub data Route : Type 0 where
  at_status at_login at_logout console : Route

pub data Outcome : Type 0 where
  reached : Route → Outcome
  login_required : Outcome
  refused : Answer → Outcome

-- What the middlewares answer, with `served` for the way on to the ServeMux.
unfoldable pub admin_gate : Net → Bool → Handler
unfolding same_origin_middleware loopback_middleware
admin_gate net enabled =
    if enabled
    then same_origin_middleware net (λ r. served)
    else loopback_middleware net (same_origin_middleware net (λ r. served))

unfoldable pub admin_handler :
    Net → (Request → Route) → AdminAuth → ℕ → Request → AdminAuth × Outcome
unfolding admin_gate require_session
admin_handler net route auth now r = elim (admin_gate net auth.enabled r) [
  | served ↦ (elim (route r) [
    | console ↦
        (let (after, passed) = require_session auth r.cookie now in
          (after, if passed then reached console else login_required))
    | at_status ↦ (auth, reached at_status)
    | at_login ↦ (auth, reached at_login)
    | at_logout ↦ (auth, reached at_logout)
  ])
  | no_content ↦ (auth, refused no_content)
  | unauthorized p ↦ (auth, refused (unauthorized p))
  | forbidden code ↦ (auth, refused (forbidden code))
]
