-- ===== src/Api/Access/Public.antt =====
-- Which public requests are served.
use aistudio2api.Prelude.{
  ◌≡◌, ◌↔◌, ◌⊎◌, inl, inr, refl, true, false, ◌||◌, Bool-cases, Option, none, some, Text, codes,
  str_eq, str_eq_iff, is_empty, trim_space, arith,
}
use aistudio2api.Api.Access.{
  Request, Url, Net, served, Handler, loopback_host, is_web, cors_middleware,
  browser_origin_middleware, request_api_key, auth_middleware, public_handler,
}

-- A browser that sends an origin sends one of this machine, or one of a scheme that is not the web's.
abbrev pub IsLocal : Net → Request → Type 0
IsLocal net r =
    (is_empty (trim_space r.origin) ≡ true)
    ⊎ ((url : Url) × (net.parse_url (trim_space r.origin) ≡ some url)
        × ((loopback_host net url.host ≡ true)
            ⊎ ((str_eq (trim_space r.origin) (codes "null") ≡ false)
                × (is_web url.scheme ≡ false))))

-- A request that carries the key, or that comes from no foreign page where no key is configured. A
-- preflight is answered before.
abbrev pub IsAdmitted : Net → Text → Request → Type 0
IsAdmitted net key r =
    (str_eq r.method (codes "OPTIONS") ≡ false)
    × (((is_empty (trim_space key) ≡ false) × (request_api_key net r ≡ trim_space key))
        ⊎ ((is_empty (trim_space key) ≡ true) × IsLocal net r))

abbrev serve : Handler
serve r = served

keyed_lem :
    (net : Net) (key : Text) (r : Request)
    → is_empty (trim_space key) ≡ false
    → (browser_origin_middleware net key (auth_middleware net key serve) r ≡ served)
      ↔ (request_api_key net r ≡ trim_space key)
unfolding browser_origin_middleware auth_middleware
keyed_lem net key r h = elim (Bool-cases (str_eq (request_api_key net r) (trim_space key))) [
  | inl same ↦
      (λ e. (str_eq_iff (request_api_key net r) (trim_space key)).0 same, λ e. ground (arith))
  | inr other ↦ (
    λ e. absurd (ground (arith)),
    λ e. absurd (ground (arith, (str_eq_iff (request_api_key net r) (trim_space key)).1 e)),
  )
]

parsed_lem :
    (net : Net) (key : Text) (r : Request)
    → is_empty (trim_space key) ≡ true
    → is_empty (trim_space r.origin) ≡ false
    → (u : Option Url) → net.parse_url (trim_space r.origin) ≡ u
    → (browser_origin_middleware net key (auth_middleware net key serve) r ≡ served) ↔ IsLocal net r
unfolding browser_origin_middleware auth_middleware
parsed_lem net key r h away none g = (
  λ s. absurd (ground (arith, g)),
  λ l. elim l [ inl x ↦ absurd (ground (arith)) | inr (url, f, _) ↦ absurd (ground (arith, g, f)) ],
)
parsed_lem net key r h away (some url) g = elim (Bool-cases (loopback_host net url.host)) [
  | inl here ↦ (λ s. inr (url, g, inl here), λ l. ground (arith, g, here))
  | inr there ↦
      elim (Bool-cases (str_eq (trim_space r.origin) (codes "null") || is_web url.scheme)) [
        | inl web ↦ (
          λ s. absurd (ground (arith, g, there, web)),
          λ l. elim l [
            | inl x ↦ absurd (ground (arith))
            | inr (v, f, inl x) ↦ absurd (ground (arith, g, f, x, there))
            | inr (v, f, inr x) ↦ absurd (ground (arith, g, f, x, web))
          ],
        )
        | inr alien ↦
            (λ s. inr (url, g, inr (ground (arith, alien))), λ l. ground (arith, g, alien))
      ]
]

open_lem :
    (net : Net) (key : Text) (r : Request)
    → is_empty (trim_space key) ≡ true
    → (browser_origin_middleware net key (auth_middleware net key serve) r ≡ served) ↔ IsLocal net r
unfolding browser_origin_middleware auth_middleware
open_lem net key r h = elim (Bool-cases (is_empty (trim_space r.origin))) [
  | inl e ↦ (λ s. inl e, λ s. ground (arith))
  | inr e ↦ parsed_lem net key r h e (net.parse_url (trim_space r.origin)) refl
]

-- A public request is served exactly when it is admitted.
pub public_handler-IsAdmitted :
    (net : Net) (key : Text) (r : Request)
    → (public_handler net key serve r ≡ served) ↔ IsAdmitted net key r
unfolding public_handler cors_middleware
public_handler-IsAdmitted net key r = elim (Bool-cases (str_eq r.method (codes "OPTIONS"))) [
  | inl pre ↦ (λ s. absurd (ground (arith, pre)), λ a. absurd (ground (arith, pre, a.0)))
  | inr call ↦ elim (Bool-cases (is_empty (trim_space key))) [
    | inl free ↦ (
      λ s. (call, inr (free, (open_lem net key r free).0 (ground (arith, call, s)))),
      λ a. elim a.1 [
        | inl x ↦ absurd (ground (arith, x.0, free))
        | inr x ↦ ground (arith, call, (open_lem net key r free).1 x.1)
      ],
    )
    | inr keyed ↦ (
      λ s. (call, inl (keyed, (keyed_lem net key r keyed).0 (ground (arith, call, s)))),
      λ a. elim a.1 [
        | inl x ↦ ground (arith, call, (keyed_lem net key r keyed).1 x.1)
        | inr x ↦ absurd (ground (arith, x.0, keyed))
      ],
    )
  ]
]
