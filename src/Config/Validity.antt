-- ===== src/Config/Validity.antt =====
-- What holds of a configuration that is accepted.
use aistudio2api.Prelude.{
  ℕ, ◌<◌, ◌≤◌, ◌≡◌, ◌⊎◌, inl, inr, refl, subst, Bool, true, false, not, ◌&&◌, ◌||◌, Bool-cases,
  Option, none, some, Option-cases, Text, codes, str_eq, str_eq_iff, is_empty, trim_space, arith,
}
use aistudio2api.Config.{
  ℤ, pos, negsuc, is_positive, int_lt, Config, ConfigError, Parsers, Url, validate_listen_addr,
  validate_proxy, or_else, unless, validate, max_active_workers_invalid, warm_startup_invalid,
  admin_required, warm_worker_limit_invalid, per_account_invalid, init_timeout_invalid,
  request_timeout_invalid, routing_invalid, waa_backend_invalid, auth_states_empty,
}
use aistudio2api.Config.Channels.{AreChannels, validate_upstream_channels-AreChannels}

positive_lem : (i : ℤ) → is_positive i ≡ true → (n : ℕ) × (i ≡ pos n) × (0 < n)
positive_lem (pos n) h = (n, refl, ground (arith, h))
positive_lem (negsuc n) h = absurd (ground arith)

at_least_lem : (i : ℤ) (n : ℕ) → int_lt i (pos n) ≡ false → (m : ℕ) × (i ≡ pos m) × (n ≤ m)
at_least_lem (pos m) n h = (m, refl, ground (arith, h))
at_least_lem (negsuc m) n h = absurd (ground arith)

-- The numbers of workers: at least one starts at a time, no more than are kept warm, and no more of
-- these than may be active.
abbrev pub AreBounded : Config → Type 0
AreBounded c =
    (warm : ℕ) × (active : ℕ) × (startup : ℕ) × (per_account : ℕ) × (c.warm_worker_limit ≡ pos warm)
    × (c.max_active_workers ≡ pos active)
    × (c.warm_startup_concurrency ≡ pos startup)
    × (c.per_account_concurrency ≡ pos per_account)
    × (0 < startup)
    × (startup ≤ warm)
    × (warm ≤ active)
    × (0 < per_account)

workers_lem :
    (c : Config)
    → is_positive c.warm_worker_limit ≡ true
    → int_lt c.max_active_workers c.warm_worker_limit ≡ false
    → is_positive c.warm_startup_concurrency ≡ true
    → int_lt c.warm_worker_limit c.warm_startup_concurrency ≡ false
    → is_positive c.per_account_concurrency ≡ true
    → AreBounded c
workers_lem c w m s b p =
    let (warm, w_is, w_pos) = positive_lem c.warm_worker_limit w in
    let (startup, s_is, s_pos) = positive_lem c.warm_startup_concurrency s in
    let (per, p_is, p_pos) = positive_lem c.per_account_concurrency p in
    let (active, m_is, m_le) =
      at_least_lem c.max_active_workers warm
        (subst (λ x. int_lt c.max_active_workers x ≡ false) w_is m) in
    (
      warm,
      active,
      startup,
      per,
      w_is,
      m_is,
      s_is,
      p_is,
      s_pos,
      ground (arith, b, w_is, s_is),
      m_le,
      p_pos,
    )

or_else_lem : (a b : Option ConfigError) → or_else a b ≡ none → (a ≡ none) × (b ≡ none)
unfolding or_else
or_else_lem none b h = (refl, h)
or_else_lem (some e) b h = absurd (ground arith)

unless_lem : (b : Bool) (e : ConfigError) → unless b e ≡ none → b ≡ true
unfolding unless
unless_lem true e h = refl
unless_lem false e h = absurd (ground arith)

module _ (parsers : Parsers) where
  abbrev pub HasPort : Text → Type 0
  HasPort addr =
      (host : Text) × (port : Text) × (number : ℕ) × (parsers.split_host_port (trim_space addr)
        ≡ some (host, port))
      × (parsers.parse_uint16 port ≡ some number)
      × (0 < number)

  listen_lem : (addr : Text) → validate_listen_addr parsers addr ≡ none → HasPort addr
  unfolding validate_listen_addr
  listen_lem addr h = elim (Option-cases (parsers.split_host_port (trim_space addr))) [
    | inl no_parts ↦ absurd (ground (arith, h, no_parts))
    | inr ((host, port), parts) ↦ elim (Option-cases (parsers.parse_uint16 port)) [
      | inl no_number ↦ absurd (ground (arith, h, parts, no_number))
      | inr (number, is) ↦ (host, port, number, parts, is, ground (arith, h, parts, is))
    ]
  ]

  -- A proxy that is accepted is none, or a URL with a host and no user.
  abbrev pub IsProxy : Text → Type 0
  IsProxy proxy =
      (is_empty (trim_space proxy) ≡ true)
      ⊎ ((parsed : Url) × (parsers.parse_url (trim_space proxy) ≡ some parsed)
          × (is_empty parsed.hostname ≡ false)
          × (parsed.has_user ≡ false)
          × (is_empty parsed.raw_query ≡ true))

  proxy_lem : (proxy : Text) → validate_proxy parsers proxy ≡ none → IsProxy proxy
  unfolding validate_proxy
  proxy_lem proxy h = elim (Bool-cases (is_empty (trim_space proxy))) [
    | inl no_proxy ↦ inl no_proxy
    | inr some_proxy ↦ elim (Option-cases (parsers.parse_url (trim_space proxy))) [
      | inl no_url ↦ absurd (ground (arith, h, some_proxy, no_url))
      | inr (parsed, is) ↦ inr (
        parsed,
        is,
        ground (arith, h, some_proxy, is),
        ground (arith, h, some_proxy, is),
        ground (arith, h, some_proxy, is),
      )
    ]
  ]

  pub record IsValid (c : Config) : Type 0 where
    pub workers : AreBounded c
    pub channels : AreChannels c.upstream_channels
    pub states : is_empty (trim_space c.auth_states) ≡ false
    pub port : HasPort c.listen_addr
    pub proxied : IsProxy c.proxy
    pub init : (n : ℕ) × (c.init_timeout ≡ pos n) × (0 < n)
    pub request : (n : ℕ) × (c.request_timeout ≡ pos n) × (0 < n)
    pub guarded :
        c.admin_auth_enabled ≡ true
        → (is_empty (trim_space c.admin_username) ≡ false)
          × (is_empty (trim_space c.admin_password) ≡ false)
    pub strategy :
        (c.routing_strategy ≡ codes "round-robin") ⊎ (c.routing_strategy ≡ codes "fill-first")
    pub backend : (c.waa_backend ≡ codes "camoufox") ⊎ (c.waa_backend ≡ codes "go")

  either_lem : (s p q : Text) → (str_eq s p || str_eq s q) ≡ true → (s ≡ p) ⊎ (s ≡ q)
  either_lem s p q h = ground (arith, h, str_eq_iff s p, str_eq_iff s q)

  -- A configuration that Validate accepts has worker counts in order (at least one worker starts at a
  -- time, at most as many as are kept warm, and these at most as many as may be active; each account
  -- serves at least one request), the channels playground and build each at most once and one of them
  -- at least, a place for the accounts' states, an address with a port, no proxy or a URL with a host
  -- and without a user or a query, positive timeouts, a login where it asks for one, and a strategy
  -- and a backend that are known.
  pub validate-IsValid : (c : Config) → validate parsers c ≡ none → IsValid c
  unfolding validate
  validate-IsValid c h =
      let (admin, r1) = or_else_lem _ _ h in
      let (auth, r2) =
        or_else_lem (unless (not (is_empty (trim_space c.auth_states))) auth_states_empty) _ r1 in
      let (listen, r3) = or_else_lem _ _ r2 in
      let (proxy, r4) = or_else_lem _ _ r3 in
      let (init, r5) = or_else_lem _ _ r4 in
      let (request, r6) = or_else_lem _ _ r5 in
      let (warm, r7) = or_else_lem _ _ r6 in
      let (active, r8) = or_else_lem _ _ r7 in
      let (startup, r9) = or_else_lem _ _ r8 in
      let (per, r10) = or_else_lem _ _ r9 in
      let (routing, r11) = or_else_lem _ _ r10 in
      let (chans, backend) = or_else_lem _ _ r11 in
      let active' =
        unless_lem (not (int_lt c.max_active_workers c.warm_worker_limit))
          max_active_workers_invalid active in
      let startup' =
        unless_lem
          (is_positive c.warm_startup_concurrency
            && not (int_lt c.warm_worker_limit c.warm_startup_concurrency))
          warm_startup_invalid startup in
      let admin' =
        unless_lem
          (not c.admin_auth_enabled
            || (not (is_empty (trim_space c.admin_username))
                && not (is_empty (trim_space c.admin_password))))
          admin_required admin in
      record {
        workers =
            workers_lem c
              (unless_lem (is_positive c.warm_worker_limit) warm_worker_limit_invalid warm)
              (ground (arith, active')) (ground (arith, startup')) (ground (arith, startup'))
              (unless_lem (is_positive c.per_account_concurrency) per_account_invalid per);
        channels = validate_upstream_channels-AreChannels c.upstream_channels chans;
        states =
            ground (
              arith,
              unless_lem (not (is_empty (trim_space c.auth_states))) auth_states_empty auth,
            );
        port = listen_lem c.listen_addr listen;
        proxied = proxy_lem c.proxy proxy;
        init =
            positive_lem c.init_timeout
              (unless_lem (is_positive c.init_timeout) init_timeout_invalid init);
        request =
            positive_lem c.request_timeout
              (unless_lem (is_positive c.request_timeout) request_timeout_invalid request);
        guarded = λ on. ground (arith, admin', on);
        strategy = either_lem c.routing_strategy (codes "round-robin") (codes "fill-first") (
            unless_lem
              (str_eq c.routing_strategy (codes "round-robin")
                || str_eq c.routing_strategy (codes "fill-first"))
              routing_invalid routing);
        backend = either_lem c.waa_backend (codes "camoufox") (codes "go") (
            unless_lem
              (str_eq c.waa_backend (codes "camoufox") || str_eq c.waa_backend (codes "go"))
              waa_backend_invalid backend);
      }
