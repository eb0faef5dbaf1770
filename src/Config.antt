-- ===== src/Config.antt =====
-- The checks of the configuration: Validate of internal/config/config.go. What net, net/url and strconv
-- make of a text is a parameter. Durations are nanoseconds.
pub mod Channels
pub mod Validity
mod Tests
use aistudio2api.Prelude.{
  ℕ, suc, Bool, true, false, not, ◌&&◌, ◌||◌, if◌then◌else◌, ◌==◌, ltb, leb, Option, none, some,
  List, ◌∷◌, [], any, Text, codes, str_eq, is_empty, trim_space,
}

pub data ℤ : Type 0 where
  pos negsuc : ℕ → ℤ

abbrev pub is_positive : ℤ → Bool
is_positive (pos n) = ltb 0 n
is_positive (negsuc n) = false

-- a < b
abbrev pub int_lt : ℤ → ℤ → Bool
int_lt (pos m) (pos n) = ltb m n
int_lt (pos m) (negsuc n) = false
int_lt (negsuc m) (pos n) = true
int_lt (negsuc m) (negsuc n) = ltb n m

pub record Config : Type 0 where
  pub admin_auth_enabled : Bool
  pub admin_username : Text
  pub admin_password : Text
  pub auth_states : Text
  pub listen_addr : Text
  pub proxy : Text
  pub init_timeout : ℤ
  pub request_timeout : ℤ
  pub warm_worker_limit : ℤ
  pub max_active_workers : ℤ
  pub warm_startup_concurrency : ℤ
  pub per_account_concurrency : ℤ
  pub routing_strategy : Text
  pub upstream_channels : List Text
  pub waa_backend : Text

-- Default
abbrev pub default_config : Config
default_config = record {
  admin_auth_enabled = false;
  admin_username = codes "admin";
  admin_password = [];
  auth_states = codes "auth";
  listen_addr = codes "127.0.0.1:2048";
  proxy = [];
  init_timeout = pos 120000000000;
  request_timeout = pos 300000000000;
  warm_worker_limit = pos 5;
  max_active_workers = pos 10;
  warm_startup_concurrency = pos 2;
  per_account_concurrency = pos 2;
  routing_strategy = codes "round-robin";
  upstream_channels = codes "playground" ∷ codes "build" ∷ [];
  waa_backend = codes "camoufox";
}

pub data ConfigError : Type 0 where
  admin_required auth_states_empty listen_addr_invalid proxy_invalid proxy_has_user proxy_has_path
        init_timeout_invalid :
      ConfigError
  request_timeout_invalid warm_worker_limit_invalid max_active_workers_invalid : ConfigError
  warm_startup_invalid per_account_invalid routing_invalid channels_empty channel_unknown :
      ConfigError
  channel_duplicated waa_backend_invalid : ConfigError

pub record Url : Type 0 where
  pub scheme : Text
  pub has_user : Bool
  pub hostname : Text
  pub path : Text
  pub raw_query : Text
  pub fragment : Text

-- net.SplitHostPort, the host and the port; strconv.ParseUint of at most 16 bits; url.Parse.
pub record Parsers : Type 0 where
  pub split_host_port : Text → Option (Text × Text)
  pub parse_uint16 : Text → Option ℕ
  pub parse_url : Text → Option Url

abbrev pub upstream_channels_known : List Text
upstream_channels_known = codes "playground" ∷ codes "build" ∷ []

abbrev pub known : Text → Bool
known channel = any (str_eq channel) upstream_channels_known

-- The loop of validateUpstreamChannels, with the channels that it has seen.
unfoldable pub validate_channels : List Text → List Text → Option ConfigError
validate_channels seen [] = none
validate_channels seen (channel ∷ channels) =
    let rest = validate_channels (channel ∷ seen) channels in
    if not (known channel)
    then some channel_unknown
    else if any (str_eq channel) seen
    then some channel_duplicated
    else rest

unfoldable pub validate_upstream_channels : List Text → Option ConfigError
unfolding validate_channels
validate_upstream_channels [] = some channels_empty
validate_upstream_channels (channel ∷ channels) = validate_channels [] (channel ∷ channels)

unfoldable pub or_else : Option ConfigError → Option ConfigError → Option ConfigError
or_else none later = later
or_else (some e) later = some e

unfoldable pub unless : Bool → ConfigError → Option ConfigError
unless ok e = if ok then none else some e

module _ (parsers : Parsers) where
  unfoldable pub validate_listen_addr : Text → Option ConfigError
  validate_listen_addr value = elim (parsers.split_host_port (trim_space value)) [
    | none ↦ some listen_addr_invalid
    | some (host, port) ↦
        if is_empty port then some listen_addr_invalid else (elim (parsers.parse_uint16 port) [
          | none ↦ some listen_addr_invalid
          | some parsed ↦ if parsed == 0 then some listen_addr_invalid else none
        ])
  ]

  -- ValidateProxy
  unfoldable pub validate_proxy : Text → Option ConfigError
  validate_proxy value =
      if is_empty (trim_space value) then none else (elim (parsers.parse_url (trim_space value)) [
        | none ↦ some proxy_invalid
        | some parsed ↦
            if is_empty parsed.hostname
            then some proxy_invalid
            else if not
                (any (str_eq parsed.scheme) (codes "http" ∷ codes "https" ∷ codes "socks5" ∷ []))
            then some proxy_invalid
            else if parsed.has_user
            then some proxy_has_user
            else if not (is_empty parsed.path || str_eq parsed.path (codes "/"))
                || not (is_empty parsed.raw_query)
                || not (is_empty parsed.fragment)
            then some proxy_has_path
            else none
      ])

  -- Validate: the checks in their order, the first that fails being told.
  unfoldable pub validate : Config → Option ConfigError
  unfolding validate_listen_addr validate_proxy validate_upstream_channels or_else unless
  validate c =
      or_else
        (unless
          (not c.admin_auth_enabled
            || (not (is_empty (trim_space c.admin_username))
                && not (is_empty (trim_space c.admin_password))))
          admin_required)
        (or_else (unless (not (is_empty (trim_space c.auth_states))) auth_states_empty) (
          or_else (validate_listen_addr c.listen_addr) (
            or_else (validate_proxy c.proxy) (
              or_else (unless (is_positive c.init_timeout) init_timeout_invalid) (
                or_else (unless (is_positive c.request_timeout) request_timeout_invalid) (
                  or_else (unless (is_positive c.warm_worker_limit) warm_worker_limit_invalid) (
                    or_else
                      (unless (not (int_lt c.max_active_workers c.warm_worker_limit))
                        max_active_workers_invalid)
                      (or_else
                        (unless
                          (is_positive c.warm_startup_concurrency
                            && not (int_lt c.warm_worker_limit c.warm_startup_concurrency))
                          warm_startup_invalid)
                        (or_else
                          (unless (is_positive c.per_account_concurrency) per_account_invalid)
                          (or_else
                            (unless
                              (str_eq c.routing_strategy (codes "round-robin")
                                || str_eq c.routing_strategy (codes "fill-first"))
                              routing_invalid)
                            (or_else (validate_upstream_channels c.upstream_channels) (
                              unless
                                (str_eq c.waa_backend (codes "camoufox")
                                  || str_eq c.waa_backend (codes "go"))
                                waa_backend_invalid))))))))))))
