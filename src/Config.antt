-- ===== src/Config.antt =====
-- internal/config/config.go: the configuration, its defaults and its validation. Durations are in
-- nanoseconds and rates in units of 10^-9 tokens a second. Reading a file, parsing YAML and parsing a
-- URL are parameters. The pricing and the fields that only a Redis client would read are left out.
pub mod Valid
pub mod Defaults
pub mod Policy
pub mod Reloader
use ollama_gateway.Common.{
  has_prefix, ℕ, zero, suc, ◌*◌, Text, codes, ◌==◌, trim_space, Option, none, some, List, [], ◌∷◌,
  Bool, true, false, not, ◌&&◌, ◌||◌, any, map, is_empty, if◌then◌else◌,
}
use ollama_gateway.Common.Int.{ℤ, pos, negsuc, is_zero, is_nonpos}
use ollama_gateway.Common.Table.{Table}
use ollama_gateway.Backends.{BackendConfig, UrlParser, Url}
use ollama_gateway.Backends.Manager.{BackendRef}
use ollama_gateway.Models.Catalog.{CatalogEntry}
use ollama_gateway.Ratelimit.{UserRateLimit, RateLimitConfig}

pub record ServerConfig : Type 0 where
  pub listen_addr : Text
  pub read_timeout : ℤ
  pub write_timeout : ℤ
  pub idle_timeout : ℤ
  pub tls_cert_path : Text
  pub tls_key_path : Text
  pub tls_check_interval : ℤ
  pub tls_expiry_warning_days : ℤ

pub record RateLimitingConfig : Type 0 where
  pub default_rate : ℤ
  pub default_burst : ℤ
  pub ttl : ℤ
  pub backend : Text
  pub redis_addr : Text
  pub redis_timeout_sec : ℤ
  pub redis_fallback_to_local : Bool

pub record HealthCheckConfig : Type 0 where
  pub interval_seconds : ℤ
  pub timeout_seconds : ℤ
  pub unhealthy_threshold : ℤ

pub record UserConfig : Type 0 where
  pub api_key_hash : Text
  pub rate_limit : Option UserRateLimit
  pub model_allow : List Text
  pub model_deny : List Text
  pub aliases : Table Text

pub record Config : Type 0 where
  pub server : ServerConfig
  pub token_hash : Text
  pub rate_limit : RateLimitingConfig
  pub backends : List BackendConfig
  pub models : Table CatalogEntry
  pub users : Table UserConfig
  pub database_path : Text
  pub health_check : HealthCheckConfig

abbrev pub seconds : ℕ → ℤ
seconds n = pos (n * 1000000000)

-- A value where the field has none.
abbrev pub or_text : Text → Text → Text
or_text d t = if t == [] then d else t

-- A value where the field is zero, or is not positive.
abbrev pub or_zero : ℤ → ℤ → ℤ
or_zero d z = if is_zero z then d else z

abbrev pub or_nonpos : ℤ → ℤ → ℤ
or_nonpos d z = if is_nonpos z then d else z

pub default_server : ServerConfig → ServerConfig
default_server s = record s {
  listen_addr = or_text (codes "0.0.0.0:4080") s.listen_addr;
  read_timeout = or_zero (seconds 30) s.read_timeout;
  write_timeout = or_zero (seconds 120) s.write_timeout;
  idle_timeout = or_zero (seconds 120) s.idle_timeout;
  tls_check_interval = or_nonpos (seconds 86400) s.tls_check_interval;
  tls_expiry_warning_days = or_nonpos (pos 30) s.tls_expiry_warning_days;
}

pub default_backend : BackendConfig → BackendConfig
default_backend b = record b {
  weight = or_nonpos (pos 1) b.weight;
  timeout = or_zero (seconds 120) b.timeout;
  health_check_path = or_text (codes "/api/version") b.health_check_path;
}

pub default_ref : BackendRef → BackendRef
default_ref r = record r { weight = or_nonpos (pos 1) r.weight }

pub default_model : Text × CatalogEntry → Text × CatalogEntry
unfolding default_ref
default_model e = (e.0, record { name = e.0; backends = map default_ref e.1.backends })

pub default_rate_limit : RateLimitingConfig → RateLimitingConfig
default_rate_limit r = record r {
  default_rate = or_nonpos (pos 10000000000) r.default_rate;
  default_burst = or_nonpos (pos 50) r.default_burst;
  ttl = or_zero (seconds 3600) r.ttl;
  backend = or_text (codes "local") r.backend;
  redis_timeout_sec = or_nonpos (pos 2) r.redis_timeout_sec;
  redis_fallback_to_local = true;
}

-- A rate limit of a user without a time to live takes the global one.
pub default_user : ℤ → Text × UserConfig → Text × UserConfig
default_user ttl (k, u) = elim (u.rate_limit) [
  | none ↦ (k, u)
  | some r ↦ (k, record u { rate_limit = some (record r { ttl = or_zero ttl r.ttl }) })
]

pub default_health_check : HealthCheckConfig → HealthCheckConfig
default_health_check h = record {
  interval_seconds = or_nonpos (pos 10) h.interval_seconds;
  timeout_seconds = or_nonpos (pos 5) h.timeout_seconds;
  unhealthy_threshold = or_nonpos (pos 3) h.unhealthy_threshold;
}

pub apply_defaults : Config → Config
unfolding default_server default_backend default_model default_rate_limit default_user
    default_health_check
apply_defaults c = record {
  server = default_server c.server;
  token_hash = c.token_hash;
  rate_limit = default_rate_limit c.rate_limit;
  backends = map default_backend c.backends;
  models = map default_model c.models;
  users = map (default_user (default_rate_limit c.rate_limit).ttl) c.users;
  database_path =
      if trim_space c.database_path == []
      then codes "/var/lib/ollama-gateway/gateway.db"
      else c.database_path;
  health_check = default_health_check c.health_check;
}

-- The errors of `validate`, with the names that their messages have.
pub data ConfigError : Type 0 where
  tls_paths_unpaired tls_check_interval_invalid tls_expiry_warning_days_invalid : ConfigError
  file_unreadable : Text → ConfigError
  no_backends backend_name_missing : ConfigError
  backend_duplicate backend_url_missing backend_url_without_scheme : Text → ConfigError
  backend_url_unsupported : Text → Text → ConfigError
  model_without_backends : Text → ConfigError
  backend_ref_unknown : Text → Text → ConfigError
  api_key_hash_missing : Text → ConfigError

-- The first error, where the second check runs only after the first.
abbrev pub and_then {ℓ} : {A : Type ℓ} → Option A → Option A → Option A
and_then (some e) k = some e
and_then none k = k

abbrev pub fail_if : Bool → ConfigError → Option ConfigError
fail_if b e = if b then some e else none

-- The first error of the elements.
abbrev pub first_error {ℓ} : {A : Type ℓ} → (A → Option ConfigError) → List A → Option ConfigError
first_error f [] = none
first_error f (x ∷ xs) = and_then (f x) (first_error f xs)

-- `readable` tells which files can be opened and closed.
unfoldable pub check_tls : (Text → Bool) → ServerConfig → Option ConfigError
check_tls readable s =
    let cert = trim_space s.tls_cert_path in
    let key = trim_space s.tls_key_path in
    if not (cert == []) && key == [] || cert == [] && not (key == [])
    then some tls_paths_unpaired
    else if cert == []
    then none
    else if not (readable cert)
    then some (file_unreadable cert)
    else fail_if (not (readable key)) (file_unreadable key)

unfoldable pub check_url : UrlParser → BackendConfig → Option ConfigError
unfolding has_prefix
check_url parse b = elim (parse b.url) [
  | none ↦ some (backend_url_without_scheme b.name)
  | some u ↦
      and_then (fail_if (u.scheme == []) (backend_url_without_scheme b.name)) (
        fail_if (not (has_prefix (codes "http") u.scheme))
          (backend_url_unsupported b.name u.scheme))
]

unfoldable pub check_backend_config : UrlParser → List Text → BackendConfig → Option ConfigError
unfolding check_url
check_backend_config parse seen b = and_then (fail_if (b.name == []) backend_name_missing) (
    and_then (fail_if (any (λ n. n == b.name) seen) (backend_duplicate b.name))
      (and_then (fail_if (b.url == []) (backend_url_missing b.name)) (check_url parse b)))

-- The loop over the backends, with the names seen.
unfoldable pub check_backends : UrlParser → List Text → List BackendConfig → Option ConfigError
unfolding check_backend_config
check_backends parse seen [] = none
check_backends parse seen (b ∷ bs) =
    and_then (check_backend_config parse seen b) (check_backends parse (b.name ∷ seen) bs)

unfoldable pub check_ref : Text → List BackendConfig → BackendRef → Option ConfigError
check_ref model bs r =
    fail_if (not (any (λ b. b.name == r.backend) bs)) (backend_ref_unknown model r.backend)

unfoldable pub check_model : List BackendConfig → Text × CatalogEntry → Option ConfigError
unfolding check_ref
check_model bs e =
    and_then (fail_if (is_empty e.1.backends) (model_without_backends e.0))
      (first_error (check_ref e.0 bs) e.1.backends)

unfoldable pub check_user : Text × UserConfig → Option ConfigError
check_user e = fail_if (e.1.api_key_hash == []) (api_key_hash_missing e.0)

unfoldable pub validate : (Text → Bool) → UrlParser → Config → Option ConfigError
unfolding check_tls check_backends check_model check_user
validate readable parse c = and_then (check_tls readable c.server) (
    and_then (fail_if (is_nonpos c.server.tls_check_interval) tls_check_interval_invalid) (
      and_then
        (fail_if (is_nonpos c.server.tls_expiry_warning_days) tls_expiry_warning_days_invalid)
        (and_then (fail_if (is_empty c.backends) no_backends) (
          and_then (check_backends parse [] c.backends) (
            and_then (first_error (check_model c.backends) c.models)
              (first_error check_user c.users))))))

-- `Load`; the file as YAML, if it can be read and parsed, and `none` for an error.
pub load : (Text → Bool) → UrlParser → Option Config → Option Config
unfolding apply_defaults validate
load readable parse none = none
load readable parse (some c) = elim (validate readable parse (apply_defaults c)) [
  | none ↦ some (apply_defaults c)
  | some e ↦ none
]

-- What the rate limiter reads.
pub limiter_config : Config → RateLimitConfig
limiter_config c = record {
  default_rate = c.rate_limit.default_rate;
  default_burst = c.rate_limit.default_burst;
  ttl = c.rate_limit.ttl;
  backend = c.rate_limit.backend;
  redis_addr = c.rate_limit.redis_addr;
  redis_timeout_sec = c.rate_limit.redis_timeout_sec;
  users = map (λ (e : Text × UserConfig). (e.0, e.1.rate_limit)) c.users;
}
