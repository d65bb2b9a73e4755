-- ===== src/Backends.antt =====
-- internal/backends/backend.go: one Ollama backend server with its scheduling and health state.
-- `url.Parse` and HTTP are Go's: the parser is a parameter, and what a probe saw is an argument.
pub mod Pool
pub mod Health
pub mod Manager
pub mod Store
pub mod Calls
use ollama_gateway.Common.{ℕ, Text, Option, none, some, Bool, true, ◌&&◌, ◌≡◌, arith, if◌then◌else◌}
use ollama_gateway.Common.Int.{ℤ, pos, ◌+ℤ◌, int64}
use ollama_gateway.Common.Table.{Table}

-- What the gateway reads of a parsed `*url.URL`.
pub record Url : Type 0 where
  pub scheme : Text
  pub host : Text
  pub rendered : Text

pub record Backend : Type 0 where
  pub name : Text
  pub url : Url
  pub weight : ℤ
  pub tag : Text
  pub health_check_path : Text
  pub timeout : ℤ
  pub headers : Table Text
  pub effective_weight : ℤ
  pub current_weight : ℤ
  pub healthy : Bool
  pub last_check_time : ℕ
  pub failure_count : ℤ
  pub enabled : Bool

-- `url.Parse`; `none` is its error.
abbrev pub UrlParser : Type 0
UrlParser = Text → Option Url

-- What `Backend` takes from the configuration (config.Backend).
pub record BackendConfig : Type 0 where
  pub name : Text
  pub url : Text
  pub weight : ℤ
  pub tag : Text
  pub headers : Table Text
  pub timeout : ℤ
  pub health_check_path : Text

unfoldable pub new_backend : UrlParser → BackendConfig → Option Backend
new_backend parse c = elim (parse c.url) [
  | none ↦ none
  | some u ↦ some (record {
    name = c.name;
    url = u;
    weight = c.weight;
    tag = c.tag;
    health_check_path = c.health_check_path;
    timeout = c.timeout;
    headers = c.headers;
    effective_weight = c.weight;
    current_weight = pos 0;
    healthy = true;
    last_check_time = 0;
    failure_count = pos 0;
    enabled = true;
  })
]

unfoldable pub is_healthy : Backend → Bool
is_healthy b = b.healthy && b.enabled

unfoldable pub set_enabled : Bool → Backend → Backend
set_enabled enabled b = record b { enabled = enabled }

unfoldable pub set_health : Bool → Backend → Backend
set_health healthy b = record b {
  healthy = healthy;
  effective_weight = if healthy then b.weight else pos 0;
}

-- `none` is the error of `url.Parse`, which leaves the backend as it was.
unfoldable pub update_config : UrlParser → BackendConfig → Backend → Option Backend
update_config parse c b = elim (parse c.url) [
  | none ↦ none
  | some u ↦ some (record b {
    url = u;
    weight = c.weight;
    tag = c.tag;
    timeout = c.timeout;
    health_check_path = c.health_check_path;
    effective_weight = if b.healthy then c.weight else b.effective_weight;
  })
]

unfoldable pub mark_failure : ℕ → Backend → Backend
mark_failure now b = record b {
  failure_count = int64 (b.failure_count +ℤ pos 1);
  last_check_time = now;
}

unfoldable pub mark_success : ℕ → Backend → Backend
mark_success now b = record b { failure_count = pos 0; last_check_time = now }
