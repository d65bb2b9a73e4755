-- ===== src/Proxy/Handler.antt =====
-- `ServeHTTP` of internal/proxy/handler.go, with what it calls of the resolver, the pools, the usage
-- logger and the pricing. The network, Go's reverse proxy and its clock are parameters.
pub use ollama_gateway.Usage.Store.{UsageRecord}
use ollama_gateway.Common.{
  ℕ, Text, ◌==◌, Option, none, some, List, [], Bool, not, ◌||◌, if◌then◌else◌,
}
use mathlib.Core.Option
use ollama_gateway.Common.Int.{ℤ, pos, is_nonpos}
use ollama_gateway.Backends.Pool.{Entry}
use ollama_gateway.Backends.Manager.{default_pool}
use ollama_gateway.Models.{UserOverrides, Result, ok}
use ollama_gateway.Models.Catalog.{Resolver, resolve}
use ollama_gateway.Config.{UserConfig}
use ollama_gateway.Usage.{UsageLogger, log}
use ollama_gateway.Usage.Pricing.{PricingConfig, calculate_cost}
use ollama_gateway.Proxy.{UsageStats, ObjectParser}
use ollama_gateway.Proxy.Capture.{
  CaptureWriter, new_capture_writer, stats, extract_non_streaming_usage,
}
use ollama_gateway.Proxy.Outgoing.{Request, Library, Transport, is_streaming_generate, is_counted}

-- The answer of a backend; `body` is `none` where reading it fails.
pub record Response : Type 0 where
  pub status : ℕ
  pub body : Option Text

-- How `httputil.ReverseProxy` copies a body: each write with the number of bytes that the client's
-- connection took of it, and whether the copy came to the end. If not, it aborts the handler.
pub record Delivery : Type 0 where
  pub writes : List (ℤ × Text)
  pub finished : Bool

-- The code outside this repository: Go's library, the dialer, `json.Unmarshal` into a map, the
-- exchange with a backend over such a transport (`none` for a transport error) and the copying of its answer.
pub record Services : Type 0 where
  pub library : Library
  pub dial : Text × Text → Bool
  pub parse : ObjectParser
  pub round_trip : Transport → Request → Option Response
  pub deliver : Response → Delivery

-- What the clock gives for a request: the time of the record and how long the request took.
pub record Clock : Type 0 where
  pub timestamp : Text
  pub duration_ms : ℤ

-- `ProxyHandler`; `user_config` is `GetUserConfig` of the auth store.
pub record ProxyHandler : Type 0 where
  pub resolver : Resolver
  pub logger : Option (UsageLogger UsageRecord)
  pub user_config : Option (Text → Option UserConfig)
  pub pricing : Option PricingConfig

-- What the client gets: an error of the gateway, or the answer of a backend as far as the client's
-- connection took it.
pub data Answer : Type 0 where
  refused : ℕ → Text → Answer
  relayed : ℕ → Text → Answer

-- The handler afterwards, the answer, and the request that went out with the backend it went to.
pub record Served : Type 0 where
  pub handler : ProxyHandler
  pub answer : Answer
  pub sent : Option (ℕ × Request)

-- `FromUserConfig`
unfoldable pub from_user_config : Option UserConfig → UserOverrides
from_user_config none = record { allow = []; deny = []; aliases = [] }
from_user_config (some u) = record {
  allow = u.model_allow;
  deny = u.model_deny;
  aliases = u.aliases;
}

unfoldable pub overrides_for : Option (Text → Option UserConfig) → Text → UserOverrides
unfolding from_user_config
overrides_for none key = from_user_config none
overrides_for (some get) key = from_user_config (get key)

-- `resolveBackendPool`
unfoldable pub resolve_backend_pool : Text → Text → ProxyHandler → Result (List Entry)
resolve_backend_pool key model h =
    if model == []
    then ok (default_pool h.resolver.manager)
    else resolve model (overrides_for h.user_config key) h.resolver

-- `setStats`
unfoldable pub set_stats : UsageStats → CaptureWriter → CaptureWriter
set_stats s w = record w { prompt_tokens = s.prompt_tokens; eval_tokens = s.eval_tokens }

unfoldable pub keep_stats : UsageStats → Option CaptureWriter → Option CaptureWriter
unfolding set_stats
keep_stats s capture =
    if not (is_nonpos s.prompt_tokens) || not (is_nonpos s.eval_tokens)
    then Option.map (set_stats s) capture
    else capture

unfoldable pub modify_body :
    ObjectParser → Response → Option Text → Option CaptureWriter → Response × Option CaptureWriter
modify_body parse resp none capture = (record resp { body = some [] }, capture)
modify_body parse resp (some body) capture =
    (resp, keep_stats (extract_non_streaming_usage parse body) capture)

-- `modifyResponse`, for the answer to that request
unfoldable pub modify_response :
    ObjectParser → Request → Response → Option CaptureWriter → Response × Option CaptureWriter
unfolding modify_body keep_stats
modify_response parse r resp capture =
    if not (is_counted r) then (resp, capture) else modify_body parse resp resp.body capture

-- The interceptor that `ServeHTTP` makes, if any.
unfoldable pub start_capture : Library → Request → Option CaptureWriter
start_capture l r =
    if is_streaming_generate l r
    then some new_capture_writer
    else if is_counted r
    then some new_capture_writer
    else none

abbrev pub no_usage : UsageStats
no_usage = record { prompt_tokens = pos 0; eval_tokens = pos 0 }

abbrev pub captured : Option CaptureWriter → UsageStats
captured none = no_usage
captured (some w) = stats w

-- The cost, if there are prices.
abbrev pub cost_of : Option PricingConfig → Text → UsageStats → ℤ
cost_of none model s = pos 0
cost_of (some c) model s = calculate_cost c model s.prompt_tokens s.eval_tokens

-- The record that `logUsage` makes.
unfoldable pub usage_record : Clock → Text → Text → Text → UsageStats → ProxyHandler → UsageRecord
usage_record t key model url s h = record {
  timestamp = t.timestamp;
  api_key_id = key;
  model = model;
  backend_url = url;
  prompt_tokens = s.prompt_tokens;
  completion_tokens = s.eval_tokens;
  duration_ms = t.duration_ms;
  cost = cost_of h.pricing model s;
}

-- `logUsage`
unfoldable pub log_usage : UsageRecord → ProxyHandler → ProxyHandler
log_usage u h = record h { logger = Option.map (log u) h.logger }
