-- ===== src/Gateway.antt =====
-- cmd/gateway/main.go: how the parts are put together for a request, and what a reload of the
-- configuration does to the backends.
pub mod Chain
pub mod Sweep
pub mod Reload
use ollama_gateway.Common.{
  ℕ, Text, codes, ◌==◌, Option, none, some, List, [], ◌∷◌, Bool, true, false, any, map,
  if◌then◌else◌,
}
use mathlib.Core.Option
use ollama_gateway.Common.Table.{Table, lookup}
use ollama_gateway.Ratelimit.{
  RateLimitConfig, LimiterBackend, AuthStore, Verdict, passed, too_many_requests, handler,
}
use ollama_gateway.Config.{UserConfig}
use ollama_gateway.Auth.{Digest, Authenticated, missing_api_key, invalid_api_key, admitted}
use ollama_gateway.Auth.Database.{JsonText, UserStore, get_user_config, middleware}
use ollama_gateway.Backends.{BackendConfig, UrlParser}
use ollama_gateway.Backends.Manager.{Manager, upsert_backend, remove_backend}
use ollama_gateway.Usage.Pricing.{ModelPricing, PricingConfig}
use ollama_gateway.Proxy.Outgoing.{Request, get_header}
use ollama_gateway.Proxy.Handler.{Services, Clock, ProxyHandler, Answer, Served}
use ollama_gateway.Proxy.Serve.{serve}

-- Whether the database has backends: `none` where there is no store, and else `none` where the query
-- fails.
abbrev pub StoredRows : Type 0
StoredRows = Option (Option Bool)

pub data Reloaded : Type 0 where
  applied skipped failed : Reloaded

-- The first loop of `applyReloadBackends`, which ends at the first error.
unfoldable pub upsert_each : UrlParser → List BackendConfig → Manager → Manager × Bool
upsert_each parse [] m = (m, true)
upsert_each parse (c ∷ cs) m = elim (upsert_backend parse c m) [
  | none ↦ (m, false)
  | some m' ↦ upsert_each parse cs m'
]

-- Whether the map `target` has the name.
abbrev pub targets : Text → List BackendConfig → Bool
targets n next = any (λ (c : BackendConfig). c.name == n) next

remove_absent : List BackendConfig → ℕ → Manager → Option Manager
remove_absent next p m =
    let name = (m.heap p).name in if targets name next then some m else remove_backend name m

-- The second loop, over the pointers that `Backends` copied.
unfoldable pub remove_each : List BackendConfig → List ℕ → Manager → Manager × Bool
unfolding remove_absent
remove_each next [] m = (m, true)
remove_each next (p ∷ ps) m = elim (remove_absent next p m) [
  | none ↦ (m, false)
  | some m' ↦ remove_each next ps m'
]

abbrev outcome : Manager × Bool → Manager × Reloaded
outcome (m, true) = (m, applied)
outcome (m, false) = (m, failed)

apply_changes : List BackendConfig → Manager × Bool → Manager × Reloaded
unfolding remove_each
apply_changes next (m, true) = outcome (remove_each next m.backends m)
apply_changes next (m, false) = (m, failed)

-- `applyReloadBackends`: the manager afterwards, as far as it got.
unfoldable pub apply_reload_backends :
    UrlParser → StoredRows → List BackendConfig → Manager → Manager × Reloaded
unfolding upsert_each apply_changes
apply_reload_backends parse (some none) next m = (m, failed)
apply_reload_backends parse (some (some true)) next m = (m, skipped)
apply_reload_backends parse (some (some false)) next m =
    apply_changes next (upsert_each parse next m)
apply_reload_backends parse none next m = apply_changes next (upsert_each parse next m)

-- What a request to `/api/` meets: the auth store with the database that main.go requires, the limits
-- and the proxy handler.
pub record Site : Type 0 where
  pub users : UserStore
  pub json : JsonText
  pub digest : Digest
  pub limits : RateLimitConfig
  pub limiter : LimiterBackend
  pub proxy : ProxyHandler

pub data Reply : Type 0 where
  unauthenticated : Authenticated → Reply
  limited : ℕ → Reply
  proxied : Answer → Reply

pub record Handled : Type 0 where
  pub site : Site
  pub reply : Reply
  pub sent : Option (ℕ × Request)

-- The rate limits of the auth store.
abbrev pub user_limits : JsonText → UserStore → AuthStore
user_limits j users key =
    Option.map (λ (u : UserConfig). u.rate_limit) (get_user_config j key users)

-- `GetUserConfig`, for the proxy handler
abbrev pub with_users : JsonText → UserStore → ProxyHandler → ProxyHandler
with_users j users h = record h { user_config = some (λ key. get_user_config j key users) }

abbrev proxy_reply : Site → Served → Handled
proxy_reply site served = record {
  site = record site { proxy = served.handler };
  reply = proxied served.answer;
  sent = served.sent;
}

unfoldable pub limit : Services → Clock → Text → Request → Site → Verdict × LimiterBackend → Handled
limit s t key r site (passed, b) =
    proxy_reply (record site { limiter = b })
      (serve s t (some key) r (with_users site.json site.users site.proxy))
limit s t key r site (too_many_requests seconds, b) = record {
  site = record site { limiter = b };
  reply = limited seconds;
  sent = none;
}

-- `now` is the limiter's clock.
unfoldable pub admit : Services → Clock → ℕ → Request → Site → Authenticated → Handled
unfolding limit
admit s t now r site (admitted key) =
    limit s t key r site
      (handler site.limits (some (user_limits site.json site.users)) now (some key) site.limiter)
admit s t now r site missing_api_key = record {
  site = site;
  reply = unauthenticated missing_api_key;
  sent = none;
}
admit s t now r site invalid_api_key = record {
  site = site;
  reply = unauthenticated invalid_api_key;
  sent = none;
}

-- A request to `/api/`: `authStore.Middleware`, then the rate limiter's, then the proxy handler.
unfoldable pub handle : Services → Clock → ℕ → Request → Site → Handled
unfolding admit
handle s t now r site = admit s t now r site (
    middleware site.digest site.users (get_header (codes "X-Api-Key") r.header)
      (get_header (codes "Authorization") r.header))

-- `usagePricingFromConfig`
unfoldable pub usage_pricing_from_config : PricingConfig → PricingConfig
usage_pricing_from_config c = record {
  default_input = c.default_input;
  default_output = c.default_output;
  model_pricing =
      map
        (λ (e : Text × ModelPricing).
          (e.0, record { input_cost = e.1.input_cost; output_cost = e.1.output_cost }))
        c.model_pricing;
}
