-- ===== src/Config/Defaults.antt =====
-- The defaults of internal/config/config.go and the rate limiter that reads them.
use ollama_gateway.Common.{Text, Option, arith}
use ollama_gateway.Config.{Config, apply_defaults, default_rate_limit, limiter_config}
use ollama_gateway.Ratelimit.{AuthStore, default_settings, resolve_settings}
use ollama_gateway.Ratelimit.Keys.{IsPositive, resolve_settings-IsPositive}

default_rate_limit-IsPositive :
    (c : Config) → IsPositive (default_settings (limiter_config (apply_defaults c)))
unfolding limiter_config apply_defaults default_rate_limit
default_rate_limit-IsPositive c = (ground arith, ground arith)

-- Whatever the configuration file leaves out or gets wrong, after the defaults every key has a
-- positive rate and burst.
pub apply_defaults-IsPositive :
    (c : Config) (auth : Option AuthStore) (key : Text)
    → IsPositive (resolve_settings (limiter_config (apply_defaults c)) auth key)
apply_defaults-IsPositive c auth key =
    resolve_settings-IsPositive (limiter_config (apply_defaults c)) auth key
      (default_rate_limit-IsPositive c)
