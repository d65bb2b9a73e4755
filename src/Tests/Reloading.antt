-- ===== src/Tests/Reloading.antt =====
-- The theorems on the configuration (internal/config) at a configuration of one backend.
use ollama_gateway.Common.{
  ℕ, ◌-◌, ◌≤◌, ◌≡◌, ◌↔◌, refl, Text, codes, Option, none, some, List, [], ◌∷◌, ◌&&◌, Bool, true,
  false, eqb, arith,
}
use ollama_gateway.Common.Int.{pos, negsuc}
use ollama_gateway.Config.{Config, seconds, apply_defaults, validate, limiter_config}
use ollama_gateway.Config.Valid.{IsWellFormed, validate-IsWellFormed}
use ollama_gateway.Config.Policy.{default_runtime_policy}
use ollama_gateway.Config.Reloader.{RuntimeApplier, Status, reload, debounce, poll}
use ollama_gateway.Config.Reloader.Failsafe.{Ended, reload-Ended}
use ollama_gateway.Config.Reloader.Debounce.{History, watched}
use ollama_gateway.Tests.Routing.{parse, configs}

abbrev config : Config
config = record {
  server = record {
    listen_addr = codes "0.0.0.0:4080";
    read_timeout = seconds 30;
    write_timeout = seconds 120;
    idle_timeout = seconds 120;
    tls_cert_path = [];
    tls_key_path = [];
    tls_check_interval = seconds 86400;
    tls_expiry_warning_days = pos 30;
  };
  token_hash = [];
  rate_limit = record {
    default_rate = pos 0;
    default_burst = negsuc 4;
    ttl = pos 0;
    backend = [];
    redis_addr = [];
    redis_timeout_sec = pos 0;
    redis_fallback_to_local = false;
  };
  backends = configs;
  models =
      (
        codes "llama",
        record { name = []; backends = record { backend = codes "b"; weight = pos 1 } ∷ [] },
      )
      ∷ [];
  users = [];
  database_path = codes "g.db";
  health_check = record {
    interval_seconds = pos 10;
    timeout_seconds = pos 5;
    unhealthy_threshold = pos 3;
  };
}

abbrev moved : Config
moved = record config { database_path = codes "h.db" }

passes : validate (λ t. true) parse config ≡ none
unfolding validate ollama_gateway.Common.◌==◌ ollama_gateway.Common.trim_space
passes = refl

validate-IsWellFormed_example : IsWellFormed parse config
validate-IsWellFormed_example = validate-IsWellFormed (λ t. true) parse config passes

-- The backends are put in force, and then the certificate cannot be loaded.
abbrev applier : RuntimeApplier
applier = record {
  apply_backends = some (λ bs. true);
  apply_tls_paths = some (λ c k i d. false);
  apply_admin_token_hash = true;
  apply_config_snapshot = true;
}

abbrev status : Status
status = record {
  last_reload_at = none;
  last_error = none;
  last_trigger = [];
  current = config;
  applied = [];
}

abbrev renamed : Config
renamed = record config { token_hash = codes "t" }

reload-Ended_example :
    Ended default_runtime_policy applier 7
      (codes "SIGHUP")
      (some renamed)
      status
      (reload default_runtime_policy applier 7 (codes "SIGHUP") (some renamed) status)
reload-Ended_example =
    reload-Ended default_runtime_policy applier 7 (codes "SIGHUP") (some renamed) status

-- The file changes at 2 s, is read again within the debounce time, and then reloaded.
abbrev polls : History
polls = (2100000000, 8) ∷ (2000000000, 8) ∷ (1000000000, 7) ∷ []

due : (poll 3000000000 (some 8) (watched polls)).0 ≡ true
unfolding poll watched ollama_gateway.Config.Reloader.new_watch
    ollama_gateway.Config.Reloader.is_due ollama_gateway.Config.Reloader.note_hash
due = refl
