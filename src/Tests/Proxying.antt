-- ===== src/Tests/Proxying.antt =====
-- The theorems on the proxy (internal/proxy) and on the chain before it (cmd/gateway/main.go) at one
-- request for a model, in a gateway of two backends.
use ollama_gateway.Common.{
  ℕ, ◌*◌, ◌≡◌, ◌≢◌, refl, inl, Text, codes, ◌==◌, Option, none, some, List, [], ◌∷◌, ◌++◌, Bool,
  true, false, arith, eqb, if◌then◌else◌,
}
use ollama_gateway.Common.Int.{ℤ, pos}
use ollama_gateway.Common.Table.{Table, lookup}
use ollama_gateway.Backends.Manager.History.{history-IsConsistent}
use ollama_gateway.Ratelimit.{local_backend}
use ollama_gateway.Usage.Pricing.{PricingConfig, Billed}
use ollama_gateway.Proxy.{ObjectParser, JsonValue, number, UsageStats}
use ollama_gateway.Proxy.Capture.{
  CaptureWriter, new_capture_writer, cut_line, parse_loop, stats, extract_non_streaming_usage,
}
use ollama_gateway.Proxy.Capture.Lines.{parse_loop-Ended, taken, write_all}
use ollama_gateway.Proxy.Capture.Counts.{usage_in, write_all-usage_in}
use ollama_gateway.Proxy.Outgoing.{Request, Library, client_ip, direct}
use ollama_gateway.Proxy.Handler.{Response, Delivery, Services, Clock, ProxyHandler}
use ollama_gateway.Proxy.Serve.{usage_after, serve}
use ollama_gateway.Gateway.{Site, handle, apply_reload_backends}
use ollama_gateway.Gateway.Chain.{Admitted, handle-Admitted}
use ollama_gateway.Gateway.Reload.{Synced, apply_reload_backends-Synced}
use ollama_gateway.Tests.Scheduling.{heap}
use ollama_gateway.Tests.Routing.{parse, config_of, configs, manager, different, built}
use ollama_gateway.Tests.Credentials.{digest, no_lists, users}
use ollama_gateway.Tests.Access.{resolver}
use ollama_gateway.Tests.Limits.{config, buckets}

-- A body is the name of a model, and asks for a stream.
abbrev library : Library
library = record {
  model_of = λ body. some body;
  stream_of = λ body. some true;
  hostname = λ u. u.host;
  port = λ u. codes "11434";
  encode_query = λ q. q;
  canonical = λ k. k;
}

-- Lines of one letter: `p` has a count of 7 for the prompt, and `e` one of 9 for the completion.
abbrev read_letter : Text → Option (Table JsonValue)
read_letter [] = none
read_letter (c ∷ []) =
    if eqb c b'p'
    then some ((codes "prompt_eval_count", number (pos 7)) ∷ [])
    else some ((codes "eval_count", number (pos 9)) ∷ [])
read_letter (c ∷ d ∷ s) = none

abbrev stream : Text
stream = b'p' ∷ 10 ∷ b'e' ∷ 10 ∷ []

abbrev services : Services
services = record {
  library = library;
  dial = λ target. true;
  parse = read_letter;
  round_trip = λ b r. some (record { status = 200; body = some stream });
  deliver = λ resp. record {
    writes = (pos 2, b'p' ∷ 10 ∷ b'e' ∷ []) ∷ (pos 2, b'e' ∷ 10 ∷ []) ∷ [];
    finished = true;
  };
}

abbrev request : Request
request = record {
  method = codes "POST";
  scheme = [];
  url_host = [];
  path = codes "/api/generate";
  raw_query = codes "x=1";
  host = codes "gateway";
  remote_addr = codes "10.0.0.7:4000";
  header = (codes "X-Api-Key", codes "k1") ∷ (codes "Accept", codes "any") ∷ [];
  body = some (codes "llama");
}

abbrev clock : Clock
clock = record { timestamp = codes "now"; duration_ms = pos 5 }

abbrev proxy : ProxyHandler
proxy = record { resolver = resolver; logger = none; user_config = none; pricing = none }

abbrev site : Site
site = record {
  users = users;
  json = no_lists;
  digest = digest;
  limits = config;
  limiter = local_backend buckets;
  proxy = proxy;
}

handled :
    (handle services clock 2000 request site).sent
    ≡ some (1, direct library (resolver.manager.heap 1) request)
unfolding handle ollama_gateway.Auth.Database.middleware ◌==◌ ollama_gateway.Common.trim_space
    ollama_gateway.Proxy.Outgoing.get_header lookup ollama_gateway.Auth.verify_hash
    ollama_gateway.Ratelimit.handler ollama_gateway.Common.Int.◌+ℤ◌ ollama_gateway.Proxy.Serve.serve
    ollama_gateway.Proxy.Outgoing.extract_model ollama_gateway.Proxy.Handler.resolve_backend_pool
    ollama_gateway.Models.Catalog.resolve ollama_gateway.Models.resolve_model
    ollama_gateway.Proxy.Handler.overrides_for ollama_gateway.Models.normalize
    ollama_gateway.Backends.Manager.pool_for_model ollama_gateway.Backends.Pool.select direct
    ollama_gateway.Backends.Pool.new_pool ollama_gateway.Backends.Pool.selectable
    ollama_gateway.Common.Int.int64 ollama_gateway.Proxy.Outgoing.can_reach
    ollama_gateway.Auth.Database.user_row ollama_gateway.Auth.Database.get_user_config
handled = refl

handle-Admitted_example :
    Admitted services 2000 request site 1 (direct library (resolver.manager.heap 1) request)
handle-Admitted_example =
    handle-Admitted services clock 2000 request site 1
      (direct library (resolver.manager.heap 1) request) handled

abbrev answer : Response
answer = record { status = 200; body = some stream }

-- The stream as counted.
streamed :
    usage_after services request answer ≡ record { prompt_tokens = pos 7; eval_tokens = pos 9 }
unfolding usage_after ollama_gateway.Proxy.Outgoing.is_streaming_generate ◌==◌
    ollama_gateway.Proxy.Outgoing.path_has ollama_gateway.Proxy.Handler.modify_response
    ollama_gateway.Proxy.Outgoing.is_counted extract_non_streaming_usage
    ollama_gateway.Proxy.Handler.start_capture stats write_all cut_line new_capture_writer
    ollama_gateway.Proxy.int_field lookup
streamed = refl

abbrev whole_answer : Response
whole_answer = record { status = 200; body = some (b'e' ∷ []) }

abbrev chat : Request
chat = record request { path = codes "/api/chat" }

-- A chat answer that streams is counted as nothing, since its body is more than one object.
chat_stream :
    usage_after services chat answer ≡ record { prompt_tokens = pos 0; eval_tokens = pos 0 }
unfolding usage_after ollama_gateway.Proxy.Outgoing.is_streaming_generate ◌==◌
    ollama_gateway.Proxy.Outgoing.path_has ollama_gateway.Proxy.Handler.modify_response
    ollama_gateway.Proxy.Outgoing.is_counted extract_non_streaming_usage
    ollama_gateway.Proxy.Handler.start_capture stats new_capture_writer
chat_stream = refl

write_all-usage_in_example :
    stats (write_all read_letter (services.deliver answer).writes new_capture_writer)
    ≡ usage_in read_letter (taken (services.deliver answer).writes) new_capture_writer
unfolding new_capture_writer
write_all-usage_in_example =
    write_all-usage_in read_letter (services.deliver answer).writes new_capture_writer refl

abbrev buffered : CaptureWriter
buffered = record { buf = stream; prompt_tokens = pos 0; eval_tokens = pos 0 }

parse_loop-Ended_example :
    (cut_line (parse_loop read_letter 9 buffered).buf ≡ none)
    × (parse_loop read_letter 9 buffered ≡ parse_loop read_letter 5 buffered)
parse_loop-Ended_example = parse_loop-Ended read_letter 9 buffered (omega arith)

-- With an IPv6 client, the address is cut at its first colon.
ipv6_client : client_ip (record request { remote_addr = codes "[::1]:4000" }) ≡ codes "["
unfolding client_ip ◌==◌ lookup ollama_gateway.Common.trim_space
ipv6_client = refl

abbrev pricing : PricingConfig
pricing = record {
  default_input = pos 1500000000;
  default_output = pos 2000000000;
  model_pricing = (codes "llama", record { input_cost = pos 0; output_cost = pos 333 }) ∷ [];
}

abbrev billed : List Billed
billed = (codes "llama", pos 7, pos 9) ∷ (codes "phi", pos 100, pos 1) ∷ []

apply_reload_backends-Synced_example :
    Synced parse
      (config_of (codes "c") ∷ [])
      manager
      (apply_reload_backends parse none (config_of (codes "c") ∷ []) manager)
unfolding ollama_gateway.Backends.Manager.History.replay
apply_reload_backends-Synced_example =
    apply_reload_backends-Synced parse none (config_of (codes "c") ∷ []) manager (inl refl)
      (history-IsConsistent parse heap configs manager [] different built)
