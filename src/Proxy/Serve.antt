-- ===== src/Proxy/Serve.antt =====
-- The steps of `ServeHTTP` of internal/proxy/handler.go, with the rate limiter's and the
-- authentication's verdicts before it.
pub mod Routes
pub mod Accounting
pub mod Streams
use ollama_gateway.Common.{
  ℕ, Text, codes, ◌==◌, Option, none, some, List, ◌++◌, Bool, true, false, not, if◌then◌else◌,
}
use mathlib.Core.Option
use ollama_gateway.Common.Int.{ℤ}
use ollama_gateway.Backends.{Backend}
use ollama_gateway.Backends.Pool.{Heap, Entry, select}
use ollama_gateway.Models.{Result, ok, err, status_code, message}
use ollama_gateway.Proxy.{UsageStats, ObjectParser}
use ollama_gateway.Proxy.Capture.{CaptureWriter}
use ollama_gateway.Proxy.Capture.Lines.{taken, write_all}
use ollama_gateway.Proxy.Outgoing.{
  Request, extract_model, is_streaming_generate, direct, new_transport, can_reach,
}
use ollama_gateway.Proxy.Handler.{
  Response, Delivery, Services, Clock, ProxyHandler, refused, relayed, Served, resolve_backend_pool,
  modify_response, start_capture, captured, usage_record, log_usage,
}

abbrev pub with_heap : Heap → ProxyHandler → ProxyHandler
with_heap heap h = record h {
  resolver = record h.resolver { manager = record h.resolver.manager { heap = heap } };
}

abbrev pub backend_at : ProxyHandler → ℕ → Backend
backend_at h p = h.resolver.manager.heap p

-- An error before a request went out.
abbrev pub refuse : ℕ → Text → ProxyHandler → Served
refuse status why h = record { handler = h; answer = refused status why; sent = none }

-- A streaming answer passes through the interceptor.
unfoldable pub copied :
    ObjectParser → Bool → List (ℤ × Text) → Option CaptureWriter → Option CaptureWriter
copied parse streaming writes capture =
    if streaming then Option.map (write_all parse writes) capture else capture

-- The call of `logUsage`, with the request's user, model and backend.
unfoldable pub account : Clock → Text → Text → ℕ → UsageStats → ProxyHandler → ProxyHandler
account t key model p s h = log_usage (usage_record t key model (backend_at h p).url.rendered s h) h

-- The usage that the interceptor has once the answer is copied.
unfoldable pub usage_after : Services → Request → Response → UsageStats
unfolding copied
usage_after s r resp =
    let (resp', capture) = modify_response s.parse r resp (start_capture s.library r) in
    captured (copied s.parse (is_streaming_generate s.library r) (s.deliver resp').writes capture)

unfoldable pub delivery : Services → Request → Response → Delivery
delivery s r resp = s.deliver (modify_response s.parse r resp (start_capture s.library r)).0

-- The copying of an answer and the call of `logUsage`, which an aborted copy does not reach.
unfoldable pub conclude :
    Services → Clock → Text → Text → ℕ → Request → Response → ProxyHandler → Served
unfolding usage_after delivery account
conclude s t key model p r resp h =
    let d = delivery s r resp in
    record {
      handler = if d.finished then account t key model p (usage_after s r resp) h else h;
      answer = relayed resp.status (taken d.writes);
      sent = some (p, direct s.library (backend_at h p) r);
    }

abbrev upstream_failed : Text
upstream_failed = codes "upstream backend request failed"

-- The exchange with the backend; after a transport error the usage of the interceptor is that which
-- it starts with.
unfoldable pub exchange : Services → Clock → Text → Text → ℕ → Request → ProxyHandler → Served
unfolding conclude
exchange s t key model p r h =
    let out = direct s.library (backend_at h p) r in
    elim (s.round_trip (new_transport (backend_at h p)) out) [
      | some resp ↦ conclude s t key model p r resp h
      | none ↦ record {
        handler = account t key model p (captured (start_capture s.library r)) h;
        answer = refused 502 upstream_failed;
        sent = some (p, out);
      }
    ]

unfoldable pub forward : Services → Clock → Text → Text → ℕ → Request → ProxyHandler → Served
unfolding exchange
forward s t key model p r h =
    if not (can_reach s.library s.dial (backend_at h p))
    then refuse 502 upstream_failed h
    else exchange s t key model p r h

unfoldable pub choose : Services → Clock → Text → Text → Request → Option ℕ → ProxyHandler → Served
unfolding forward
choose s t key model r (some p) h = forward s t key model p r h
choose s t key model r none h =
    refuse 503 (codes "no available backends for model '" ++ model ++ codes "'") h

unfoldable pub serve_pool :
    Services → Clock → Text → Text → Request → Result (List Entry) → ProxyHandler → Served
unfolding choose
serve_pool s t key model r (err e) h = refuse (status_code e) (message e) h
serve_pool s t key model r (ok pool) h =
    let (heap, chosen) = select h.resolver.manager.heap pool in
    choose s t key model r chosen (with_heap heap h)

unfoldable pub serve_model : Services → Clock → Text → Request → Option Text → ProxyHandler → Served
unfolding serve_pool
serve_model s t key r none h = refuse 400 (codes "invalid request body") h
serve_model s t key r (some model) h =
    serve_pool s t key model r (resolve_backend_pool key model h) h

-- `ServeHTTP`; the first argument is the key of the request's auth context, if it has one.
unfoldable pub serve : Services → Clock → Option Text → Request → ProxyHandler → Served
unfolding serve_model
serve s t none r h = refuse 401 (codes "missing API key") h
serve s t (some key) r h = serve_model s t key r (extract_model s.library r) h
