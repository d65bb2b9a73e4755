-- ===== src/Proxy/Serve/Accounting.antt =====
-- Which usage records `ServeHTTP` of internal/proxy/handler.go makes.
use ollama_gateway.Common.{ℕ, ◌≡◌, ◌⊎◌, Text, true, false, Option, none, some}
use mathlib.Core.Option
use ollama_gateway.Backends.{Backend}
use ollama_gateway.Backends.Pool.Choice.{settled}
use ollama_gateway.Usage.{log}
use ollama_gateway.Proxy.{UsageStats}
use ollama_gateway.Proxy.Outgoing.{Request, extract_model, direct, new_transport}
use ollama_gateway.Proxy.Handler.{
  Response, Services, Clock, UsageRecord, ProxyHandler, refused, Served, cost_of, no_usage,
}
use ollama_gateway.Proxy.Serve.{backend_at, usage_after, delivery, upstream_failed}

-- The logger has been given one record: of that user and backend, with the time and duration of the
-- request, those token counts, and the price that they have for the model of the record.
abbrev pub Recorded : Clock → Text → Backend → UsageStats → ProxyHandler → ProxyHandler → Type 0
Recorded t key b usage h h' =
    (u : UsageRecord) × (h'.logger ≡ Option.map (log u) h.logger)
    × (u.api_key_id ≡ key)
    × (u.backend_url ≡ b.url.rendered)
    × (u.prompt_tokens ≡ usage.prompt_tokens)
    × (u.completion_tokens ≡ usage.eval_tokens)
    × (u.timestamp ≡ t.timestamp)
    × (u.duration_ms ≡ t.duration_ms)
    × (u.cost ≡ cost_of h.pricing u.model usage)

-- How the exchange with a backend ends: without an answer and with a record of no tokens; with the
-- whole answer and a record of its usage; or with an answer that is cut off, and no record.
abbrev pub Exchanged : Services → Clock → Text → Request → Backend → ProxyHandler → Served → Type 0
Exchanged s t key r b h served =
    ((s.round_trip (new_transport b) (direct s.library b r) ≡ none)
      × (served.answer ≡ refused 502 upstream_failed)
      × Recorded t key b no_usage h served.handler)
    ⊎ ((resp : Response) × (s.round_trip (new_transport b) (direct s.library b r) ≡ some resp)
        × ((((delivery s r resp).finished ≡ true)
              × Recorded t key b (usage_after s r resp) h served.handler)
            ⊎ (((delivery s r resp).finished ≡ false) × (served.handler.logger ≡ h.logger))))

-- Nothing has gone out and the logger is as before, or a request has gone out to that backend.
abbrev pub Sent : Services → Clock → Text → Request → ℕ → Backend → ProxyHandler → Served → Type 0
Sent s t key r p b h served =
    ((served.sent ≡ none) × (served.handler.logger ≡ h.logger))
    ⊎ ((served.sent ≡ some (p, direct s.library b r)) × Exchanged s t key r b h served)

-- What becomes of a request: nothing goes out and no record is made; or it goes to one backend, and
-- the exchange with it decides on the record.
abbrev pub Accounted : Services → Clock → Option Text → Request → ProxyHandler → Served → Type 0
Accounted s t user r h served =
    ((served.sent ≡ none) × (served.handler.logger ≡ h.logger))
    ⊎ ((key : Text) × (model : Text) × (p : ℕ) × (b : Backend) × (user ≡ some key)
        × (extract_model s.library r ≡ some model)
        × (settled b ≡ settled (backend_at h p))
        × (served.sent ≡ some (p, direct s.library b r))
        × Exchanged s t key r b h served)
