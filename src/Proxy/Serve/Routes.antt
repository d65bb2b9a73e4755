-- ===== src/Proxy/Serve/Routes.antt =====
-- Which backends a request may reach by `ServeHTTP` of internal/proxy/handler.go.
use ollama_gateway.Common.{
  ℕ, ◌≡◌, refl, sym, ap, ◌∙◌, ◌⊎◌, inl, inr, Text, ◌==◌, eq_iff, List, [], ◌∷◌, true, Option, none,
  some, Any, eqb, eqb_iff, Bool-cases, Option-cases, eq_of_some,
}
use mathlib.Core.Path.{subst}
use ollama_gateway.Common.Int.{pos, ◌<ℤ◌}
use ollama_gateway.Backends.{Backend}
use ollama_gateway.Backends.Pool.{Heap, Entry, select}
use ollama_gateway.Backends.Pool.Loop.{member}
use ollama_gateway.Backends.Pool.Choice.{settled, select_sound, select-settled}
use ollama_gateway.Backends.Manager.{Manager, BackendRef, get_by_name, default_pool}
use ollama_gateway.Backends.Manager.Routing.{Matches}
use ollama_gateway.Models.{ok, resolve_model}
use ollama_gateway.Models.Catalog.{Resolver, resolve, refs_for}
use ollama_gateway.Models.Catalog.Resolving.{Result-cases, resolve-Routed}
use ollama_gateway.Proxy.Outgoing.{
  Request, extract_model, direct, new_transport, can_reach, dial_target,
}
use ollama_gateway.Proxy.Handler.{
  Services, Clock, ProxyHandler, overrides_for, resolve_backend_pool,
}
use ollama_gateway.Proxy.Serve.{
  with_heap, backend_at, conclude, exchange, forward, choose, serve_pool, serve_model, serve,
}

-- One of the names stands for that backend in the manager.
abbrev pub Named : ProxyHandler → ℕ → List Text → Type 0
Named h p names = Any (λ n. get_by_name n h.resolver.manager ≡ some p) names

-- The backend belongs to the requested model, which the user may use; without a model, it is one of
-- the manager's.
abbrev pub Granted : Text → Text → ProxyHandler → ℕ → Type 0
Granted key model h p =
    ((model ≡ []) × (member p (default_pool h.resolver.manager) ≡ true))
    ⊎ ((n : Text) × (names : List Text) × (resolve_model model h.resolver.registry
            (overrides_for h.user_config key)
          ≡ ok (n, names))
        × Named h p names)

-- A pointer of a pool that matches references stands for one of their names.
Matches-Named :
    (m : Manager) (refs : List BackendRef) (es : List Entry) (p : ℕ)
    → Matches m refs es
    → member p es ≡ true
    → Any (λ r. get_by_name r.backend m ≡ some p) refs
Matches-Named m [] [] p fits inside = cc
Matches-Named m [] (e ∷ es) p fits inside = absurd fits
Matches-Named m (r ∷ rs) [] p fits inside = absurd fits
Matches-Named m (r ∷ rs) (e ∷ es) p fits inside = elim (Bool-cases (eqb e.ptr p)) [
  | inl here ↦ inl (fits.0 ∙ ap some ((eqb_iff e.ptr p).0 here))
  | inr other ↦ inr (Matches-Named m rs es p fits.2 (rw other at inside))
]

named_refs :
    (n : Text) (r : Resolver) (names : List Text) (p : ℕ)
    → Any
        (λ (b : BackendRef). get_by_name b.backend r.manager ≡ some p)
        (refs_for n r.model_weights names)
    → Any (λ b. get_by_name b r.manager ≡ some p) names
unfolding refs_for
named_refs n r [] p h = h
named_refs n r (b ∷ names) p (inl h) = inl h
named_refs n r (b ∷ names) p (inr h) = inr (named_refs n r names p h)

resolved-Granted :
    (key model : Text) (h : ProxyHandler) (pool : List Entry) (p : ℕ)
    → resolve model (overrides_for h.user_config key) h.resolver ≡ ok pool
    → member p pool ≡ true
    → Granted key model h p
resolved-Granted key model h pool p e inside =
    elim (resolve-Routed model (overrides_for h.user_config key) h.resolver) [
      | inl (x, q, f) ↦ cc
      | inr (n, names, q, inl (es, f, fits)) ↦
          let same : es ≡ pool = cc in
          inr (
            n,
            names,
            q,
            named_refs n h.resolver names p (
                Matches-Named h.resolver.manager (refs_for n h.resolver.model_weights names) es p
                  fits (rw same inside)),
          )
      | inr (n, names, q, inr (f, u)) ↦ cc
    ]

pool-Granted :
    (key model : Text) (h : ProxyHandler) (pool : List Entry) (p : ℕ)
    → resolve_backend_pool key model h ≡ ok pool
    → member p pool ≡ true
    → Granted key model h p
unfolding resolve_backend_pool
pool-Granted key model h pool p e inside = elim (Bool-cases (model == [])) [
  | inl none_asked ↦
      let same : default_pool h.resolver.manager ≡ pool = cc (rw none_asked at e) in
      inl ((eq_iff model []).0 none_asked, rw same inside)
  | inr asked ↦ resolved-Granted key model h pool p (rw asked at e) inside
]

-- The request that goes out, and the backend that it goes to.
abbrev pub Goes : Services → Request → Heap → ℕ → Option (ℕ × Request) → Type 0
Goes s r heap p sent =
    (s.dial (dial_target s.library (heap p)) ≡ true)
    × (sent ≡ some (p, direct s.library (heap p) r))

pub exchange-sent :
    (s : Services) (t : Clock) (key model : Text) (p : ℕ) (r : Request) (h : ProxyHandler)
    → (exchange s t key model p r h).sent ≡ some (p, direct s.library (backend_at h p) r)
unfolding conclude exchange direct
exchange-sent s t key model p r h =
    elim (Option-cases
      (s.round_trip (new_transport (backend_at h p)) (direct s.library (backend_at h p) r))) [
        | inl e ↦ rw (e, exchange) refl
        | inr (resp, e) ↦ rw (e, exchange) refl
      ]

forward-Goes :
    (s : Services) (t : Clock) (key model : Text) (p : ℕ) (r : Request) (h : ProxyHandler)
    → ((forward s t key model p r h).sent ≡ none)
      ⊎ Goes s r h.resolver.manager.heap p (forward s t key model p r h).sent
unfolding forward can_reach
forward-Goes s t key model p r h =
    elim (Bool-cases (s.dial (dial_target s.library (backend_at h p)))) [
      | inl e ↦ inr (e, rw (e, can_reach) (exchange-sent s t key model p r h))
      | inr e ↦ inl (rw (e, can_reach) refl)
    ]

direct-settled :
    (s : Services) (a b : Backend) (r : Request)
    → settled a ≡ settled b
    → direct s.library a r ≡ direct s.library b r
unfolding direct
direct-settled s a b r h = ap (λ (x : Backend). direct s.library x r) h

target-settled :
    (s : Services) (a b : Backend)
    → settled a ≡ settled b
    → dial_target s.library a ≡ dial_target s.library b
unfolding dial_target
target-settled s a b h = ap (λ (x : Backend). dial_target s.library x) h

-- A call of `Select` does not change where a request goes.
Goes-select :
    (s : Services) (r : Request) (heap : Heap) (pool : List Entry) (p : ℕ)
    (sent : Option (ℕ × Request))
    → Goes s r (select heap pool).0 p sent
    → Goes s r heap p sent
Goes-select s r heap pool p sent (d, e) =
    let same = select-settled heap pool p in
    (
      ap s.dial (sym (target-settled s ((select heap pool).0 p) (heap p) same)) ∙ d,
      e ∙ ap (λ x. some (p, x)) (direct-settled s ((select heap pool).0 p) (heap p) r same),
    )

-- Nothing goes out, or it goes to a backend of the pool that is healthy and enabled with a positive
-- effective weight and takes connections.
abbrev pub FromPool : Services → Request → Heap → List Entry → Option (ℕ × Request) → Type 0
FromPool s r heap pool sent =
    (sent ≡ none)
    ⊎ ((p : ℕ) × (member p pool ≡ true)
        × ((heap p).healthy ≡ true)
        × ((heap p).enabled ≡ true)
        × (pos 0 <ℤ (heap p).effective_weight)
        × Goes s r heap p sent)

serve_pool-FromPool :
    (s : Services) (t : Clock) (key model : Text) (r : Request) (pool : List Entry)
    (h : ProxyHandler)
    → FromPool s r h.resolver.manager.heap pool (serve_pool s t key model r (ok pool) h).sent
unfolding serve_pool choose
serve_pool-FromPool s t key model r pool h =
    let heap = h.resolver.manager.heap in
    elim (Option-cases (select heap pool).1) [
      | inl e ↦ inl (rw (e, choose) refl)
      | inr (p, e) ↦
          let (inside, healthy, enabled, weight) = select_sound heap pool p e in
          elim (forward-Goes s t key model p r (with_heap (select heap pool).0 h)) [
            | inl f ↦ inl (rw (e, choose) f)
            | inr g ↦ inr (
              p,
              inside,
              healthy,
              enabled,
              weight,
              Goes-select s r heap pool p (serve_pool s t key model r (ok pool) h).sent
                  (rw (e, choose) g),
            )
          ]
    ]

-- Why a request went where it did.
abbrev pub Authorized : Services → Option Text → Request → ProxyHandler → ℕ → Request → Type 0
Authorized s user r h p out =
    let heap = h.resolver.manager.heap in
    (key : Text) × (model : Text) × (user ≡ some key)
    × (extract_model s.library r ≡ some model)
    × Granted key model h p
    × ((heap p).healthy ≡ true)
    × ((heap p).enabled ≡ true)
    × (pos 0 <ℤ (heap p).effective_weight)
    × (s.dial (dial_target s.library (heap p)) ≡ true)
    × (out ≡ direct s.library (heap p) r)

from_pool :
    (s : Services) (t : Clock) (key model : Text) (r : Request) (h : ProxyHandler) (p : ℕ)
    (out : Request) (pool : List Entry)
    → extract_model s.library r ≡ some model
    → resolve_backend_pool key model h ≡ ok pool
    → (serve_pool s t key model r (ok pool) h).sent ≡ some (p, out)
    → Authorized s (some key) r h p out
from_pool s t key model r h p out pool e f g = elim (serve_pool-FromPool s t key model r pool h) [
  | inl n ↦ cc
  | inr (q, inside, healthy, enabled, weight, (d, k)) ↦
      subst (λ (x : ℕ × Request). Authorized s (some key) r h x.0 x.1) (eq_of_some (sym k ∙ g))
        (
          key,
          model,
          refl,
          e,
          pool-Granted key model h pool q f inside,
          healthy,
          enabled,
          weight,
          d,
          refl,
        )
]

-- A request goes to a backend only for an authenticated user and with a body that can be read; the
-- backend serves the requested model, which that user may use, or no model was requested; it is
-- healthy and enabled with a positive effective weight and takes connections; and what is sent is
-- the request, directed to it.
pub serve-Authorized :
    (s : Services) (t : Clock) (user : Option Text) (r : Request) (h : ProxyHandler) (p : ℕ)
    (out : Request)
    → (serve s t user r h).sent ≡ some (p, out)
    → Authorized s user r h p out
unfolding serve serve_model
serve-Authorized s t none r h p out e = cc
serve-Authorized s t (some key) r h p out e = elim (Option-cases (extract_model s.library r)) [
  | inl f ↦ cc (rw (f, serve_model) at e)
  | inr (model, f) ↦ elim (Result-cases (resolve_backend_pool key model h)) [
    | inl (x, g) ↦ cc (rw (g, serve_pool) at (rw (f, serve_model) at e))
    | inr (pool, g) ↦
        from_pool s t key model r h p out pool f g (rw g at (rw (f, serve_model) at e))
  ]
]
