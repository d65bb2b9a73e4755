-- ===== src/Tests/Access.antt =====
-- The theorems on models (internal/models) at a small catalog.
use ollama_gateway.Common.{
  ℕ, ◌≡◌, ◌≢◌, ◌↔◌, ◌⊎◌, inl, inr, refl, codes, Option, none, some, List, [], ◌∷◌, Bool, true,
  false, All,
}
use ollama_gateway.Common.Int.{pos}
use ollama_gateway.Common.Table.{lookup}
use ollama_gateway.Models.{
  ModelEntry, Registry, UserOverrides, ResolutionError, model_denied, Result, ok, err,
  resolve_model,
}
use ollama_gateway.Models.Resolution.{Resolves, as_written, denied, resolve_model-Resolves}
use ollama_gateway.Models.Catalog.{Catalog, Resolver, resolve, refresh_catalog}
use ollama_gateway.Models.Catalog.Resolving.{Routed, resolve-refresh_catalog}
use ollama_gateway.Backends.Manager.{BackendRef}
use ollama_gateway.Tests.Routing.{manager, refs}

abbrev llama : ModelEntry
llama = record { name = codes "Llama"; backends = codes "a" ∷ codes "b" ∷ [] }

abbrev phi : ModelEntry
phi = record { name = codes "Phi"; backends = codes "b" ∷ [] }

abbrev registry : Registry
registry = (codes "llama", llama) ∷ (codes "phi", phi) ∷ []

abbrev overrides : UserOverrides
overrides = record {
  allow = [];
  deny = codes " PHI:latest" ∷ [];
  aliases = (codes "fast", codes "Phi") ∷ [];
}

resolve_model-Resolves_example :
    Resolves (codes "fast") registry overrides (err (model_denied (codes "fast")))
    ↔ (resolve_model (codes "fast") registry overrides ≡ err (model_denied (codes "fast")))
resolve_model-Resolves_example =
    resolve_model-Resolves (codes "fast") registry overrides (err (model_denied (codes "fast")))

-- The alias fast stands for phi, which is denied.
fast_denied : Resolves (codes "fast") registry overrides (err (model_denied (codes "fast")))
unfolding lookup ollama_gateway.Common.◌==◌ ollama_gateway.Models.normalize
fast_denied = denied (codes "phi") phi (as_written (codes "Phi") (refl, λ e. cc)) refl (inl refl)

abbrev catalog : Catalog
catalog =
    (codes "Llama:latest", record { name = []; backends = refs })
    ∷ (
      codes "llama",
      record { name = []; backends = record { backend = codes "c"; weight = pos 1 } ∷ refs },
    )
    ∷ []

abbrev pub resolver : Resolver
resolver = record {
  registry = registry;
  manager = manager;
  model_weights = (codes "llama", refs) ∷ [];
}

abbrev two_refs : List BackendRef
two_refs =
    record { backend = codes "b"; weight = pos 3 }
    ∷ record { backend = codes "a"; weight = pos 2 }
    ∷ []

abbrev new_catalog : Catalog
new_catalog = (codes "llama", record { name = []; backends = two_refs }) ∷ []

-- The alias of the user leads to the model, and the pool has the weights of the new catalog.
abbrev fast_llama : UserOverrides
fast_llama = record { allow = []; deny = []; aliases = (codes "fast", codes "Llama:latest") ∷ [] }

resolve-refresh_catalog_example :
    Routed resolver two_refs
      (resolve (codes "fast") fast_llama (refresh_catalog new_catalog resolver))
unfolding lookup ollama_gateway.Common.◌==◌ ollama_gateway.Models.normalize
resolve-refresh_catalog_example =
    resolve-refresh_catalog (codes "fast") fast_llama resolver new_catalog (codes "llama")
      (record { name = []; backends = two_refs })
      (as_written (codes "Llama:latest") (refl, λ e. cc)) refl (λ q. q) (inl refl)
      (refl, (refl, tt), (refl, tt, tt))
