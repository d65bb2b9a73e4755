-- ===== src/Tests/Routing.antt =====
-- The theorems on the backend manager (internal/backends/manager.go) at a manager of two backends.
use ollama_gateway.Common.{
  ℕ, ◌<◌, ◌≡◌, ◌≢◌, ◌⊎◌, inl, inr, refl, Text, codes, ◌==◌, Option, none, some, List, [], ◌∷◌, Bool,
  true, false, not, ◌&&◌, All, Any, eqb, eq_iff, arith, if◌then◌else◌,
}
use ollama_gateway.Common.Int.{pos, negsuc}
use ollama_gateway.Common.Table.{lookup}
use ollama_gateway.Backends.{Backend, BackendConfig, UrlParser, Url}
use ollama_gateway.Backends.Pool.{update}
use ollama_gateway.Backends.Manager.{
  Manager, BackendRef, new_manager, upsert_backend, remove_backend, get_by_name, pool_for_model,
  default_pool, with_defaults, new_manager,
}
use ollama_gateway.Backends.Manager.Consistency.{IsConsistent}
use ollama_gateway.Backends.Manager.History.{
  IsUnique, Change, upsert, remove, replay, history-IsConsistent,
}
use ollama_gateway.Tests.Scheduling.{backend_of, heap}

-- A parser for the examples: every text is an http URL.
abbrev pub parse : UrlParser
parse t = some (record { scheme = codes "http"; host = t; rendered = t })

abbrev pub config_of : Text → BackendConfig
config_of name = record {
  name = name;
  url = codes "http://x";
  weight = pos 1;
  tag = [];
  headers = [];
  timeout = pos 0;
  health_check_path = [];
}

abbrev pub configs : List BackendConfig
configs = config_of (codes "a") ∷ config_of (codes "b") ∷ []

abbrev changes : List Change
changes = upsert (config_of (codes "c")) ∷ remove (codes "a") ∷ remove (codes "z") ∷ []

abbrev named : Text → Backend
named name = record (backend_of name 1) {
  url = record { scheme = codes "http"; host = codes "http://x"; rendered = codes "http://x" };
  health_check_path = [];
}

abbrev pub manager : Manager
manager = record {
  heap = update (update heap 0 (named (codes "a"))) 1 (named (codes "b"));
  next = 2;
  backends = 0 ∷ 1 ∷ [];
  by_name = (codes "a", 0) ∷ (codes "b", 1) ∷ [];
}

pub different : IsUnique configs
different = ((λ e. ground (arith, e), tt), (tt, tt))

pub built : new_manager parse heap configs ≡ some manager
unfolding new_manager ollama_gateway.Backends.Manager.add_all
    ollama_gateway.Backends.Manager.add_backend ollama_gateway.Backends.new_backend
    ollama_gateway.Common.Table.insert ◌==◌
built = refl

history-IsConsistent_example : IsConsistent (replay parse manager changes)
history-IsConsistent_example =
    history-IsConsistent parse heap configs manager changes different built

abbrev with_c : Manager
with_c = record {
  heap = update manager.heap 2 (record (named (codes "c")) {
    health_check_path = codes "/api/version";
    timeout = pos 120000000000;
  });
  next = 3;
  backends = 0 ∷ 1 ∷ 2 ∷ [];
  by_name = (codes "a", 0) ∷ (codes "b", 1) ∷ (codes "c", 2) ∷ [];
}

abbrev without_a : Manager
without_a = record manager { backends = 1 ∷ []; by_name = (codes "b", 1) ∷ [] }

upserted : upsert_backend parse (config_of (codes "c")) manager ≡ some with_c
unfolding upsert_backend lookup ◌==◌ ollama_gateway.Backends.new_backend
    ollama_gateway.Common.Table.insert
upserted = refl

removed : remove_backend (codes "a") manager ≡ some without_a
unfolding remove_backend lookup ◌==◌ ollama_gateway.Common.Table.delete
removed = refl

abbrev pub refs : List BackendRef
refs =
    record { backend = codes "b"; weight = pos 3 }
    ∷ record { backend = codes "a"; weight = negsuc 0 }
    ∷ []
