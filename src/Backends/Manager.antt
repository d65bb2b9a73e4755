-- ===== src/Backends/Manager.antt =====
-- internal/backends/manager.go: the backends of the gateway, by pointer and by name. A method that
-- fails returns `none` and leaves the manager as it was.
use ollama_gateway.Common.{
  ℕ, suc, Text, codes, ◌==◌, Option, none, some, List, [], ◌∷◌, ◌++◌, Bool, true, not, keep, map,
  if◌then◌else◌,
}
pub mod Consistency
pub mod History
pub mod Routing
pub mod Defaults
use mathlib.Core.Option
use ollama_gateway.Common.Int.{ℤ, pos, is_nonpos}
use ollama_gateway.Common.Table.{Table, lookup, insert, delete}
use ollama_gateway.Backends.{
  Backend, BackendConfig, UrlParser, new_backend, update_config, set_enabled,
}
use ollama_gateway.Backends.Pool.{Heap, update, Entry, new_pool}

-- `next` is the first pointer that is not taken.
pub record Manager : Type 0 where
  pub heap : Heap
  pub next : ℕ
  pub backends : List ℕ
  pub by_name : Table ℕ

-- config.ModelBackendRef
pub record BackendRef : Type 0 where
  pub backend : Text
  pub weight : ℤ

abbrev pub default_model_weight : ℤ
default_model_weight = pos 1

-- 120 seconds, in nanoseconds
abbrev pub default_timeout : ℤ
default_timeout = pos 120000000000

-- A new backend at the end of the list and under its name.
unfoldable pub add_backend : Text → Backend → Manager → Manager
add_backend name b m = record {
  heap = update m.heap m.next b;
  next = suc m.next;
  backends = m.backends ++ (m.next ∷ []);
  by_name = insert name m.next m.by_name;
}

-- The loop of `NewManager`, which ends at the first URL that does not parse.
unfoldable pub add_all : UrlParser → List BackendConfig → Manager → Option Manager
add_all parse [] m = some m
add_all parse (c ∷ cs) m = elim (new_backend parse c) [
  | none ↦ none
  | some b ↦ add_all parse cs (add_backend c.name b m)
]

-- `h` is what the pointers stand for before any is taken.
unfoldable pub new_manager : UrlParser → Heap → List BackendConfig → Option Manager
unfolding add_all
new_manager parse h [] = none
new_manager parse h (c ∷ cs) =
    add_all parse (c ∷ cs) (record { heap = h; next = 0; backends = []; by_name = [] })

unfoldable pub get_by_name : Text → Manager → Option ℕ
get_by_name name m = lookup name m.by_name

-- The defaults of `UpsertBackend`.
unfoldable pub with_defaults : BackendConfig → BackendConfig
with_defaults c = record c {
  weight = if is_nonpos c.weight then default_model_weight else c.weight;
  health_check_path =
      if c.health_check_path == [] then codes "/api/version" else c.health_check_path;
  timeout = if is_nonpos c.timeout then default_timeout else c.timeout;
}

unfoldable pub update_at : UrlParser → BackendConfig → ℕ → Manager → Option Manager
update_at parse c p m = elim (update_config parse c (m.heap p)) [
  | none ↦ none
  | some b ↦
      some
        (record m { heap = update m.heap p (set_enabled true (record b { headers = c.headers })) })
]

unfoldable pub upsert_filled : UrlParser → BackendConfig → Manager → Option Manager
unfolding add_backend update_at
upsert_filled parse c m = elim (lookup c.name m.by_name) [
  | some p ↦ update_at parse c p m
  | none ↦ elim (new_backend parse c) [ none ↦ none | some b ↦ some (add_backend c.name b m) ]
]

unfoldable pub upsert_backend : UrlParser → BackendConfig → Manager → Option Manager
unfolding upsert_filled with_defaults
upsert_backend parse c m = upsert_filled parse (with_defaults c) m

-- `none` is `ErrBackendNotFound`.
unfoldable pub remove_backend : Text → Manager → Option Manager
remove_backend name m = elim (lookup name m.by_name) [
  | none ↦ none
  | some p ↦ some (record m {
    by_name = delete name m.by_name;
    backends = keep (λ q. not ((m.heap q).name == name)) m.backends;
  })
]

pub deactivate_backend : Text → Manager → Option Manager
unfolding remove_backend
deactivate_backend = remove_backend

unfoldable pub entry_for : Manager → BackendRef → ℕ → Entry
entry_for m r p = record {
  ptr = p;
  weight = if is_nonpos r.weight then (m.heap p).weight else r.weight;
}

-- The loop of `PoolForModel`, which ends at the first name that is not known.
unfoldable pub entries_for : Manager → List BackendRef → Option (List Entry)
unfolding entry_for
entries_for m [] = some []
entries_for m (r ∷ rs) = elim (lookup r.backend m.by_name) [
  | none ↦ none
  | some p ↦ Option.map (λ es. entry_for m r p ∷ es) (entries_for m rs)
]

unfoldable pub pool_for_model : List BackendRef → Manager → Option (List Entry)
unfolding entries_for
pool_for_model refs m = Option.map (new_pool m.heap) (entries_for m refs)

unfoldable pub default_entry : Manager → ℕ → Entry
default_entry m p = record {
  ptr = p;
  weight = if is_nonpos (m.heap p).weight then default_model_weight else (m.heap p).weight;
}

unfoldable pub default_pool : Manager → List Entry
unfolding default_entry
default_pool m = new_pool m.heap (map (default_entry m) m.backends)
