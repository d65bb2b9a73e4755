-- ===== src/Dashboard/Servers.antt =====
-- The forms for backends of internal/dashboard/handler.go, of a gateway with a database: `createBackend`,
-- `updateBackend`, `removeBackend` and the switch that takes a backend out of the selection.
pub mod Alignment
pub mod History
use ollama_gateway.Common.{
  Text, codes, ◌==◌, trim_space, trim_prefix, Option, none, some, List, [], ◌∷◌, Bool, true, false,
  not, ◌||◌, any, keep, map, is_empty, if◌then◌else◌,
}
use ollama_gateway.Common.Table.{Table, lookup}
use ollama_gateway.Common.Sorting.{sort_by, find_by}
use ollama_gateway.Backends.{BackendConfig, UrlParser, set_enabled}
use ollama_gateway.Backends.Pool.{update}
use ollama_gateway.Backends.Manager.{
  Manager, BackendRef, upsert_backend, remove_backend, get_by_name,
}
use ollama_gateway.Backends.Store.{Row, config_name, upsert_row, remove_row, load_active_backends}
use ollama_gateway.Models.Catalog.{CatalogEntry, Catalog}
use ollama_gateway.Models.Store.{same_text}

-- The backends of the configuration, the table, the manager and the map `disabledBackends`.
pub record Fleet : Type 0 where
  pub backends : List BackendConfig
  pub rows : Table Row
  pub manager : Manager
  pub disabled : List Text

pub data Problem : Type 0 where
  backend_exists backend_missing upsert_failed unconfirmed : Problem
  in_use : List Text → Problem

abbrev pub holds : Text → List Text → Bool
holds name names = any (λ x. x == name) names

abbrev pub without : Text → List Text → List Text
without name names = keep (λ x. not (x == name)) names

-- `backendByName`
unfoldable pub backend_by_name : Text → List BackendConfig → Option BackendConfig
backend_by_name name cs = find_by config_name name cs

-- `upsertBackendInConfig`
unfoldable pub put_config : BackendConfig → List BackendConfig → List BackendConfig
put_config c [] = c ∷ []
put_config c (d ∷ ds) = let rest = put_config c ds in if d.name == c.name then c ∷ ds else d ∷ rest

-- `removeBackendFromConfig`
unfoldable pub drop_config : Text → List BackendConfig → List BackendConfig
drop_config name cs = keep (λ (c : BackendConfig). not (c.name == name)) cs

abbrev pub is_listed : List BackendConfig → Text → Bool
is_listed cs name = any (λ (c : BackendConfig). c.name == name) cs

-- `reloadBackendsFromStoreIfAvailable`
unfoldable pub reload_backends : Fleet → Fleet
reload_backends s =
    let loaded = load_active_backends s.rows in
    record s { backends = loaded; disabled = keep (is_listed loaded) s.disabled }

-- What a form is refused for before it changes anything: `createBackend` (true) and `updateBackend`.
unfoldable pub save_refused : Bool → Text → List BackendConfig → Option Problem
unfolding backend_by_name
save_refused true name cs = elim (backend_by_name name cs) [
  | none ↦ none
  | some c ↦ some backend_exists
]
save_refused false name cs = elim (backend_by_name name cs) [
  | none ↦ some backend_missing
  | some c ↦ none
]

-- The rest of the two, from the table on; an error of the manager leaves the row that was written.
unfoldable pub save_config : UrlParser → BackendConfig → Fleet → Fleet × Option Problem
unfolding put_config reload_backends
save_config parse c s =
    let rows = upsert_row c s.rows in
    elim (upsert_backend parse c s.manager) [
      | none ↦ (record s { rows = rows }, some upsert_failed)
      | some m ↦ (
        reload_backends (record {
          backends = put_config c s.backends;
          rows = rows;
          manager = m;
          disabled = without c.name s.disabled;
        }),
        none,
      )
    ]

-- `createBackend` and `updateBackend`
unfoldable pub save_backend : UrlParser → Bool → BackendConfig → Fleet → Fleet × Option Problem
unfolding save_refused save_config
save_backend parse create c s = elim (save_refused create c.name s.backends) [
  | some e ↦ (s, some e)
  | none ↦ save_config parse c s
]

-- `removeBackend`
unfoldable pub drop_backend : Text → Fleet → Fleet × Option Problem
unfolding drop_config reload_backends
drop_backend name s = elim (remove_row name s.rows) [
  | none ↦ (s, some backend_missing)
  | some rows ↦ elim (remove_backend name s.manager) [
    | none ↦ (record s { rows = rows }, some backend_missing)
    | some m ↦ (
      reload_backends (record {
        backends = drop_config name s.backends;
        rows = rows;
        manager = m;
        disabled = without name s.disabled;
      }),
      none,
    )
  ]
]

abbrev uses : Text → CatalogEntry → Bool
uses name e = any (λ (r : BackendRef). r.backend == name) e.backends

-- `modelsReferencingBackend`
unfoldable pub models_referencing : Text → Catalog → List Text
models_referencing name catalog = sort_by same_text (
    map (λ (e : Text × CatalogEntry). e.0)
      (keep (λ (e : Text × CatalogEntry). uses name e.1) catalog))

-- The action `remove-confirm` of `handleBackendAction`, with the name that was typed to confirm it.
unfoldable pub confirm_removal : Text → Text → Catalog → Fleet → Fleet × Option Problem
unfolding models_referencing drop_backend
confirm_removal typed name catalog s =
    let blocking = models_referencing name catalog in
    if not (trim_space typed == name)
    then (s, some unconfirmed)
    else if not (is_empty blocking)
    then (s, some (in_use blocking))
    else drop_backend name s

-- `SetEnabled` of the backend of a name, if the manager knows it.
unfoldable pub enable_named : Text → Bool → Manager → Manager
unfolding get_by_name
enable_named name on m = elim (get_by_name name m) [
  | none ↦ m
  | some p ↦ record m { heap = update m.heap p (set_enabled on (m.heap p)) }
]

unfoldable pub toggle_backend : Text → Fleet → Fleet
unfolding enable_named
toggle_backend name s =
    if holds name s.disabled
    then record s { disabled = without name s.disabled; manager = enable_named name true s.manager }
    else record s { disabled = name ∷ s.disabled; manager = enable_named name false s.manager }

-- `handleBackendToggle`
unfoldable pub handle_toggle : Text → Fleet → Fleet
unfolding toggle_backend
handle_toggle page s =
    let name = trim_prefix (codes "backends/toggle/") page in
    if name == [] || name == codes "backends/toggle/" then s else toggle_backend name s

-- A form or a click that reaches the handler.
pub data Action : Type 0 where
  save_submitted : Bool → BackendConfig → Action
  removal_confirmed : Text → Text → Catalog → Action
  toggled : Text → Action

unfoldable pub act : UrlParser → Action → Fleet → Fleet
unfolding save_backend confirm_removal handle_toggle
act parse (save_submitted create c) s = (save_backend parse create c s).0
act parse (removal_confirmed typed name catalog) s = (confirm_removal typed name catalog s).0
act parse (toggled page) s = handle_toggle page s

unfoldable pub act_all : UrlParser → List Action → Fleet → Fleet
unfolding act
act_all parse [] s = s
act_all parse (a ∷ rest) s = act_all parse rest (act parse a s)
