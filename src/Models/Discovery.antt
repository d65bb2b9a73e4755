-- ===== src/Models/Discovery.antt =====
-- internal/models/discovery.go: the catalog that the backends' own lists of models make. The answer
-- of a backend to `/api/tags` is an argument.
pub mod Found
use ollama_gateway.Common.{
  ℕ, suc, Text, ◌==◌, trim_space, Option, none, some, List, [], ◌∷◌, ◌++◌, any, eqb, is_empty,
  length, Bool, true, false, not, ◌||◌, leb, ltb, if◌then◌else◌,
}
use ollama_gateway.Common.Int.{ℤ, is_nonpos}
use ollama_gateway.Common.Table.{Table, lookup, insert}
use ollama_gateway.Backends.{BackendConfig}
use ollama_gateway.Backends.Manager.{BackendRef, default_model_weight}
use ollama_gateway.Models.{normalize}
use ollama_gateway.Models.Catalog.{CatalogEntry, Catalog, member}

-- What `client.Do` and the decoding of the body give for a backend: the status with the names, where
-- `none` stands for a call or a body that fails.
pub record TagsAnswer : Type 0 where
  pub status : ℕ
  pub names : Option (List Text)

-- The loop over the names of the answer.
unfoldable pub distinct_names : List Text → List Text → List Text
distinct_names seen [] = []
distinct_names seen (raw ∷ names) =
    let name = trim_space raw in
    let rest = distinct_names seen names in
    let more = name ∷ distinct_names (name ∷ seen) names in
    if name == [] then rest else if member name seen then rest else more

abbrev decoded_names : Option (List Text) → Option (List Text)
decoded_names none = none
decoded_names (some names) = some (distinct_names [] names)

-- `discoverBackendModels`; `none` is its error, also where the call itself fails.
unfoldable pub discover_backend_models : Option TagsAnswer → Option (List Text)
unfolding distinct_names
discover_backend_models none = none
discover_backend_models (some a) =
    if ltb a.status 200 || leb 300 a.status then none else decoded_names a.names

abbrev pub entry_or_new : Text → Option CatalogEntry → CatalogEntry
entry_or_new name none = record { name = name; backends = [] }
entry_or_new name (some e) = e

abbrev pub refers_to : Text → CatalogEntry → Bool
refers_to backend e = any (λ (r : BackendRef). r.backend == backend) e.backends

-- The entry with a reference to the backend, which is not added twice.
unfoldable pub with_backend : Text → ℤ → CatalogEntry → CatalogEntry
with_backend backend weight e =
    if refers_to backend e
    then e
    else record e { backends = e.backends ++ (record { backend = backend; weight = weight } ∷ []) }

-- The body of the inner loop.
unfoldable pub add_model : Text → ℤ → Text → Catalog → Catalog
add_model backend weight raw catalog =
    let name = normalize raw in
    if name == []
    then catalog
    else insert name (with_backend backend weight (entry_or_new name (lookup name catalog))) catalog

unfoldable pub add_models : Text → ℤ → List Text → Catalog → Catalog
unfolding add_model
add_models backend weight [] catalog = catalog
add_models backend weight (m ∷ ms) catalog =
    add_models backend weight ms (add_model backend weight m catalog)

-- The variables of the loop; the errors are counted.
pub record Discovery : Type 0 where
  pub catalog : Catalog
  pub successful : ℕ
  pub failed : ℕ

unfoldable pub discover_one : BackendConfig → Option (List Text) → Discovery → Discovery
unfolding add_models
discover_one b none d = record d { failed = suc d.failed }
discover_one b (some models) d = record d {
  catalog =
      add_models b.name (if is_nonpos b.weight then default_model_weight else b.weight) models
        d.catalog;
  successful = suc d.successful;
}

-- The loop over the backends, each with its answer.
unfoldable pub discover_all : List (BackendConfig × Option TagsAnswer) → Discovery → Discovery
unfolding discover_one discover_backend_models
discover_all [] d = d
discover_all ((b, answer) ∷ more) d =
    discover_all more (discover_one b (discover_backend_models answer) d)

-- The error of `DiscoverCatalogFromBackendsWithStats`, which returns the catalog with it.
pub data Discovered : Type 0 where
  complete no_backends all_failed some_failed : Discovered

unfoldable pub outcome_of : Discovery → Discovered
outcome_of d =
    if eqb d.successful 0
    then if eqb d.failed 0 then no_backends else all_failed
    else if eqb d.failed 0
    then complete
    else some_failed

-- `DiscoverCatalogFromBackendsWithStats`
unfoldable pub discover_catalog : List (BackendConfig × Option TagsAnswer) → Discovery × Discovered
unfolding discover_all outcome_of
discover_catalog answers =
    let d = discover_all answers (record { catalog = []; successful = 0; failed = 0 }) in
    (d, outcome_of d)
