-- ===== src/Models/Catalog.antt =====
-- The model catalog (internal/models/normalize.go) and the resolver that routes by it
-- (internal/models/resolver.go).
pub mod Merging
pub mod Resolving
use ollama_gateway.Common.{
  Text, ◌==◌, Option, none, some, List, [], ◌∷◌, ◌++◌, Bool, not, ◌&&◌, any, map, if◌then◌else◌,
}
use ollama_gateway.Common.Int.{ℤ, is_nonpos}
use ollama_gateway.Common.Table.{Table, lookup, insert}
use ollama_gateway.Models.{
  ModelEntry, Registry, UserOverrides, Result, ok, err, pool_failed, normalize, new_registry,
  resolve_model,
}
use ollama_gateway.Backends.{UrlParser, BackendConfig}
use ollama_gateway.Backends.Pool.{Heap, Entry}
use ollama_gateway.Backends.Manager.{
  Manager, BackendRef, new_manager, pool_for_model, default_model_weight,
}

-- config.ModelEntry
pub record CatalogEntry : Type 0 where
  pub name : Text
  pub backends : List BackendRef

abbrev pub Catalog : Type 0
Catalog = Table CatalogEntry

abbrev pub member : Text → List Text → Bool
member x xs = any (λ y. y == x) xs

-- The set and the list of the inner loop of `NormalizeCatalog`.
pub record Merge : Type 0 where
  pub seen : List Text
  pub refs : List BackendRef

pub add_ref : Merge → BackendRef → Merge
add_ref s r =
    if r.backend == []
    then s
    else if member r.backend s.seen
    then s
    else record { seen = r.backend ∷ s.seen; refs = s.refs ++ (r ∷ []) }

pub add_refs : Merge → List BackendRef → Merge
unfolding add_ref
add_refs s [] = s
add_refs s (r ∷ rs) = add_refs (add_ref s r) rs

pub start_merge : List BackendRef → Merge
start_merge refs = record { seen = map (λ r. r.backend) refs; refs = refs }

-- The entry that a name has so far.
pub current_entry : Text → Catalog → CatalogEntry
current_entry name out = elim (lookup name out) [
  | none ↦ record { name = name; backends = [] }
  | some c ↦ c
]

-- That entry with the references added that it has not.
pub merged_entry : Text → Catalog → CatalogEntry → CatalogEntry
unfolding current_entry add_refs start_merge
merged_entry name out e =
    let current = current_entry name out in
    record current { backends = (add_refs (start_merge current.backends) e.backends).refs }

pub merge_entry : Catalog → Text → CatalogEntry → Catalog
unfolding merged_entry
merge_entry out raw e =
    let name = normalize raw in
    if name == [] then out else insert name (merged_entry name out e) out

pub normalize_into : Catalog → Catalog → Catalog
unfolding merge_entry
normalize_into out [] = out
normalize_into out ((raw, e) ∷ m) = normalize_into (merge_entry out raw e) m

-- `NormalizeCatalog`
pub normalize_catalog : Catalog → Catalog
unfolding normalize_into
normalize_catalog m = normalize_into [] m

abbrev pub copy_ref : BackendRef → BackendRef
copy_ref r = record { backend = r.backend; weight = r.weight }

-- `CatalogFromConfig`
pub catalog_from_config : Catalog → Catalog
catalog_from_config m =
    map
      (λ (e : Text × CatalogEntry).
        (e.0, record { name = e.1.name; backends = map copy_ref e.1.backends }))
      m

pub registry_entry : Text → CatalogEntry → ModelEntry
registry_entry name mc = record {
  name = if mc.name == [] then name else mc.name;
  backends = map (λ r. r.backend) mc.backends;
}

-- `buildRegistryFromCatalog`
pub build_registry : Catalog → Registry
unfolding registry_entry
build_registry catalog =
    new_registry (map (λ (e : Text × CatalogEntry). (e.0, registry_entry e.0 e.1)) catalog)

pub record Resolver : Type 0 where
  pub registry : Registry
  pub manager : Manager
  pub model_weights : Table (List BackendRef)

pub weights_of : Catalog → Table (List BackendRef)
weights_of catalog = map (λ (e : Text × CatalogEntry). (e.0, map copy_ref e.1.backends)) catalog

-- `NewResolverWithCatalog`; `none` is the error of `NewManager`.
pub new_resolver_with_catalog : UrlParser → Heap → List BackendConfig → Catalog → Option Resolver
unfolding build_registry weights_of
new_resolver_with_catalog parse h cs catalog = elim (new_manager parse h cs) [
  | none ↦ none
  | some m ↦ some (record {
    registry = build_registry catalog;
    manager = m;
    model_weights = weights_of catalog;
  })
]

-- `NewResolver`
pub new_resolver : UrlParser → Heap → List BackendConfig → Catalog → Option Resolver
unfolding new_resolver_with_catalog catalog_from_config
new_resolver parse h cs models = new_resolver_with_catalog parse h cs (catalog_from_config models)

-- The weight of the first reference to the backend that has a positive one.
unfoldable pub first_weight : Text → List BackendRef → ℤ
first_weight bn [] = default_model_weight
first_weight bn (r ∷ rs) =
    let rest = first_weight bn rs in
    if r.backend == bn && not (is_nonpos r.weight) then r.weight else rest

unfoldable pub weight_for : Text → Table (List BackendRef) → Text → ℤ
unfolding first_weight
weight_for n weights bn = elim (lookup n weights) [
  | none ↦ default_model_weight
  | some refs ↦ first_weight bn refs
]

unfoldable pub refs_for : Text → Table (List BackendRef) → List Text → List BackendRef
unfolding weight_for
refs_for n weights names =
    map (λ bn. record { backend = bn; weight = weight_for n weights bn }) names

-- `Resolve`
unfoldable pub resolve : Text → UserOverrides → Resolver → Result (List Entry)
unfolding refs_for
resolve requested o r = elim (resolve_model requested r.registry o) [
  | err e ↦ err e
  | ok p ↦ elim (pool_for_model (refs_for p.0 r.model_weights p.1) r.manager) [
    | none ↦ err pool_failed
    | some pool ↦ ok pool
  ]
]

-- `RefreshCatalog`
pub refresh_catalog : Catalog → Resolver → Resolver
unfolding build_registry weights_of
refresh_catalog catalog r = record r {
  registry = build_registry catalog;
  model_weights = weights_of catalog;
}
