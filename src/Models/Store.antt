-- ===== src/Models/Store.antt =====
-- internal/models/store.go: the tables `models` and `model_backends`, as the SQL statements of the
-- store change and read them. The timestamps are left out, and so is an error of the database, with
-- which a transaction leaves the tables as they were.
pub mod Pricing
pub mod Loading
pub mod Syncing
pub mod Editing
use ollama_gateway.Common.{
  ℕ, suc, ◌+◌, Text, ◌==◌, trim_space, Option, none, some, List, [], ◌∷◌, ◌++◌, Bool, true, false,
  not, ◌&&◌, ◌||◌, any, keep, map, is_empty, length, eqb, if◌then◌else◌,
}
use ollama_gateway.Common.Int.{ℤ, is_nonpos, eqb_ℤ}
use ollama_gateway.Common.Table.{Table, lookup, insert}
use ollama_gateway.Common.Sorting.{sort_by}
use ollama_gateway.Backends.Manager.{BackendRef, default_model_weight}
use ollama_gateway.Models.Catalog.{CatalogEntry, Catalog, member, normalize_catalog}

-- A row of `models`, without its key; an empty display name stands for NULL too.
pub record ModelRow : Type 0 where
  pub display_name : Text
  pub active : Bool

-- A row of `model_backends`.
pub record RefRow : Type 0 where
  pub model : Text
  pub backend : Text
  pub weight : ℤ

-- `models` by name, and `model_backends`.
pub record ModelTables : Type 0 where
  pub models : Table ModelRow
  pub refs : List RefRow

abbrev pub or_default_weight : ℤ → ℤ
or_default_weight w = if is_nonpos w then default_model_weight else w

-- A row of the query of `LoadActiveCatalog`.
pub record JoinRow : Type 0 where
  pub name : Text
  pub shown : Text
  pub backend : Text
  pub weight : ℤ

abbrev pub ref_backend : RefRow → Text
ref_backend r = r.backend

-- The references of a model.
unfoldable pub refs_for : Text → List RefRow → List RefRow
refs_for n refs = keep (λ (r : RefRow). r.model == n) refs

abbrev pub join_row : Text → ModelRow → RefRow → JoinRow
join_row name m r = record {
  name = name;
  shown = if m.display_name == [] then name else m.display_name;
  backend = r.backend;
  weight = r.weight;
}

-- The rows of one model, in the order of the backends' names.
unfoldable pub join_model : Text → ModelRow → List RefRow → List JoinRow
unfolding refs_for
join_model name m refs =
    if m.active then map (join_row name m) (sort_by ref_backend (refs_for name refs)) else []

unfoldable pub join_rows : Table ModelRow → List RefRow → List JoinRow
unfolding join_model
join_rows [] refs = []
join_rows ((name, m) ∷ models) refs = join_model name m refs ++ join_rows models refs

abbrev pub loaded_entry : JoinRow → Option CatalogEntry → CatalogEntry
loaded_entry r none = record { name = r.shown; backends = [] }
loaded_entry r (some e) = e

-- The body of the loop of `LoadActiveCatalog`.
unfoldable pub load_row : JoinRow → Catalog → Catalog
load_row r catalog =
    let e = loaded_entry r (lookup r.name catalog) in
    let ref : BackendRef = record { backend = r.backend; weight = or_default_weight r.weight } in
    insert r.name (record e { backends = e.backends ++ (ref ∷ []) }) catalog

unfoldable pub load_rows : List JoinRow → Catalog → Catalog
unfolding load_row
load_rows [] catalog = catalog
load_rows (r ∷ rows) catalog = load_rows rows (load_row r catalog)

abbrev pub model_key : Text × ModelRow → Text
model_key e = e.0

-- `LoadActiveCatalog`
unfoldable pub load_active_catalog : ModelTables → Catalog
unfolding join_rows load_rows
load_active_catalog t = load_rows (join_rows (sort_by model_key t.models) t.refs) []

pub record SyncStats : Type 0 where
  pub added : ℕ
  pub updated : ℕ
  pub deactivated : ℕ

-- The map that the scan of `model_backends` makes for a model.
unfoldable pub weights_by_backend : List RefRow → Table ℤ → Table ℤ
weights_by_backend [] out = out
weights_by_backend (r ∷ refs) out = weights_by_backend refs (insert r.backend r.weight out)

-- `normalizedRefs` of `SyncDiscoveredCatalog`: the last weight of a backend counts.
unfoldable pub normalized_refs : List BackendRef → Table ℤ → Table ℤ
normalized_refs [] out = out
normalized_refs (r ∷ refs) out =
    normalized_refs refs
      (if r.backend == [] then out else insert r.backend (or_default_weight r.weight) out)

abbrev pub active_of : Option ModelRow → Bool
active_of none = false
active_of (some m) = m.active

-- A model of which neither table has a row is new.
unfoldable pub model_exists : Text → ModelTables → Bool
unfolding refs_for
model_exists n t =
    any (λ (e : Text × ModelRow). e.0 == n) t.models || not (is_empty (refs_for n t.refs))

-- A weight is found, and it is that one.
abbrev pub has_weight : Option ℤ → ℤ → Bool
has_weight none w = false
has_weight (some v) w = eqb_ℤ v w

-- The test of `SyncDiscoveredCatalog` for a model that exists.
unfoldable pub has_changed : Option ModelRow → Table ℤ → Table ℤ → Bool
has_changed m old new =
    not (active_of m)
    || not (eqb (length old) (length new))
    || any (λ (e : Text × ℤ). not (has_weight (lookup e.0 old) e.1)) new

abbrev pub reactivated : Text → Option ModelRow → ModelRow
reactivated shown none = record { display_name = shown; active = true }
reactivated shown (some m) = record m { active = true }

-- The row that the sync leaves of a model, whose display name it keeps.
abbrev pub synced_row : Text → CatalogEntry → Option ModelRow → ModelRow
synced_row name e old = reactivated (if e.name == [] then name else e.name) old

abbrev pub rows_of : Text → Table ℤ → List RefRow
rows_of name new = map (λ (e : Text × ℤ). record { model = name; backend = e.0; weight = e.1 }) new

-- The deletion of a model's references and the insertion of others.
unfoldable pub replace_refs : Text → Table ℤ → List RefRow → List RefRow
replace_refs name new refs = keep (λ (r : RefRow). not (r.model == name)) refs ++ rows_of name new

unfoldable pub entry_at : Text → Catalog → CatalogEntry
entry_at name catalog = elim (lookup name catalog) [
  | none ↦ record { name = []; backends = [] }
  | some e ↦ e
]

-- The references that the loop gives a model.
unfoldable pub new_refs : Text → Catalog → Table ℤ
unfolding entry_at normalized_refs
new_refs name catalog = normalized_refs (entry_at name catalog).backends []

-- The tables and the statistics in the loop.
pub record Sync : Type 0 where
  pub tables : ModelTables
  pub stats : SyncStats

unfoldable pub sync_tables : Text → Catalog → ModelTables → ModelTables
unfolding entry_at new_refs replace_refs
sync_tables name catalog t = record {
  models = insert name (synced_row name (entry_at name catalog) (lookup name t.models)) t.models;
  refs = replace_refs name (new_refs name catalog) t.refs;
}

-- The statistics are counted against the tables as they were found.
unfoldable pub sync_stats : ModelTables → Text → Catalog → SyncStats → SyncStats
unfolding model_exists has_changed weights_by_backend refs_for new_refs
sync_stats found name catalog s =
    if not (model_exists name found)
    then record s { added = suc s.added }
    else if has_changed (lookup name found.models)
        (weights_by_backend (refs_for name found.refs) []) (new_refs name catalog)
    then record s { updated = suc s.updated }
    else s

-- The loop over the sorted names.
unfoldable pub sync_models : ModelTables → Catalog → List Text → Sync → Sync
unfolding sync_tables sync_stats
sync_models found catalog [] s = s
sync_models found catalog (name ∷ names) s = sync_models found catalog names (record {
  tables = sync_tables name catalog s.tables;
  stats = sync_stats found name catalog s.stats;
})

-- `UPDATE models SET active = 0 WHERE active <> 0 AND name NOT IN (...)`; without names the statement
-- has no list.
unfoldable pub deactivate_absent : List Text → Table ModelRow → Table ModelRow
deactivate_absent names [] = []
deactivate_absent names ((k, m) ∷ models) =
    (k, (if member k names then m else record m { active = false }))
    ∷ deactivate_absent names models

-- The rows that it changes.
unfoldable pub stale : List Text → Table ModelRow → ℕ
stale names models =
    length (keep (λ (e : Text × ModelRow). e.1.active && not (member e.0 names)) models)

abbrev pub same_text : Text → Text
same_text t = t

abbrev pub names_of : Catalog → List Text
names_of catalog = sort_by same_text (map (λ (e : Text × CatalogEntry). e.0) catalog)

abbrev pub started : ModelTables → Sync
started t = record { tables = t; stats = record { added = 0; updated = 0; deactivated = 0 } }

-- The transaction, for a catalog that is normalized.
unfoldable pub sync_normalized : Catalog → ModelTables → Sync
unfolding sync_models deactivate_absent stale
sync_normalized catalog t =
    let names = names_of catalog in
    let s =
      sync_models t catalog names
        (record { tables = t; stats = record { added = 0; updated = 0; deactivated = 0 } }) in
    record {
      tables = record s.tables { models = deactivate_absent names s.tables.models };
      stats = record s.stats { deactivated = stale names s.tables.models };
    }

-- `SyncDiscoveredCatalog`
unfoldable pub sync_discovered_catalog : Catalog → ModelTables → Sync
unfolding sync_normalized
sync_discovered_catalog catalog t = sync_normalized (normalize_catalog catalog) t
