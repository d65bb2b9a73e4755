-- ===== src/Dashboard/Catalog.antt =====
-- The forms for models of internal/dashboard/handler.go, of a gateway with a database: `handleModelAction`
-- from its parsed form on, with the catalogs that it keeps in step.
pub mod Saving
pub mod Deleting
use ollama_gateway.Common.{
  Text, ◌==◌, trim_space, Option, none, some, List, [], Bool, true, false, ◌&&◌, if◌then◌else◌,
}
use ollama_gateway.Common.Int.{ℤ, is_zero}
use ollama_gateway.Common.Table.{Table, lookup, insert, delete}
use ollama_gateway.Auth.Database.{JsonText, UserStore}
use ollama_gateway.Usage.Pricing.{ModelPricing}
use ollama_gateway.Models.Catalog.{CatalogEntry, Catalog}
use ollama_gateway.Models.Store.{ModelTables, load_active_catalog}
use ollama_gateway.Models.Store.Pricing.{replace_model_pricing, load_model_pricing}
use ollama_gateway.Models.Store.Editing.{
  ModelError, Edited, edited, refused, upsert_model, deactivate_model,
}
use ollama_gateway.Dashboard.Access.{apply_model_access, forget_model}

-- The catalog of the handler, if it was given one, and that of the configuration; the prices of the
-- configuration; the users; the three tables, and JSON; what the resolver and the proxy were given last.
pub record Site : Type 0 where
  pub models : Option Catalog
  pub config_models : Catalog
  pub pricing : Table ModelPricing
  pub users : UserStore
  pub json : JsonText
  pub tables : ModelTables
  pub prices : Table ModelPricing
  pub resolver_catalog : Catalog
  pub proxy_pricing : Table ModelPricing

pub data Failure : Type 0 where
  model_exists model_missing users_failed : Failure
  store_failed : ModelError → Failure

-- An outcome without a failure, and one with.
abbrev pub done : Site → Site × Option Failure
done s = (s, none)

abbrev pub stopped : Site → Failure → Site × Option Failure
stopped s e = (s, some e)

abbrev pub or_config : Option Catalog → Catalog → Catalog
or_config none c = c
or_config (some m) c = m

-- `currentModelCatalog`
unfoldable pub current_catalog : Site → Catalog
current_catalog s = or_config s.models s.config_models

abbrev map_some : (Catalog → Catalog) → Option Catalog → Option Catalog
map_some f none = none
map_some f (some c) = some (f c)

-- The entry in both catalogs; without a catalog of its own the handler changes the configuration's.
unfoldable pub put_entry : Text → CatalogEntry → Site → Site
put_entry name e s = record s {
  models = map_some (insert name e) s.models;
  config_models = insert name e s.config_models;
}

-- `createModel` (true) and `updateModel`
unfoldable pub change_model : Bool → Text → CatalogEntry → Site → Site × Option Failure
unfolding current_catalog put_entry
change_model true name e s = elim (lookup name (current_catalog s)) [
  | some old ↦ (s, some model_exists)
  | none ↦ (put_entry name e s, none)
]
change_model false name e s = elim (lookup name (current_catalog s)) [
  | none ↦ (s, some model_missing)
  | some old ↦ (put_entry name e s, none)
]

-- `setModelPricing`
unfoldable pub set_pricing : Text → ModelPricing → Site → Site
set_pricing name p s = record s {
  pricing =
      if is_zero p.input_cost && is_zero p.output_cost
      then delete name s.pricing
      else insert name p s.pricing;
}

abbrev pub and_then : Site × Option Failure → (Site → Site × Option Failure) → Site × Option Failure
and_then (s, some e) next = (s, some e)
and_then (s, none) next = next s

abbrev pub with_users : Site → UserStore × Bool → Site × Option Failure
with_users s (users, false) = (record s { users = users }, some users_failed)
with_users s (users, true) = (record s { users = users }, none)

abbrev pub with_tables : Site → Edited → Site × Option Failure
with_tables s (refused e) = (s, some (store_failed e))
with_tables s (edited t) = (record s { tables = t }, none)

abbrev pub persisted_entry : Option CatalogEntry → CatalogEntry
persisted_entry none = record { name = []; backends = [] }
persisted_entry (some e) = e

-- `persistModelMutation` of a model that was saved
unfoldable pub persist_model : Text → Site → Site × Option Failure
unfolding current_catalog
persist_model name s =
    with_tables s (upsert_model name (persisted_entry (lookup name (current_catalog s))) s.tables)

-- `persistModelPricing`
unfoldable pub persist_pricing : Site → Site
persist_pricing s = record s { prices = replace_model_pricing s.tables.models s.pricing }

-- `reloadModelRuntimeFromStore`
unfoldable pub reload_runtime : Site → Site
reload_runtime s =
    let catalog = load_active_catalog s.tables in
    let pricing = load_model_pricing s.prices in
    record s {
      models = some catalog;
      config_models = catalog;
      pricing = pricing;
      resolver_catalog = catalog;
      proxy_pricing = pricing;
    }

-- The creation or update of a model, in the steps of `handleModelAction`; a failure leaves what the
-- steps before it have done.
unfoldable pub save_model :
    Bool → Text → CatalogEntry → ModelPricing → Bool → (Text → Bool) → Site → Site × Option Failure
unfolding change_model set_pricing persist_model persist_pricing reload_runtime
save_model create name e p limited selected s = and_then (change_model create name e s) (λ s1.
    let s2 = set_pricing name p s1 in
    and_then (with_users s2 (apply_model_access s2.json name limited selected s2.users))
      (λ s3. and_then (persist_model name s3) (λ s4. (reload_runtime (persist_pricing s4), none))))

-- `deleteModel` without its loop
unfoldable pub drop_entry : Text → Site → Site
drop_entry name s = record s {
  models = map_some (delete name) s.models;
  config_models = delete name s.config_models;
  pricing = delete name s.pricing;
}

-- `deleteModel`
unfoldable pub remove_model : Text → Site → Site × Option Failure
unfolding current_catalog drop_entry
remove_model name s = elim (lookup name (current_catalog s)) [
  | none ↦ (s, some model_missing)
  | some old ↦ let s1 = drop_entry name s in with_users s1 (forget_model s1.json name s1.users)
]

-- The deletion of a model, in the steps of `handleModelAction`.
unfoldable pub delete_model : Text → Site → Site × Option Failure
unfolding remove_model persist_pricing reload_runtime
delete_model name s = and_then (remove_model name s) (λ s1.
    and_then (with_tables s1 (deactivate_model name s1.tables))
      (λ s2. (reload_runtime (persist_pricing s2), none)))
