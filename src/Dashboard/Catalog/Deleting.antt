-- ===== src/Dashboard/Catalog/Deleting.antt =====
-- What the deletion of a model by internal/dashboard/handler.go leaves in the tables, the catalogs and the
-- prices.
use mathlib.Core.Path.{subst}
use ollama_gateway.Common.{
  ◌≡◌, refl, sym, ap, ◌∙◌, inl, inr, Text, ◌==◌, trim_space, not, ◌&&◌, Option-cases,
}
use ollama_gateway.Common.Table.{lookup, delete}
use ollama_gateway.Auth.Database.{UserStore}
use ollama_gateway.Models.Catalog.Merging.{serves}
use ollama_gateway.Models.Store.{ModelTables, load_active_catalog}
use ollama_gateway.Models.Store.Pricing.{kept_price, replace_model_pricing-load_model_pricing}
use ollama_gateway.Models.Store.Editing.{
  edited, deactivate_model, Deactivated, deactivate_model-Deactivated,
}
use ollama_gateway.Dashboard.Catalog.{
  Site, done, current_catalog, drop_entry, with_tables, persist_pricing, reload_runtime,
  remove_model, delete_model,
}
use ollama_gateway.Dashboard.Catalog.Saving.{
  InStep, price_in_force, no_failure, and_then-eq-none, with_users-eq-none, with_tables-eq-none,
  finished_lem,
}

removed_lem :
    (name : Text) (s s1 : Site)
    → remove_model name s ≡ done s1
    → (users : UserStore) × (s1 ≡ record (drop_entry name s) { users = users })
unfolding remove_model
removed_lem name s s1 h = elim (Option-cases (lookup name (current_catalog s))) [
  | inl q ↦ no_failure s s1 _ (rw (q, remove_model) at h)
  | inr (old, q) ↦
      let (users, g, c) = with_users-eq-none (drop_entry name s) s1 _ (rw (q, remove_model) at h) in
      (users, c)
]

gone_lem :
    (name : Text) (t t' : ModelTables)
    → deactivate_model name t ≡ edited t'
    → Deactivated (trim_space name) t (edited t')
gone_lem name t t' h =
    subst (λ x. Deactivated (trim_space name) t x) h (deactivate_model-Deactivated name t)

same_tables :
    (name : Text) (s : Site) (users : UserStore)
    → (record (drop_entry name s) { users = users }).tables ≡ s.tables
unfolding drop_entry
same_tables name s users = refl

deleted_lem :
    (name : Text) (s s' : Site)
    → trim_space name ≡ name
    → (users : UserStore) (t : ModelTables) → deactivate_model name s.tables ≡ edited t
    → s'
      ≡ reload_runtime (persist_pricing (record (drop_entry name s) { users = users; tables = t }))
    → InStep s'
      × ((n b : Text)
          → serves n b s'.resolver_catalog
            ≡ (not (name == n) && serves n b (load_active_catalog s.tables)))
      × ((n : Text) → price_in_force n s' ≡ kept_price s'.tables.models (delete name s.pricing) n)
unfolding reload_runtime persist_pricing drop_entry
deleted_lem name s s' trimmed users t u c = rw c (
  (refl, refl, refl, refl, refl),
  λ n b. gone_lem name s.tables t u n b ∙ rw trimmed refl,
  λ n. replace_model_pricing-load_model_pricing t.models _ n,
)

-- A model that was deleted without a failure: the handler, the configuration, the resolver and the proxy
-- have what the tables have; the model is served by no backend, and the other models as the tables had
-- it; the price of the model is dropped, and the others are those of the configuration, for models.
pub delete_model-InStep :
    (name : Text) (s s' : Site)
    → trim_space name ≡ name
    → delete_model name s ≡ done s'
    → InStep s'
      × ((n b : Text)
          → serves n b s'.resolver_catalog
            ≡ (not (name == n) && serves n b (load_active_catalog s.tables)))
      × ((n : Text) → price_in_force n s' ≡ kept_price s'.tables.models (delete name s.pricing) n)
unfolding delete_model
delete_model-InStep name s s' trimmed h =
    let (s1, h1, k1) = and_then-eq-none (remove_model name s) _ h in
    let (users, c1) = removed_lem name s s1 h1 in
    let (s2, h2, k2) = and_then-eq-none (with_tables s1 (deactivate_model name s1.tables)) _ k1 in
    let (t, g, c2) = with_tables-eq-none s1 s2 _ h2 in
    deleted_lem name s s' trimmed users t
      (ap (deactivate_model name) (sym (ap (λ (x : Site). x.tables) c1 ∙ same_tables name s users))
        ∙ g)
      (finished_lem s2 s' k2
        ∙ ap (λ (x : Site). reload_runtime (persist_pricing x))
            (c2 ∙ ap (λ (x : Site). record x { tables = t }) c1))
