-- ===== src/Dashboard/Catalog/Saving.antt =====
-- What a model's form of internal/dashboard/handler.go leaves in the tables, the catalogs and the prices.
use ollama_gateway.Common.{
  ◌≡◌, ◌≢◌, refl, sym, ap, ◌∙◌, inl, inr, Text, ◌==◌, eq_refl, trim_space, Option, none, some, [],
  Bool, true, false, Option-cases, if◌then◌else◌,
}
use ollama_gateway.Common.Table.{lookup, lookup-insert}
use ollama_gateway.Auth.Database.{UserStore}
use ollama_gateway.Usage.Pricing.{ModelPricing}
use ollama_gateway.Models.Catalog.{CatalogEntry}
use ollama_gateway.Models.Catalog.Merging.{serves}
use ollama_gateway.Models.Store.{ModelTables, load_active_catalog}
use ollama_gateway.Models.Store.Pricing.{
  load_model_pricing, kept_price, replace_model_pricing-load_model_pricing,
}
use ollama_gateway.Models.Store.Editing.{
  Edited, edited, refused, upsert_model, names_backend, upsert_model-load_active_catalog,
}
use ollama_gateway.Dashboard.Access.{apply_model_access}
use ollama_gateway.Dashboard.Catalog.{
  Site, Failure, done, stopped, current_catalog, put_entry, change_model, set_pricing, and_then,
  with_users, with_tables, persisted_entry, persist_model, persist_pricing, reload_runtime,
  save_model,
}

-- The handler, the configuration, the resolver and the proxy have what the tables have.
abbrev pub InStep : Site → Type 0
InStep s =
    (s.models ≡ some (load_active_catalog s.tables))
    × (s.config_models ≡ load_active_catalog s.tables)
    × (s.resolver_catalog ≡ load_active_catalog s.tables)
    × (s.pricing ≡ load_model_pricing s.prices)
    × (s.proxy_pricing ≡ load_model_pricing s.prices)

current-put_entry :
    (name : Text) (e : CatalogEntry) (s : Site)
    → lookup name (current_catalog (put_entry name e s)) ≡ some e
unfolding current_catalog put_entry
current-put_entry name e s = elim (Option-cases s.models) [
  | inl h ↦ rw h (lookup-insert name name e s.config_models ∙ rw (eq_refl name) refl)
  | inr (m, h) ↦ rw h (lookup-insert name name e m ∙ rw (eq_refl name) refl)
]

pub no_failure : {A : Type 0} (s s' : Site) (e : Failure) → stopped s e ≡ done s' → A
no_failure s s' e h = let q : some e ≡ none = ap (λ (x : Site × Option Failure). x.1) h in cc

pub and_then-eq-none :
    (m : Site × Option Failure) (f : Site → Site × Option Failure) {s' : Site}
    → and_then m f ≡ done s'
    → (s : Site) × (m ≡ done s) × (f s ≡ done s')
and_then-eq-none (s, none) f h = (s, refl, h)
and_then-eq-none (s, some e) f {s'} h = no_failure s s' e h

changed_lem :
    (create : Bool) (name : Text) (e : CatalogEntry) (s s1 : Site)
    → change_model create name e s ≡ done s1
    → s1 ≡ put_entry name e s
unfolding change_model
changed_lem true name e s s1 h = elim (Option-cases (lookup name (current_catalog s))) [
  | inl q ↦ sym (ap (λ (x : Site × Option Failure). x.0) (rw (q, change_model) at h))
  | inr (old, q) ↦ no_failure s s1 _ (rw (q, change_model) at h)
]
changed_lem false name e s s1 h = elim (Option-cases (lookup name (current_catalog s))) [
  | inl q ↦ no_failure s s1 _ (rw (q, change_model) at h)
  | inr (old, q) ↦ sym (ap (λ (x : Site × Option Failure). x.0) (rw (q, change_model) at h))
]

pub with_users-eq-none :
    (s s' : Site) (o : UserStore × Bool)
    → with_users s o ≡ done s'
    → (users : UserStore) × (o ≡ (users, true)) × (s' ≡ record s { users = users })
with_users-eq-none s s' (users, false) h = no_failure (record s { users = users }) s' _ h
with_users-eq-none s s' (users, true) h =
    (users, refl, sym (ap (λ (x : Site × Option Failure). x.0) h))

pub with_tables-eq-none :
    (s s' : Site) (o : Edited)
    → with_tables s o ≡ done s'
    → (t : ModelTables) × (o ≡ edited t) × (s' ≡ record s { tables = t })
with_tables-eq-none s s' (refused e) h = no_failure s s' _ h
with_tables-eq-none s s' (edited t) h = (t, refl, sym (ap (λ (x : Site × Option Failure). x.0) h))

pub finished_lem :
    (s s' : Site)
    → done (reload_runtime (persist_pricing s)) ≡ done s'
    → s' ≡ reload_runtime (persist_pricing s)
finished_lem s s' h = sym (ap (λ (x : Site × Option Failure). x.0) h)

-- The prices that are in force, by model.
abbrev pub price_in_force : Text → Site → Option ModelPricing
price_in_force n s = lookup n s.proxy_pricing

persist_model-eq-none :
    (name : Text) (s s' : Site)
    → persist_model name s ≡ done s'
    → (t : ModelTables) × (s' ≡ record s { tables = t })
      × (upsert_model name (persisted_entry (lookup name (current_catalog s))) s.tables ≡ edited t)
unfolding persist_model
persist_model-eq-none name s s' h = let (t, g, c) = with_tables-eq-none s s' _ h in (t, c, g)

-- The site before the last steps.
abbrev before_reload : Text → CatalogEntry → ModelPricing → Site → UserStore → ModelTables → Site
before_reload name e p s users t = record (set_pricing name p (put_entry name e s)) {
  users = users;
  tables = t;
}

here :
    (name : Text) (e : CatalogEntry) (p : ModelPricing) (s : Site) (users : UserStore)
    → lookup name
        (current_catalog (record (set_pricing name p (put_entry name e s)) { users = users }))
      ≡ some e
unfolding set_pricing current_catalog
here name e p s users = unfold current_catalog in current-put_entry name e s

kept :
    (name : Text) (e : CatalogEntry) (p : ModelPricing) (s : Site) (users : UserStore)
    → (record (set_pricing name p (put_entry name e s)) { users = users }).tables ≡ s.tables
unfolding set_pricing put_entry
kept name e p s users = refl

persisted :
    (name : Text) (e : CatalogEntry) (p : ModelPricing) (s : Site) (users : UserStore) (s3 : Site)
    (t : ModelTables)
    → s3 ≡ record (set_pricing name p (put_entry name e s)) { users = users }
    → upsert_model name (persisted_entry (lookup name (current_catalog s3))) s3.tables ≡ edited t
    → upsert_model name e s.tables ≡ edited t
persisted name e p s users s3 t c g =
    let now : lookup name (current_catalog s3) ≡ some e =
      ap (λ x. lookup name (current_catalog x)) c ∙ here name e p s users in
    let same : s3.tables ≡ s.tables = ap (λ (x : Site). x.tables) c ∙ kept name e p s users in
    rw same at (rw now at g)

saved_lem :
    (name : Text) (e : CatalogEntry) (p : ModelPricing) (s s' : Site)
    → trim_space name ≡ name
    → (users : UserStore) (t : ModelTables) → upsert_model name e s.tables ≡ edited t
    → s' ≡ reload_runtime (persist_pricing (before_reload name e p s users t))
    → InStep s'
      × ((n b : Text)
          → b ≢ []
          → serves n b s'.resolver_catalog ≡ (
              if name == n
              then names_backend b e.backends
              else serves n b (load_active_catalog s.tables)))
      × ((n : Text)
          → price_in_force n s' ≡ kept_price s'.tables.models (set_pricing name p s).pricing n)
unfolding reload_runtime persist_pricing set_pricing put_entry
saved_lem name e p s s' trimmed users t u c = rw c (
  (refl, refl, refl, refl, refl),
  λ n b far. upsert_model-load_active_catalog name e s.tables t n b far u ∙ rw trimmed refl,
  λ n. replace_model_pricing-load_model_pricing t.models _ n,
)

-- A model that was saved without a failure: the handler, the configuration, the resolver and the proxy
-- have what the tables have; the model is served by the backends of its form, the other models as the
-- tables had it; and the prices are those of the configuration with the form's, for names that are models.
pub save_model-InStep :
    (create : Bool) (name : Text) (e : CatalogEntry) (p : ModelPricing) (limited : Bool)
    (selected : Text → Bool) (s s' : Site)
    → trim_space name ≡ name
    → save_model create name e p limited selected s ≡ done s'
    → InStep s'
      × ((n b : Text)
          → b ≢ []
          → serves n b s'.resolver_catalog ≡ (
              if name == n
              then names_backend b e.backends
              else serves n b (load_active_catalog s.tables)))
      × ((n : Text)
          → price_in_force n s' ≡ kept_price s'.tables.models (set_pricing name p s).pricing n)
unfolding save_model
save_model-InStep create name e p limited selected s s' trimmed h =
    let (s1, h1, k1) = and_then-eq-none (change_model create name e s) _ h in
    let c1 = changed_lem create name e s s1 h1 in
    let s2 = set_pricing name p s1 in
    let (s3, h3, k3) =
      and_then-eq-none (with_users s2 (apply_model_access s2.json name limited selected s2.users)) _
        k1 in
    let (users, g3, c3) = with_users-eq-none s2 s3 _ h3 in
    let (s4, h4, k4) = and_then-eq-none (persist_model name s3) _ k3 in
    let (t, c4, g4) = persist_model-eq-none name s3 s4 h4 in
    let e3 : s3 ≡ record (set_pricing name p (put_entry name e s)) { users = users } =
      c3 ∙ ap (λ (x : Site). record (set_pricing name p x) { users = users }) c1 in
    let e4 : s4 ≡ before_reload name e p s users t =
      c4 ∙ ap (λ (x : Site). record x { tables = t }) e3 in
    saved_lem name e p s s' trimmed users t (persisted name e p s users s3 t e3 g4)
      (finished_lem s4 s' k4 ∙ ap (λ x. reload_runtime (persist_pricing x)) e4)
