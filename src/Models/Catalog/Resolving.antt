-- ===== src/Models/Catalog/Resolving.antt =====
-- `Resolve` of internal/models/resolver.go: the pool of a requested model.
use ollama_gateway.Common.{
  ◌≡◌, refl, ap, ◌∙◌, ◌⊎◌, inl, inr, Text, ◌==◌, eq_refl, none, some, List, [], ◌∷◌, false, map,
  All, All-zip, Any, Bool-cases, eq_of_some,
}
use mathlib.Core.Path.{subst}
use ollama_gateway.Common.Int.{is_nonpos}
use ollama_gateway.Common.Table.{Table, lookup}
use ollama_gateway.Models.{
  ModelEntry, new_registry, UserOverrides, Result, ResolutionError, ok, err, pool_failed,
  resolve_model,
}
use ollama_gateway.Backends.Pool.{Entry}
use ollama_gateway.Backends.Manager.{BackendRef, get_by_name}
use ollama_gateway.Backends.Manager.Routing.{Matches, pool_for_model_cases}
use ollama_gateway.Models.Resolution.{StandsFor, Names, granted, resolve_model-Resolves}
use ollama_gateway.Models.Catalog.{
  CatalogEntry, Catalog, copy_ref, registry_entry, build_registry, Resolver, weights_of,
  first_weight, weight_for, refs_for, resolve, refresh_catalog,
}

pub Result-cases {ℓ} :
    {A : Type ℓ} (r : Result A) → ((e : ResolutionError) × (r ≡ err e)) ⊎ ((a : A) × (r ≡ ok a))
Result-cases (ok a) = inr (a, refl)
Result-cases (err e) = inl (e, refl)

-- How `Resolve` ends for a model that the access rules grant: with a pool that has, for each backend
-- of the model, an entry that stands for it; or with status 500, and a backend is not known.
abbrev pub Routed : Resolver → List BackendRef → Result (List Entry) → Type 0
Routed r refs result =
    ((es : List Entry) × (result ≡ ok es) × Matches r.manager refs es)
    ⊎ ((result ≡ err pool_failed) × Any (λ b. get_by_name b.backend r.manager ≡ none) refs)

routed :
    (requested : Text) (o : UserOverrides) (r : Resolver) (n : Text) (names : List Text)
    → resolve_model requested r.registry o ≡ ok (n, names)
    → Routed r (refs_for n r.model_weights names) (resolve requested o r)
unfolding resolve
routed requested o r n names e =
    elim (pool_for_model_cases (refs_for n r.model_weights names) r.manager) [
      | inl (es, p, m) ↦ inl (es, rw (e, resolve) (rw p refl), m)
      | inr (p, u) ↦ inr (rw (e, resolve) (rw p refl), u)
    ]

-- `Resolve` passes on the error of the access rules, or it has granted the model and ends by the
-- references of the model.
pub resolve-Routed :
    (requested : Text) (o : UserOverrides) (r : Resolver)
    → ((e : ResolutionError) × (resolve_model requested r.registry o ≡ err e)
        × (resolve requested o r ≡ err e))
      ⊎ ((n : Text) × (names : List Text) × (resolve_model requested r.registry o ≡ ok (n, names))
          × Routed r (refs_for n r.model_weights names) (resolve requested o r))
unfolding resolve
resolve-Routed requested o r = elim (Result-cases (resolve_model requested r.registry o)) [
  | inl (e, p) ↦ inl (e, p, rw (p, resolve) refl)
  | inr (a, p) ↦ inr (a.0, a.1, p, routed requested o r a.0 a.1 p)
]

-- Each reference has a positive weight, and each backend one reference.
abbrev pub AreWeighted : List BackendRef → Type 0
AreWeighted [] = Unit
AreWeighted (r ∷ refs) =
    (is_nonpos r.weight ≡ false)
    × All (λ (q : BackendRef). (r.backend == q.backend) ≡ false) refs
    × AreWeighted refs

weights-map :
    (f : BackendRef → BackendRef) (refs : List BackendRef)
    → ((r : BackendRef) → f r ≡ r)
    → map f refs ≡ refs
weights-map f [] h = refl
weights-map f (r ∷ refs) h = rw (h r, weights-map f refs h) refl

-- The weight that is looked up for each reference is its own.
own_weights :
    (refs : List BackendRef)
    → AreWeighted refs
    → All (λ (r : BackendRef). first_weight r.backend refs ≡ r.weight) refs
unfolding first_weight
own_weights [] h = tt
own_weights (r ∷ refs) (w, d, h) = (
  rw (eq_refl r.backend, w) refl,
  All-zip
      (λ (q : BackendRef) (e : (r.backend == q.backend) ≡ false)
          (k : first_weight q.backend refs ≡ q.weight).
        rw e k)
      refs d (own_weights refs h),
)

lookup-weights_of :
    (n : Text) (e : CatalogEntry) (catalog : Catalog)
    → lookup n catalog ≡ some e
    → lookup n (weights_of catalog) ≡ some (map copy_ref e.backends)
unfolding weights_of lookup
lookup-weights_of n e [] h = cc
lookup-weights_of n e ((k, v) ∷ catalog) h = elim (Bool-cases (k == n)) [
  | inl q ↦
      rw q (ap (λ (x : CatalogEntry). some (map copy_ref x.backends)) (eq_of_some (rw q at h)))
  | inr q ↦ rw q (lookup-weights_of n e catalog (rw q at h))
]

backends-new_registry :
    (n : Text) (e : CatalogEntry) (catalog : Catalog)
    → lookup n catalog ≡ some e
    → (m : ModelEntry) × (lookup n (build_registry catalog) ≡ some m)
      × (m.backends ≡ map (λ (r : BackendRef). r.backend) e.backends)
unfolding build_registry new_registry registry_entry lookup
backends-new_registry n e [] h = cc
backends-new_registry n e ((k, v) ∷ catalog) h = elim (Bool-cases (k == n)) [
  | inl q ↦ rw q (
    _,
    refl,
    elim (Bool-cases ((registry_entry k v).name == [])) [
      | inl x ↦ rw x (
          ap (λ (c : CatalogEntry). map (λ (r : BackendRef). r.backend) c.backends)
            (eq_of_some (rw q at h)))
      | inr x ↦ rw x (
          ap (λ (c : CatalogEntry). map (λ (r : BackendRef). r.backend) c.backends)
            (eq_of_some (rw q at h)))
    ],
  )
  | inr q ↦ rw q (backends-new_registry n e catalog (rw q at h))
]

refs_back :
    (n : Text) (weights : Table (List BackendRef)) (refs : List BackendRef)
    → All (λ (r : BackendRef). weight_for n weights r.backend ≡ r.weight) refs
    → refs_for n weights (map (λ (r : BackendRef). r.backend) refs) ≡ refs
unfolding refs_for
refs_back n weights [] h = refl
refs_back n weights (r ∷ refs) (e, h) = rw (e, refs_back n weights refs h) refl

refs_for-catalog :
    (n : Text) (e : CatalogEntry) (catalog : Catalog)
    → lookup n catalog ≡ some e
    → AreWeighted e.backends
    → refs_for n (weights_of catalog) (map (λ (r : BackendRef). r.backend) e.backends) ≡ e.backends
unfolding weight_for
refs_for-catalog n e catalog h w =
    let found : lookup n (weights_of catalog) ≡ some e.backends =
      lookup-weights_of n e catalog h ∙ ap some (weights-map copy_ref e.backends (λ r. refl)) in
    refs_back n (weights_of catalog) e.backends (rw (found, weight_for) (own_weights e.backends w))

-- A request for a model that the access rules give to the user, after the resolver has been given a
-- catalog in which each backend of the model is named once and with a positive weight: it gets a pool that
-- has, for each of them, an entry with the backend of that name and with that weight; or status 500, and
-- one of them is not known.
pub resolve-refresh_catalog :
    (requested : Text) (o : UserOverrides) (r : Resolver) (catalog : Catalog) (n : Text)
    (e : CatalogEntry)
    → StandsFor requested o.aliases n
    → lookup n catalog ≡ some e
    → ¬ Names n o.deny
    → (o.allow ≡ []) ⊎ Names n o.allow
    → AreWeighted e.backends
    → Routed r e.backends (resolve requested o (refresh_catalog catalog r))
unfolding refresh_catalog
resolve-refresh_catalog requested o r catalog n e stands h d a w =
    let (m, found, same) = backends-new_registry n e catalog h in
    let s = refresh_catalog catalog r in
    let given : resolve_model requested (build_registry catalog) o ≡ ok (n, m.backends) =
      (resolve_model-Resolves requested (build_registry catalog) o (ok (n, m.backends))).0
        (granted n m stands found d a) in
    let refs : refs_for n (weights_of catalog) m.backends ≡ e.backends =
      ap (λ x. refs_for n (weights_of catalog) x) same ∙ refs_for-catalog n e catalog h w in
    subst (λ x. Routed r x (resolve requested o s)) refs (routed requested o s n m.backends given)
