-- ===== src/Models/Store/Editing.antt =====
-- `UpsertModel` and `DeactivateModel` of internal/models/store.go, the changes that an administrator
-- makes of a model.
use ollama_gateway.Common.{
  ◌≡◌, ◌≢◌, refl, sym, ap, ◌∙◌, inl, inr, Text, ◌==◌, eq_iff, trim_space, Option, none, some, List,
  [], ◌∷◌, Bool, true, false, not, any, is_empty, ◌&&◌, ◌||◌, arith, Bool-cases, Option-cases,
  if◌then◌else◌,
}
use ollama_gateway.Common.Int.{ℤ}
use ollama_gateway.Common.Table.{Table, lookup, insert}
use ollama_gateway.Backends.Manager.{BackendRef}
use ollama_gateway.Models.Catalog.{CatalogEntry, member}
use ollama_gateway.Models.Catalog.Merging.{serves}
use ollama_gateway.Models.Store.{
  ModelRow, ModelTables, or_default_weight, replace_refs, load_active_catalog,
}
use ollama_gateway.Models.Store.Loading.{is_active, serves-load_active_catalog}
use ollama_gateway.Models.Store.Syncing.{is_active-insert, refs_for-replace_refs, backends-rows_of}

pub data ModelError : Type 0 where
  name_missing refs_missing model_absent : ModelError

pub data Edited : Type 0 where
  edited : ModelTables → Edited
  refused : ModelError → Edited

-- The loop of `UpsertModel` over the references: blank backends and those seen before are passed over.
unfoldable pub distinct_refs : List BackendRef → List Text → Table ℤ
distinct_refs [] seen = []
distinct_refs (r ∷ refs) seen =
    let b = trim_space r.backend in
    let rest = distinct_refs refs seen in
    let more = (b, or_default_weight r.weight) ∷ distinct_refs refs (b ∷ seen) in
    if b == [] then rest else if member b seen then rest else more

abbrev pub shown_as : Text → Text → Text
shown_as name display = if display == [] then name else display

-- `UpsertModel`
unfoldable pub upsert_model : Text → CatalogEntry → ModelTables → Edited
unfolding distinct_refs replace_refs
upsert_model raw e t =
    let name = trim_space raw in
    let refs = distinct_refs e.backends [] in
    if name == []
    then refused name_missing
    else if is_empty refs
    then refused refs_missing
    else edited (record {
      models =
          insert name (record { display_name = shown_as name (trim_space e.name); active = true })
            t.models;
      refs = replace_refs name refs t.refs;
    })

-- `UPDATE models SET active = 0 WHERE name = ?`
unfoldable pub set_inactive : Text → Table ModelRow → Table ModelRow
set_inactive name [] = []
set_inactive name ((k, m) ∷ models) =
    (k, (if k == name then record m { active = false } else m)) ∷ set_inactive name models

abbrev when_found : Option ModelRow → ModelTables → Edited
when_found none t = refused model_absent
when_found (some m) t = edited t

-- `DeactivateModel`; a model that is inactive already is no error.
unfoldable pub deactivate_model : Text → ModelTables → Edited
unfolding set_inactive
deactivate_model raw t =
    let name = trim_space raw in
    if name == []
    then refused name_missing
    else when_found (lookup name t.models) (record t { models = set_inactive name t.models })

-- A reference of the form names the backend.
abbrev pub names_backend : Text → List BackendRef → Bool
names_backend b refs = any (λ (r : BackendRef). trim_space r.backend == b) refs

has_key-distinct_refs :
    (b : Text) (refs : List BackendRef) (seen : List Text)
    → b ≢ []
    → (any (λ (e : Text × ℤ). e.0 == b) (distinct_refs refs seen) || member b seen)
      ≡ (names_backend b refs || member b seen)
unfolding distinct_refs
has_key-distinct_refs b [] seen far = refl
has_key-distinct_refs b (r ∷ refs) seen far =
    let c = trim_space r.backend in
    elim (Bool-cases (c == [])) [
      | inl e ↦
          rw e (has_key-distinct_refs b refs seen far ∙ ground (arith, eq_iff c [], eq_iff c b))
      | inr e ↦ rw e (elim (Bool-cases (member c seen)) [
        | inl h ↦
            let same : (c == b) ≡ true → member b seen ≡ true =
              λ q. ap (λ x. member x seen) (sym ((eq_iff c b).0 q)) ∙ h in
            rw h (
              has_key-distinct_refs b refs seen far ∙ elim (Bool-cases (c == b)) [
                | inl q ↦ rw q (rw (same q) (ground arith))
                | inr q ↦ rw q refl
              ])
        | inr h ↦ rw h (let ih = has_key-distinct_refs b refs (c ∷ seen) far in ground (arith, ih))
      ])
    ]

upserted :
    (raw : Text) (e : CatalogEntry) (t t' : ModelTables)
    → upsert_model raw e t ≡ edited t'
    → (m : ModelRow) × (m.active ≡ true)
      × (t' ≡ record {
        models = insert (trim_space raw) m t.models;
        refs = replace_refs (trim_space raw) (distinct_refs e.backends []) t.refs;
      })
unfolding upsert_model
upserted raw e t t' h = elim (Bool-cases (trim_space raw == [])) [
  | inl f ↦ cc (rw f at h)
  | inr f ↦ elim (Bool-cases (is_empty (distinct_refs e.backends []))) [
    | inl g ↦ cc (rw g at (rw f at h))
    | inr g ↦
        let m : ModelRow = record {
          display_name = shown_as (trim_space raw) (trim_space e.name);
          active = true;
        } in
        (m, refl, cc (rw g at (rw f at h)))
  ]
]

-- A model that is saved is served by the backends that its references name, and by no other, also if
-- it was inactive; the other models are served as before.
pub upsert_model-load_active_catalog :
    (raw : Text) (e : CatalogEntry) (t t' : ModelTables) (n b : Text)
    → b ≢ []
    → upsert_model raw e t ≡ edited t'
    → serves n b (load_active_catalog t') ≡ (
        if trim_space raw == n
        then names_backend b e.backends
        else serves n b (load_active_catalog t))
upsert_model-load_active_catalog raw e t t' n b far h =
    let name = trim_space raw in
    let refs = distinct_refs e.backends [] in
    let (m, on, q) = upserted raw e t t' h in
    let keys : any (λ (e : Text × ℤ). e.0 == b) refs ≡ names_backend b e.backends =
      (let k = has_key-distinct_refs b e.backends [] far in ground (arith, k)) in
    rw q (
      serves-load_active_catalog n b
        (record { models = insert name m t.models; refs = replace_refs name refs t.refs })
      ∙ rw (is_active-insert n name m t.models on) (
          rw (refs_for-replace_refs n name refs t.refs) (elim (Bool-cases (name == n)) [
            | inl f ↦ rw f (backends-rows_of name b refs ∙ keys)
            | inr f ↦ rw f (sym (serves-load_active_catalog n b t))
          ])))

is_active-set_inactive :
    (n name : Text) (models : Table ModelRow)
    → is_active n (set_inactive name models) ≡ (not (name == n) && is_active n models)
unfolding set_inactive
is_active-set_inactive n name [] = ground arith
is_active-set_inactive n name ((k, m) ∷ models) =
    ground (arith, eq_iff k name, eq_iff k n, eq_iff name n, is_active-set_inactive n name models)

-- What a deactivation does, with its errors.
abbrev pub Deactivated : Text → ModelTables → Edited → Type 0
Deactivated name t (edited t') =
    (n b : Text)
    → serves n b (load_active_catalog t') ≡ (not (name == n) && serves n b (load_active_catalog t))
Deactivated name t (refused name_missing) = name ≡ []
Deactivated name t (refused refs_missing) = ⊥
Deactivated name t (refused model_absent) = lookup name t.models ≡ none

-- A model that is deactivated is served by no backend, and the others are served as before; the
-- request is refused only without a name, or where there is no such model.
pub deactivate_model-Deactivated :
    (raw : Text) (t : ModelTables) → Deactivated (trim_space raw) t (deactivate_model raw t)
unfolding deactivate_model
deactivate_model-Deactivated raw t =
    let name = trim_space raw in
    elim (Bool-cases (name == [])) [
      | inl e ↦ rw e ((eq_iff name []).0 e)
      | inr e ↦ rw e (elim (Option-cases (lookup name t.models)) [
        | inl f ↦ rw f f
        | inr (m, f) ↦ rw f (λ n b.
            serves-load_active_catalog n b (record t { models = set_inactive name t.models })
            ∙ rw (is_active-set_inactive n name t.models)
                (rw (serves-load_active_catalog n b t) (ground arith)))
      ])
    ]
