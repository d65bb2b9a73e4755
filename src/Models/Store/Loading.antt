-- ===== src/Models/Store/Loading.antt =====
-- `LoadActiveCatalog` of internal/models/store.go: what the loaded catalog has of the tables.
use ollama_gateway.Common.{
  ◌≡◌, refl, ◌∙◌, inl, inr, Text, ◌==◌, eq_iff, List, [], ◌∷◌, Bool, any, any-append, map, ◌&&◌,
  ◌||◌, arith, Bool-cases, Option-cases,
}
use ollama_gateway.Common.Table.{Table, lookup}
use ollama_gateway.Common.Sorting.{sort_by, any-sort_by}
use ollama_gateway.Models.Catalog.{Catalog}
use ollama_gateway.Models.Catalog.Merging.{refers, refers-append, serves, serves-insert}
use ollama_gateway.Models.Store.{
  ModelRow, RefRow, ModelTables, JoinRow, ref_backend, model_key, refs_for, join_row, join_model,
  join_rows, loaded_entry, load_row, load_rows, load_active_catalog,
}

-- The model has an active row.
abbrev pub is_active : Text → Table ModelRow → Bool
is_active n models = any (λ (e : Text × ModelRow). e.1.active && e.0 == n) models

-- The model has a reference to the backend.
abbrev pub has_ref : Text → Text → List RefRow → Bool
has_ref n b refs = any (λ (r : RefRow). r.backend == b) (refs_for n refs)

abbrev names_pair : Text → Text → JoinRow → Bool
names_pair n b r = r.name == n && r.backend == b

refers-loaded_entry :
    (r : JoinRow) (b : Text) (m : Catalog)
    → refers b (loaded_entry r (lookup r.name m)).backends ≡ serves r.name b m
unfolding serves
refers-loaded_entry r b m = elim (Option-cases (lookup r.name m)) [
  | inl e ↦ rw (e, serves) refl
  | inr (x, e) ↦ rw (e, serves) refl
]

serves-load_row :
    (n b : Text) (r : JoinRow) (m : Catalog)
    → serves n b (load_row r m) ≡ (names_pair n b r || serves n b m)
unfolding load_row
serves-load_row n b r m =
    let e = loaded_entry r (lookup r.name m) in
    serves-insert n b r.name _ m
    ∙ rw (refers-append b _ e.backends) (
        rw (refers-loaded_entry r b m) (elim (Bool-cases (r.name == n)) [
          | inl h ↦ rw h (rw ((eq_iff r.name n).0 h) refl)
          | inr h ↦ rw h refl
        ]))

serves-load_rows :
    (n b : Text) (rows : List JoinRow) (m : Catalog)
    → serves n b (load_rows rows m) ≡ (any (names_pair n b) rows || serves n b m)
unfolding load_rows
serves-load_rows n b [] m = refl
serves-load_rows n b (r ∷ rows) m =
    serves-load_rows n b rows (load_row r m) ∙ rw (serves-load_row n b r m) (ground arith)

pairs-join_row :
    (n b name : Text) (m : ModelRow) (rs : List RefRow)
    → any (names_pair n b) (map (join_row name m) rs)
      ≡ (name == n && any (λ (r : RefRow). r.backend == b) rs)
pairs-join_row n b name m [] = ground arith
pairs-join_row n b name m (r ∷ rs) = rw (pairs-join_row n b name m rs) (ground arith)

pairs-join_model :
    (n b name : Text) (m : ModelRow) (refs : List RefRow)
    → any (names_pair n b) (join_model name m refs) ≡ ((m.active && name == n) && has_ref n b refs)
unfolding join_model
pairs-join_model n b name m refs = elim (Bool-cases m.active) [
  | inl e ↦ rw e (
      pairs-join_row n b name m (sort_by ref_backend (refs_for name refs))
      ∙ rw (any-sort_by ref_backend (λ (r : RefRow). r.backend == b) (refs_for name refs))
          (elim (Bool-cases (name == n)) [
            | inl h ↦ rw h (rw ((eq_iff name n).0 h) refl)
            | inr h ↦ rw h refl
          ]))
  | inr e ↦ rw e refl
]

pairs-join_rows :
    (n b : Text) (models : Table ModelRow) (refs : List RefRow)
    → any (names_pair n b) (join_rows models refs) ≡ (is_active n models && has_ref n b refs)
unfolding join_rows
pairs-join_rows n b [] refs = refl
pairs-join_rows n b ((name, m) ∷ models) refs =
    any-append (names_pair n b) (join_model name m refs) (join_rows models refs)
    ∙ rw (pairs-join_model n b name m refs, pairs-join_rows n b models refs) (ground arith)

-- The loaded catalog has a backend under a model exactly if the model is active and has a reference to
-- the backend.
pub serves-load_active_catalog :
    (n b : Text) (t : ModelTables)
    → serves n b (load_active_catalog t) ≡ (is_active n t.models && has_ref n b t.refs)
unfolding load_active_catalog serves lookup
serves-load_active_catalog n b t =
    serves-load_rows n b (join_rows (sort_by model_key t.models) t.refs) []
    ∙ rw (pairs-join_rows n b (sort_by model_key t.models) t.refs) (
        rw (any-sort_by model_key (λ (e : Text × ModelRow). e.1.active && e.0 == n) t.models)
          (ground arith))
