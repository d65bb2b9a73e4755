-- ===== src/Models/Store/Syncing.antt =====
-- `SyncDiscoveredCatalog` of internal/models/store.go: what is loaded after it.
use ollama_gateway.Common.{
  ◌≡◌, ◌≢◌, refl, sym, ap, ◌∙◌, inl, inr, Text, ◌==◌, eq_iff, Option, none, some, List, [], ◌∷◌,
  ◌++◌, true, not, any, keep, keep-append, ◌&&◌, ◌||◌, arith, Bool-cases, Option-cases,
  if◌then◌else◌,
}
use mathlib.Core.List.{append-nil}
use ollama_gateway.Common.Int.{ℤ}
use ollama_gateway.Common.Table.{Table, lookup, insert, lookup-key, key-lookup}
use ollama_gateway.Backends.Manager.{BackendRef}
use ollama_gateway.Models.Catalog.{CatalogEntry, Catalog, member, normalize_catalog}
use ollama_gateway.Models.Catalog.Merging.{refers, serves, offered, normalize_catalog-serves}
use ollama_gateway.Models.Store.{
  ModelRow, RefRow, ModelTables, Sync, refs_for, rows_of, replace_refs, synced_row, normalized_refs,
  or_default_weight, entry_at, new_refs, sync_tables, sync_models, deactivate_absent, started,
  names_of, sync_normalized, sync_discovered_catalog, load_active_catalog,
}
use ollama_gateway.Models.Store.Loading.{is_active, serves-load_active_catalog}
use ollama_gateway.Models.Store.Pricing.{member-keys}

refs_for-rows_of :
    (n k : Text) (new : Table ℤ)
    → refs_for n (rows_of k new) ≡ (if k == n then rows_of k new else [])
unfolding refs_for
refs_for-rows_of n k [] = ground arith
refs_for-rows_of n k ((b, w) ∷ new) = elim (Bool-cases (k == n)) [
  | inl e ↦
      let ih : refs_for n (rows_of k new) ≡ rows_of k new = refs_for-rows_of n k new ∙ rw e refl in
      let r : RefRow = record { model = k; backend = b; weight = w } in
      rw e (unfold refs_for in ap (λ rs. r ∷ rs) ih)
  | inr e ↦ rw e (refs_for-rows_of n k new ∙ rw e refl)
]

refs_for-others :
    (n k : Text) (refs : List RefRow)
    → refs_for n (keep (λ (r : RefRow). not (r.model == k)) refs)
      ≡ (if k == n then [] else refs_for n refs)
unfolding refs_for
refs_for-others n k [] = ground arith
refs_for-others n k (r ∷ refs) =
    ground (arith, eq_iff r.model k, eq_iff r.model n, eq_iff k n, refs_for-others n k refs)

-- Only the references of that model change.
pub refs_for-replace_refs :
    (n k : Text) (new : Table ℤ) (refs : List RefRow)
    → refs_for n (replace_refs k new refs) ≡ (if k == n then rows_of k new else refs_for n refs)
unfolding replace_refs
refs_for-replace_refs n k new refs =
    let step : refs_for n (replace_refs k new refs)
        ≡ refs_for n (keep (λ (r : RefRow). not (r.model == k)) refs)
          ++ refs_for n (rows_of k new) =
      unfold refs_for in
      keep-append (λ (r : RefRow). r.model == n) (keep (λ (r : RefRow). not (r.model == k)) refs)
        (rows_of k new) in
    step
    ∙ rw (refs_for-others n k refs, refs_for-rows_of n k new)
        (elim (Bool-cases (k == n)) [
          | inl e ↦ rw e refl
          | inr e ↦ rw e (append-nil (refs_for n refs))
        ])

pub is_active-insert :
    (n k : Text) (m : ModelRow) (models : Table ModelRow)
    → m.active ≡ true
    → is_active n (insert k m models) ≡ (k == n || is_active n models)
unfolding insert
is_active-insert n k m [] on = rw on refl
is_active-insert n k m ((j, q) ∷ models) on = elim (Bool-cases (j == k)) [
  | inl e ↦ rw e (rw on (ground (arith, eq_iff j k, eq_iff j n, eq_iff k n)))
  | inr e ↦ rw e (rw (is_active-insert n k m models on) (ground arith))
]

pub synced_row-on :
    (k : Text) (e : CatalogEntry) (o : Option ModelRow) → (synced_row k e o).active ≡ true
synced_row-on k e none = refl
synced_row-on k e (some m) = refl

pub is_active-deactivate_absent :
    (n : Text) (names : List Text) (models : Table ModelRow)
    → is_active n (deactivate_absent names models) ≡ (member n names && is_active n models)
unfolding deactivate_absent
is_active-deactivate_absent n names [] = ground arith
is_active-deactivate_absent n names ((k, m) ∷ models) = elim (Bool-cases (k == n)) [
  | inl e ↦
      let same : member k names ≡ member n names = ap (λ x. member x names) ((eq_iff k n).0 e) in
      rw e (rw (is_active-deactivate_absent n names models) (rw same (ground arith)))
  | inr e ↦ rw e (rw (is_active-deactivate_absent n names models) (ground arith))
]

-- After the loop each of its names is active, and the other models are as before.
pub is_active-sync_models :
    (n : Text) (found : ModelTables) (catalog : Catalog) (names : List Text) (s : Sync)
    → is_active n (sync_models found catalog names s).tables.models
      ≡ (member n names || is_active n s.tables.models)
unfolding sync_models sync_tables
is_active-sync_models n found catalog [] s = refl
is_active-sync_models n found catalog (k ∷ names) s =
    is_active-sync_models n found catalog names _
    ∙ rw
        (is_active-insert n k (synced_row k (entry_at k catalog) (lookup k s.tables.models))
          s.tables.models (synced_row-on k (entry_at k catalog) (lookup k s.tables.models)))
        (ground arith)

-- After the loop each of its names has the references of the catalog, and no other.
pub refs_for-sync_models :
    (n : Text) (found : ModelTables) (catalog : Catalog) (names : List Text) (s : Sync)
    → refs_for n (sync_models found catalog names s).tables.refs
      ≡ (if member n names then rows_of n (new_refs n catalog) else refs_for n s.tables.refs)
unfolding sync_models sync_tables
refs_for-sync_models n found catalog [] s = refl
refs_for-sync_models n found catalog (k ∷ names) s =
    refs_for-sync_models n found catalog names _
    ∙ rw (refs_for-replace_refs n k (new_refs k catalog) s.tables.refs)
        (elim (Bool-cases (k == n)) [
          | inl e ↦ rw e (rw ((eq_iff k n).0 e) (ground arith))
          | inr e ↦ rw e refl
        ])

has_key-insert :
    (b k : Text) (w : ℤ) (m : Table ℤ)
    → any (λ (e : Text × ℤ). e.0 == b) (insert k w m)
      ≡ (k == b || any (λ (e : Text × ℤ). e.0 == b) m)
unfolding insert
has_key-insert b k w [] = refl
has_key-insert b k w ((j, v) ∷ m) =
    ground (arith, eq_iff j k, eq_iff j b, eq_iff k b, has_key-insert b k w m)

has_key-normalized_refs :
    (b : Text) (refs : List BackendRef) (out : Table ℤ)
    → b ≢ []
    → any (λ (e : Text × ℤ). e.0 == b) (normalized_refs refs out)
      ≡ (refers b refs || any (λ (e : Text × ℤ). e.0 == b) out)
unfolding normalized_refs
has_key-normalized_refs b [] out far = refl
has_key-normalized_refs b (r ∷ refs) out far = elim (Bool-cases (r.backend == [])) [
  | inl e ↦ rw e (
      has_key-normalized_refs b refs out far
      ∙ ground (arith, eq_iff r.backend [], eq_iff r.backend b))
  | inr e ↦ rw e (
      has_key-normalized_refs b refs (insert r.backend (or_default_weight r.weight) out) far
      ∙ rw (has_key-insert b r.backend (or_default_weight r.weight) out) (ground arith))
]

pub backends-rows_of :
    (n b : Text) (new : Table ℤ)
    → any (λ (r : RefRow). r.backend == b) (rows_of n new) ≡ any (λ (e : Text × ℤ). e.0 == b) new
backends-rows_of n b [] = refl
backends-rows_of n b ((k, w) ∷ new) = rw (backends-rows_of n b new) refl

serves-entry_at :
    (n b : Text) (c : Catalog)
    → (any (λ (e : Text × CatalogEntry). e.0 == n) c && refers b (entry_at n c).backends)
      ≡ serves n b c
unfolding serves entry_at
serves-entry_at n b c = elim (Option-cases (lookup n c)) [
  | inl e ↦ rw (key-lookup n c e) (rw (e, serves) refl)
  | inr (x, e) ↦ elim (Bool-cases (any (λ (e : Text × CatalogEntry). e.0 == n) c)) [
    | inl h ↦ rw h (rw (e, serves, entry_at) refl)
    | inr h ↦ cc (lookup-key n c h, e)
  ]
]

has_key-new_refs :
    (n b : Text) (c : Catalog)
    → b ≢ []
    → any (λ (e : Text × ℤ). e.0 == b) (new_refs n c) ≡ refers b (entry_at n c).backends
unfolding new_refs
has_key-new_refs n b c far = has_key-normalized_refs b (entry_at n c).backends [] far ∙ ground arith

serves-sync_normalized :
    (n b : Text) (c : Catalog) (t : ModelTables)
    → b ≢ []
    → serves n b (load_active_catalog (sync_normalized c t).tables) ≡ serves n b c
unfolding sync_normalized
serves-sync_normalized n b c t far =
    let names = names_of c in
    let s = started t in
    let here : any (λ (e : Text × CatalogEntry). e.0 == n) c ≡ member n names =
      sym (member-keys n c) in
    serves-load_active_catalog n b (sync_normalized c t).tables
    ∙ rw (is_active-deactivate_absent n names (sync_models t c names s).tables.models) (
        rw (is_active-sync_models n t c names s) (
          rw (refs_for-sync_models n t c names s) (elim (Bool-cases (member n names)) [
            | inl h ↦ rw h (
                backends-rows_of n b (new_refs n c)
                ∙ has_key-new_refs n b c far
                ∙ (rw (here ∙ h) at (serves-entry_at n b c)))
            | inr h ↦ rw h (rw (here ∙ h) at (serves-entry_at n b c))
          ])))

-- After a synchronization the active catalog has a backend under a model exactly if an entry of the
-- discovered catalog, by its normalized name, refers to the backend: whatever was in the tables
-- before is gone from it.
pub sync_discovered_catalog-load_active_catalog :
    (n b : Text) (c : Catalog) (t : ModelTables)
    → n ≢ []
    → b ≢ []
    → serves n b (load_active_catalog (sync_discovered_catalog c t).tables) ≡ offered n b c
unfolding sync_discovered_catalog
sync_discovered_catalog-load_active_catalog n b c t k l =
    serves-sync_normalized n b (normalize_catalog c) t l ∙ normalize_catalog-serves c n b k l
