-- ===== src/Backends/Store/Rows.antt =====
-- What the table of internal/backends/store.go gives back.
use ollama_gateway.Common.{
  ℕ, ◌*◌, ◌<◌, ◌≡◌, ◌≢◌, eq_refl, refl, sym, ap, ◌∙◌, inl, inr, Text, ◌==◌, eq_iff, Option, none,
  some, List, [], ◌∷◌, true, ◌&&◌, map, keep, All, arith, Bool-cases, Option-cases, if◌then◌else◌,
}
use mathlib.Core.Option
use ollama_gateway.Common.Int.{pos}
use ollama_gateway.Common.Table.{Table, lookup, insert, delete}
use ollama_gateway.Common.Sorting.{sort_by, find_by, find_by-sort_by, IsSorted, sort_by-IsSorted}
use ollama_gateway.Backends.{BackendConfig}
use ollama_gateway.Backends.Manager.{with_defaults}
use ollama_gateway.Backends.Store.{
  Row, millisecond, row_of, upsert_row, config_of_row, row_name, config_name, load_active_backends,
  remove_row,
}

-- Each row stands under its name.
abbrev pub IsKeyed : Table Row → Type 0
IsKeyed rows = All (λ (e : Text × Row). e.1.name ≡ e.0) rows

abbrev active_rows : Table Row → List Row
active_rows rows = keep (λ (r : Row). r.active) (map (λ (e : Text × Row). e.1) rows)

-- The active row of a name.
abbrev row_at : Text → Table Row → Option Row
row_at n rows = find_by row_name n (active_rows rows)

find_by-map :
    (n : Text) (rs : List Row)
    → find_by config_name n (map config_of_row rs)
      ≡ Option.map config_of_row (find_by row_name n rs)
unfolding find_by config_of_row
find_by-map n [] = refl
find_by-map n (r ∷ rs) = elim (Bool-cases (r.name == n)) [
  | inl e ↦ rw e refl
  | inr e ↦ rw e (find_by-map n rs)
]

-- The configuration that the table gives for a name.
abbrev pub stored_config : Text → Table Row → Option BackendConfig
stored_config n rows = find_by config_name n (load_active_backends rows)

stored-row :
    (n : Text) (rows : Table Row) → stored_config n rows ≡ Option.map config_of_row (row_at n rows)
unfolding load_active_backends
stored-row n rows =
    find_by-map n (sort_by row_name (active_rows rows))
    ∙ ap (Option.map config_of_row) (find_by-sort_by row_name n (active_rows rows))

row_at-cons :
    (n k : Text) (q : Row) (rows : Table Row)
    → row_at n ((k, q) ∷ rows) ≡ (if q.active && q.name == n then some q else row_at n rows)
unfolding find_by
row_at-cons n k q rows = ground arith

row_at-insert :
    (n : Text) (r : Row) (rows : Table Row)
    → r.active ≡ true
    → IsKeyed rows
    → row_at n (insert r.name r rows) ≡ (if r.name == n then some r else row_at n rows)
unfolding insert find_by
row_at-insert n r [] on v = rw on refl
row_at-insert n r ((k, q) ∷ rows) on v = elim (Bool-cases (k == r.name)) [
  | inl e ↦
      let same : (q.name == n) ≡ (r.name == n) = ap (λ x. x == n) (v.0 ∙ (eq_iff k r.name).0 e) in
      rw e (ground (arith, on, same, row_at-cons n r.name r rows, row_at-cons n k q rows))
  | inr e ↦ rw e (
      ground (
        arith,
        v.0,
        eq_iff k r.name,
        eq_iff q.name n,
        eq_iff r.name n,
        row_at-cons n k q (insert r.name r rows),
        row_at-cons n k q rows,
        row_at-insert n r rows on v.1,
      ))
]

row_at-delete :
    (n name : Text) (rows : Table Row)
    → IsKeyed rows
    → row_at n (delete name rows) ≡ (if name == n then none else row_at n rows)
unfolding delete find_by
row_at-delete n name [] v = ground arith
row_at-delete n name ((k, q) ∷ rows) v = elim (Bool-cases (k == name)) [
  | inl e ↦
      let same : (q.name == n) ≡ (name == n) = ap (λ x. x == n) (v.0 ∙ (eq_iff k name).0 e) in
      rw e (ground (arith, same, row_at-cons n k q rows, row_at-delete n name rows v.1))
  | inr e ↦ rw e (
      ground (
        arith,
        v.0,
        eq_iff k name,
        eq_iff q.name n,
        eq_iff name n,
        row_at-cons n k q (delete name rows),
        row_at-cons n k q rows,
        row_at-delete n name rows v.1,
      ))
]

-- What the table keeps of a configuration: the defaults where it has none, whole milliseconds of its
-- timeout, and no headers.
unfoldable pub kept : BackendConfig → BackendConfig
kept c = config_of_row (row_of c)

-- A configuration that has been saved is read back as the table keeps it, and the others as before.
pub load-upsert_row :
    (n : Text) (c : BackendConfig) (rows : Table Row)
    → IsKeyed rows
    → stored_config n (upsert_row c rows)
      ≡ (if c.name == n then some (kept c) else stored_config n rows)
unfolding upsert_row kept row_of
load-upsert_row n c rows v =
    stored-row n (upsert_row c rows)
    ∙ ap (Option.map config_of_row) (row_at-insert n (row_of c) rows refl v)
    ∙ elim (Bool-cases (c.name == n)) [ inl e ↦ rw e refl | inr e ↦ rw e (sym (stored-row n rows)) ]

-- For a timeout of whole milliseconds, what is kept is the configuration with its defaults, but
-- without its headers.
pub kept-with_defaults :
    (c : BackendConfig) (ms : ℕ)
    → 0 < ms
    → c.timeout ≡ pos (ms * millisecond)
    → kept c ≡ record (with_defaults c) { headers = [] }
unfolding kept config_of_row row_of with_defaults
kept-with_defaults c ms h e = ground (arith, e, h)

-- A backend that has been saved, with a timeout of whole milliseconds, is loaded again with its
-- defaults, but without its headers; what the table gives for other names does not change.
pub upsert_row-load_active_backends :
    (c : BackendConfig) (ms : ℕ) (rows : Table Row)
    → IsKeyed rows
    → 0 < ms
    → c.timeout ≡ pos (ms * millisecond)
    → (stored_config c.name (upsert_row c rows) ≡ some (record (with_defaults c) { headers = [] }))
      × ((n : Text) → n ≢ c.name → stored_config n (upsert_row c rows) ≡ stored_config n rows)
upsert_row-load_active_backends c ms rows v h e = (
  load-upsert_row c.name c rows v ∙ rw (eq_refl c.name) (ap some (kept-with_defaults c ms h e)),
  λ n far. load-upsert_row n c rows v ∙ elim (Bool-cases (c.name == n)) [
    | inl q ↦ absurd (far (sym ((eq_iff c.name n).0 q)))
    | inr q ↦ rw q refl
  ],
)

-- A backend that has been removed is not loaded again, and the others are as before.
pub remove_row-load_active_backends :
    (name : Text) (rows rows' : Table Row)
    → IsKeyed rows
    → remove_row name rows ≡ some rows'
    → (n : Text) → stored_config n rows' ≡ (if name == n then none else stored_config n rows)
unfolding remove_row
remove_row-load_active_backends name rows rows' v h n = elim (Option-cases (lookup name rows)) [
  | inl e ↦ cc (rw (e, remove_row) at h)
  | inr (r, e) ↦
      let same : delete name rows ≡ rows' = cc (rw (e, remove_row) at h) in
      rw⁻¹ same (
        stored-row n (delete name rows)
        ∙ ap (Option.map config_of_row) (row_at-delete n name rows v)
        ∙ elim (Bool-cases (name == n)) [
          | inl q ↦ rw q refl
          | inr q ↦ rw q (sym (stored-row n rows))
        ])
]

-- The backends are loaded in the order of their names.
pub load_active_backends-IsSorted :
    (rows : Table Row) → IsSorted row_name (sort_by row_name (active_rows rows))
load_active_backends-IsSorted rows = sort_by-IsSorted row_name (active_rows rows)
