-- ===== src/Backends/Store.antt =====
-- internal/backends/store.go: the table `backend_configs`, as its SQL statements change it. The table
-- is keyed by name, which is unique; the two timestamps are left out, and so is an error of the
-- database, which leaves the table as it was.
pub mod Rows
use ollama_gateway.Common.{
  ℕ, ◌+◌, ◌*◌, ◌/◌, Text, codes, ◌==◌, Option, none, some, List, [], ◌∷◌, Bool, true, not, map,
  keep, is_empty, if◌then◌else◌,
}
use ollama_gateway.Common.Int.{ℤ, pos, negsuc, sub_ℕ, is_nonpos, pos_part}
use ollama_gateway.Common.Table.{Table, lookup, insert, delete}
use ollama_gateway.Common.Sorting.{sort_by}
use ollama_gateway.Backends.{BackendConfig}
use ollama_gateway.Backends.Manager.{default_model_weight}

pub record Row : Type 0 where
  pub name : Text
  pub url : Text
  pub weight : ℤ
  pub timeout_ms : ℤ
  pub health_check_path : Text
  pub tag : Option Text
  pub active : Bool

-- one millisecond
abbrev pub millisecond : ℕ
millisecond = 1000000

-- `Duration.Milliseconds`, towards zero
abbrev pub milliseconds : ℤ → ℤ
milliseconds (pos n) = pos (n / millisecond)
milliseconds (negsuc n) = sub_ℕ 0 ((n + 1) / millisecond)

abbrev pub default_timeout_ms : ℤ
default_timeout_ms = pos 120000

-- The values of `INSERT`.
unfoldable pub row_of : BackendConfig → Row
row_of c =
    let ms = milliseconds c.timeout in
    record {
      name = c.name;
      url = c.url;
      weight = if is_nonpos c.weight then default_model_weight else c.weight;
      timeout_ms = if is_nonpos ms then default_timeout_ms else ms;
      health_check_path =
          if c.health_check_path == [] then codes "/api/version" else c.health_check_path;
      tag = some c.tag;
      active = true;
    }

-- `UpsertBackend`
unfoldable pub upsert_row : BackendConfig → Table Row → Table Row
unfolding row_of
upsert_row c rows = insert c.name (row_of c) rows

abbrev or_no_tag : Option Text → Text
or_no_tag none = []
or_no_tag (some t) = t

-- The body of the loop of `LoadActiveBackends`.
unfoldable pub config_of_row : Row → BackendConfig
config_of_row r = record {
  name = r.name;
  url = r.url;
  weight = if is_nonpos r.weight then default_model_weight else r.weight;
  tag = or_no_tag r.tag;
  headers = [];
  timeout = pos (
      pos_part (if is_nonpos r.timeout_ms then default_timeout_ms else r.timeout_ms) * millisecond);
  health_check_path = r.health_check_path;
}

abbrev pub row_name : Row → Text
row_name r = r.name

-- `LoadActiveBackends`
unfoldable pub load_active_backends : Table Row → List BackendConfig
unfolding config_of_row
load_active_backends rows =
    map config_of_row
      (sort_by row_name (keep (λ (r : Row). r.active) (map (λ (e : Text × Row). e.1) rows)))

-- `RemoveBackend`; `none` is `ErrBackendNotFound`.
unfoldable pub remove_row : Text → Table Row → Option (Table Row)
remove_row name rows = elim (lookup name rows) [ none ↦ none | some r ↦ some (delete name rows) ]

-- `DeactivateBackend`
unfoldable pub deactivate_row : Text → Table Row → Option (Table Row)
unfolding remove_row
deactivate_row = remove_row

-- `HasAnyBackends`
unfoldable pub has_any_backends : Table Row → Bool
has_any_backends rows = not (is_empty rows)

unfoldable pub upsert_rows : List BackendConfig → Table Row → Table Row
unfolding upsert_row
upsert_rows [] rows = rows
upsert_rows (c ∷ cs) rows = upsert_rows cs (upsert_row c rows)

abbrev pub config_name : BackendConfig → Text
config_name c = c.name

-- `SeedBackends`
unfoldable pub seed_backends : List BackendConfig → Table Row → Table Row
unfolding has_any_backends upsert_rows
seed_backends cs rows =
    if has_any_backends rows then rows else upsert_rows (sort_by config_name cs) rows
