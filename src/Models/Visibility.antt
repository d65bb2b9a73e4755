-- ===== src/Models/Visibility.antt =====
-- `VisibleModelsFor` of internal/models/registry.go against `ResolveModel`: whether the listing
-- shows what a request may use.
use ollama_gateway.Common.{◌≡◌, ◌≢◌, Text, none, some, [], Bool, true, false}
use ollama_gateway.Common.Table.{lookup}
use ollama_gateway.Models.{ModelEntry, Registry, UserOverrides, Result, ok, err, normalize}

abbrev pub is_ok {ℓ} : {A : Type ℓ} → Result A → Bool
is_ok (ok a) = true
is_ok (err e) = false

-- The entry's key is a model name in normal form, under which the registry has that entry, and no
-- alias replaces it.
abbrev pub IsPlain : UserOverrides → Registry → Text × ModelEntry → Type 0
IsPlain o registry e =
    (normalize e.0 ≡ e.0)
    × (e.0 ≢ [])
    × (lookup e.0 registry ≡ some e.1)
    × (lookup e.0 o.aliases ≡ none)
