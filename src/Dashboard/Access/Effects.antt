-- ===== src/Dashboard/Access/Effects.antt =====
-- What a form for the access of a model (internal/dashboard/handler.go) changes in what `ResolveModel` of
-- internal/models/registry.go lets a user have.
use ollama_gateway.Common.{◌≡◌, Text, trim_space, some, List, Bool, not, ◌&&◌, ◌||◌, is_empty, All}
use ollama_gateway.Config.{UserConfig}
use ollama_gateway.Models.{ModelEntry, normalize, names, check_access}
use ollama_gateway.Models.Visibility.{is_ok}
use ollama_gateway.Proxy.Handler.{from_user_config}

-- The access rules let the user have the model.
abbrev pub may_use : UserConfig → ModelEntry → Text → Bool
may_use u entry n = is_ok (check_access n n entry (from_user_config (some u)))

-- A name in normal form.
abbrev pub IsNormal : Text → Type 0
IsNormal x = (normalize x ≡ x) × (trim_space x ≡ x)

abbrev permits : List Text → List Text → Text → Bool
permits allow deny n = not (names n deny) && (is_empty allow || names n allow)

-- The lists of a user are in normal form.
abbrev pub HasNormalLists : UserConfig → Type 0
HasNormalLists u = All IsNormal u.model_allow × All IsNormal u.model_deny
