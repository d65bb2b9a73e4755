-- ===== src/Models.antt =====
-- internal/models: the model catalog, and how a requested model name becomes a backend pool.
-- This file has normalize.go, model.go and the parts of registry.go and resolver.go that the child
-- modules share.
pub mod Resolution
pub mod Visibility
pub mod Catalog
pub mod Discovery
pub mod Store
use ollama_gateway.Common.{
  ℕ, Text, codes, ◌==◌, trim_space, to_lower, has_suffix, trim_suffix, Option, none, some, List, [],
  ◌∷◌, ◌++◌, Bool, true, false, not, ◌&&◌, ◌||◌, any, is_empty, if◌then◌else◌,
}
use ollama_gateway.Common.Table.{Table, lookup}

abbrev latest : Text
latest = codes ":latest"

-- `NormalizeModelName`
unfoldable pub normalize : Text → Text
unfolding trim_space to_lower has_suffix trim_suffix
normalize name =
    let n = trim_space (to_lower name) in if has_suffix latest n then trim_suffix latest n else n

-- registry entries (model.go)
pub record ModelEntry : Type 0 where
  pub name : Text
  pub backends : List Text

abbrev pub Registry : Type 0
Registry = Table ModelEntry

-- `NewRegistry`: an entry without a name takes its key.
unfoldable pub new_registry : Table ModelEntry → Registry
new_registry [] = []
new_registry ((k, v) ∷ m) =
    (k, (if v.name == [] then record v { name = k } else v)) ∷ new_registry m

pub record UserOverrides : Type 0 where
  pub allow : List Text
  pub deny : List Text
  pub aliases : Table Text

-- `ResolutionError` by its constructors, each with the requested name; the last is the 500 that
-- `Resolve` makes where the pool cannot be built.
pub data ResolutionError : Type 0 where
  model_not_found model_denied : Text → ResolutionError
  model_not_allowed : Text → List Text → ResolutionError
  pool_failed : ResolutionError

pub status_code : ResolutionError → ℕ
status_code (model_not_found name) = 404
status_code (model_denied name) = 403
status_code (model_not_allowed name allowed) = 403
status_code pool_failed = 500

-- `fmt.Sprintf("%v", names)`: the names with a space between them, in brackets.
abbrev spaced : List Text → Text
spaced [] = []
spaced (n ∷ []) = n
spaced (n ∷ m ∷ ns) = n ++ codes " " ++ spaced (m ∷ ns)

-- The field `Message` of the error.
unfoldable pub message : ResolutionError → Text
message (model_not_found name) = codes "model '" ++ name ++ codes "' not found"
message (model_denied name) =
    codes "access to model '" ++ name ++ codes "' is denied for your account"
message (model_not_allowed name allowed) =
    codes "model '"
    ++ name
    ++ codes "' is not available on your plan. Available: ["
    ++ spaced allowed
    ++ codes "]"
message pool_failed = codes "internal error: failed to build backend pool"

pub data Result {ℓ} (A : Type ℓ) : Type ℓ where
  ok : A → Result A
  err : ResolutionError → Result A

-- An alias counts if it is not empty.
unfoldable pub alias_for : Text → Table Text → Option Text
alias_for name aliases = elim (lookup name aliases) [
  | none ↦ none
  | some a ↦ if a == [] then none else some a
]

-- Step 1 of `ResolveModel`: the alias of the name as requested, else of the normalized name.
unfoldable pub resolve_name : Text → Table Text → Text
unfolding alias_for
resolve_name requested aliases = elim (alias_for requested aliases) [
  | some a ↦ normalize a
  | none ↦ elim (alias_for (normalize requested) aliases) [
    | some a ↦ normalize a
    | none ↦ normalize requested
  ]
]

-- Whether some name of the list normalizes to `n`.
unfoldable pub names : Text → List Text → Bool
names n xs = any (λ x. normalize x == n) xs

unfoldable pub check_access : Text → Text → ModelEntry → UserOverrides → Result (Text × List Text)
check_access requested n entry o =
    if names n o.deny
    then err (model_denied requested)
    else if is_empty o.allow
    then ok (n, entry.backends)
    else if names n o.allow
    then ok (n, entry.backends)
    else err (model_not_allowed requested o.allow)

-- `ResolveModel`
unfoldable pub resolve_model : Text → Registry → UserOverrides → Result (Text × List Text)
unfolding resolve_name check_access names
resolve_model requested registry o =
    let n = resolve_name requested o.aliases in
    elim (lookup n registry) [
      | none ↦ err (model_not_found requested)
      | some entry ↦ check_access requested n entry o
    ]

-- The names of the list, normalized, as the set that `VisibleModelsFor` builds: without empty ones.
pub in_set : Text → List Text → Bool
in_set n xs = any (λ x. not (normalize x == []) && normalize x == n) xs

-- `len(set) > 0`
pub set_nonempty : List Text → Bool
set_nonempty xs = any (λ x. not (normalize x == [])) xs

-- Whether the loop of `VisibleModelsFor` lists the entry of that key.
pub is_visible : UserOverrides → Text → Bool
unfolding in_set set_nonempty
is_visible o k = not (in_set k o.deny) && (not (set_nonempty o.allow) || in_set k o.allow)

-- `VisibleModelsFor`
pub visible_models : UserOverrides → Registry → List Text
unfolding is_visible
visible_models o [] = []
visible_models o ((k, entry) ∷ m) =
    let rest = visible_models o m in if is_visible o k then entry.name ∷ rest else rest
