-- ===== src/Auth.antt =====
-- internal/auth: the credential of a request, the lookup of its user among those of the configuration,
-- and the users of a store without a database, which `NewStore` makes and the tests of the package use;
-- the gateway has a database (Auth/Database). SHA-256 as a hex digest and the decoding of hex are parameters.
pub mod Checks
pub mod Users
pub mod Database
use ollama_gateway.Common.{
  Text, codes, ◌==◌, is_space, trim_space, to_lower, Option, none, some, List, [], ◌∷◌, Bool, true,
  false, not, ◌||◌, if◌then◌else◌,
}
use ollama_gateway.Common.Table.{Table, lookup, insert, delete}
use ollama_gateway.Config.{UserConfig}

-- `HashAPIKey`, and `hex.DecodeString` with `none` for its error.
pub record Digest : Type 0 where
  pub hash : Text → Text
  pub decode : Text → Option Text

unfoldable pub same_bytes : Option Text → Option Text → Bool
same_bytes none b = false
same_bytes (some a) none = false
same_bytes (some a) (some b) = a == b

-- `verifyHash`
unfoldable pub verify_hash : Digest → Text → Text → Bool
unfolding same_bytes
verify_hash d expected raw =
    if expected == [] then false else same_bytes (d.decode expected) (d.decode (d.hash raw))

abbrev push_word : Text → List Text → List Text
push_word [] ws = ws
push_word (c ∷ w) ws = (c ∷ w) ∷ ws

-- The word that a text starts with, and the words after it.
unfoldable pub split_words : Text → Text × List Text
split_words [] = ([], [])
split_words (c ∷ s) =
    let (w, ws) = split_words s in if is_space c then ([], push_word w ws) else (c ∷ w, ws)

-- `strings.Fields`
unfoldable pub fields : Text → List Text
unfolding split_words
fields s = let (w, ws) = split_words s in push_word w ws

-- The token of the two words of a bearer header.
unfoldable pub bearer_of : List Text → Text
bearer_of [] = []
bearer_of (a ∷ []) = []
bearer_of (a ∷ b ∷ []) = if to_lower a == codes "bearer" then trim_space b else []
bearer_of (a ∷ b ∷ c ∷ ws) = []

-- `bearerTokenFromHeader`
unfoldable pub bearer_token_from_header : Text → Text
unfolding fields bearer_of
bearer_token_from_header h = bearer_of (fields (trim_space h))

-- `APIKeyFromRequest` and `AdminTokenFromRequest`, of the header of their own and of `Authorization`
unfoldable pub credential : Text → Text → Text
unfolding bearer_token_from_header
credential own authorization =
    let raw = trim_space own in if raw == [] then bearer_token_from_header authorization else raw

-- The loop of `LookupAPIKey` over the users of the configuration: the first user whose hash verifies the key.
unfoldable pub lookup_api_key : Digest → Text → Table UserConfig → Option Text
lookup_api_key d key [] = none
lookup_api_key d key ((id, u) ∷ users) =
    let rest = lookup_api_key d key users in
    if u.api_key_hash == []
    then rest
    else if verify_hash d u.api_key_hash key
    then some id
    else rest

-- What `Middleware` does: two answers with status 401, or the request goes on as that user.
pub data Authenticated : Type 0 where
  missing_api_key invalid_api_key : Authenticated
  admitted : Text → Authenticated

-- `CheckAdminToken`
pub check_admin_token : Digest → Text → Text → Bool
unfolding verify_hash
check_admin_token d token_hash raw =
    if token_hash == [] then false else verify_hash d token_hash raw

-- What `AdminMiddleware` does: two answers with status 403, or the request goes on.
pub data AdminChecked : Type 0 where
  missing_admin_token invalid_admin_token allowed : AdminChecked

pub admin_middleware : Digest → Text → Text → Text → AdminChecked
unfolding credential check_admin_token
admin_middleware d token_hash own authorization =
    let token = credential own authorization in
    if token == []
    then missing_admin_token
    else if check_admin_token d token_hash token
    then allowed
    else invalid_admin_token

pub data UserError : Type 0 where
  name_required hash_required key_required user_exists user_not_found : UserError

-- An error leaves the users as they were.
pub data Saved : Type 0 where
  saved : Table UserConfig → Saved
  refused : UserError → Saved

-- `CreateUser` without a database
pub create_user : Text → UserConfig → Table UserConfig → Saved
create_user name u users =
    let id = trim_space name in
    if id == []
    then refused name_required
    else if u.api_key_hash == []
    then refused hash_required
    else elim (lookup id users) [ some v ↦ refused user_exists | none ↦ saved (insert id u users) ]

-- `UpdateUser` without a database: an empty hash keeps the one in force.
unfoldable pub update_user : Text → UserConfig → Table UserConfig → Saved
update_user name u users =
    let id = trim_space name in
    if id == [] then refused name_required else elim (lookup id users) [
      | none ↦ refused user_not_found
      | some v ↦ saved (
          insert id (if u.api_key_hash == [] then record u { api_key_hash = v.api_key_hash } else u)
            users)
    ]

-- `RotateUserKey` without a database
pub rotate_user_key : Digest → Text → Text → Table UserConfig → Saved
rotate_user_key d name raw users =
    let id = trim_space name in
    if id == []
    then refused name_required
    else if raw == []
    then refused key_required
    else elim (lookup id users) [
      | none ↦ refused user_not_found
      | some v ↦ saved (insert id (record v { api_key_hash = d.hash raw }) users)
    ]

-- `DeactivateUser` without a database
pub deactivate_user : Text → Table UserConfig → Saved
deactivate_user name users =
    let id = trim_space name in
    if id == []
    then refused name_required
    else elim (lookup id users) [ none ↦ refused user_not_found | some v ↦ saved (delete id users) ]
