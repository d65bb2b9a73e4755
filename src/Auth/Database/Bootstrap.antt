-- ===== src/Auth/Database/Bootstrap.antt =====
-- `Validate` and `bootstrapUsersFromConfig` of internal/auth/store.go: the users that a gateway with a
-- database starts with, and those that `Validate` wants without one.
use ollama_gateway.Common.{◌==◌, [], ◌∷◌, Bool, true, not, ◌&&◌, is_empty, if◌then◌else◌}
use ollama_gateway.Common.Table.{Table}
use ollama_gateway.Config.{UserConfig}
use ollama_gateway.Auth.{hash_required, user_exists}
use ollama_gateway.Auth.Database.{
  JsonText, UserStore, StoreError, Stored, stored, rejected, failed, create_stored_user,
}

-- What a creation left, from which the bootstrap goes on: a user who exists is passed over.
abbrev pub settle_user : UserStore → Stored → Stored
settle_user s (stored s') = stored s'
settle_user s (rejected (failed user_exists)) = stored s
settle_user s (rejected e) = rejected e

abbrev pub then_stored : Stored → (UserStore → Stored) → Stored
then_stored (stored s) next = next s
then_stored (rejected e) next = rejected e

-- The users of the configuration, in the order in which the map gives them.
unfoldable pub seed_users : JsonText → Table UserConfig → UserStore → Stored
seed_users j [] s = stored s
seed_users j ((id, u) ∷ users) s =
    if u.api_key_hash == []
    then rejected (failed hash_required)
    else then_stored (settle_user s (create_stored_user j id u s)) (seed_users j users)

-- `bootstrapUsersFromConfig`, which seeds an empty table only.
unfoldable pub bootstrap_users : JsonText → UserStore → Stored
unfolding seed_users
bootstrap_users j s = if is_empty s.rows then seed_users j s.config_users s else stored s

-- What `Validate` finds of a gateway with a database.
pub data Validity : Type 0 where
  valid : UserStore → Validity
  no_users : Validity
  bad_user : StoreError → Validity

validity_of : Stored → Validity
validity_of (stored s) = if is_empty s.rows then no_users else valid s
validity_of (rejected e) = bad_user e

-- `Validate` with a database.
unfoldable pub validate_stored : JsonText → UserStore → Validity
unfolding bootstrap_users validity_of
validate_stored j s = validity_of (bootstrap_users j s)

have_hashes : Table UserConfig → Bool
have_hashes [] = true
have_hashes ((id, u) ∷ users) = not (u.api_key_hash == []) && have_hashes users

-- `Validate` without a database.
unfoldable pub validate_users : UserStore → Validity
unfolding have_hashes
validate_users s =
    if is_empty s.config_users
    then no_users
    else if have_hashes s.config_users
    then valid s
    else bad_user (failed hash_required)
