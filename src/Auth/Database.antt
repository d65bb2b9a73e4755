-- ===== src/Auth/Database.antt =====
-- internal/auth/store.go of a gateway with a database: the table `api_users` as its SQL statements
-- change it and read it, and the configuration's users, to which the store falls back. An error of
-- the database, which leaves the table as it was, and the timestamps are left out.
pub mod Accounts
pub mod Bootstrap
pub mod Primary
use ollama_gateway.Common.{
  ℕ, ◌*◌, ◌/◌, Text, ◌==◌, trim_space, Option, none, some, List, [], ◌∷◌, Bool, true, false, not,
  ◌&&◌, is_empty, if◌then◌else◌,
}
use ollama_gateway.Common.Int.{ℤ, pos, negsuc, is_nonpos, pos_part}
use ollama_gateway.Common.Table.{Table, lookup, insert}
use ollama_gateway.Ratelimit.{UserRateLimit, second}
use ollama_gateway.Config.{UserConfig}
use ollama_gateway.Auth.{
  Digest, credential, lookup_api_key, Authenticated, missing_api_key, invalid_api_key, admitted,
  UserError, name_required, hash_required, key_required, user_exists, user_not_found,
}

-- `json.Marshal` of a list and of a map of texts, and what `json.Unmarshal` leaves of a text, its
-- error ignored.
pub record JsonText : Type 0 where
  pub marshal_list : List Text → Text
  pub unmarshal_list : Text → List Text
  pub marshal_map : Table Text → Text
  pub unmarshal_map : Text → Table Text

-- `none` is NULL; `disabled` tells that `disabled_at` is not.
pub record UserRow : Type 0 where
  pub api_key_hash : Text
  pub rate : Option ℤ
  pub burst : Option ℤ
  pub ttl_seconds : Option ℤ
  pub allow_json : Text
  pub deny_json : Text
  pub aliases_json : Text
  pub disabled : Bool

-- The table by user, and the users of the configuration.
pub record UserStore : Type 0 where
  pub rows : Table UserRow
  pub config_users : Table UserConfig

-- Whole seconds, of an amount that is not negative.
abbrev pub whole_seconds : ℤ → ℤ
whole_seconds t = pos (pos_part t / second)

abbrev if_positive : ℤ → ℤ → Option ℤ
if_positive z value = if is_nonpos z then none else some value

abbrev pub burst_arg : Option UserRateLimit → Option ℤ
burst_arg none = none
burst_arg (some l) = if_positive l.burst l.burst

abbrev pub ttl_arg : Option UserRateLimit → Option ℤ
ttl_arg none = none
ttl_arg (some l) = if_positive l.ttl (whole_seconds l.ttl)

-- `CreateUser` stores every rate, and `UpdateUser` a positive one.
abbrev pub rate_arg : Option UserRateLimit → Option ℤ
rate_arg none = none
rate_arg (some l) = some l.rate

abbrev positive_rate : Option UserRateLimit → Option ℤ
positive_rate none = none
positive_rate (some l) = if_positive l.rate l.rate

-- The values of the statements, with those of `marshalUserFields`.
unfoldable pub user_row : JsonText → Option ℤ → UserConfig → UserRow
user_row j rate u = record {
  api_key_hash = u.api_key_hash;
  rate = rate;
  burst = burst_arg u.rate_limit;
  ttl_seconds = ttl_arg u.rate_limit;
  allow_json = j.marshal_list u.model_allow;
  deny_json = j.marshal_list u.model_deny;
  aliases_json = j.marshal_map u.aliases;
  disabled = false;
}

abbrev or_zero : Option ℤ → ℤ
or_zero none = pos 0
or_zero (some z) = z

-- `timeFromSeconds`
unfoldable pub time_from_seconds : ℤ → ℤ
time_from_seconds s = if is_nonpos s then pos 0 else pos (pos_part s * second)

abbrev time_of : Option ℤ → ℤ
time_of none = pos 0
time_of (some s) = time_from_seconds s

abbrev is_null : Option ℤ → Bool
is_null none = true
is_null (some z) = false

-- A rate limit if some of the three columns is not NULL.
unfoldable pub limit_of : Option ℤ → Option ℤ → Option ℤ → Option UserRateLimit
unfolding time_from_seconds
limit_of rate burst ttl =
    if is_null rate && is_null burst && is_null ttl
    then none
    else some (record { rate = or_zero rate; burst = or_zero burst; ttl = time_of ttl })

-- The scanning of a row, as `GetUserConfig` and `ListUsers` do it.
unfoldable pub config_of_user : JsonText → UserRow → UserConfig
unfolding limit_of
config_of_user j r = record {
  api_key_hash = r.api_key_hash;
  rate_limit = limit_of r.rate r.burst r.ttl_seconds;
  model_allow = if r.allow_json == [] then [] else j.unmarshal_list r.allow_json;
  model_deny = if r.deny_json == [] then [] else j.unmarshal_list r.deny_json;
  aliases = if r.aliases_json == [] then [] else j.unmarshal_map r.aliases_json;
}

-- `WHERE user_id = ? AND disabled_at IS NULL`
abbrev pub if_enabled : Option UserRow → Option UserRow
if_enabled none = none
if_enabled (some r) = if r.disabled then none else some r

unfoldable pub enabled_row : Text → UserStore → Option UserRow
enabled_row id s = if_enabled (lookup id s.rows)

abbrev config_or : JsonText → Option UserRow → Option UserConfig → Option UserConfig
config_or j none u = u
config_or j (some r) u = some (config_of_user j r)

-- `GetUserConfig`
unfoldable pub get_user_config : JsonText → Text → UserStore → Option UserConfig
unfolding enabled_row config_of_user
get_user_config j id s = config_or j (enabled_row id s) (lookup id s.config_users)

-- `ListUsers`
unfoldable pub list_users : JsonText → Table UserRow → Table UserConfig
unfolding config_of_user
list_users j [] = []
list_users j ((id, r) ∷ rows) =
    let rest = list_users j rows in if r.disabled then rest else (id, config_of_user j r) ∷ rest

-- `SELECT user_id ... WHERE api_key_hash = ? AND disabled_at IS NULL LIMIT 1`
unfoldable pub find_hash : Text → Table UserRow → Option Text
find_hash hash [] = none
find_hash hash ((id, r) ∷ rows) =
    let rest = find_hash hash rows in
    if r.api_key_hash == hash && not r.disabled then some id else rest

abbrev pub or_config : Option Text → Option Text → Option Text
or_config none other = other
or_config (some id) other = some id

-- `LookupAPIKey`: where the table has no row, the configuration is asked.
unfoldable pub lookup_stored_key : Digest → Text → UserStore → Option Text
unfolding find_hash
lookup_stored_key d raw s =
    or_config (find_hash (d.hash raw) s.rows) (lookup_api_key d raw s.config_users)

-- `Middleware`
unfoldable pub middleware : Digest → UserStore → Text → Text → Authenticated
unfolding credential lookup_stored_key
middleware d s own authorization =
    let key = credential own authorization in
    if key == []
    then missing_api_key
    else elim (lookup_stored_key d key s) [ none ↦ invalid_api_key | some id ↦ admitted id ]

-- The error `ErrUserDeactivated` beside those of a store without a database.
pub data StoreError : Type 0 where
  failed : UserError → StoreError
  user_deactivated : StoreError

pub data Stored : Type 0 where
  stored : UserStore → Stored
  rejected : StoreError → Stored

abbrev pub put_row : Text → UserRow → UserStore → Stored
put_row id r s = stored (record s { rows = insert id r s.rows })

-- `CreateUser`; the primary key refuses a user whose row exists, deactivated or not.
unfoldable pub create_stored_user : JsonText → Text → UserConfig → UserStore → Stored
unfolding user_row
create_stored_user j name u s =
    let id = trim_space name in
    if id == []
    then rejected (failed name_required)
    else if u.api_key_hash == []
    then rejected (failed hash_required)
    else elim (lookup id s.rows) [
      | some r ↦ rejected (failed user_exists)
      | none ↦ put_row id (user_row j (rate_arg u.rate_limit) u) s
    ]

-- The `UPDATE` of `UpdateUser`, which keeps `disabled_at`.
update_row : JsonText → Text → UserConfig → UserStore → Option UserRow → Stored
update_row j id u s none = rejected (failed user_not_found)
update_row j id u s (some r) =
    put_row id (record (user_row j (positive_rate u.rate_limit) u) { disabled = r.disabled }) s

keep_hash : UserConfig → UserConfig → UserConfig
keep_hash old u = if u.api_key_hash == [] then record u { api_key_hash = old.api_key_hash } else u

-- `UpdateUser`
unfoldable pub update_stored_user : JsonText → Text → UserConfig → UserStore → Stored
unfolding get_user_config update_row keep_hash
update_stored_user j name u s =
    let id = trim_space name in
    if id == [] then rejected (failed name_required) else elim (get_user_config j id s) [
      | none ↦ rejected (failed user_not_found)
      | some old ↦ update_row j id (keep_hash old u) s (lookup id s.rows)
    ]

-- `RotateUserKey`
unfoldable pub rotate_stored_key : Digest → Text → Text → UserStore → Stored
unfolding enabled_row
rotate_stored_key d name raw s =
    let id = trim_space name in
    if id == []
    then rejected (failed name_required)
    else if raw == []
    then rejected (failed key_required)
    else elim (enabled_row id s) [
      | none ↦ rejected (failed user_not_found)
      | some r ↦ put_row id (record r { api_key_hash = d.hash raw }) s
    ]

unfoldable pub disable_row : Text → UserStore → Option UserRow → Stored
disable_row id s none = rejected (failed user_not_found)
disable_row id s (some r) =
    if r.disabled then rejected user_deactivated else put_row id (record r { disabled = true }) s

-- `DeactivateUser`
unfoldable pub deactivate_stored_user : Text → UserStore → Stored
unfolding disable_row
deactivate_stored_user name s =
    let id = trim_space name in
    if id == [] then rejected (failed name_required) else disable_row id s (lookup id s.rows)
