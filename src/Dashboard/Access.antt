-- ===== src/Dashboard/Access.antt =====
-- Which users may use a model, as the forms of internal/dashboard/handler.go show and change it.
pub mod Effects
use ollama_gateway.Common.{
  Text, ◌==◌, trim_space, Option, none, some, List, [], ◌∷◌, ◌++◌, Bool, true, false, not, ◌&&◌,
  ◌||◌, any, keep, is_empty, eqb, length, if◌then◌else◌,
}
use ollama_gateway.Common.Table.{Table}
use ollama_gateway.Common.Sorting.{sort_by}
use ollama_gateway.Config.{UserConfig}
use ollama_gateway.Auth.Database.{
  JsonText, UserStore, Stored, stored, rejected, list_users, update_stored_user,
}
use ollama_gateway.Models.Store.{same_text}

-- `containsCSVValue`
unfoldable pub contains_value : List Text → Text → Bool
contains_value items target = any (λ x. trim_space x == target) items

-- `removeCSVValue`
unfoldable pub remove_value : List Text → Text → List Text
remove_value items target = keep (λ x. not (trim_space x == target)) items

-- `modelAccessibleForUser`
unfoldable pub is_accessible : UserConfig → Text → Bool
unfolding contains_value
is_accessible u model =
    if contains_value u.model_deny model
    then false
    else if is_empty u.model_allow
    then true
    else contains_value u.model_allow model

unfoldable pub grant : Text → UserConfig → UserConfig
unfolding remove_value contains_value
grant model u = record u {
  model_deny = remove_value u.model_deny model;
  model_allow =
      if not (is_empty u.model_allow) && not (contains_value u.model_allow model)
      then u.model_allow ++ (model ∷ [])
      else u.model_allow;
}

unfoldable pub revoke : Text → UserConfig → UserConfig
unfolding remove_value contains_value
revoke model u = record u {
  model_allow = remove_value u.model_allow model;
  model_deny =
      if contains_value u.model_deny model then u.model_deny else u.model_deny ++ (model ∷ []);
}

abbrev pub sorted : UserConfig → UserConfig
sorted u = record u {
  model_allow = sort_by same_text u.model_allow;
  model_deny = sort_by same_text u.model_deny;
}

-- The body of the loop of `applyModelAccess`, up to the saving.
unfoldable pub with_access : Text → Bool → UserConfig → UserConfig
unfolding grant revoke
with_access model allowed u = sorted (if allowed then grant model u else revoke model u)

-- The form's choice: everyone, or the users of a set.
abbrev pub is_allowed : Bool → (Text → Bool) → Text → Bool
is_allowed limited selected id = if limited then selected id else true

abbrev pub or_stop : Stored → UserStore → (UserStore → UserStore × Bool) → UserStore × Bool
or_stop (stored users) old next = next users
or_stop (rejected e) old next = (old, false)

-- The loops over a snapshot of the users, which save those that change. An error ends the loop, and leaves
-- what has been saved before it.
unfoldable pub save_each :
    JsonText
    → (Text → UserConfig → Bool)
    → (Text → UserConfig → UserConfig)
    → Table UserConfig
    → UserStore
    → UserStore × Bool
save_each j changes f [] users = (users, true)
save_each j changes f ((id, u) ∷ snapshot) users =
    or_stop (if changes id u then update_stored_user j id (f id u) users else stored users) users
      (save_each j changes f snapshot)

-- `applyModelAccess`, over the users that `ListUsers` gives
unfoldable pub apply_model_access :
    JsonText → Text → Bool → (Text → Bool) → UserStore → UserStore × Bool
unfolding with_access save_each
apply_model_access j model limited selected users =
    save_each j (λ id u. true) (λ id u. with_access model (is_allowed limited selected id) u)
      (list_users j users.rows) users

-- What `deleteModel` leaves of a user's lists.
unfoldable pub without_model : Text → UserConfig → UserConfig
unfolding remove_value
without_model model u = record u {
  model_allow = remove_value u.model_allow model;
  model_deny = remove_value u.model_deny model;
}

-- Whether it shortens one of them.
unfoldable pub mentions : Text → UserConfig → Bool
unfolding remove_value
mentions model u =
    not (eqb (length (remove_value u.model_allow model)) (length u.model_allow))
    || not (eqb (length (remove_value u.model_deny model)) (length u.model_deny))

-- The loop of `deleteModel`
unfoldable pub forget_model : JsonText → Text → UserStore → UserStore × Bool
unfolding without_model mentions save_each
forget_model j model users =
    save_each j (λ id u. mentions model u) (λ id u. without_model model u) (list_users j users.rows)
      users
