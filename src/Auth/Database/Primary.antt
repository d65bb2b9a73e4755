-- ===== src/Auth/Database/Primary.antt =====
-- The operations of internal/auth/store.go keep `user_id` the primary key of its table.
use ollama_gateway.Common.{
  inl, inr, Text, ◌==◌, trim_space, [], ◌∷◌, true, is_empty, Bool-cases, Option-cases,
}
use ollama_gateway.Common.Table.{insert-IsPrimary, Table, lookup}
use ollama_gateway.Config.{UserConfig}
use ollama_gateway.Auth.{
  Digest, name_required, hash_required, key_required, user_exists, user_not_found,
}
use ollama_gateway.Auth.Database.{
  JsonText, UserRow, UserStore, Stored, stored, rejected, failed, user_deactivated, put_row,
  enabled_row, get_user_config, create_stored_user, update_row, update_stored_user,
  rotate_stored_key, disable_row, deactivate_stored_user,
}
use ollama_gateway.Auth.Database.Bootstrap.{settle_user, then_stored, seed_users, bootstrap_users}
use ollama_gateway.Auth.Database.Accounts.{IsPrimary}

-- What an operation stored has one row for each user.
abbrev pub KeepsPrimary : Stored → Type 0
KeepsPrimary (stored s) = IsPrimary s.rows
KeepsPrimary (rejected e) = Unit

put_row-KeepsPrimary :
    (id : Text) (r : UserRow) (s : UserStore) → IsPrimary s.rows → KeepsPrimary (put_row id r s)
put_row-KeepsPrimary id r s v = insert-IsPrimary id r s.rows v

create_keeps :
    (j : JsonText) (name : Text) (u : UserConfig) (s : UserStore)
    → IsPrimary s.rows
    → KeepsPrimary (create_stored_user j name u s)
unfolding create_stored_user
create_keeps j name u s v = elim (Bool-cases (trim_space name == [])) [
  | inl e ↦ rw e tt
  | inr e ↦ rw e (elim (Bool-cases (u.api_key_hash == [])) [
    | inl f ↦ rw f tt
    | inr f ↦ rw f (elim (Option-cases (lookup (trim_space name) s.rows)) [
      | inl h ↦ rw h (insert-IsPrimary (trim_space name) _ s.rows v)
      | inr (r, h) ↦ rw h tt
    ])
  ])
]

rotate_keeps :
    (d : Digest) (name raw : Text) (s : UserStore)
    → IsPrimary s.rows
    → KeepsPrimary (rotate_stored_key d name raw s)
unfolding rotate_stored_key
rotate_keeps d name raw s v = elim (Bool-cases (trim_space name == [])) [
  | inl e ↦ rw e tt
  | inr e ↦ rw e (elim (Bool-cases (raw == [])) [
    | inl f ↦ rw f tt
    | inr f ↦ rw f (elim (Option-cases (enabled_row (trim_space name) s)) [
      | inl h ↦ rw h tt
      | inr (r, h) ↦ rw h (insert-IsPrimary (trim_space name) _ s.rows v)
    ])
  ])
]

deactivate_keeps :
    (name : Text) (s : UserStore) → IsPrimary s.rows → KeepsPrimary (deactivate_stored_user name s)
unfolding deactivate_stored_user disable_row
deactivate_keeps name s v = elim (Bool-cases (trim_space name == [])) [
  | inl e ↦ rw e tt
  | inr e ↦ rw e (elim (Option-cases (lookup (trim_space name) s.rows)) [
    | inl h ↦ rw h tt
    | inr (r, h) ↦ rw h (elim (Bool-cases r.disabled) [
      | inl f ↦ rw f tt
      | inr f ↦ rw f (insert-IsPrimary (trim_space name) (record r { disabled = true }) s.rows v)
    ])
  ])
]

update_keeps :
    (j : JsonText) (name : Text) (u : UserConfig) (s : UserStore)
    → IsPrimary s.rows
    → KeepsPrimary (update_stored_user j name u s)
unfolding update_stored_user update_row
update_keeps j name u s v = elim (Bool-cases (trim_space name == [])) [
  | inl e ↦ rw e tt
  | inr e ↦ rw e (elim (Option-cases (get_user_config j (trim_space name) s)) [
    | inl h ↦ rw h tt
    | inr (old, h) ↦ rw h (elim (Option-cases (lookup (trim_space name) s.rows)) [
      | inl g ↦ rw g tt
      | inr (r, g) ↦ rw g (insert-IsPrimary (trim_space name) _ s.rows v)
    ])
  ])
]

settle_keeps :
    (s : UserStore) (r : Stored)
    → IsPrimary s.rows
    → KeepsPrimary r
    → KeepsPrimary (settle_user s r)
settle_keeps s (stored s') v w = w
settle_keeps s (rejected (failed name_required)) v w = tt
settle_keeps s (rejected (failed hash_required)) v w = tt
settle_keeps s (rejected (failed key_required)) v w = tt
settle_keeps s (rejected (failed user_exists)) v w = v
settle_keeps s (rejected (failed user_not_found)) v w = tt
settle_keeps s (rejected user_deactivated) v w = tt

then_keeps :
    (r : Stored) (next : UserStore → Stored)
    → KeepsPrimary r
    → ((s : UserStore) → IsPrimary s.rows → KeepsPrimary (next s))
    → KeepsPrimary (then_stored r next)
then_keeps (stored s) next w f = f s w
then_keeps (rejected e) next w f = tt

seed_keeps :
    (j : JsonText) (users : Table UserConfig) (s : UserStore)
    → IsPrimary s.rows
    → KeepsPrimary (seed_users j users s)
unfolding seed_users
seed_keeps j [] s v = v
seed_keeps j ((id, u) ∷ users) s v = elim (Bool-cases (u.api_key_hash == [])) [
  | inl e ↦ rw e tt
  | inr e ↦ rw e (
      then_keeps (settle_user s (create_stored_user j id u s)) (seed_users j users)
        (settle_keeps s (create_stored_user j id u s) v (create_keeps j id u s v))
        (λ s' w. seed_keeps j users s' w))
]

bootstrap_keeps :
    (j : JsonText) (s : UserStore) → IsPrimary s.rows → KeepsPrimary (bootstrap_users j s)
unfolding bootstrap_users
bootstrap_keeps j s v = elim (Bool-cases (is_empty s.rows)) [
  | inl e ↦ rw e (seed_keeps j s.config_users s v)
  | inr e ↦ rw e v
]

-- Every operation on the users, and the bootstrap of a gateway's users, keeps one row for each user.
pub stored-IsPrimary :
    (d : Digest) (j : JsonText) (s : UserStore)
    → IsPrimary s.rows
    → ((name : Text) (u : UserConfig)
        → KeepsPrimary (create_stored_user j name u s)
          × KeepsPrimary (update_stored_user j name u s))
      × ((name raw : Text) → KeepsPrimary (rotate_stored_key d name raw s))
      × ((name : Text) → KeepsPrimary (deactivate_stored_user name s))
      × KeepsPrimary (bootstrap_users j s)
stored-IsPrimary d j s v = (
  λ name u. (create_keeps j name u s v, update_keeps j name u s v),
  λ name raw. rotate_keeps d name raw s v,
  λ name. deactivate_keeps name s v,
  bootstrap_keeps j s v,
)
