-- ===== src/Auth/Users.antt =====
-- The users of a gateway without a database (internal/auth/store.go).
use ollama_gateway.Common.{
  ◌≡◌, ◌≢◌, refl, ◌∙◌, Text, ◌==◌, eq_iff, eq_refl, trim_space, none, some, [], arith, Bool-cases,
  Option-cases, inl, inr,
}
use ollama_gateway.Common.Table.{Table, lookup, lookup-insert, lookup-delete}
use ollama_gateway.Config.{UserConfig}
use ollama_gateway.Auth.{
  name_required, hash_required, key_required, user_exists, user_not_found, Saved, saved, refused,
  create_user, deactivate_user,
}

-- How a creation ends.
abbrev pub Created : Text → UserConfig → Table UserConfig → Saved → Type 0
Created id u users (saved after) =
    (lookup id users ≡ none)
    × (lookup id after ≡ some u)
    × ((other : Text) → other ≢ id → lookup other after ≡ lookup other users)
Created id u users (refused name_required) = id ≡ []
Created id u users (refused hash_required) = u.api_key_hash ≡ []
Created id u users (refused user_exists) = lookup id users ≢ none
Created id u users (refused key_required) = ⊥
Created id u users (refused user_not_found) = ⊥

-- A creation adds the user under its trimmed name, which was free, and leaves the others as they
-- were; or it is refused for an empty name, an empty hash, or a name that is taken.
pub create_user-Created :
    (name : Text) (u : UserConfig) (users : Table UserConfig)
    → Created (trim_space name) u users (create_user name u users)
unfolding create_user
create_user-Created name u users =
    let id = trim_space name in
    elim (Bool-cases (id == [])) [
      | inl e ↦ rw (e, create_user) ((eq_iff id []).0 e)
      | inr e ↦ elim (Bool-cases (u.api_key_hash == [])) [
        | inl h ↦ rw (e, create_user) (rw h ((eq_iff u.api_key_hash []).0 h))
        | inr h ↦ elim (Option-cases (lookup id users)) [
          | inr (v, l) ↦ rw (e, create_user) (rw h (rw l (λ q. cc)))
          | inl l ↦
              rw (e, create_user)
                (rw h (
                  rw l (
                    l,
                    lookup-insert id id u users ∙ rw (eq_refl id) refl,
                    λ other n. lookup-insert id other u users ∙ ground (arith, eq_iff id other, n),
                  )))
        ]
      ]
    ]

-- How a deactivation ends.
abbrev pub Deactivated : Text → Table UserConfig → Saved → Type 0
Deactivated id users (saved after) =
    (lookup id after ≡ none)
    × ((other : Text) → other ≢ id → lookup other after ≡ lookup other users)
Deactivated id users (refused name_required) = id ≡ []
Deactivated id users (refused user_not_found) = lookup id users ≡ none
Deactivated id users (refused hash_required) = ⊥
Deactivated id users (refused key_required) = ⊥
Deactivated id users (refused user_exists) = ⊥

-- A deactivation takes the user of the trimmed name away and leaves the others as they were; or it is
-- refused for an empty name or a name that no user has.
pub deactivate_user-Deactivated :
    (name : Text) (users : Table UserConfig)
    → Deactivated (trim_space name) users (deactivate_user name users)
unfolding deactivate_user
deactivate_user-Deactivated name users =
    let id = trim_space name in
    elim (Bool-cases (id == [])) [
      | inl e ↦ rw (e, deactivate_user) ((eq_iff id []).0 e)
      | inr e ↦ elim (Option-cases (lookup id users)) [
        | inl l ↦ rw (e, deactivate_user) (rw l l)
        | inr (v, l) ↦
            rw (e, deactivate_user)
              (rw l (
                lookup-delete id id users ∙ rw (eq_refl id) refl,
                λ other n. lookup-delete id other users ∙ ground (arith, eq_iff id other, n),
              ))
      ]
    ]
