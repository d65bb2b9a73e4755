-- ===== src/Auth/Checks.antt =====
-- Who gets through the checks of internal/auth/middleware.go.
use ollama_gateway.Common.{
  ◌≡◌, ◌≢◌, ◌⊎◌, sym, refl, inl, inr, Text, ◌==◌, eq_iff, Option, none, some, [], ◌∷◌, true, false,
  arith, All, Any, Bool-cases, Option-cases,
}
use mathlib.Core.Path.{subst}
use ollama_gateway.Common.Table.{Table}
use ollama_gateway.Config.{UserConfig}
use ollama_gateway.Auth.{
  Digest, verify_hash, credential, lookup_api_key, Authenticated, missing_api_key, invalid_api_key,
  admitted,
}
use ollama_gateway.Auth.Database.{
  UserRow, UserStore, find_hash, or_config, lookup_stored_key, middleware,
}

-- The user has a hash, and it verifies the key.
abbrev pub Owns : Digest → Text → Text × UserConfig → Type 0
Owns d key e = verify_hash d e.1.api_key_hash key ≡ true

no_hash : (d : Digest) (h key : Text) → (h == []) ≡ true → verify_hash d h key ≡ false
unfolding verify_hash
no_hash d h key e = rw (e, verify_hash) refl

abbrev Found : Digest → Text → Table UserConfig → Option Text → Type 0
Found d key users none = All (λ (e : Text × UserConfig). ¬ Owns d key e) users
Found d key users (some id) = Any (λ (e : Text × UserConfig). (e.0 ≡ id) × Owns d key e) users

not_owner :
    (d : Digest) (key : Text) (e : Text × UserConfig)
    → verify_hash d e.1.api_key_hash key ≡ false
    → ¬ Owns d key e
not_owner d key e f q = cc

skip_user :
    (d : Digest) (key : Text) (e : Text × UserConfig) (users : Table UserConfig) (r : Option Text)
    → ¬ Owns d key e
    → Found d key users r
    → Found d key (e ∷ users) r
skip_user d key e users none n f = (n, f)
skip_user d key e users (some id) n f = inr f

lookup_api_key-Found :
    (d : Digest) (key : Text) (users : Table UserConfig)
    → Found d key users (lookup_api_key d key users)
unfolding lookup_api_key
lookup_api_key-Found d key [] = tt
lookup_api_key-Found d key ((id, u) ∷ users) =
    let rest = lookup_api_key-Found d key users in
    elim (Bool-cases (u.api_key_hash == [])) [
      | inl e ↦ rw e (
          skip_user d key (id, u) users (lookup_api_key d key users)
            (not_owner d key (id, u) (no_hash d u.api_key_hash key e)) rest)
      | inr e ↦ elim (Bool-cases (verify_hash d u.api_key_hash key)) [
        | inl v ↦ rw e (rw v (inl (refl, v)))
        | inr v ↦ rw e (
            rw v (
              skip_user d key (id, u) users (lookup_api_key d key users) (not_owner d key (id, u) v)
                rest))
      ]
    ]

-- The row of a user who is not deactivated has the hash of the key.
abbrev pub HasHash : Digest → Text → Text × UserRow → Type 0
HasHash d key e = (e.1.api_key_hash ≡ d.hash key) × (e.1.disabled ≡ false)

abbrev FoundRow : Digest → Text → Table UserRow → Option Text → Type 0
FoundRow d key rows none = All (λ (e : Text × UserRow). ¬ HasHash d key e) rows
FoundRow d key rows (some id) = Any (λ (e : Text × UserRow). (e.0 ≡ id) × HasHash d key e) rows

skip_row :
    (d : Digest) (key : Text) (e : Text × UserRow) (rows : Table UserRow) (r : Option Text)
    → ¬ HasHash d key e
    → FoundRow d key rows r
    → FoundRow d key (e ∷ rows) r
skip_row d key e rows none n f = (n, f)
skip_row d key e rows (some id) n f = inr f

find_off :
    (hash id : Text) (r : UserRow) (rows : Table UserRow)
    → r.disabled ≡ true
    → find_hash hash ((id, r) ∷ rows) ≡ find_hash hash rows
unfolding find_hash
find_off hash id r rows d = ground (arith, d)

find_hash-FoundRow :
    (d : Digest) (key : Text) (rows : Table UserRow)
    → FoundRow d key rows (find_hash (d.hash key) rows)
unfolding find_hash
find_hash-FoundRow d key [] = tt
find_hash-FoundRow d key ((id, r) ∷ rows) =
    let rest = find_hash-FoundRow d key rows in
    elim (Bool-cases (r.api_key_hash == d.hash key)) [
      | inr e ↦ rw e (
          skip_row d key (id, r) rows (find_hash (d.hash key) rows)
            (λ q. ground (arith, eq_iff r.api_key_hash (d.hash key), q.0, e)) rest)
      | inl e ↦ elim (Bool-cases (r.disabled)) [
        | inl v ↦
            subst (FoundRow d key ((id, r) ∷ rows)) (sym (find_off (d.hash key) id r rows v))
              (skip_row d key (id, r) rows (find_hash (d.hash key) rows) (λ q. cc (q.1, v)) rest)
        | inr v ↦
            let on : find_hash (d.hash key) ((id, r) ∷ rows) ≡ some id = ground (arith, e, v) in
            subst (FoundRow d key ((id, r) ∷ rows)) (sym on)
              (inl (refl, ((eq_iff r.api_key_hash (d.hash key)).0 e, v)))
      ]
    ]

-- A row of the table has the key's hash, or none has and the hash of a user of the configuration
-- verifies the key.
abbrev pub IsUser : Digest → UserStore → Text → Text → Type 0
IsUser d s key id =
    Any (λ (e : Text × UserRow). (e.0 ≡ id) × HasHash d key e) s.rows
    ⊎ (All (λ (e : Text × UserRow). ¬ HasHash d key e) s.rows
        × Any (λ (e : Text × UserConfig). (e.0 ≡ id) × Owns d key e) s.config_users)

abbrev Identified : Digest → UserStore → Text → Option Text → Type 0
Identified d s key none =
    All (λ (e : Text × UserRow). ¬ HasHash d key e) s.rows
    × All (λ (e : Text × UserConfig). ¬ Owns d key e) s.config_users
Identified d s key (some id) = IsUser d s key id

either_store :
    (d : Digest) (key : Text) (s : UserStore) (a b : Option Text)
    → FoundRow d key s.rows a
    → Found d key s.config_users b
    → Identified d s key (or_config a b)
either_store d key s none none f g = (f, g)
either_store d key s none (some id) f g = inr (f, g)
either_store d key s (some id) b f g = inl f

lookup_stored_key-Identified :
    (d : Digest) (key : Text) (s : UserStore) → Identified d s key (lookup_stored_key d key s)
unfolding lookup_stored_key
lookup_stored_key-Identified d key s =
    either_store d key s (find_hash (d.hash key) s.rows) (lookup_api_key d key s.config_users)
      (find_hash-FoundRow d key s.rows) (lookup_api_key-Found d key s.config_users)

-- What the answer says of the key.
abbrev pub Justified : Digest → UserStore → Text → Authenticated → Type 0
Justified d s key missing_api_key = key ≡ []
Justified d s key invalid_api_key =
    (key ≢ [])
    × All (λ (e : Text × UserRow). ¬ HasHash d key e) s.rows
    × All (λ (e : Text × UserConfig). ¬ Owns d key e) s.config_users
Justified d s key (admitted id) = (key ≢ []) × IsUser d s key id

-- A request is refused where it has no credential, or where no row of a user who is not deactivated
-- has the hash of the credential and the hash of no user of the configuration verifies it. Else it
-- goes on as a user whose row has that hash or, where there is no such row, as a user of the
-- configuration whose hash verifies the credential.
pub middleware-Justified :
    (d : Digest) (s : UserStore) (own authorization : Text)
    → Justified d s (credential own authorization) (middleware d s own authorization)
unfolding middleware
middleware-Justified d s own authorization =
    let key = credential own authorization in
    let found = lookup_stored_key-Identified d key s in
    elim (Bool-cases (key == [])) [
      | inl e ↦ rw (e, middleware) ((eq_iff key []).0 e)
      | inr e ↦
          let some_key : key ≢ [] = λ q. ground (arith, eq_iff key [], q) in
          elim (Option-cases (lookup_stored_key d key s)) [
            | inl n ↦
                let f : Identified d s key none = rw n at found in
                rw (e, middleware) (rw n (some_key, f.0, f.1))
            | inr (id, q) ↦ rw (e, middleware) (rw q (some_key, rw q at found))
          ]
    ]
