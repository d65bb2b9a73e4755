-- ===== src/Auth/Database/Accounts.antt =====
-- The users of a gateway with a database (internal/auth/store.go): what is read back of them, and who
-- is still authenticated after a deactivation.
use ollama_gateway.Common.{
  ℕ, ◌*◌, ◌<◌, ◌≡◌, ◌≢◌, refl, sym, ap, ◌∙◌, inl, inr, Text, ◌==◌, eq_iff, eq_refl, trim_space,
  Option, none, some, List, [], ◌∷◌, true, false, arith, Bool-cases, Option-cases, if◌then◌else◌,
}
use ollama_gateway.Common.Int.{pos, is_nonpos}
pub use ollama_gateway.Common.Table.{IsPrimary}
use ollama_gateway.Common.Table.{Table, lookup, insert, lookup-insert}
use ollama_gateway.Ratelimit.{UserRateLimit, second}
use ollama_gateway.Config.{UserConfig}
use ollama_gateway.Auth.{Digest, lookup_api_key}
use ollama_gateway.Auth.Database.{
  JsonText, UserRow, UserStore, user_row, rate_arg, burst_arg, ttl_arg, limit_of, config_of_user,
  time_from_seconds, enabled_row, if_enabled, get_user_config, find_hash, lookup_stored_key,
  or_config, stored, create_stored_user, disable_row, deactivate_stored_user,
}

-- What JSON gives back of a list and of a map is what it was made of, and no JSON text is empty.
pub record IsFaithful (j : JsonText) : Type 0 where
  pub list_back : (xs : List Text) → j.unmarshal_list (j.marshal_list xs) ≡ xs
  pub list_text : (xs : List Text) → (j.marshal_list xs == []) ≡ false
  pub map_back : (m : Table Text) → j.unmarshal_map (j.marshal_map m) ≡ m
  pub map_text : (m : Table Text) → (j.marshal_map m == []) ≡ false

-- A rate limit with a positive burst and a time to live of whole seconds.
abbrev pub IsWhole : Option UserRateLimit → Type 0
IsWhole none = Unit
IsWhole (some l) = (is_nonpos l.burst ≡ false) × ((k : ℕ) × (0 < k) × (l.ttl ≡ pos (k * second)))

limit_back :
    (o : Option UserRateLimit) → IsWhole o → limit_of (rate_arg o) (burst_arg o) (ttl_arg o) ≡ o
unfolding limit_of time_from_seconds
limit_back none w = refl
limit_back (some l) (b, (k, h, e)) = rw (b, e) (ground (arith, h))

config_back :
    (j : JsonText) (u : UserConfig)
    → IsFaithful j
    → IsWhole u.rate_limit
    → config_of_user j (user_row j (rate_arg u.rate_limit) u) ≡ u
unfolding config_of_user user_row
config_back j u v w =
    rw (v.list_text u.model_allow, v.list_text u.model_deny, v.map_text u.aliases)
      (rw (v.list_back u.model_allow, v.list_back u.model_deny, v.map_back u.aliases)
        (ap (λ (o : Option UserRateLimit). record u { rate_limit = o })
          (limit_back u.rate_limit w)))

created :
    (j : JsonText) (name : Text) (u : UserConfig) (s s' : UserStore)
    → create_stored_user j name u s ≡ stored s'
    → s'
      ≡ record s { rows = insert (trim_space name) (user_row j (rate_arg u.rate_limit) u) s.rows }
unfolding create_stored_user
created j name u s s' h = elim (Bool-cases (trim_space name == [])) [
  | inl e ↦ cc (rw e at h)
  | inr e ↦ elim (Bool-cases (u.api_key_hash == [])) [
    | inl f ↦ cc (rw f at (rw e at h))
    | inr f ↦ elim (Option-cases (lookup (trim_space name) s.rows)) [
      | inl g ↦ cc (rw g at (rw f at (rw e at h)))
      | inr (r, g) ↦ cc (rw g at (rw f at (rw e at h)))
    ]
  ]
]

row_after :
    (id n : Text) (r : UserRow) (s : UserStore)
    → enabled_row n (record s { rows = insert id r s.rows })
      ≡ (if id == n then if_enabled (some r) else enabled_row n s)
unfolding enabled_row
row_after id n r s =
    rw (lookup-insert id n r s.rows)
      (elim (Bool-cases (id == n)) [ inl e ↦ rw e refl | inr e ↦ rw e refl ])

-- A user that is created in the table, without a rate limit or with one whose burst is positive and
-- whose time to live is a positive number of whole seconds, is read back as it was given, and the
-- other users as before; JSON gives back the lists and maps that it was made of.
pub create_stored_user-get_user_config :
    (j : JsonText) (name : Text) (u : UserConfig) (s s' : UserStore)
    → IsFaithful j
    → IsWhole u.rate_limit
    → create_stored_user j name u s ≡ stored s'
    → (get_user_config j (trim_space name) s' ≡ some u)
      × ((n : Text) → n ≢ trim_space name → get_user_config j n s' ≡ get_user_config j n s)
unfolding get_user_config user_row
create_stored_user-get_user_config j name u s s' v w h =
    let id = trim_space name in
    let row = user_row j (rate_arg u.rate_limit) u in
    rw (created j name u s s' h) (
      rw (row_after id id row s) (rw (eq_refl id) (ap some (config_back j u v w))),
      λ n far. rw (row_after id n row s) (elim (Bool-cases (id == n)) [
        | inl e ↦ absurd (far (sym ((eq_iff id n).0 e)))
        | inr e ↦ rw e refl
      ]),
    )

find_absent :
    (hash id : Text) (rows : Table UserRow) → lookup id rows ≡ none → find_hash hash rows ≢ some id
unfolding find_hash lookup
find_absent hash id [] h e = cc
find_absent hash id ((k, r) ∷ rows) h e =
    ground (arith, eq_iff k id, eq_refl id, find_absent hash id rows)

find_off :
    (hash id : Text) (r : UserRow) (rows : Table UserRow)
    → r.disabled ≡ true
    → find_hash hash ((id, r) ∷ rows) ≡ find_hash hash rows
unfolding find_hash
find_off hash id r rows d = rw d (ground arith)

-- A row of another user is not that of this one.
find_other :
    (hash id k : Text) (q : UserRow) (rows : Table UserRow)
    → (k == id) ≡ false
    → find_hash hash rows ≢ some id
    → find_hash hash ((k, q) ∷ rows) ≢ some id
unfolding find_hash
find_other hash id k q rows h f e = ground (arith, eq_refl id, f)

find_disabled :
    (hash id : Text) (r : UserRow) (rows : Table UserRow)
    → IsPrimary rows
    → r.disabled ≡ true
    → find_hash hash (insert id r rows) ≢ some id
unfolding find_hash insert
find_disabled hash id r [] v d = rw (find_off hash id r [] d) (λ e. cc)
find_disabled hash id r ((k, q) ∷ rows) v d = elim (Bool-cases (k == id)) [
  | inl h ↦
      let gone : lookup id rows ≡ none = ap (λ x. lookup x rows) (sym ((eq_iff k id).0 h)) ∙ v.0 in
      rw h (rw (find_off hash id r rows d) (find_absent hash id rows gone))
  | inr h ↦ rw h (find_other hash id k q (insert id r rows) h (find_disabled hash id r rows v.1 d))
]

config_absent :
    (d : Digest) (raw id : Text) (users : Table UserConfig)
    → lookup id users ≡ none
    → lookup_api_key d raw users ≢ some id
unfolding lookup_api_key lookup
config_absent d raw id [] h e = cc
config_absent d raw id ((k, u) ∷ users) h e =
    ground (arith, eq_iff k id, eq_refl id, config_absent d raw id users)

deactivated :
    (name : Text) (s s' : UserStore)
    → deactivate_stored_user name s ≡ stored s'
    → (r : UserRow) × (s'
        ≡ record s { rows = insert (trim_space name) (record r { disabled = true }) s.rows })
unfolding deactivate_stored_user disable_row
deactivated name s s' h = elim (Bool-cases (trim_space name == [])) [
  | inl e ↦ cc (rw e at h)
  | inr e ↦ elim (Option-cases (lookup (trim_space name) s.rows)) [
    | inl g ↦ cc (rw (g, disable_row) at (rw e at h))
    | inr (r, g) ↦ elim (Bool-cases r.disabled) [
      | inl f ↦ cc (rw (f, disable_row) at (rw g at (rw e at h)))
      | inr f ↦ (r, cc (rw f at (rw (g, disable_row) at (rw e at h))))
    ]
  ]
]

or_config-other :
    (a b : Option Text) (id : Text) → a ≢ some id → b ≢ some id → or_config a b ≢ some id
or_config-other none b id f g = g
or_config-other (some x) b id f g = f

-- After a deactivation no key authenticates the user, if the configuration does not name it; other
-- users are read as before.
pub deactivate_stored_user-lookup_stored_key :
    (d : Digest) (j : JsonText) (name : Text) (s s' : UserStore)
    → IsPrimary s.rows
    → lookup (trim_space name) s.config_users ≡ none
    → deactivate_stored_user name s ≡ stored s'
    → ((raw : Text) → lookup_stored_key d raw s' ≢ some (trim_space name))
      × (get_user_config j (trim_space name) s' ≡ none)
      × ((n : Text) → n ≢ trim_space name → get_user_config j n s' ≡ get_user_config j n s)
unfolding get_user_config lookup_stored_key
deactivate_stored_user-lookup_stored_key d j name s s' v c h =
    let id = trim_space name in
    let (r, e) = deactivated name s s' h in
    let row = record r { disabled = true } in
    rw e (
      (λ raw.
          or_config-other (find_hash (d.hash raw) (insert id row s.rows))
            (lookup_api_key d raw s.config_users) id
            (find_disabled (d.hash raw) id row s.rows v refl)
            (config_absent d raw id s.config_users c)),
      (rw (row_after id id row s) (rw (eq_refl id) (rw c refl))),
      λ n far. rw (row_after id n row s) (elim (Bool-cases (id == n)) [
        | inl f ↦ absurd (far (sym ((eq_iff id n).0 f)))
        | inr f ↦ rw f refl
      ]),
    )
