-- ===== src/Config/Valid.antt =====
-- What `validate` of internal/config/config.go makes sure of.
use ollama_gateway.Common.{
  has_prefix, ◌≡◌, ◌≢◌, refl, ap, inl, inr, Text, codes, ◌==◌, eq_iff, Option, none, some, List, [],
  ◌∷◌, Bool, true, false, not, any, is_empty, arith, All, Any, Bool-cases, Option-cases,
}
use ollama_gateway.Common.Int.{pos, is_nonpos, ◌<ℤ◌}
use ollama_gateway.Backends.{BackendConfig, UrlParser, Url}
use ollama_gateway.Backends.Manager.{BackendRef}
use ollama_gateway.Models.Catalog.{CatalogEntry}
use ollama_gateway.Config.{
  Config, UserConfig, ConfigError, no_backends, and_then, fail_if, first_error, check_tls,
  check_url, check_backend_config, check_backends, check_ref, check_model, check_user, validate,
  tls_check_interval_invalid, tls_expiry_warning_days_invalid, backend_url_without_scheme,
  backend_url_unsupported,
}

both {ℓ} : {A : Type ℓ} (x y : Option A) → and_then x y ≡ none → (x ≡ none) × (y ≡ none)
both none y h = (refl, h)
both (some e) y h = absurd (cc h)

passed : (b : Bool) (e : ConfigError) → fail_if b e ≡ none → b ≡ false
passed false e h = refl
passed true e h = cc

first_error-none {ℓ} :
    {A : Type ℓ} (f : A → Option ConfigError) (xs : List A)
    → first_error f xs ≡ none
    → All (λ x. f x ≡ none) xs
first_error-none f [] h = tt
first_error-none f (x ∷ xs) h =
    let p = both (f x) (first_error f xs) h in (p.0, first_error-none f xs p.1)

map_All {ℓ} :
    {A : Type ℓ} {P Q : A → Type 0} → ((x : A) → P x → Q x) → (xs : List A) → All P xs → All Q xs
map_All f [] h = tt
map_All f (x ∷ xs) h = (f x h.0, map_All f xs h.1)

-- The backend has a name and a URL that parses, with a scheme that starts with http.
abbrev pub IsUsable : UrlParser → BackendConfig → Type 0
IsUsable parse b =
    (b.name ≢ [])
    × (b.url ≢ [])
    × ((u : Url) × (parse b.url ≡ some u) × (has_prefix (codes "http") u.scheme ≡ true))

-- No name of the list is among those seen before it.
abbrev pub NoRepeats : List Text → List BackendConfig → Type 0
NoRepeats seen [] = Unit
NoRepeats seen (b ∷ bs) = (¬ Any (λ n. n ≡ b.name) seen) × NoRepeats (b.name ∷ seen) bs

any_none :
    (name : Text) (seen : List Text)
    → any (λ n. n == name) seen ≡ false
    → ¬ Any (λ n. n ≡ name) seen
any_none name [] h q = q
any_none name (n ∷ seen) h (inl q) = ground (arith, eq_iff n name)
any_none name (n ∷ seen) h (inr q) = any_none name seen (ground arith) q

nonblank : (t : Text) → (t == []) ≡ false → t ≢ []
nonblank t h q = ground (arith, eq_iff t [])

check_url-none :
    (parse : UrlParser) (b : BackendConfig)
    → check_url parse b ≡ none
    → (u : Url) × (parse b.url ≡ some u) × (has_prefix (codes "http") u.scheme ≡ true)
unfolding check_url
check_url-none parse b h = elim (Option-cases (parse b.url)) [
  | inl e ↦ cc (rw (e, check_url) at h)
  | inr (u, e) ↦
      let k = rw (e, check_url) at h in
      let p =
        both (fail_if (u.scheme == []) (backend_url_without_scheme b.name))
          (fail_if (not (has_prefix (codes "http") u.scheme))
            (backend_url_unsupported b.name u.scheme))
          k in
      (
        u,
        e,
        let q =
              passed (not (has_prefix (codes "http") u.scheme))
                (backend_url_unsupported b.name u.scheme) p.1 in
            ground (arith, q),
      )
]

check_backend-none :
    (parse : UrlParser) (seen : List Text) (b : BackendConfig)
    → check_backend_config parse seen b ≡ none
    → IsUsable parse b × (¬ Any (λ n. n ≡ b.name) seen)
unfolding check_backend_config
check_backend-none parse seen b h =
    let p = both _ _ h in
    let q = both _ _ p.1 in
    let r = both _ _ q.1 in
    (
      (
        nonblank b.name (passed (b.name == []) _ p.0),
        nonblank b.url (passed (b.url == []) _ r.0),
        check_url-none parse b r.1,
      ),
      any_none b.name seen (passed _ _ q.0),
    )

check_backends-none :
    (parse : UrlParser) (seen : List Text) (bs : List BackendConfig)
    → check_backends parse seen bs ≡ none
    → All (IsUsable parse) bs × NoRepeats seen bs
unfolding check_backends
check_backends-none parse seen [] h = (tt, tt)
check_backends-none parse seen (b ∷ bs) h =
    let p = both (check_backend_config parse seen b) (check_backends parse (b.name ∷ seen) bs) h in
    let q = check_backend-none parse seen b p.0 in
    let r = check_backends-none parse (b.name ∷ seen) bs p.1 in ((q.0, r.0), (q.1, r.1))

any_some :
    (name : Text) (bs : List BackendConfig)
    → not (any (λ b. b.name == name) bs) ≡ false
    → Any (λ b. b.name ≡ name) bs
any_some name [] h = cc
any_some name (b ∷ bs) h = elim (Bool-cases (b.name == name)) [
  | inl e ↦ inl ((eq_iff b.name name).0 e)
  | inr e ↦ inr (any_some name bs (ground arith))
]

some_backend : (rs : List BackendRef) → is_empty rs ≡ false → rs ≢ []
some_backend rs h e = cc (ap (λ (l : List BackendRef). is_empty l) e)

-- The model has a backend, and each that it has is one of the list.
abbrev pub IsServed : List BackendConfig → Text × CatalogEntry → Type 0
IsServed bs e =
    (e.1.backends ≢ []) × All (λ (r : BackendRef). Any (λ b. b.name ≡ r.backend) bs) e.1.backends

check_model-none :
    (bs : List BackendConfig) (e : Text × CatalogEntry) → check_model bs e ≡ none → IsServed bs e
unfolding check_model check_ref
check_model-none bs e h =
    let p = both _ _ h in
    (
      some_backend e.1.backends (passed _ _ p.0),
      map_All (λ r q. any_some r.backend bs (passed _ _ q)) e.1.backends
          (first_error-none (check_ref e.0 bs) e.1.backends p.1),
    )

-- A configuration that passes has backends that the gateway can use, with different names, models
-- that refer to these backends only, and users with a key.
abbrev pub IsWellFormed : UrlParser → Config → Type 0
IsWellFormed parse c =
    (pos 0 <ℤ c.server.tls_check_interval)
    × (pos 0 <ℤ c.server.tls_expiry_warning_days)
    × All (IsUsable parse) c.backends
    × NoRepeats [] c.backends
    × All (IsServed c.backends) c.models
    × All (λ (e : Text × UserConfig). e.1.api_key_hash ≢ []) c.users

-- A configuration that `validate` lets through is well-formed.
pub validate-IsWellFormed :
    (readable : Text → Bool) (parse : UrlParser) (c : Config)
    → validate readable parse c ≡ none
    → IsWellFormed parse c
unfolding validate check_user
validate-IsWellFormed readable parse c h =
    let p = both (check_tls readable c.server) _ h in
    let q =
      both (fail_if (is_nonpos c.server.tls_check_interval) tls_check_interval_invalid) _ p.1 in
    let r =
      both (fail_if (is_nonpos c.server.tls_expiry_warning_days) tls_expiry_warning_days_invalid) _
        q.1 in
    let s = both (fail_if (is_empty c.backends) no_backends) _ r.1 in
    let q' = passed (is_nonpos c.server.tls_check_interval) tls_check_interval_invalid q.0 in
    let r' =
      passed (is_nonpos c.server.tls_expiry_warning_days) tls_expiry_warning_days_invalid r.0 in
    let t = both _ _ s.1 in
    let u = both _ _ t.1 in
    let bs = check_backends-none parse [] c.backends t.0 in
    (
      ground (arith, q'),
      ground (arith, r'),
      bs.0,
      bs.1,
      map_All (check_model-none c.backends) c.models
          (first_error-none (check_model c.backends) c.models u.0),
      map_All (λ (e : Text × UserConfig) k. nonblank e.1.api_key_hash (passed _ _ k)) c.users
          (first_error-none check_user c.users u.1),
    )
