-- ===== src/Config/Policy.antt =====
-- internal/config/runtime_policy.go: which changes of the configuration a running gateway takes.
use ollama_gateway.Common.{
  ◌≡◌, refl, ◌↔◌, Text, ◌==◌, eq_iff, trim_space, Option, none, some, List, [], ◌∷◌, Bool, true,
  false, not, ◌&&◌, ◌||◌, length, eqb, all, arith, if◌then◌else◌,
}
use ollama_gateway.Common.Int.{ℤ, pos_part, neg_part}
use ollama_gateway.Common.Table.{Table, lookup}
use ollama_gateway.Backends.{BackendConfig}
use ollama_gateway.Config.{Config, ServerConfig, HealthCheckConfig, and_then}

pub record RuntimePolicy : Type 0 where
  pub allow_admin_token_hash : Bool
  pub allow_backends : Bool
  pub allow_tls_paths : Bool

pub default_runtime_policy : RuntimePolicy
default_runtime_policy = record {
  allow_admin_token_hash = true;
  allow_backends = true;
  allow_tls_paths = true;
}

-- What `ValidateRuntimeChange` rejects.
pub data PolicyError : Type 0 where
  listen_addr read_timeout write_timeout idle_timeout database_path : PolicyError
  interval_seconds timeout_seconds unhealthy_threshold tls_enabled : PolicyError
  tls_paths admin_token_hash backends_changed : PolicyError

abbrev eqb_ℤ : ℤ → ℤ → Bool
eqb_ℤ a b = eqb (pos_part a) (pos_part b) && eqb (neg_part a) (neg_part b)

eqb_ℤ_iff : (a b : ℤ) → (eqb_ℤ a b ≡ true) ↔ (a ≡ b)
eqb_ℤ_iff a b = ground arith

pub tls_paths_enabled : Text → Text → Bool
tls_paths_enabled cert key = not (trim_space cert == []) && not (trim_space key == [])

abbrev eqb_Bool : Bool → Bool → Bool
eqb_Bool true b = b
eqb_Bool false b = not b

-- m[k], which is empty where there is none
abbrev header : Text → Table Text → Text
header k m = elim (lookup k m) [ none ↦ [] | some v ↦ v ]

pub headers_equal : Table Text → Table Text → Bool
headers_equal a b = eqb (length a) (length b) && all (λ (e : Text × Text). header e.0 b == e.1) a

pub backend_equal : BackendConfig → BackendConfig → Bool
unfolding headers_equal
backend_equal a b =
    a.name == b.name
    && a.url == b.url
    && eqb_ℤ a.weight b.weight
    && a.tag == b.tag
    && eqb_ℤ a.timeout b.timeout
    && a.health_check_path == b.health_check_path
    && headers_equal a.headers b.headers

-- `backendsEqual`; lists of different lengths are not equal.
pub backends_equal : List BackendConfig → List BackendConfig → Bool
unfolding backend_equal
backends_equal [] [] = true
backends_equal [] (b ∷ bs) = false
backends_equal (a ∷ rest) [] = false
backends_equal (a ∷ rest) (b ∷ bs) = backend_equal a b && backends_equal rest bs

abbrev reject_unless : Bool → PolicyError → Option PolicyError
reject_unless b e = if b then none else some e

abbrev tls_same : ServerConfig → ServerConfig → Bool
tls_same a b =
    eqb_Bool (tls_paths_enabled a.tls_cert_path a.tls_key_path)
      (tls_paths_enabled b.tls_cert_path b.tls_key_path)

pub check_server : ServerConfig → ServerConfig → Option PolicyError
check_server a b = and_then (reject_unless (a.listen_addr == b.listen_addr) listen_addr) (
    and_then (reject_unless (eqb_ℤ a.read_timeout b.read_timeout) read_timeout) (
      and_then (reject_unless (eqb_ℤ a.write_timeout b.write_timeout) write_timeout)
        (reject_unless (eqb_ℤ a.idle_timeout b.idle_timeout) idle_timeout)))

pub check_health : HealthCheckConfig → HealthCheckConfig → Option PolicyError
check_health a b =
    and_then (reject_unless (eqb_ℤ a.interval_seconds b.interval_seconds) interval_seconds) (
      and_then (reject_unless (eqb_ℤ a.timeout_seconds b.timeout_seconds) timeout_seconds)
        (reject_unless (eqb_ℤ a.unhealthy_threshold b.unhealthy_threshold) unhealthy_threshold))

-- The checks that depend on the policy.
pub check_policy : RuntimePolicy → Config → Config → Option PolicyError
unfolding backends_equal
check_policy p a b =
    and_then
      (reject_unless
        (p.allow_tls_paths
          || a.server.tls_cert_path == b.server.tls_cert_path
            && a.server.tls_key_path == b.server.tls_key_path)
        tls_paths)
      (and_then
        (reject_unless (p.allow_admin_token_hash || a.token_hash == b.token_hash) admin_token_hash)
        (reject_unless (p.allow_backends || backends_equal a.backends b.backends) backends_changed))

-- `ValidateRuntimeChange`, of the current configuration and the next
pub validate_runtime_change : RuntimePolicy → Config → Config → Option PolicyError
unfolding check_server check_health check_policy tls_paths_enabled
validate_runtime_change p a b = and_then (check_server a.server b.server) (
    and_then (reject_unless (a.database_path == b.database_path) database_path) (
      and_then (check_health a.health_check b.health_check)
        (and_then (reject_unless (tls_same a.server b.server) tls_enabled) (check_policy p a b))))

-- What keeps its value while the gateway runs.
abbrev pub IsSameServer : Config → Config → Type 0
IsSameServer a b =
    (a.server.listen_addr ≡ b.server.listen_addr)
    × (a.server.read_timeout ≡ b.server.read_timeout)
    × (a.server.write_timeout ≡ b.server.write_timeout)
    × (a.server.idle_timeout ≡ b.server.idle_timeout)
    × (a.database_path ≡ b.database_path)
    × (a.health_check.interval_seconds ≡ b.health_check.interval_seconds)
    × (a.health_check.timeout_seconds ≡ b.health_check.timeout_seconds)
    × (a.health_check.unhealthy_threshold ≡ b.health_check.unhealthy_threshold)
    × (tls_paths_enabled a.server.tls_cert_path a.server.tls_key_path
        ≡ tls_paths_enabled b.server.tls_cert_path b.server.tls_key_path)

and_then_iff {ℓ} :
    {A : Type ℓ} {P Q : Type 0} (x y : Option A)
    → (x ≡ none) ↔ P
    → (y ≡ none) ↔ Q
    → (and_then x y ≡ none) ↔ (P × Q)
and_then_iff none y p q = (λ h. (p.0 refl, q.0 h), λ h. q.1 h.1)
and_then_iff (some e) y p q = (λ h. absurd (cc h), λ h. absurd (cc (p.1 h.0)))

unless_iff : (b : Bool) (e : PolicyError) → (reject_unless b e ≡ none) ↔ (b ≡ true)
unless_iff true e = (λ h. refl, λ h. refl)
unless_iff false e = (λ h. cc, λ h. cc)

eqb_Bool_iff : (a b : Bool) → (eqb_Bool a b ≡ true) ↔ (a ≡ b)
eqb_Bool_iff true true = ground arith
eqb_Bool_iff true false = ground arith
eqb_Bool_iff false true = ground arith
eqb_Bool_iff false false = ground arith

same_text : (s t : Text) (e : PolicyError) → (reject_unless (s == t) e ≡ none) ↔ (s ≡ t)
same_text s t e =
    let u = unless_iff (s == t) e in (λ h. (eq_iff s t).0 (u.0 h), λ h. u.1 ((eq_iff s t).1 h))

same_ℤ : (a b : ℤ) (e : PolicyError) → (reject_unless (eqb_ℤ a b) e ≡ none) ↔ (a ≡ b)
same_ℤ a b e =
    let u = unless_iff (eqb_ℤ a b) e in
    (λ h. (eqb_ℤ_iff a b).0 (u.0 h), λ h. u.1 ((eqb_ℤ_iff a b).1 h))

same_Bool : (a b : Bool) (e : PolicyError) → (reject_unless (eqb_Bool a b) e ≡ none) ↔ (a ≡ b)
same_Bool a b e =
    let u = unless_iff (eqb_Bool a b) e in
    (λ h. (eqb_Bool_iff a b).0 (u.0 h), λ h. u.1 ((eqb_Bool_iff a b).1 h))

abbrev SameServer : ServerConfig → ServerConfig → Type 0
SameServer a b =
    (a.listen_addr ≡ b.listen_addr)
    × ((a.read_timeout ≡ b.read_timeout)
        × ((a.write_timeout ≡ b.write_timeout) × (a.idle_timeout ≡ b.idle_timeout)))

check_server-same : (a b : ServerConfig) → (check_server a b ≡ none) ↔ SameServer a b
unfolding check_server
check_server-same a b = and_then_iff _ _ (same_text a.listen_addr b.listen_addr listen_addr) (
    and_then_iff _ _ (same_ℤ a.read_timeout b.read_timeout read_timeout) (
      and_then_iff _ _ (same_ℤ a.write_timeout b.write_timeout write_timeout)
        (same_ℤ a.idle_timeout b.idle_timeout idle_timeout)))

abbrev SameHealth : HealthCheckConfig → HealthCheckConfig → Type 0
SameHealth a b =
    (a.interval_seconds ≡ b.interval_seconds)
    × ((a.timeout_seconds ≡ b.timeout_seconds) × (a.unhealthy_threshold ≡ b.unhealthy_threshold))

check_health-same : (a b : HealthCheckConfig) → (check_health a b ≡ none) ↔ SameHealth a b
unfolding check_health
check_health-same a b =
    and_then_iff _ _ (same_ℤ a.interval_seconds b.interval_seconds interval_seconds) (
      and_then_iff _ _ (same_ℤ a.timeout_seconds b.timeout_seconds timeout_seconds)
        (same_ℤ a.unhealthy_threshold b.unhealthy_threshold unhealthy_threshold))

check_default : (a b : Config) → (check_policy default_runtime_policy a b ≡ none) ↔ (a ≡ a)
unfolding check_policy default_runtime_policy
check_default a b = (λ h. refl, λ h. refl)

-- Under the default policy, a change is taken exactly if it leaves the server's address, timeouts and
-- database, the health check and whether TLS is on as they are.
pub default_runtime_policy_lem :
    (a b : Config) → (validate_runtime_change default_runtime_policy a b ≡ none) ↔ IsSameServer a b
unfolding validate_runtime_change
default_runtime_policy_lem a b =
    let all = and_then_iff _ _ (check_server-same a.server b.server) (
      and_then_iff _ _ (same_text a.database_path b.database_path database_path) (
        and_then_iff _ _ (check_health-same a.health_check b.health_check) (
          and_then_iff _ _
            (same_Bool (tls_paths_enabled a.server.tls_cert_path a.server.tls_key_path)
              (tls_paths_enabled b.server.tls_cert_path b.server.tls_key_path) tls_enabled)
            (check_default a b)))) in
    (
      λ h.
          let r = all.0 h in
          let (server, (path, (health, (tls, _)))) = r in
          let (s0, (s1, (s2, s3))) = server in
          let (h0, (h1, h2)) = health in (s0, s1, s2, s3, path, h0, h1, h2, tls),
      λ (s0, s1, s2, s3, path, h0, h1, h2, tls).
          all.1 ((s0, (s1, (s2, s3))), (path, ((h0, (h1, h2)), (tls, refl)))),
    )
