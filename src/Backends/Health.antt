-- ===== src/Backends/Health.antt =====
-- internal/backends/healthcheck.go: one cycle of the health checker.
pub mod Effects
use ollama_gateway.Common.{ℕ, Text, [], ◌∷◌, Bool, true, false, ◌&&◌, ltb, leb, eqb, if◌then◌else◌}
use ollama_gateway.Backends.{Backend, set_health, mark_failure, mark_success}

-- What `http.NewRequestWithContext` and `client.Do` gave: no request, no response, or a status.
pub data Probe : Type 0 where
  no_request no_response : Probe
  answered : ℕ → Probe

-- `resp.StatusCode >= 200 && resp.StatusCode < 300`
abbrev pub is_success : ℕ → Bool
is_success status = leb 200 status && ltb status 300

pub check_backend : ℕ → Probe → Backend → Backend
unfolding set_health mark_failure mark_success
check_backend now no_request b = mark_failure now b
check_backend now no_response b = mark_failure now (set_health false b)
check_backend now (answered status) b =
    if is_success status
    then mark_success now (set_health true b)
    else mark_failure now (set_health false b)

drop_last_slash : ℕ → Text → Text
drop_last_slash c [] = if eqb c b'/' then [] else c ∷ []
drop_last_slash c (d ∷ s) = c ∷ d ∷ s

-- The loop removes slashes from the end while there are any.
pub strip_trailing_slash : Text → Text
unfolding drop_last_slash
strip_trailing_slash [] = []
strip_trailing_slash (c ∷ s) = drop_last_slash c (strip_trailing_slash s)
