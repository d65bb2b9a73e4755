-- ===== src/Backends/Health/Effects.antt =====
-- What health checks do to a backend's part in the selection (internal/backends/healthcheck.go).
use ollama_gateway.Common.{
  ℕ, zero, suc, ◌+◌, ◌<◌, ◌^◌, ◌≡◌, refl, List, [], ◌∷◌, ◌++◌, Text, Bool, true, false, not, ◌&&◌,
  arith, eqb, eqb_iff, Bool-cases, length, inl, inr, if◌then◌else◌,
}
use ollama_gateway.Common.Int.{pos, is_nonpos, int64-pos_add}
use ollama_gateway.Backends.{Backend}
use ollama_gateway.Backends.Pool.{selectable}
use ollama_gateway.Backends.Health.{
  Probe, no_request, no_response, answered, is_success, check_backend, drop_last_slash,
  strip_trailing_slash,
}

abbrev pub expected : Probe → Backend → Bool
expected no_request b = selectable b
expected no_response b = false
expected (answered status) b = is_success status && (b.enabled && not (is_nonpos b.weight))

-- After one check a backend takes part in the selection exactly if the probe got a 2xx status and
-- the backend is enabled with a positive weight. A single failure takes it out, whatever the
-- configured threshold; only where no request could be built does everything stay as it was.
pub check_backend-selectable :
    (now : ℕ) (o : Probe) (b : Backend) → selectable (check_backend now o b) ≡ expected o b
unfolding check_backend selectable
check_backend-selectable now no_request b = ground arith
check_backend-selectable now no_response b = ground arith
check_backend-selectable now (answered status) b = ground arith

abbrev pub fails : Probe → Bool
fails (answered status) = not (is_success status)
fails _ = true

-- The checks of one backend, one after the other.
pub check_all : Backend → List (ℕ × Probe) → Backend
check_all b [] = b
check_all b ((now, o) ∷ os) = check_all (check_backend now o b) os

-- The length of the run of failures that a history ends with, after `n` failures before it.
abbrev pub failures : ℕ → List (ℕ × Probe) → ℕ
failures n [] = n
failures n ((now, o) ∷ os) = failures (if fails o then n + 1 else 0) os

check_backend-failures :
    (now : ℕ) (o : Probe) (b : Backend) (n : ℕ)
    → b.failure_count ≡ pos n
    → n + 1 < 2 ^ 63
    → (check_backend now o b).failure_count ≡ pos (if fails o then n + 1 else 0)
unfolding check_backend
check_backend-failures now no_request b n e h = int64-pos_add b.failure_count (pos 1) e refl h
check_backend-failures now no_response b n e h = int64-pos_add b.failure_count (pos 1) e refl h
check_backend-failures now (answered status) b n e h = elim (Bool-cases (is_success status)) [
  | inl good ↦ ground arith
  | inr bad ↦ ground (arith, int64-pos_add b.failure_count (pos 1) e refl h)
]

-- The failure counter of a backend is the number of failed checks since its last good one.
pub check_all-failures :
    (b : Backend) (os : List (ℕ × Probe)) (n : ℕ)
    → b.failure_count ≡ pos n
    → n + length os < 2 ^ 63
    → (check_all b os).failure_count ≡ pos (failures n os)
unfolding check_all
check_all-failures b [] n e h = e
check_all-failures b ((now, o) ∷ os) n e h =
    check_all-failures (check_backend now o b) os (if fails o then n + 1 else 0)
      (check_backend-failures now o b n e (omega arith)) (ground arith)

abbrev pub slashes : ℕ → Text
slashes zero = []
slashes (suc n) = b'/' ∷ slashes n

abbrev pub ends_with_slash : Text → Bool
ends_with_slash [] = false
ends_with_slash (c ∷ []) = eqb c b'/'
ends_with_slash (c ∷ d ∷ s) = ends_with_slash (d ∷ s)

abbrev pub Stripped : Text → Text → Type 0
Stripped s t = (k : ℕ) × (s ≡ t ++ slashes k) × (ends_with_slash t ≡ false)

drop_last_slash-Stripped :
    (c : ℕ) (s t : Text) → Stripped s t → Stripped (c ∷ s) (drop_last_slash c t)
unfolding drop_last_slash
drop_last_slash-Stripped c s [] (k, e, f) = elim (Bool-cases (eqb c b'/')) [
  | inl slash ↦ rw slash (suc k, cc (e, (eqb_iff c b'/').0 slash), refl)
  | inr other ↦ rw other (k, cc e, other)
]
drop_last_slash-Stripped c s (d ∷ t) (k, e, f) = (k, cc e, f)

-- A URL loses exactly the slashes that it ends with.
pub strip_trailing_slash_lem : (s : Text) → Stripped s (strip_trailing_slash s)
unfolding strip_trailing_slash
strip_trailing_slash_lem [] = (0, refl, refl)
strip_trailing_slash_lem (c ∷ s) =
    drop_last_slash-Stripped c s (strip_trailing_slash s) (strip_trailing_slash_lem s)
