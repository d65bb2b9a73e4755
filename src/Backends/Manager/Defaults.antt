-- ===== src/Backends/Manager/Defaults.antt =====
-- `DefaultPool` of internal/backends/manager.go.
use ollama_gateway.Common.{ℕ, ◌≡◌, refl, ◌∙◌, List, [], ◌∷◌, ◌<◌, arith, map, All}
use ollama_gateway.Backends.Pool.{Entry, new_entry, new_pool}
use ollama_gateway.Backends.Pool.Loop.{member, IsDistinct, amount, IsNonneg}
use ollama_gateway.Backends.Manager.{Manager, default_entry, default_pool}
use ollama_gateway.Backends.Manager.Consistency.{has, Different, IsConsistent}

ptr-default_entry : (m : Manager) (p : ℕ) → (new_entry m.heap (default_entry m p)).ptr ≡ p
unfolding new_entry default_entry
ptr-default_entry m p = ground arith

abbrev entries : Manager → List ℕ → List Entry
entries m ps = new_pool m.heap (map (default_entry m) ps)

member-entries : (m : Manager) (q : ℕ) (ps : List ℕ) → member q (entries m ps) ≡ has q ps
unfolding new_pool
member-entries m q [] = refl
member-entries m q (p ∷ ps) = rw (ptr-default_entry m p, member-entries m q ps) refl

entries-IsDistinct : (m : Manager) (ps : List ℕ) → Different ps → IsDistinct (entries m ps)
unfolding new_pool
entries-IsDistinct m [] d = tt
entries-IsDistinct m (p ∷ ps) d =
    (rw (ptr-default_entry m p) (member-entries m p ps ∙ d.0), entries-IsDistinct m ps d.1)

entry-positive :
    (m : Manager) (p : ℕ)
    → let e = new_entry m.heap (default_entry m p) in IsNonneg e × (0 < amount e)
unfolding new_entry default_entry
entry-positive m p = (ground arith, ground arith)

entries-positive :
    (m : Manager) (ps : List ℕ) → All (λ e. IsNonneg e × (0 < amount e)) (entries m ps)
unfolding new_pool
entries-positive m [] = tt
entries-positive m (p ∷ ps) = (entry-positive m p, entries-positive m ps)

-- Of a consistent manager, the default pool holds the listed backends, each once, with positive
-- weights.
pub default_pool_lem :
    (m : Manager)
    → IsConsistent m
    → ((p : ℕ) → member p (default_pool m) ≡ has p m.backends)
      × IsDistinct (default_pool m)
      × All (λ e. IsNonneg e × (0 < amount e)) (default_pool m)
unfolding default_pool
default_pool_lem m v = (
  λ p. member-entries m p m.backends,
  entries-IsDistinct m m.backends v.distinct,
  entries-positive m m.backends,
)
