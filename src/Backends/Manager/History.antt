-- ===== src/Backends/Manager/History.antt =====
-- Whole histories of the manager (internal/backends/manager.go): its construction and then any
-- sequence of admin calls, failing ones included.
use ollama_gateway.Common.{
  ℕ, ◌≡◌, ◌≢◌, inl, inr, refl, sym, Text, eq_iff, Option, none, some, List, [], ◌∷◌, arith,
  Option-cases, eq_of_some, All, All-zip,
}
use ollama_gateway.Common.Table.{lookup, lookup-insert}
use ollama_gateway.Backends.{Backend, BackendConfig, UrlParser, new_backend}
use ollama_gateway.Backends.Pool.{Heap}
use ollama_gateway.Backends.Manager.{
  Manager, add_backend, add_all, new_manager, upsert_backend, remove_backend,
}
use ollama_gateway.Backends.Manager.Consistency.{
  IsConsistent, new_backend-name, add_backend-IsConsistent, upsert_backend-IsConsistent,
  remove_backend-IsConsistent,
}

abbrev pub IsUnique : List BackendConfig → Type 0
IsUnique [] = Unit
IsUnique (c ∷ cs) = All (λ d. c.name ≢ d.name) cs × IsUnique cs

still_free :
    (b : Backend) (m : Manager) (cs : List BackendConfig)
    → All (λ d. b.name ≢ d.name) cs
    → All (λ d. lookup d.name m.by_name ≡ none) cs
    → All (λ d. lookup d.name (add_backend b.name b m).by_name ≡ none) cs
unfolding add_backend
still_free b m cs =
    All-zip
      (λ d (n : b.name ≢ d.name) (q : lookup d.name m.by_name ≡ none).
        ground (arith, lookup-insert b.name d.name m.next m.by_name, eq_iff b.name d.name))
      cs

add_all-IsConsistent :
    (parse : UrlParser) (cs : List BackendConfig) (m m' : Manager)
    → IsUnique cs
    → All (λ c. lookup c.name m.by_name ≡ none) cs
    → IsConsistent m
    → add_all parse cs m ≡ some m'
    → IsConsistent m'
unfolding add_all
add_all-IsConsistent parse [] m m' u a v h = rw (← eq_of_some h) v
add_all-IsConsistent parse (c ∷ cs) m m' u a v h = elim (Option-cases (new_backend parse c)) [
  | inl e ↦ cc (rw (e, add_all) at h)
  | inr (b, e) ↦
      let name : c.name ≡ b.name = sym (new_backend-name parse c b e) in
      let h₁ : add_all parse cs (add_backend c.name b m) ≡ some m' = rw (e, add_all) at h in
      let h₂ : add_all parse cs (add_backend b.name b m) ≡ some m' = rw name at h₁ in
      add_all-IsConsistent parse cs (add_backend b.name b m) m' u.1
        (still_free b m cs (rw (← name) u.0) a.1) (add_backend-IsConsistent b m (rw (← name) a.0) v)
        h₂
]

pub empty-IsConsistent :
    (h : Heap) → IsConsistent (record { heap = h; next = 0; backends = []; by_name = [] })
unfolding lookup
empty-IsConsistent h = record { listed = λ n p q. cc; named = λ p q. cc; distinct = tt }

-- An admin call on the manager.
pub data Change : Type 0 where
  upsert : BackendConfig → Change
  remove : Text → Change

or_same : Manager → Option Manager → Manager
or_same m none = m
or_same m (some m') = m'

-- A call that fails leaves the manager as it was.
pub apply : UrlParser → Manager → Change → Manager
unfolding or_same
apply parse m (upsert c) = or_same m (upsert_backend parse c m)
apply parse m (remove name) = or_same m (remove_backend name m)

unfoldable pub replay : UrlParser → Manager → List Change → Manager
replay parse m [] = m
replay parse m (c ∷ cs) = replay parse (apply parse m c) cs

or_same-IsConsistent :
    (m : Manager) (o : Option Manager)
    → IsConsistent m
    → ((m' : Manager) → o ≡ some m' → IsConsistent m')
    → IsConsistent (or_same m o)
unfolding or_same
or_same-IsConsistent m none v f = v
or_same-IsConsistent m (some m') v f = f m' refl

apply-IsConsistent :
    (parse : UrlParser) (m : Manager) (c : Change) → IsConsistent m → IsConsistent (apply parse m c)
unfolding apply
apply-IsConsistent parse m (upsert c) v =
    or_same-IsConsistent m _ v (λ m' h. upsert_backend-IsConsistent parse c m m' v h)
apply-IsConsistent parse m (remove name) v =
    or_same-IsConsistent m _ v (λ m' h. remove_backend-IsConsistent name m m' v h)

replay-IsConsistent :
    (parse : UrlParser) (m : Manager) (cs : List Change)
    → IsConsistent m
    → IsConsistent (replay parse m cs)
unfolding replay
replay-IsConsistent parse m [] v = v
replay-IsConsistent parse m (c ∷ cs) v =
    replay-IsConsistent parse (apply parse m c) cs (apply-IsConsistent parse m c v)

none_taken : (cs : List BackendConfig) → All (λ c. lookup {V = ℕ} c.name [] ≡ none) cs
unfolding lookup
none_taken [] = tt
none_taken (c ∷ cs) = (refl, none_taken cs)

new_manager-IsConsistent :
    (parse : UrlParser) (h : Heap) (cs : List BackendConfig) (m : Manager)
    → IsUnique cs
    → new_manager parse h cs ≡ some m
    → IsConsistent m
unfolding new_manager
new_manager-IsConsistent parse h [] m u e = cc
new_manager-IsConsistent parse h (c ∷ cs) m u e =
    add_all-IsConsistent parse (c ∷ cs) _ m u (none_taken (c ∷ cs)) (empty-IsConsistent h) e

-- A manager built from configurations with different names is consistent after any sequence of
-- upserts and removals, failing ones included: each name leads to a listed backend of that name,
-- each listed backend is found by its name, and none is listed twice.
pub history-IsConsistent :
    (parse : UrlParser) (h : Heap) (cs : List BackendConfig) (m : Manager) (changes : List Change)
    → IsUnique cs
    → new_manager parse h cs ≡ some m
    → IsConsistent (replay parse m changes)
history-IsConsistent parse h cs m changes u e =
    replay-IsConsistent parse m changes (new_manager-IsConsistent parse h cs m u e)
