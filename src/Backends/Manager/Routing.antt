-- ===== src/Backends/Manager/Routing.antt =====
-- What the admin calls of the manager mean for routing, and the pools that it builds
-- (internal/backends/manager.go).
use mathlib.Core.Option
use mathlib.Core.Path.{subst}
use ollama_gateway.Common.{
  ℕ, ◌≡◌, ◌≢◌, ◌⊎◌, inl, inr, refl, sym, ap, ◌∙◌, Text, ◌==◌, eq_iff, eq_refl, Option, none, some,
  List, [], ◌∷◌, true, arith, not, ◌&&◌, Option-cases, eq_of_some, Any, if◌then◌else◌,
}
use ollama_gateway.Common.Int.{is_nonpos}
use ollama_gateway.Common.Table.{lookup, lookup-insert, lookup-delete}
use ollama_gateway.Backends.{
  Backend, BackendConfig, UrlParser, new_backend, update_config, set_enabled,
}
use ollama_gateway.Backends.Pool.{Heap, update, Entry, new_entry, new_pool}
use ollama_gateway.Backends.Manager.{
  Manager, BackendRef, add_backend, upsert_backend, with_defaults, remove_backend, get_by_name,
  entry_for, entries_for, pool_for_model,
}
use ollama_gateway.Backends.Manager.Consistency.{
  has, has-keep, update_at-some, upsert_backend-some, remove_backend-some, new_backend-name,
}

-- What the configuration decides of a backend once it is in force.
abbrev pub InForce : UrlParser → BackendConfig → Backend → Type 0
InForce parse c b =
    (parse c.url ≡ some b.url)
    × (b.weight ≡ c.weight)
    × (b.tag ≡ c.tag)
    × (b.timeout ≡ c.timeout)
    × (b.health_check_path ≡ c.health_check_path)
    × (b.headers ≡ c.headers)
    × (b.enabled ≡ true)

new_backend-InForce :
    (parse : UrlParser) (c : BackendConfig) (b : Backend)
    → new_backend parse c ≡ some b
    → InForce parse c b
unfolding new_backend
new_backend-InForce parse c b h = elim (Option-cases (parse c.url)) [
  | inl e ↦ cc (rw (e, new_backend) at h)
  | inr (u, e) ↦
      rw (← eq_of_some (rw (e, new_backend) at h)) (e, refl, refl, refl, refl, refl, refl)
]

updated-InForce :
    (parse : UrlParser) (c : BackendConfig) (a b : Backend)
    → update_config parse c a ≡ some b
    → InForce parse c (set_enabled true (record b { headers = c.headers }))
      × (b.current_weight ≡ a.current_weight)
      × (b.healthy ≡ a.healthy)
      × (b.failure_count ≡ a.failure_count)
unfolding update_config set_enabled
updated-InForce parse c a b h = elim (Option-cases (parse c.url)) [
  | inl e ↦ cc (rw (e, update_config) at h)
  | inr (u, e) ↦
      rw (← eq_of_some (rw (e, update_config) at h))
        ((e, refl, refl, refl, refl, refl, refl), refl, refl, refl)
]

-- A removal that succeeds makes the name unknown and takes every backend of that name off the list;
-- other names, the other listed backends and the backends themselves stay as they were.
pub remove_backend_lem :
    (name : Text) (m m' : Manager)
    → remove_backend name m ≡ some m'
    → (get_by_name name m' ≡ none)
      × ((n : Text) → n ≢ name → get_by_name n m' ≡ get_by_name n m)
      × ((p : ℕ) → has p m'.backends ≡ (has p m.backends && not ((m.heap p).name == name)))
      × ((p : ℕ) → m'.heap p ≡ m.heap p)
unfolding get_by_name
remove_backend_lem name m m' h = rw (remove_backend-some name m m' h) (
  lookup-delete name name m.by_name ∙ rw (eq_refl name),
  λ n other. lookup-delete name n m.by_name ∙ ground (arith, eq_iff name n),
  λ p. has-keep p (λ q. not ((m.heap q).name == name)) m.backends,
  λ p. refl,
)

abbrev pub Stands : UrlParser → BackendConfig → Manager → Manager → Type 0
Stands parse c m m' =
    (p : ℕ) × (get_by_name c.name m' ≡ some p)
    × InForce parse (with_defaults c) (m'.heap p)
    × ((n : Text) → n ≢ c.name → get_by_name n m' ≡ get_by_name n m)
    × ((q : ℕ) → q ≢ p → m'.heap q ≡ m.heap q)
    × (((p ≡ m.next) × (get_by_name c.name m ≡ none))
        ⊎ ((get_by_name c.name m ≡ some p)
            × ((m'.heap p).current_weight ≡ (m.heap p).current_weight)
            × ((m'.heap p).healthy ≡ (m.heap p).healthy)
            × ((m'.heap p).failure_count ≡ (m.heap p).failure_count)))

pub update_self : (h : Heap) (p : ℕ) (b : Backend) → update h p b p ≡ b
update_self h p b = ground arith

pub update-ne : (h : Heap) (p : ℕ) (b : Backend) (q : ℕ) → q ≢ p → update h p b q ≡ h q
update-ne h p b q n = ground arith

-- An upsert that succeeds makes the name known, with the configuration (and its defaults) in force
-- and routing enabled. A backend that had the name keeps its pointer, current weight, health and
-- failure count; else a new pointer is taken. Other names and backends stay as they were.
pub upsert_backend_lem :
    (parse : UrlParser) (c : BackendConfig) (m m' : Manager)
    → upsert_backend parse c m ≡ some m'
    → Stands parse c m m'
unfolding get_by_name add_backend set_enabled with_defaults
upsert_backend_lem parse c m m' h = elim (upsert_backend-some parse c m m' h) [
  | inl (p, found, q) ↦
      let (b, e, r) = update_at-some parse (with_defaults c) p m m' q in
      let (force, w, g, f) = updated-InForce parse (with_defaults c) (m.heap p) b e in
      let b' : Backend = set_enabled true (record b { headers = c.headers }) in
      let at_p = update_self m.heap p b' in
      rw r (
        p,
        found,
        subst (InForce parse (with_defaults c)) (sym at_p) force,
        λ n other. refl,
        λ k other. update-ne m.heap p b' k other,
        inr (
          found,
          ap (λ (x : Backend). x.current_weight) at_p ∙ w,
          ap (λ (x : Backend). x.healthy) at_p ∙ g,
          ap (λ (x : Backend). x.failure_count) at_p ∙ f,
        ),
      )
  | inr (b, fresh, e, q) ↦
      let name : b.name ≡ c.name = new_backend-name parse (with_defaults c) b e in
      rw q (
        m.next,
        rw (lookup-insert b.name c.name m.next m.by_name, name, eq_refl c.name) refl,
        subst (InForce parse (with_defaults c)) (sym (update_self m.heap m.next b))
            (new_backend-InForce parse (with_defaults c) b e),
        λ n other. lookup-insert b.name n m.next m.by_name ∙ ground (arith, eq_iff b.name n),
        λ k other. update-ne m.heap m.next b k other,
        inl (refl, fresh),
      )
]

-- Each entry of the pool stands for its reference: the backend of that name, with the weight of the
-- reference or, where that is not positive, of the backend.
abbrev pub Matches : Manager → List BackendRef → List Entry → Type 0
Matches m [] [] = Unit
Matches m [] (e ∷ es) = ⊥
Matches m (r ∷ rs) [] = ⊥
Matches m (r ∷ rs) (e ∷ es) =
    (get_by_name r.backend m ≡ some e.ptr)
    × (e.weight ≡ (if is_nonpos r.weight then (m.heap e.ptr).weight else r.weight))
    × Matches m rs es

new_pool-cons :
    (h : Heap) (e : Entry) (o : Option (List Entry))
    → Option.map (new_pool h) (Option.map (λ es. e ∷ es) o)
      ≡ Option.map (λ es. new_entry h e ∷ es) (Option.map (new_pool h) o)
unfolding new_pool
new_pool-cons h e none = refl
new_pool-cons h e (some es) = refl

pool_for_model-cons :
    (r : BackendRef) (rs : List BackendRef) (m : Manager) (p : ℕ)
    → lookup r.backend m.by_name ≡ some p
    → pool_for_model (r ∷ rs) m
      ≡ Option.map (λ es. new_entry m.heap (entry_for m r p) ∷ es) (pool_for_model rs m)
unfolding pool_for_model
pool_for_model-cons r rs m p e =
    rw (e, entries_for) (new_pool-cons m.heap (entry_for m r p) (entries_for m rs))

ptr-entry_for :
    (m : Manager) (r : BackendRef) (p : ℕ) → (new_entry m.heap (entry_for m r p)).ptr ≡ p
unfolding new_entry entry_for
ptr-entry_for m r p = ground arith

weight-entry_for :
    (m : Manager) (r : BackendRef) (p : ℕ)
    → (new_entry m.heap (entry_for m r p)).weight
      ≡ (if is_nonpos r.weight then (m.heap p).weight else r.weight)
unfolding new_entry entry_for
weight-entry_for m r p = ground arith

-- `PoolForModel` gives one entry for each reference, in order, that stands for it; or it fails, and
-- some reference names no backend.
pub pool_for_model_cases :
    (refs : List BackendRef) (m : Manager)
    → ((es : List Entry) × (pool_for_model refs m ≡ some es) × Matches m refs es)
      ⊎ ((pool_for_model refs m ≡ none) × Any (λ r. get_by_name r.backend m ≡ none) refs)
unfolding get_by_name
pool_for_model_cases [] m = inl ([], unfold pool_for_model new_pool in refl, tt)
pool_for_model_cases (r ∷ rs) m = elim (Option-cases (lookup r.backend m.by_name)) [
  | inl unknown ↦ inr (unfold pool_for_model in rw (unknown, entries_for), inl unknown)
  | inr (p, e) ↦ elim (pool_for_model_cases rs m) [
    | inl (es, q, fits) ↦ inl (
      new_entry m.heap (entry_for m r p) ∷ es,
      pool_for_model-cons r rs m p e ∙ rw q,
      (
        e ∙ ap some (sym (ptr-entry_for m r p)),
        rw (ptr-entry_for m r p) (weight-entry_for m r p),
        fits,
      ),
    )
    | inr (q, some_unknown) ↦ inr (pool_for_model-cons r rs m p e ∙ rw q, inr some_unknown)
  ]
]
