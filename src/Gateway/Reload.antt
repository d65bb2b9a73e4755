-- ===== src/Gateway/Reload.antt =====
-- `applyReloadBackends` of cmd/gateway/main.go: the backends in force after a reload.
use ollama_gateway.Common.{
  ℕ, ◌≡◌, ◌≢◌, refl, sym, ◌∙◌, ◌⊎◌, inl, inr, Text, ◌==◌, eq_iff, none, some, List, [], ◌∷◌, Bool,
  true, false, All, arith, Bool-cases, Option-cases, if◌then◌else◌,
}
use mathlib.Core.Path.{subst}
use ollama_gateway.Common.Table.{lookup}
use ollama_gateway.Backends.{BackendConfig, UrlParser}
use ollama_gateway.Backends.Manager.{Manager, get_by_name, upsert_backend}
use ollama_gateway.Backends.Manager.Consistency.{has, IsConsistent, upsert_backend-IsConsistent}
use ollama_gateway.Backends.Manager.Routing.{upsert_backend_lem}
use ollama_gateway.Gateway.Sweep.{Swept, remove_each-Swept, swept}
use ollama_gateway.Gateway.{
  targets, upsert_each, apply_changes, apply_reload_backends, StoredRows, Reloaded, applied, failed,
}

upsert_each-IsConsistent :
    (parse : UrlParser) (cs : List BackendConfig) (m : Manager)
    → IsConsistent m
    → IsConsistent (upsert_each parse cs m).0
unfolding upsert_each
upsert_each-IsConsistent parse [] m v = v
upsert_each-IsConsistent parse (c ∷ cs) m v = elim (Option-cases (upsert_backend parse c m)) [
  | inl e ↦ rw (e, upsert_each) v
  | inr (m', e) ↦
      rw (e, upsert_each)
        (upsert_each-IsConsistent parse cs m' (upsert_backend-IsConsistent parse c m m' v e))
]

-- Some backend has the name.
abbrev pub Known : Text → Manager → Type 0
Known n m = (p : ℕ) × (get_by_name n m ≡ some p)

upsert-Known :
    (parse : UrlParser) (c : BackendConfig) (m m' : Manager) (n : Text)
    → upsert_backend parse c m ≡ some m'
    → ((c.name ≡ n) ⊎ Known n m)
    → Known n m'
upsert-Known parse c m m' n h k =
    let (p, at, force, other, kept, old) = upsert_backend_lem parse c m m' h in
    elim (Bool-cases (n == c.name)) [
      | inl e ↦ (p, rw ((eq_iff n c.name).0 e) at)
      | inr e ↦
          let far : n ≢ c.name = λ q. ground (arith, eq_iff n c.name, q) in
          elim k [ inl q ↦ absurd (far (sym q)) | inr (q, f) ↦ (q, other n far ∙ f) ]
    ]

next-Known :
    (parse : UrlParser) (c : BackendConfig) (cs : List BackendConfig) (m m' : Manager) (n : Text)
    → upsert_backend parse c m ≡ some m'
    → ((targets n (c ∷ cs) ≡ true) ⊎ Known n m)
    → ((targets n cs ≡ true) ⊎ Known n m')
next-Known parse c cs m m' n e (inr k) = inr (upsert-Known parse c m m' n e (inr k))
next-Known parse c cs m m' n e (inl t) = elim (Bool-cases (c.name == n)) [
  | inl q ↦ inr (upsert-Known parse c m m' n e (inl ((eq_iff c.name n).0 q)))
  | inr q ↦ inl (rw q at t)
]

upsert_each-Known :
    (parse : UrlParser) (cs : List BackendConfig) (m : Manager) (n : Text)
    → (upsert_each parse cs m).1 ≡ true
    → ((targets n cs ≡ true) ⊎ Known n m)
    → Known n (upsert_each parse cs m).0
unfolding upsert_each
upsert_each-Known parse [] m n h (inl e) = cc
upsert_each-Known parse [] m n h (inr k) = k
upsert_each-Known parse (c ∷ cs) m n h k = elim (Option-cases (upsert_backend parse c m)) [
  | inl e ↦ cc (rw (e, upsert_each) at h)
  | inr (m', e) ↦
      rw (e, upsert_each)
        (upsert_each-Known parse cs m' n (rw (e, upsert_each) at h)
          (next-Known parse c cs m m' n e k))
]

-- What a reload of these backends comes to: it stops at an upsert that fails; or the manager is
-- consistent, every name of the configuration leads to a backend, which is that of its upsert, and
-- every other name to none.
abbrev pub Synced : UrlParser → List BackendConfig → Manager → Manager × Reloaded → Type 0
Synced parse next m result =
    ((result.1 ≡ failed) × ((upsert_each parse next m).1 ≡ false))
    ⊎ ((result.1 ≡ applied)
        × IsConsistent result.0
        × ((n : Text)
            → targets n next ≡ true
            → Known n result.0
              × (get_by_name n result.0 ≡ get_by_name n (upsert_each parse next m).0))
        × ((n : Text) → targets n next ≡ false → get_by_name n result.0 ≡ none))

has_every :
    (qs ps : List ℕ) → ((p : ℕ) → has p ps ≡ true → has p qs ≡ true) → All (λ p. has p qs ≡ true) ps
has_every qs [] f = tt
has_every qs (p ∷ ps) f = (f p (ground arith), has_every qs ps (λ q h. f q (ground (arith, h))))

Swept-Synced :
    (parse : UrlParser) (next : List BackendConfig) (m m1 : Manager)
    → upsert_each parse next m ≡ (m1, true)
    → IsConsistent m1
    → Swept next m1.backends m1
    → Synced parse next m (apply_changes next (m1, true))
unfolding apply_changes get_by_name
Swept-Synced parse next m m1 e v (m', r, v', h, k) =
    let same : apply_changes next (m1, true) ≡ (m', applied) = rw r refl in
    let names : (n : Text)
        → lookup n m'.by_name ≡ (if targets n next then lookup n m1.by_name else none) =
      λ n. k n ∙ swept next m1 n v in
    let kept : (n : Text) → targets n next ≡ true → lookup n m'.by_name ≡ lookup n m1.by_name =
      λ n t. names n ∙ rw t refl in
    let known : (n : Text) → targets n next ≡ true → Known n m1 =
      λ n t. rw e at (upsert_each-Known parse next m n (rw e refl) (inl t)) in
    subst (Synced parse next m) (sym same) (
      inr (
        refl,
        v',
        (λ n t. (((known n t).0, kept n t ∙ (known n t).1), kept n t ∙ rw e refl)),
        λ n t. names n ∙ rw t refl,
      ))

changes-Synced :
    (parse : UrlParser) (next : List BackendConfig) (m : Manager) (q : Manager × Bool)
    → upsert_each parse next m ≡ q
    → IsConsistent q.0
    → Synced parse next m (apply_changes next q)
unfolding apply_changes
changes-Synced parse next m (m1, true) e v = Swept-Synced parse next m m1 e v (
    remove_each-Swept next m1.backends m1 v v.distinct
      (has_every m1.backends m1.backends (λ p h. h)))
changes-Synced parse next m (m1, false) e v = inl (refl, rw e refl)

-- Of a consistent manager, a reload of the backends that the database does not override stops at an
-- upsert that fails, or it leaves exactly the names of the new configuration in force, in a
-- consistent manager; the removals never fail.
pub apply_reload_backends-Synced :
    (parse : UrlParser) (stored : StoredRows) (next : List BackendConfig) (m : Manager)
    → (stored ≡ none) ⊎ (stored ≡ some (some false))
    → IsConsistent m
    → Synced parse next m (apply_reload_backends parse stored next m)
unfolding apply_reload_backends
apply_reload_backends-Synced parse stored next m s v =
    let done =
      changes-Synced parse next m (upsert_each parse next m) refl
        (upsert_each-IsConsistent parse next m v) in
    elim s [ inl e ↦ rw e done | inr e ↦ rw e done ]
