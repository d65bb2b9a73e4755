-- ===== src/Backends/Manager/Consistency.antt =====
-- The two views of the backends that the manager keeps (internal/backends/manager.go): the list and
-- the names.
use ollama_gateway.Common.{
  ℕ, ◌<◌, ◌≡◌, ◌⊎◌, inl, inr, refl, sym, ap, ◌∙◌, Text, ◌==◌, eq_iff, none, some, List, [], ◌∷◌,
  ◌++◌, Bool, true, false, not, ◌&&◌, ◌||◌, keep, arith, eqb, eqb_iff, Bool-cases, Option-cases,
  eq_of_some,
}
use ollama_gateway.Common.Table.{lookup, delete, lookup-insert, lookup-delete}
use ollama_gateway.Backends.{
  Backend, BackendConfig, UrlParser, new_backend, update_config, set_enabled,
}
use ollama_gateway.Backends.Pool.{Heap, update}
use ollama_gateway.Backends.Manager.{
  Manager, add_backend, with_defaults, update_at, upsert_filled, upsert_backend, remove_backend,
}

-- Whether the pointer is in the list.
abbrev pub has : ℕ → List ℕ → Bool
has p [] = false
has p (q ∷ qs) = eqb q p || has p qs

has-append : (p : ℕ) (xs : List ℕ) (q : ℕ) → has p (xs ++ (q ∷ [])) ≡ (has p xs || eqb q p)
has-append p [] q = ground arith
has-append p (x ∷ xs) q = ground (arith, has-append p xs q)

pub has-keep : (p : ℕ) (f : ℕ → Bool) (xs : List ℕ) → has p (keep f xs) ≡ (has p xs && f p)
has-keep p f [] = refl
has-keep p f (x ∷ xs) = elim (Bool-cases (eqb x p)) [
  | inl same ↦ let e : x ≡ p = (eqb_iff x p).0 same in rw e (ground (arith, has-keep p f xs))
  | inr other ↦ ground (arith, has-keep p f xs)
]

-- No pointer is in the list twice.
abbrev pub Different : List ℕ → Type 0
Different [] = Unit
Different (q ∷ qs) = (has q qs ≡ false) × Different qs

Different-append :
    (xs : List ℕ) (q : ℕ) → Different xs → has q xs ≡ false → Different (xs ++ (q ∷ []))
Different-append [] q d h = (refl, tt)
Different-append (x ∷ xs) q d h =
    (rw (has-append x xs q) (ground (arith, d.0)), Different-append xs q d.1 (ground arith))

Different-keep : (f : ℕ → Bool) (xs : List ℕ) → Different xs → Different (keep f xs)
Different-keep f [] d = tt
Different-keep f (x ∷ xs) d = elim (Bool-cases (f x)) [
  | inl on ↦ rw on (rw (has-keep x f xs, d.0) refl, Different-keep f xs d.1)
  | inr off ↦ rw off (Different-keep f xs d.1)
]

-- A name leads to a listed backend of that name, and a listed backend is found by its name.
pub record IsConsistent (m : Manager) : Type 0 where
  pub listed :
      (n : Text) (p : ℕ)
      → lookup n m.by_name ≡ some p
      → (has p m.backends ≡ true) × ((m.heap p).name ≡ n)
  pub named :
      (p : ℕ) → has p m.backends ≡ true → (lookup (m.heap p).name m.by_name ≡ some p) × (p < m.next)
  pub distinct : Different m.backends

pub add_backend-IsConsistent :
    (b : Backend) (m : Manager)
    → lookup b.name m.by_name ≡ none
    → IsConsistent m
    → IsConsistent (add_backend b.name b m)
unfolding add_backend
add_backend-IsConsistent b m fresh v = record {
  listed = λ n p q. ground (
    arith,
    lookup-insert b.name n m.next m.by_name,
    eq_iff b.name n,
    has-append p m.backends m.next,
    v.listed n p,
    v.named p,
  );
  named = λ p q. ground (
    arith,
    lookup-insert b.name b.name m.next m.by_name,
    lookup-insert b.name (m.heap p).name m.next m.by_name,
    eq_iff b.name b.name,
    eq_iff b.name (m.heap p).name,
    has-append p m.backends m.next,
    v.named p,
  );
  distinct =
      Different-append m.backends m.next v.distinct (untaken (Bool-cases (has m.next m.backends)));
}
  where
    untaken :
        (has m.next m.backends ≡ true) ⊎ (has m.next m.backends ≡ false)
        → has m.next m.backends ≡ false
    untaken (inl h) = absurd (omega (arith, (v.named m.next h).1))
    untaken (inr h) = h

-- A new backend has the name of its configuration.
pub new_backend-name :
    (parse : UrlParser) (c : BackendConfig) (b : Backend)
    → new_backend parse c ≡ some b
    → b.name ≡ c.name
unfolding new_backend
new_backend-name parse c b h = ground arith

pub name-update :
    (h : Heap) (p : ℕ) (b : Backend) (q : ℕ)
    → b.name ≡ (h p).name
    → (update h p b q).name ≡ (h q).name
name-update h p b q e = elim (Bool-cases (eqb q p)) [
  | inl same ↦ rw (same, (eqb_iff q p).0 same) e
  | inr other ↦ rw other
]

-- What an update in place does.
pub update_at-some :
    (parse : UrlParser) (c : BackendConfig) (p : ℕ) (m m' : Manager)
    → update_at parse c p m ≡ some m'
    → (b : Backend) × (update_config parse c (m.heap p) ≡ some b)
      × (m' ≡ record m {
        heap = update m.heap p (set_enabled true (record b { headers = c.headers }));
      })
unfolding update_at
update_at-some parse c p m m' h = elim (Option-cases (update_config parse c (m.heap p))) [
  | inl e ↦ cc (rw (e, update_at) at h)
  | inr (b, e) ↦ (b, e, sym (eq_of_some (rw (e, update_at) at h)))
]

pub put-IsConsistent :
    (p : ℕ) (b : Backend) (m : Manager)
    → b.name ≡ (m.heap p).name
    → IsConsistent m
    → IsConsistent (record m { heap = update m.heap p b })
put-IsConsistent p b m e v = record {
  listed = λ n q h. let (l, k) = v.listed n q h in (l, name-update m.heap p b q e ∙ k);
  named = λ q h. let (l, k) = v.named q h in (rw (name-update m.heap p b q e) l, k);
  distinct = v.distinct;
}

update_config-name :
    (parse : UrlParser) (c : BackendConfig) (a b : Backend)
    → update_config parse c a ≡ some b
    → b.name ≡ a.name
unfolding update_config
update_config-name parse c a b h = ground arith

update_at-IsConsistent :
    (parse : UrlParser) (c : BackendConfig) (p : ℕ) (m m' : Manager)
    → IsConsistent m
    → update_at parse c p m ≡ some m'
    → IsConsistent m'
unfolding set_enabled
update_at-IsConsistent parse c p m m' v h =
    let (b, e, q) = update_at-some parse c p m m' h in
    rw q (put-IsConsistent p _ m (update_config-name parse c (m.heap p) b e) v)

abbrev pub removed : Text → Manager → Manager
removed name m = record m {
  by_name = delete name m.by_name;
  backends = keep (λ q. not ((m.heap q).name == name)) m.backends;
}

pub remove_backend-some :
    (name : Text) (m m' : Manager) → remove_backend name m ≡ some m' → m' ≡ removed name m
unfolding remove_backend
remove_backend-some name m m' h = ground arith

pub remove_backend-IsConsistent :
    (name : Text) (m m' : Manager)
    → IsConsistent m
    → remove_backend name m ≡ some m'
    → IsConsistent m'
remove_backend-IsConsistent name m m' v h = rw (remove_backend-some name m m' h) (record {
  listed = λ n p q. ground (
    arith,
    lookup-delete name n m.by_name,
    eq_iff name n,
    eq_iff (m.heap p).name name,
    v.listed n p,
    has-keep p (λ q. not ((m.heap q).name == name)) m.backends,
  );
  named = λ p q. ground (
    arith,
    lookup-delete name (m.heap p).name m.by_name,
    eq_iff name (m.heap p).name,
    eq_iff (m.heap p).name name,
    v.named p,
    has-keep p (λ q. not ((m.heap q).name == name)) m.backends,
  );
  distinct = Different-keep _ m.backends v.distinct;
})

-- A call that succeeds found the name and updated its backend, or added a backend.
pub upsert_backend-some :
    (parse : UrlParser) (c : BackendConfig) (m m' : Manager)
    → upsert_backend parse c m ≡ some m'
    → ((p : ℕ) × (lookup c.name m.by_name ≡ some p)
        × (update_at parse (with_defaults c) p m ≡ some m'))
      ⊎ ((b : Backend) × (lookup c.name m.by_name ≡ none)
          × (new_backend parse (with_defaults c) ≡ some b)
          × (m' ≡ add_backend b.name b m))
unfolding upsert_backend with_defaults
upsert_backend-some parse c m m' h = elim (Option-cases (lookup c.name m.by_name)) [
  | inr (p, e) ↦ inl (p, e, rw (e, upsert_filled) at h)
  | inl e ↦
      let h₁ : (elim (new_backend parse (with_defaults c)) [
        | none ↦ none
        | some b ↦ some (add_backend c.name b m)
      ])
          ≡ some m' =
        rw (e, upsert_filled) at h in
      elim (Option-cases (new_backend parse (with_defaults c))) [
        | inl f ↦ cc (rw f at h₁)
        | inr (b, f) ↦ inr (
          b,
          e,
          f,
          sym (eq_of_some (rw f at h₁))
              ∙ ap (λ (n : Text). add_backend n b m)
                  (sym (new_backend-name parse (with_defaults c) b f)),
        )
      ]
]

pub upsert_backend-IsConsistent :
    (parse : UrlParser) (c : BackendConfig) (m m' : Manager)
    → IsConsistent m
    → upsert_backend parse c m ≡ some m'
    → IsConsistent m'
unfolding with_defaults
upsert_backend-IsConsistent parse c m m' v h = elim (upsert_backend-some parse c m m' h) [
  | inl (p, e, q) ↦ update_at-IsConsistent parse (with_defaults c) p m m' v q
  | inr (b, e, f, q) ↦
      let name : b.name ≡ c.name = new_backend-name parse (with_defaults c) b f in
      rw q (add_backend-IsConsistent b m (rw name e) v)
]
