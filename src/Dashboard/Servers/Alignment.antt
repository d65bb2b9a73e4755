-- ===== src/Dashboard/Servers/Alignment.antt =====
-- What the dashboard shows as disabled and what the scheduler leaves out, over any history of forms
-- (internal/dashboard/handler.go).
use ollama_gateway.Common.{
  ℕ, ◌≡◌, ◌≢◌, ◌⊎◌, inl, inr, refl, sym, ap, ◌∙◌, Text, ◌==◌, eq_iff, eq_refl, some, List, [], ◌∷◌,
  Bool, true, false, not, ◌&&◌, keep, arith, Bool-cases, Option-cases, eq_of_some,
}
use ollama_gateway.Common.Table.{Table, lookup, insert, delete}
use ollama_gateway.Common.Sorting.{find_by}
use ollama_gateway.Backends.{Backend, BackendConfig, UrlParser}
use ollama_gateway.Backends.Manager.{Manager, get_by_name, upsert_backend}
use ollama_gateway.Backends.Manager.Consistency.{IsConsistent, upsert_backend-IsConsistent}
use ollama_gateway.Backends.Manager.Routing.{upsert_backend_lem}
use ollama_gateway.Backends.Store.{
  Row, row_of, config_name, upsert_row, remove_row, load_active_backends,
}
use ollama_gateway.Backends.Store.Rows.{
  IsKeyed, stored_config, kept, load-upsert_row, remove_row-load_active_backends,
}
use ollama_gateway.Dashboard.Servers.{
  Fleet, holds, without, put_config, is_listed, reload_backends, save_refused, save_config,
  save_backend,
}

holds-keep :
    (n : Text) (f : Text → Bool) (xs : List Text) → holds n (keep f xs) ≡ (holds n xs && f n)
holds-keep n f [] = refl
holds-keep n f (x ∷ xs) = elim (Bool-cases (x == n)) [
  | inl e ↦ rw ((eq_iff x n).0 e) (ground (arith, holds-keep n f xs, eq_refl n))
  | inr e ↦ ground (arith, e, holds-keep n f xs)
]

is_listed-found :
    (n : Text) (c : BackendConfig) (cs : List BackendConfig)
    → find_by config_name n cs ≡ some c
    → is_listed cs n ≡ true
unfolding find_by
is_listed-found n c [] h = cc
is_listed-found n c (d ∷ cs) h = elim (Bool-cases (d.name == n)) [
  | inl e ↦ rw e refl
  | inr e ↦ rw e (is_listed-found n c cs (rw e at h))
]

IsKeyed-insert : (r : Row) (rows : Table Row) → IsKeyed rows → IsKeyed (insert r.name r rows)
unfolding insert
IsKeyed-insert r [] v = (refl, tt)
IsKeyed-insert r ((k, q) ∷ rows) v = elim (Bool-cases (k == r.name)) [
  | inl e ↦ rw e (refl, v.1)
  | inr e ↦ rw e (v.0, IsKeyed-insert r rows v.1)
]

IsKeyed-delete : (n : Text) (rows : Table Row) → IsKeyed rows → IsKeyed (delete n rows)
unfolding delete
IsKeyed-delete n [] v = tt
IsKeyed-delete n ((k, q) ∷ rows) v = elim (Bool-cases (k == n)) [
  | inl e ↦ rw e (IsKeyed-delete n rows v.1)
  | inr e ↦ rw e (v.0, IsKeyed-delete n rows v.1)
]

-- The manager is consistent, every backend that it knows has an active row, and the dashboard lists
-- it as disabled exactly if it is not enabled.
pub record IsAligned (s : Fleet) : Type 0 where
  pub consistent : IsConsistent s.manager
  pub keyed : IsKeyed s.rows
  pub stored :
      (n : Text) (p : ℕ)
      → get_by_name n s.manager ≡ some p
      → (c : BackendConfig) × (stored_config n s.rows ≡ some c)
  pub agreed :
      (n : Text) (p : ℕ)
      → get_by_name n s.manager ≡ some p
      → holds n s.disabled ≡ not (s.manager.heap p).enabled

-- Two names do not lead to one backend.
pub apart :
    (m : Manager) (n k : Text) (p q : ℕ)
    → IsConsistent m
    → get_by_name n m ≡ some p
    → get_by_name k m ≡ some q
    → n ≢ k
    → p ≢ q
unfolding get_by_name
apart m n k p q v at_n at_k far e =
    far (sym (v.listed n p at_n).1 ∙ ap (λ (x : ℕ). (m.heap x).name) e ∙ (v.listed k q at_k).1)

-- A reload from the table keeps what is aligned.
pub reload_backends-IsAligned : (s : Fleet) → IsAligned s → IsAligned (reload_backends s)
unfolding reload_backends
reload_backends-IsAligned s v = record {
  consistent = v.consistent;
  keyed = v.keyed;
  stored = v.stored;
  agreed = λ n p h.
      let (c, e) = v.stored n p h in
      holds-keep n (is_listed (load_active_backends s.rows)) s.disabled
      ∙ rw (is_listed-found n c (load_active_backends s.rows) e, v.agreed n p h) (ground arith);
}

-- A row that is written keeps what is known stored.
stored-upsert_row :
    (n : Text) (c : BackendConfig) (rows : Table Row)
    → IsKeyed rows
    → ((n ≡ c.name) ⊎ ((d : BackendConfig) × (stored_config n rows ≡ some d)))
    → (d : BackendConfig) × (stored_config n (upsert_row c rows) ≡ some d)
stored-upsert_row n c rows v h = elim (Bool-cases (c.name == n)) [
  | inl e ↦ (kept c, load-upsert_row n c rows v ∙ rw e refl)
  | inr e ↦ elim h [
    | inl q ↦ absurd (ground (arith, eq_iff c.name n, q, e))
    | inr (d, q) ↦ (d, load-upsert_row n c rows v ∙ rw (e, q) refl)
  ]
]

IsKeyed-upsert_row :
    (c : BackendConfig) (rows : Table Row) → IsKeyed rows → IsKeyed (upsert_row c rows)
unfolding upsert_row row_of
IsKeyed-upsert_row c rows v = IsKeyed-insert (row_of c) rows v

pub holds-without : (n k : Text) (xs : List Text) → n ≢ k → holds n (without k xs) ≡ holds n xs
holds-without n k xs far = holds-keep n (λ x. not (x == k)) xs ∙ ground (arith, eq_iff n k, far)

pub not_held : (n : Text) (xs : List Text) → holds n (without n xs) ≡ false
not_held n xs = holds-keep n (λ x. not (x == n)) xs ∙ rw (eq_refl n) (ground arith)

abbrev row_written : BackendConfig → Fleet → Fleet
row_written c s = record s { rows = upsert_row c s.rows }

row_written-IsAligned : (c : BackendConfig) (s : Fleet) → IsAligned s → IsAligned (row_written c s)
row_written-IsAligned c s v = record {
  consistent = v.consistent;
  keyed = IsKeyed-upsert_row c s.rows v.keyed;
  stored = λ n p h. stored-upsert_row n c s.rows v.keyed (inr (v.stored n p h));
  agreed = v.agreed;
}

abbrev upserted : BackendConfig → List BackendConfig → Manager → Fleet → Fleet
upserted c cs m s = record {
  backends = cs;
  rows = upsert_row c s.rows;
  manager = m;
  disabled = without c.name s.disabled;
}

upserted-IsAligned :
    (parse : UrlParser) (c : BackendConfig) (cs : List BackendConfig) (m : Manager) (s : Fleet)
    → IsAligned s
    → upsert_backend parse c s.manager ≡ some m
    → IsAligned (upserted c cs m s)
upserted-IsAligned parse c cs m s v h =
    let (p₀, at, force, other, same, old) = upsert_backend_lem parse c s.manager m h in
    let w = upsert_backend-IsConsistent parse c s.manager m v.consistent h in
    let on : (m.heap p₀).enabled ≡ true = force.6 in
    record {
      consistent = w;
      keyed = IsKeyed-upsert_row c s.rows v.keyed;
      stored = λ n p k. stored-upsert_row n c s.rows v.keyed (elim (Bool-cases (n == c.name)) [
        | inl e ↦ inl ((eq_iff n c.name).0 e)
        | inr e ↦
            let far : n ≢ c.name = λ q. ground (arith, eq_iff n c.name, q, e) in
            inr (v.stored n p (sym (other n far) ∙ k))
      ]);
      agreed = λ n p k. elim (Bool-cases (n == c.name)) [
        | inl e ↦
            let q : n ≡ c.name = (eq_iff n c.name).0 e in
            let r : p ≡ p₀ = eq_of_some (sym k ∙ ap (λ x. get_by_name x m) q ∙ at) in
            rw (q, r, on) (not_held c.name s.disabled)
        | inr e ↦
            let far : n ≢ c.name = λ q. ground (arith, eq_iff n c.name, q, e) in
            holds-without n c.name s.disabled far
            ∙ v.agreed n p (sym (other n far) ∙ k)
            ∙ ap (λ (b : Backend). not b.enabled) (sym (same p (apart m n c.name p p₀ w k at far)))
      ];
    }

pub save_backend-IsAligned :
    (parse : UrlParser) (create : Bool) (c : BackendConfig) (s : Fleet)
    → IsAligned s
    → IsAligned (save_backend parse create c s).0
unfolding save_backend save_config
save_backend-IsAligned parse create c s v =
    elim (Option-cases (save_refused create c.name s.backends)) [
      | inr (e, q) ↦ rw (q, save_backend) v
      | inl q ↦ elim (Option-cases (upsert_backend parse c s.manager)) [
        | inl r ↦ rw (q, r, save_backend, save_config) (row_written-IsAligned c s v)
        | inr (m, r) ↦
            rw (q, r, save_backend, save_config)
              (reload_backends-IsAligned _
                (upserted-IsAligned parse c (put_config c s.backends) m s v r))
      ]
    ]

-- What is left of the rows.
pub stored-remove_row :
    (name n : Text) (rows rows' : Table Row)
    → IsKeyed rows
    → remove_row name rows ≡ some rows'
    → n ≢ name
    → (d : BackendConfig) × (stored_config n rows ≡ some d)
    → (d : BackendConfig) × (stored_config n rows' ≡ some d)
stored-remove_row name n rows rows' v h far (d, e) = (
  d,
  remove_row-load_active_backends name rows rows' v h n ∙ ground (arith, eq_iff name n, far, e),
)

pub IsKeyed-remove_row :
    (name : Text) (rows rows' : Table Row)
    → IsKeyed rows
    → remove_row name rows ≡ some rows'
    → IsKeyed rows'
unfolding remove_row
IsKeyed-remove_row name rows rows' v h = elim (Option-cases (lookup name rows)) [
  | inl e ↦ cc (rw (e, remove_row) at h)
  | inr (r, e) ↦
      let same : delete name rows ≡ rows' = eq_of_some (rw (e, remove_row) at h) in
      rw⁻¹ same (IsKeyed-delete name rows v)
]
