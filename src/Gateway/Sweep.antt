-- ===== src/Gateway/Sweep.antt =====
-- The removals of `applyReloadBackends` of cmd/gateway/main.go.
use ollama_gateway.Common.{
  ℕ, ◌≡◌, refl, sym, ap, ◌∙◌, inl, inr, Text, ◌==◌, eq_iff, Option, none, some, List, [], ◌∷◌, true,
  false, not, any, All, eqb, eqb_iff, arith, Bool-cases, Option-cases, if◌then◌else◌,
}
use ollama_gateway.Common.Table.{lookup, lookup-delete}
use ollama_gateway.Backends.{Backend, BackendConfig}
use ollama_gateway.Backends.Manager.{Manager, remove_backend}
use ollama_gateway.Backends.Manager.Consistency.{
  has, has-keep, Different, IsConsistent, removed, remove_backend-IsConsistent,
}
use ollama_gateway.Gateway.{targets, remove_absent, remove_each}

-- Each of the pointers is listed.
abbrev pub Listed : Manager → List ℕ → Type 0
Listed m ps = All (λ p. has p m.backends ≡ true) ps

-- Two listed backends have different names.
names_differ :
    (m : Manager) (p q : ℕ)
    → IsConsistent m
    → has p m.backends ≡ true
    → has q m.backends ≡ true
    → eqb p q ≡ false
    → ((m.heap q).name == (m.heap p).name) ≡ false
names_differ m p q v hp hq d =
    ground (arith, eq_iff (m.heap q).name (m.heap p).name, v.named p hp, v.named q hq)

-- What a name leads to once the listed pointers have been gone through.
abbrev pub left : List BackendConfig → List ℕ → Manager → Text → Option ℕ
left next ps m n =
    if targets n next
    then lookup n m.by_name
    else if any (λ p. (m.heap p).name == n) ps
    then none
    else lookup n m.by_name

left-kept :
    (next : List BackendConfig) (p : ℕ) (ps : List ℕ) (m : Manager) (n : Text)
    → targets (m.heap p).name next ≡ true
    → left next ps m n ≡ left next (p ∷ ps) m n
left-kept next p ps m n h = elim (Bool-cases ((m.heap p).name == n)) [
  | inl e ↦
      let on : targets n next ≡ true =
        ap (λ x. targets x next) (sym ((eq_iff (m.heap p).name n).0 e)) ∙ h in
      rw on refl
  | inr e ↦ rw e refl
]

left-removed :
    (next : List BackendConfig) (p : ℕ) (ps : List ℕ) (m : Manager) (n : Text)
    → targets (m.heap p).name next ≡ false
    → left next ps (removed (m.heap p).name m) n ≡ left next (p ∷ ps) m n
left-removed next p ps m n h = elim (Bool-cases ((m.heap p).name == n)) [
  | inl e ↦
      let off : targets n next ≡ false =
        ap (λ x. targets x next) (sym ((eq_iff (m.heap p).name n).0 e)) ∙ h in
      rw (lookup-delete (m.heap p).name n m.by_name, off, e) (ground arith)
  | inr e ↦ rw (lookup-delete (m.heap p).name n m.by_name, e) refl
]

removed-Listed :
    (p : ℕ) (ps : List ℕ) (m : Manager)
    → IsConsistent m
    → has p m.backends ≡ true
    → has p ps ≡ false
    → Listed m ps
    → Listed (removed (m.heap p).name m) ps
removed-Listed p [] m v hp d l = tt
removed-Listed p (q ∷ ps) m v hp d l = (
  ground (
    arith,
    has-keep q (λ x. not ((m.heap x).name == (m.heap p).name)) m.backends,
    names_differ m p q v hp l.0,
    eqb_iff p q,
    eqb_iff q p,
  ),
  removed-Listed p ps m v hp (ground (arith, d)) l.1,
)

remove_listed :
    (p : ℕ) (m : Manager)
    → IsConsistent m
    → has p m.backends ≡ true
    → remove_backend (m.heap p).name m ≡ some (removed (m.heap p).name m)
unfolding remove_backend
remove_listed p m v h = rw ((v.named p h).0, remove_backend) refl

absent_kept :
    (next : List BackendConfig) (p : ℕ) (m : Manager)
    → targets (m.heap p).name next ≡ true
    → remove_absent next p m ≡ some m
unfolding remove_absent
absent_kept next p m e = rw e refl

absent_removed :
    (next : List BackendConfig) (p : ℕ) (m m' : Manager)
    → targets (m.heap p).name next ≡ false
    → remove_backend (m.heap p).name m ≡ some m'
    → remove_absent next p m ≡ some m'
unfolding remove_absent
absent_removed next p m m' e h = rw e h

-- The second loop ends without an error, and leaves the names of the configuration.
abbrev pub Swept : List BackendConfig → List ℕ → Manager → Type 0
Swept next ps m =
    (m' : Manager) × (remove_each next ps m ≡ (m', true))
    × IsConsistent m'
    × (m'.heap ≡ m.heap)
    × ((n : Text) → lookup n m'.by_name ≡ left next ps m n)

pub remove_each-Swept :
    (next : List BackendConfig) (ps : List ℕ) (m : Manager)
    → IsConsistent m
    → Different ps
    → Listed m ps
    → Swept next ps m
unfolding remove_each
remove_each-Swept next [] m v d l = (m, refl, v, refl, λ n. ground arith)
remove_each-Swept next (p ∷ ps) m v d l = elim (Bool-cases (targets (m.heap p).name next)) [
  | inl e ↦
      let (m', r, v', h, k) = remove_each-Swept next ps m v d.1 l.1 in
      (m', rw (absent_kept next p m e, remove_each) r, v', h, λ n. k n ∙ left-kept next p ps m n e)
  | inr e ↦
      let m1 = removed (m.heap p).name m in
      let gone = remove_listed p m v l.0 in
      let (m', r, v', h, k) =
        remove_each-Swept next ps m1 (remove_backend-IsConsistent (m.heap p).name m m1 v gone) d.1
          (removed-Listed p ps m v l.0 d.0 l.1) in
      (
        m',
        rw (absent_removed next p m m1 e gone, remove_each) r,
        v',
        h,
        λ n. k n ∙ left-removed next p ps m n e,
      )
]

found_listed :
    (n : Text) (p : ℕ) (h : ℕ → Backend) (ps : List ℕ)
    → has p ps ≡ true
    → (h p).name ≡ n
    → any (λ q. (h q).name == n) ps ≡ true
found_listed n p h [] e f = cc
found_listed n p h (q ∷ ps) e f =
    ground (arith, eqb_iff q p, eq_iff (h q).name n, found_listed n p h ps)

pub swept :
    (next : List BackendConfig) (m : Manager) (n : Text)
    → IsConsistent m
    → left next m.backends m n ≡ (if targets n next then lookup n m.by_name else none)
swept next m n v = elim (Option-cases (lookup n m.by_name)) [
  | inl e ↦ rw e (ground arith)
  | inr (p, e) ↦
      let (l, name) = v.listed n p e in rw (found_listed n p m.heap m.backends l name) refl
]
