-- ===== src/Common/Table.antt =====
-- Go maps with text keys as association lists. The order of the entries stands for the order in
-- which a `range` meets them, so what is proved for every list holds for every order.
use ollama_gateway.Common.Tests.{if◌then◌else◌, Bool-cases}
use ollama_gateway.Common.Texts.{Text, ◌==◌, eq_iff, eq_refl}
use mathlib.Core.Path.{◌≡◌, refl, sym, ap, ◌∙◌}
use mathlib.Core.Logic.{inl, inr}
use mathlib.Core.Bool.{false}
use ollama_gateway.Common.Lists.{any, All, All-zip}
use mathlib.Core.Option.{Option, none, some}
use mathlib.Core.List.{List, [], ◌∷◌}
use native.Mathlib.Omega.{arith}

abbrev pub Table {ℓ} : Type ℓ → Type ℓ
Table V = List (Text × V)

module _ {ℓ} {V : Type ℓ} where
  -- m[k], with its second result
  unfoldable pub lookup : Text → Table V → Option V
  lookup key [] = none
  lookup key ((k, value) ∷ rest) = if k == key then some value else lookup key rest

  -- delete(m, k)
  unfoldable pub delete : Text → Table V → Table V
  delete key [] = []
  delete key ((k, value) ∷ rest) =
      let others = delete key rest in if k == key then others else (k, value) ∷ others

  -- m[k] = v
  unfoldable pub insert : Text → V → Table V → Table V
  insert key new [] = (key, new) ∷ []
  insert key new ((k, value) ∷ rest) =
      if k == key then (key, new) ∷ rest else (k, value) ∷ insert key new rest

  pub lookup-delete :
      (key other : Text) (m : Table V)
      → lookup other (delete key m) ≡ (if key == other then none else lookup other m)
  unfolding lookup delete
  lookup-delete key other [] = ground arith
  lookup-delete key other ((k, value) ∷ rest) =
      ground (arith, eq_iff k key, eq_iff k other, eq_iff key other, lookup-delete key other rest)

  pub lookup-insert :
      (key other : Text) (new : V) (m : Table V)
      → lookup other (insert key new m) ≡ (if key == other then some new else lookup other m)
  unfolding lookup insert
  lookup-insert key other new [] = refl
  lookup-insert key other new ((k, value) ∷ rest) =
      ground
        (arith, lookup-insert key other new rest, eq_iff k key, eq_iff k other, eq_iff key other)

-- One entry for each key.
abbrev pub IsPrimary : {V : Type 0} → Table V → Type 0
IsPrimary [] = Unit
IsPrimary ((k, v) ∷ rest) = (lookup k rest ≡ none) × IsPrimary rest

-- A key of the table is found, and no other.
pub lookup-key :
    {V : Type 0} (n : Text) (m : Table V)
    → any (λ (e : Text × V). e.0 == n) m ≡ false
    → lookup n m ≡ none
unfolding lookup
lookup-key n [] h = refl
lookup-key n ((k, v) ∷ rest) h = ground (arith, lookup-key n rest)

pub key-lookup :
    {V : Type 0} (n : Text) (m : Table V)
    → lookup n m ≡ none
    → any (λ (e : Text × V). e.0 == n) m ≡ false
unfolding lookup
key-lookup n [] h = refl
key-lookup n ((k, v) ∷ rest) h = ground (arith, key-lookup n rest)

-- No key of the table is `k`.
pub lookup-differs :
    {V : Type 0} (k : Text) (m : Table V)
    → lookup k m ≡ none
    → All (λ (e : Text × V). (k == e.0) ≡ false) m
unfolding lookup
lookup-differs k [] h = tt
lookup-differs k ((j, w) ∷ m) h = elim (Bool-cases (j == k)) [
  | inl e ↦ cc (rw e at h)
  | inr e ↦ (ground (arith, eq_iff j k, eq_iff k j), lookup-differs k m (rw e at h))
]

-- Each entry is found under its key.
pub found-All :
    {V : Type 0} (m : Table V) → IsPrimary m → All (λ (e : Text × V). lookup e.0 m ≡ some e.1) m
unfolding lookup
found-All [] v = tt
found-All {V} ((k, w) ∷ m) v = (
  rw (eq_refl k) refl,
  All-zip (λ (e : Text × V) p q. rw p q) m (lookup-differs k m v.0) (found-All m v.1),
)

pub insert-IsPrimary :
    {V : Type 0} (id : Text) (r : V) (rows : Table V)
    → IsPrimary rows
    → IsPrimary (insert id r rows)
unfolding insert lookup
insert-IsPrimary id r [] v = (refl, tt)
insert-IsPrimary id r ((k, q) ∷ rows) v = elim (Bool-cases (k == id)) [
  | inl h ↦ rw h (ap (λ x. lookup x rows) (sym ((eq_iff k id).0 h)) ∙ v.0, v.1)
  | inr h ↦ rw h (
    rw (lookup-insert id k r rows) (elim (Bool-cases (id == k)) [
      | inl g ↦ cc (ap (λ x. k == x) ((eq_iff id k).0 g), eq_refl k, h)
      | inr g ↦ rw g v.0
    ]),
    insert-IsPrimary id r rows v.1,
  )
]

pub ruleset table_laws = (lookup-insert, lookup-delete)
