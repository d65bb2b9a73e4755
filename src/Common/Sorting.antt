-- ===== src/Common/Sorting.antt =====
-- Sorting by a text, byte by byte, as `sort.Slice` and SQL's `ORDER BY` do it.
use mathlib.Core.Path.{◌≡◌, refl, ◌∙◌}
use mathlib.Core.Logic.{inl, inr}
use mathlib.Core.Bool.{Bool, true, false, ◌&&◌, ◌||◌}
use mathlib.Core.Option.{Option, none, some}
use mathlib.Core.List.{List, [], ◌∷◌}
use native.Mathlib.Omega.{arith}
use ollama_gateway.Common.Tests.{ltb, eqb, if◌then◌else◌, Bool-cases}
use ollama_gateway.Common.Lists.{any, is_empty}
use ollama_gateway.Common.Texts.{Text, ◌==◌, eq_iff}

unfoldable pub leb_text : Text → Text → Bool
leb_text [] t = true
leb_text (c ∷ s) [] = false
leb_text (c ∷ s) (d ∷ t) = ltb c d || eqb c d && leb_text s t

leb_text_refl : (s : Text) → leb_text s s ≡ true
unfolding leb_text
leb_text_refl [] = refl
leb_text_refl (c ∷ s) = ground (arith, leb_text_refl s)

pub leb_text_total : (s t : Text) → leb_text s t ≡ false → leb_text t s ≡ true
unfolding leb_text
leb_text_total [] t h = cc
leb_text_total (c ∷ s) [] h = refl
leb_text_total (c ∷ s) (d ∷ t) h = ground (arith, leb_text_total s t)

leb_text_differ : (s t : Text) → leb_text s t ≡ false → (t == s) ≡ false
leb_text_differ s t h = elim (Bool-cases (t == s)) [
  | inl e ↦ cc (rw ((eq_iff t s).0 e, leb_text_refl s) at h)
  | inr e ↦ e
]

module _ {A : Type 0} (key : A → Text) where
  unfoldable pub insert_sorted : A → List A → List A
  insert_sorted x [] = x ∷ []
  insert_sorted x (y ∷ ys) =
      let rest = insert_sorted x ys in if leb_text (key x) (key y) then x ∷ y ∷ ys else y ∷ rest

  -- Elements with the same text stay in order.
  unfoldable pub sort_by : List A → List A
  unfolding insert_sorted
  sort_by [] = []
  sort_by (x ∷ xs) = insert_sorted x (sort_by xs)

  -- The first element with that text.
  unfoldable pub find_by : Text → List A → Option A
  find_by t [] = none
  find_by t (x ∷ xs) = let rest = find_by t xs in if key x == t then some x else rest

  find_by-insert_sorted :
      (t : Text) (x : A) (xs : List A) → find_by t (insert_sorted x xs) ≡ find_by t (x ∷ xs)
  unfolding find_by insert_sorted
  find_by-insert_sorted t x [] = refl
  find_by-insert_sorted t x (y ∷ ys) = elim (Bool-cases (leb_text (key x) (key y))) [
    | inl e ↦ rw e refl
    | inr e ↦ rw e (
        ground (
          arith,
          find_by-insert_sorted t x ys,
          leb_text_differ (key x) (key y) e,
          eq_iff (key x) t,
          eq_iff (key y) t,
          eq_iff (key y) (key x),
        ))
  ]

  pub find_by-sort_by : (t : Text) (xs : List A) → find_by t (sort_by xs) ≡ find_by t xs
  unfolding find_by sort_by
  find_by-sort_by t [] = refl
  find_by-sort_by t (x ∷ xs) =
      find_by-insert_sorted t x (sort_by xs) ∙ rw (find_by-sort_by t xs) refl

  any-insert_sorted :
      (p : A → Bool) (x : A) (xs : List A) → any p (insert_sorted x xs) ≡ (p x || any p xs)
  unfolding insert_sorted
  any-insert_sorted p x [] = refl
  any-insert_sorted p x (y ∷ ys) = elim (Bool-cases (leb_text (key x) (key y))) [
    | inl e ↦ rw e refl
    | inr e ↦ rw e (rw (any-insert_sorted p x ys) (ground arith))
  ]

  -- Sorting loses nothing and adds nothing.
  pub any-sort_by : (p : A → Bool) (xs : List A) → any p (sort_by xs) ≡ any p xs
  unfolding sort_by
  any-sort_by p [] = refl
  any-sort_by p (x ∷ xs) = any-insert_sorted p x (sort_by xs) ∙ rw (any-sort_by p xs) refl

  insert_sorted-nonempty : (x : A) (xs : List A) → is_empty (insert_sorted x xs) ≡ false
  unfolding insert_sorted
  insert_sorted-nonempty x [] = refl
  insert_sorted-nonempty x (y ∷ ys) = elim (Bool-cases (leb_text (key x) (key y))) [
    | inl e ↦ rw e refl
    | inr e ↦ rw e refl
  ]

  pub is_empty-sort_by : (xs : List A) → is_empty (sort_by xs) ≡ is_empty xs
  unfolding sort_by
  is_empty-sort_by [] = refl
  is_empty-sort_by (x ∷ xs) = insert_sorted-nonempty x (sort_by xs)

  -- Each element comes before the next by its text.
  abbrev pub IsSorted : List A → Type 0
  IsSorted [] = Unit
  IsSorted (x ∷ []) = Unit
  IsSorted (x ∷ y ∷ ys) = (leb_text (key x) (key y) ≡ true) × IsSorted (y ∷ ys)

  insert_sorted-IsSorted : (x : A) (xs : List A) → IsSorted xs → IsSorted (insert_sorted x xs)
  unfolding insert_sorted
  insert_sorted-IsSorted x [] v = tt
  insert_sorted-IsSorted x (y ∷ []) v = elim (Bool-cases (leb_text (key x) (key y))) [
    | inl e ↦ rw e (e, tt)
    | inr e ↦ rw e (leb_text_total (key x) (key y) e, tt)
  ]
  insert_sorted-IsSorted x (y ∷ z ∷ ys) v = elim (Bool-cases (leb_text (key x) (key y))) [
    | inl e ↦ rw e (e, v)
    | inr e ↦
        let rest = insert_sorted-IsSorted x (z ∷ ys) v.1 in
        elim (Bool-cases (leb_text (key x) (key z))) [
          | inl f ↦ rw e (rw f (leb_text_total (key x) (key y) e, rw f at rest))
          | inr f ↦ rw e (rw f (v.0, rw f at rest))
        ]
  ]

  pub sort_by-IsSorted : (xs : List A) → IsSorted (sort_by xs)
  unfolding sort_by
  sort_by-IsSorted [] = tt
  sort_by-IsSorted (x ∷ xs) = insert_sorted-IsSorted x (sort_by xs) (sort_by-IsSorted xs)
