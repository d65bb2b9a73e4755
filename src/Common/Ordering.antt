-- ===== src/Common/Ordering.antt =====
-- Sorting by an order, as SQL's `ORDER BY` does it: elements that are equal in the order stay as they were.
use Prim.Native.Nat.{ℕ, ◌+◌}
use mathlib.Core.Path.{◌≡◌, refl, ◌∙◌}
use mathlib.Core.Logic.{inl, inr}
use mathlib.Core.Bool.{Bool}
use mathlib.Core.List.{List, [], ◌∷◌}
use native.Mathlib.Omega.{arith}
use ollama_gateway.Common.Tests.{if◌then◌else◌, Bool-cases}
use ollama_gateway.Common.Lists.{sum_by}

module _ {A : Type 0} (before : A → A → Bool) where
  unfoldable pub insert_before : A → List A → List A
  insert_before x [] = x ∷ []
  insert_before x (y ∷ ys) =
      let rest = insert_before x ys in if before x y then x ∷ y ∷ ys else y ∷ rest

  unfoldable pub order_by : List A → List A
  unfolding insert_before
  order_by [] = []
  order_by (x ∷ xs) = insert_before x (order_by xs)

  sum-insert_before :
      (f : A → ℕ) (x : A) (xs : List A) → sum_by f (insert_before x xs) ≡ f x + sum_by f xs
  unfolding insert_before
  sum-insert_before f x [] = refl
  sum-insert_before f x (y ∷ ys) = elim (Bool-cases (before x y)) [
    | inl e ↦ rw e refl
    | inr e ↦ rw e (rw (sum-insert_before f x ys) (omega arith))
  ]

  -- Every element is kept, as often as it was there.
  pub sum-order_by : (f : A → ℕ) (xs : List A) → sum_by f (order_by xs) ≡ sum_by f xs
  unfolding order_by
  sum-order_by f [] = refl
  sum-order_by f (x ∷ xs) = sum-insert_before f x (order_by xs) ∙ rw (sum-order_by f xs) refl
