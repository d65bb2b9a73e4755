-- ===== src/Common/Lists.antt =====
-- Lists measured by native numbers, and Boolean and propositional quantifiers over lists.
use Prim.Native.Nat.{ℕ, zero, suc, ◌+◌, ◌≤◌}
use mathlib.Core.Path.{◌≡◌, refl, sym, ap}
use mathlib.Core.Logic.{◌⊎◌, inl, inr}
use mathlib.Core.Bool.{Bool, true, false, ◌&&◌, ◌||◌}
use mathlib.Core.List.{List, [], ◌∷◌, ◌++◌}
use native.Mathlib.Omega.{arith}
use ollama_gateway.Common.Tests.{if◌then◌else◌}

zero-add : (n : ℕ) → 0 + n ≡ n
zero-add n = omega arith

suc-add : (m n : ℕ) → suc m + n ≡ suc (m + n)
suc-add m n = omega arith

module _ {ℓ} {A : Type ℓ} where
  abbrev pub length : List A → ℕ
  length [] = 0
  length (x ∷ xs) = suc (length xs)

  pub length-append : (xs ys : List A) → length (xs ++ ys) ≡ length xs + length ys
  length-append [] ys = omega arith
  length-append (x ∷ xs) ys = omega (arith, length-append xs ys)

  abbrev pub take : ℕ → List A → List A
  take zero xs = []
  take (suc n) [] = []
  take (suc n) (x ∷ xs) = x ∷ take n xs

  abbrev pub drop : ℕ → List A → List A
  drop zero xs = xs
  drop (suc n) [] = []
  drop (suc n) (x ∷ xs) = drop n xs

  -- A part, and the part after it.
  pub take-add : (m n : ℕ) (xs : List A) → take m xs ++ take n (drop m xs) ≡ take (m + n) xs
  take-add zero n xs = ap (λ k. take k xs) (sym (zero-add n))
  take-add (suc m) zero [] = rw (suc-add m zero) refl
  take-add (suc m) (suc n) [] = rw (suc-add m (suc n)) refl
  take-add (suc m) n (x ∷ xs) = rw (suc-add m n) (ap (λ r. x ∷ r) (take-add m n xs))

  pub take-length : (n : ℕ) (xs : List A) → length xs ≤ n → take n xs ≡ xs
  take-length zero [] h = refl
  take-length zero (x ∷ xs) h = absurd (omega arith)
  take-length (suc n) [] h = refl
  take-length (suc n) (x ∷ xs) h = ap (λ r. x ∷ r) (take-length n xs (omega arith))

  abbrev pub is_empty : List A → Bool
  is_empty [] = true
  is_empty (x ∷ xs) = false

  abbrev pub any : (A → Bool) → List A → Bool
  any p [] = false
  any p (x ∷ xs) = p x || any p xs

  pub any-append : (p : A → Bool) (xs ys : List A) → any p (xs ++ ys) ≡ (any p xs || any p ys)
  any-append p [] ys = refl
  any-append p (x ∷ xs) ys = ground (arith, any-append p xs ys)

  abbrev pub all : (A → Bool) → List A → Bool
  all p [] = true
  all p (x ∷ xs) = p x && all p xs

  -- The elements that pass the test, in order.
  abbrev pub keep : (A → Bool) → List A → List A
  keep p [] = []
  keep p (x ∷ xs) = let rest = keep p xs in if p x then x ∷ rest else rest

  pub keep-append : (p : A → Bool) (xs ys : List A) → keep p (xs ++ ys) ≡ keep p xs ++ keep p ys
  keep-append p [] ys = refl
  keep-append p (x ∷ xs) ys = ground (arith, keep-append p xs ys)

  abbrev pub sum_by : (A → ℕ) → List A → ℕ
  sum_by f [] = 0
  sum_by f (x ∷ xs) = f x + sum_by f xs

  pub length-sum : (xs : List A) → sum_by (λ x. 1) xs ≡ length xs
  length-sum [] = refl
  length-sum (x ∷ xs) = rw (length-sum xs) (omega arith)

module _ {ℓ κ} {A : Type ℓ} where
  abbrev pub All : (A → Type κ) → List A → Type κ
  All P [] = Unit
  All P (x ∷ xs) = P x × All P xs

  pub All-append : (P : A → Type κ) (xs ys : List A) → All P xs → All P ys → All P (xs ++ ys)
  All-append P [] ys hx hy = hy
  All-append P (x ∷ xs) ys hx hy = (hx.0, All-append P xs ys hx.1 hy)

  pub All-zip :
      {P Q R : A → Type κ}
      → ((x : A) → P x → Q x → R x)
      → (xs : List A) → All P xs
      → All Q xs
      → All R xs
  All-zip f [] hp hq = tt
  All-zip f (x ∷ xs) hp hq = (f x hp.0 hq.0, All-zip f xs hp.1 hq.1)

  pub All-map : {P Q : A → Type κ} → ((x : A) → P x → Q x) → (xs : List A) → All P xs → All Q xs
  All-map f [] hp = tt
  All-map f (x ∷ xs) hp = (f x hp.0, All-map f xs hp.1)

  pub All-zip6 :
      (P Q R S T U : A → Type κ) (xs : List A)
      → All P xs
      → All Q xs
      → All R xs
      → All S xs
      → All T xs
      → All U xs
      → All (λ x. P x × Q x × R x × S x × T x × U x) xs
  All-zip6 P Q R S T U [] p q r s t u = tt
  All-zip6 P Q R S T U (x ∷ xs) p q r s t u =
      ((p.0, q.0, r.0, s.0, t.0, u.0), All-zip6 P Q R S T U xs p.1 q.1 r.1 s.1 t.1 u.1)

  pub All-every : {P : A → Type κ} → ((x : A) → P x) → (xs : List A) → All P xs
  All-every f [] = tt
  All-every f (x ∷ xs) = (f x, All-every f xs)

module _ {A : Type 0} where
  abbrev pub Any : (A → Type 0) → List A → Type 0
  Any P [] = ⊥
  Any P (x ∷ xs) = P x ⊎ Any P xs

  -- Some element has both properties.
  pub Any-All :
      {P Q R : A → Type 0}
      → ((x : A) → P x → Q x → R x)
      → (xs : List A) → Any P xs
      → All Q xs
      → Any R xs
  Any-All f [] h q = h
  Any-All f (x ∷ xs) (inl p) q = inl (f x p q.0)
  Any-All f (x ∷ xs) (inr h) q = inr (Any-All f xs h q.1)

  pub Any-elim : {P : A → Type 0} {C : Type 0} → ((x : A) → P x → C) → (xs : List A) → Any P xs → C
  Any-elim f [] h = absurd h
  Any-elim f (x ∷ xs) (inl p) = f x p
  Any-elim f (x ∷ xs) (inr h) = Any-elim f xs h
