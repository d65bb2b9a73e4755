-- ===== src/Backends/Pool/Shares.antt =====
-- Sums over the entries of a pool, and the 64-bit steps of a current weight, for
-- internal/backends/pool.go.
use ollama_gateway.Common.{
  ℕ, suc, ◌+◌, ◌*◌, ◌≤◌, ◌<◌, ◌^◌, ◌≡◌, inl, inr, refl, ◌≢◌, List, [], ◌∷◌, true, false, arith, eqb,
  length, All, All-map, Any, sum_by, if◌then◌else◌,
}
use ollama_gateway.Common.Int.{ℤ, pos, sub_ℕ, ◌+ℤ◌, ◌-ℤ◌, int64, int64_id}
use ollama_gateway.Backends.Pool.{Entry}
use ollama_gateway.Backends.Pool.Loop.{member, IsDistinct, amount, total_weight}

-- One more for `p`.
abbrev pub bump : (ℕ → ℕ) → ℕ → ℕ → ℕ
bump count p q = if eqb q p then suc (count q) else count q

-- Sums of two quantities that are close for each entry.
module _ (a b : Entry → ℕ) where
  pub sum-le : (es : List Entry) → All (λ e. b e ≤ a e) es → sum_by b es ≤ sum_by a es
  sum-le [] h = omega arith
  sum-le (e ∷ es) h = omega (arith, sum-le es h.1)

  pub sum-close :
      (T : ℕ) (es : List Entry)
      → All (λ e. a e < b e + T) es
      → sum_by a es ≤ sum_by b es + length es * T
  sum-close T [] h = omega arith
  sum-close T (e ∷ es) h = omega (arith, sum-close T es h.1)

  -- If no entry is ahead by T or more, none is behind by more than the others are ahead.
  pub close_below :
      (T x y slack bound : ℕ) (es : List Entry)
      → All (λ e. a e < b e + T) es
      → x + sum_by a es ≡ y + sum_by b es
      → x ≤ y + slack
      → slack + length es * T ≡ bound
      → All (λ e. b e + T ≤ a e + bound) es
  close_below T x y slack bound [] h p q r = tt
  close_below T x y slack bound (e ∷ es) h p q r = (
    omega (arith, sum-close T es h.1),
    close_below T (x + a e) (y + b e) (slack + T) bound es h.1 (omega arith) (omega arith)
        (omega arith),
  )

pub sum-mul_left :
    (k : ℕ) (f : Entry → ℕ) (es : List Entry) → sum_by (λ e. k * f e) es ≡ k * sum_by f es
sum-mul_left k f [] = omega arith
sum-mul_left k f (e ∷ es) = omega (arith, sum-mul_left k f es)

pub sum-mul_right :
    (k : ℕ) (f : Entry → ℕ) (es : List Entry) → sum_by (λ e. f e * k) es ≡ sum_by f es * k
sum-mul_right k f [] = omega arith
sum-mul_right k f (e ∷ es) = omega (arith, sum-mul_right k f es)

pub sum-bump_ne :
    (count : ℕ → ℕ) (p : ℕ) (es : List Entry)
    → member p es ≡ false
    → sum_by (λ e. bump count p e.ptr) es ≡ sum_by (λ e. count e.ptr) es
sum-bump_ne count p [] h = refl
sum-bump_ne count p (e ∷ es) h = ground (arith, sum-bump_ne count p es)

pub member-Any : (p : ℕ) (es : List Entry) → Any (λ e. e.ptr ≡ p) es → member p es ≡ true
member-Any p [] h = absurd h
member-Any p (e ∷ es) (inl h) = ground arith
member-Any p (e ∷ es) (inr h) = ground (arith, member-Any p es h)

-- The head of a distinct list is none of the others.
pub head-ne :
    (e : Entry) (es : List Entry) (p : ℕ)
    → member e.ptr es ≡ false
    → Any (λ x. x.ptr ≡ p) es
    → e.ptr ≢ p
head-ne e es p d h same = cc (member-Any p es h)

pub sum-bump :
    (count : ℕ → ℕ) (p : ℕ) (es : List Entry)
    → IsDistinct es
    → Any (λ e. e.ptr ≡ p) es
    → sum_by (λ e. bump count p e.ptr) es ≡ suc (sum_by (λ e. count e.ptr) es)
sum-bump count p [] d h = absurd h
sum-bump count p (e ∷ es) d (inl h) =
    let d' : member p es ≡ false = rw h at d.0 in ground (arith, sum-bump_ne count p es d')
sum-bump count p (e ∷ es) d (inr h) =
    ground (arith, head-ne e es p d.0 h, sum-bump count p es d.1 h)

-- A current weight in its range takes one more weight without wrapping around.
pub int64-raise :
    (c w : ℤ) (x y m T N : ℕ)
    → c ≡ sub_ℕ x y
    → w ≡ pos m
    → m ≤ T
    → T ≤ N
    → y < x + T
    → x + T ≤ y + N
    → N < 2 ^ 63
    → int64 (c +ℤ w) ≡ sub_ℕ (x + m) y
int64-raise c w x y m T N p q mt tn lo hi small =
    let e : c +ℤ w ≡ sub_ℕ (x + m) y = unfold ◌+ℤ◌ in ground arith in
    rw e (int64_id (sub_ℕ (x + m) y) (ground arith) (ground arith))

pub amount-le : (es : List Entry) → All (λ e. amount e ≤ total_weight es) es
amount-le [] = tt
amount-le (e ∷ es) =
    (omega arith, All-map (λ x (h : amount x ≤ total_weight es). omega arith) es (amount-le es))

pub total-le-mul : (es : List Entry) (T : ℕ) → 0 < total_weight es → T ≤ length es * T
total-le-mul [] T h = absurd (omega arith)
total-le-mul (e ∷ es) T h = omega arith

-- A positive current weight gives up the sum of the weights without wrapping around.
pub int64-charge :
    (c : ℤ) (x y T : ℕ)
    → c ≡ sub_ℕ x y
    → y < x
    → T < 2 ^ 63
    → x < y + 2 ^ 63
    → int64 (c -ℤ pos T) ≡ sub_ℕ x (y + T)
int64-charge c x y T p q h k =
    let e : c -ℤ pos T ≡ sub_ℕ x (y + T) = unfold ◌-ℤ◌ in ground arith in
    rw e (int64_id (sub_ℕ x (y + T)) (ground arith) (ground arith))

pub All-absurd :
    {P : Entry → Type 0} (es : List Entry)
    → ((e : Entry) → P e → ⊥)
    → 0 < total_weight es
    → All P es
    → ⊥
All-absurd [] f h q = omega arith
All-absurd (e ∷ es) f h q = f e q.0

-- The pointer of some entry has the property.
pub Any-ptr :
    (Q : ℕ → Type 0) (es : List Entry)
    → Any (λ e. Q e.ptr) es
    → (p : ℕ) × Q p × Any (λ e. e.ptr ≡ p) es
Any-ptr Q [] h = absurd h
Any-ptr Q (e ∷ es) (inl h) = (e.ptr, h, inl refl)
Any-ptr Q (e ∷ es) (inr h) = let (p, q, m) = Any-ptr Q es h in (p, q, inr m)

pub sum-add :
    (f g : Entry → ℕ) (es : List Entry) → sum_by (λ e. f e + g e) es ≡ sum_by f es + sum_by g es
sum-add f g [] = omega arith
sum-add f g (e ∷ es) = omega (arith, sum-add f g es)
