-- ===== src/Ratelimit/Bucket.antt =====
-- The token bucket of internal/ratelimit/limiter.go.
use ollama_gateway.Common.{
  ℕ, ◌+◌, ◌-◌, ◌*◌, ◌≤◌, ◌<◌, min, ◌≡◌, refl, sym, inl, inr, Bool, true, false, arith, leb, leb→le,
  Bool-cases, if◌then◌else◌,
}
use ollama_gateway.Common.Int.{ℤ, pos, negsuc, pos_part, ◌+ℤ◌, ◌-ℤ◌, ◌≤ℤ◌, leb_ℤ, is_nonpos}
use ollama_gateway.Ratelimit.{unit, TokenBucket, tokens_of, refill, spend, take}

-- The tokens are between none and the capacity.
abbrev pub IsValid : TokenBucket → Type 0
IsValid b = (pos 0 ≤ℤ b.tokens) × (b.tokens ≤ℤ pos b.capacity)

-- What a bucket has at a later time.
abbrev pub available : ℕ → TokenBucket → ℕ
available now b = min b.capacity (pos_part b.tokens + (now - b.last_refill) * b.refill_rate)

abbrev pub amount : ℤ → ℕ
amount n = pos_part n * unit

pub refill-tokens :
    (now : ℕ) (b : TokenBucket) → pos 0 ≤ℤ b.tokens → (refill now b).tokens ≡ pos (available now b)
unfolding refill
refill-tokens now b h = unfold ◌+ℤ◌ in ground arith

sub_pos : (z : ℤ) (a t : ℕ) → z ≡ pos t → a ≤ t → z -ℤ pos a ≡ pos (t - a)
unfolding ◌-ℤ◌
sub_pos z a t e h = ground arith

spend_enough :
    (b : TokenBucket) (a t : ℕ)
    → b.tokens ≡ pos t
    → a ≤ t
    → spend (pos a) b ≡ (true, record b { tokens = pos (t - a) })
unfolding spend
spend_enough b a t e h =
    rw (sym (sub_pos b.tokens a t e h))
      (let l : leb_ℤ (pos a) b.tokens ≡ true = ground arith in rw (l, spend) refl)

spend_short : (b : TokenBucket) (a t : ℕ) → b.tokens ≡ pos t → t < a → spend (pos a) b ≡ (false, b)
unfolding spend
spend_short b a t e h = let l : leb_ℤ (pos a) b.tokens ≡ false = ground arith in rw (l, spend) refl

pub IsValid-of : (b : TokenBucket) (t : ℕ) → b.tokens ≡ pos t → t ≤ b.capacity → IsValid b
IsValid-of b t e h = ground arith

pub available_bounds :
    (now : ℕ) (b : TokenBucket)
    → (available now b ≤ b.capacity)
      × (available now b ≤ pos_part b.tokens + (now - b.last_refill) * b.refill_rate)
available_bounds now b = (omega arith, omega arith)

whole : (n : ℤ) → is_nonpos n ≡ false → tokens_of n ≡ pos (amount n)
whole (pos n) h = refl
whole (negsuc n) h = ground arith

pub take_granted :
    (now : ℕ) (n : ℤ) (b : TokenBucket)
    → pos 0 ≤ℤ b.tokens
    → is_nonpos n ≡ false
    → amount n ≤ available now b
    → take now n b ≡ (true, record (refill now b) { tokens = pos (available now b - amount n) })
unfolding take
take_granted now n b v h l =
    rw (h, take)
      (rw (whole n h)
        (spend_enough (refill now b) (amount n) (available now b) (refill-tokens now b v) l))

pub take_refused :
    (now : ℕ) (n : ℤ) (b : TokenBucket)
    → pos 0 ≤ℤ b.tokens
    → is_nonpos n ≡ false
    → available now b < amount n
    → take now n b ≡ (false, refill now b)
unfolding take
take_refused now n b v h l =
    rw (h, take)
      (rw (whole n h)
        (spend_short (refill now b) (amount n) (available now b) (refill-tokens now b v) l))

take_free : (now : ℕ) (n : ℤ) (b : TokenBucket) → is_nonpos n ≡ true → take now n b ≡ (true, b)
unfolding take
take_free now n b h = rw (h, take) refl

-- What one call leaves: a bucket in range, of the same capacity and rate, that has no more than what
-- came in since the last refill and was not granted.
abbrev pub Outcome : ℕ → ℤ → TokenBucket → Bool × TokenBucket → Type 0
Outcome now n b r =
    IsValid r.1
    × (r.1.capacity ≡ b.capacity)
    × (r.1.refill_rate ≡ b.refill_rate)
    × (b.last_refill ≤ r.1.last_refill)
    × (r.1.last_refill ≤ now)
    × ((if r.0 then amount n else 0) + pos_part r.1.tokens
        ≤ pos_part b.tokens + (r.1.last_refill - b.last_refill) * b.refill_rate)

nonpos_amount : (n : ℤ) → is_nonpos n ≡ true → amount n ≡ 0
nonpos_amount (pos n) h = ground arith
nonpos_amount (negsuc n) h = refl

-- One call of `Take` on a bucket in range leaves it in range, with its capacity and rate, and takes
-- no more than what the bucket had and what came in since its last refill.
pub take-Outcome :
    (now : ℕ) (n : ℤ) (b : TokenBucket)
    → IsValid b
    → b.last_refill ≤ now
    → Outcome now n b (take now n b)
unfolding refill
take-Outcome now n b v l = elim (Bool-cases (is_nonpos n)) [
  | inl f ↦
      rw (take_free now n b f) (v, refl, refl, omega arith, l, rw (nonpos_amount n f) (omega arith))
  | inr f ↦ elim (Bool-cases (leb (amount n) (available now b))) [
    | inl g ↦ rw (take_granted now n b v.0 f (ground arith)) (
      let k = (available_bounds now b).0 in (omega arith, omega arith),
      refl,
      refl,
      l,
      omega arith,
      let k = (available_bounds now b).1 in
          let g' = leb→le (amount n) (available now b) g in omega arith,
    )
    | inr g ↦ rw (take_refused now n b v.0 f (ground arith)) (
      IsValid-of (refill now b) (available now b) (refill-tokens now b v.0)
          ((available_bounds now b).0),
      refl,
      refl,
      l,
      omega arith,
      rw (refill-tokens now b v.0) (let k = (available_bounds now b).1 in omega arith),
    )
  ]
]
