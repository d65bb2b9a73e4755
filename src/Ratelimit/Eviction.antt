-- ===== src/Ratelimit/Eviction.antt =====
-- The removal of idle buckets (`Cleanup` of internal/ratelimit/limiter.go).
use ollama_gateway.Common.{
  ℕ, ◌+◌, ◌-◌, ◌*◌, ◌≤◌, ◌≡◌, refl, sym, ap, ◌∙◌, inl, inr, [], ◌∷◌, true, false, arith, Bool-cases,
  if◌then◌else◌, Text, ◌==◌, eq_iff, none, some,
}
use mathlib.Core.Path.{subst}
use ollama_gateway.Common.Int.{ℤ, pos, pos_part, is_nonpos}
use ollama_gateway.Common.Table.{Table, lookup}
use ollama_gateway.Ratelimit.{
  unit, TokenBucket, tokens_of, new_bucket, refill, spend, take, RateLimitConfig, is_fresh, cleanup,
}
use ollama_gateway.Ratelimit.Bucket.{IsValid, available, refill-tokens}

-- The bucket of that burst and rate when it is full.
abbrev full : ℕ → ℕ → ℕ → TokenBucket
full now burst rate = record {
  capacity = burst * unit;
  tokens = pos (burst * unit);
  refill_rate = rate;
  last_refill = now;
}

-- A bucket that was made for that burst and rate.
abbrev pub IsFor : ℕ → ℕ → TokenBucket → Type 0
IsFor burst rate b = (b.capacity ≡ burst * unit) × (b.refill_rate ≡ rate)

same_bucket :
    (x y : TokenBucket)
    → x.capacity ≡ y.capacity
    → x.tokens ≡ y.tokens
    → x.refill_rate ≡ y.refill_rate
    → x.last_refill ≡ y.last_refill
    → x ≡ y
same_bucket x y c t r l = cc

refill-full :
    (now burst rate : ℕ) (b : TokenBucket)
    → IsValid b
    → IsFor burst rate b
    → burst * unit ≤ pos_part b.tokens + (now - b.last_refill) * rate
    → refill now b ≡ full now burst rate
unfolding refill
refill-full now burst rate b v f h =
    same_bucket (refill now b) (full now burst rate) f.0
      (refill-tokens now b v.0
        ∙ ap pos (let k : available now b ≡ burst * unit = rw f.0 (rw f.1 (omega (arith, h))) in k))
      f.1 refl

new_full :
    (now burst rate : ℕ) → refill now (new_bucket now (pos burst) (pos rate)) ≡ full now burst rate
unfolding refill new_bucket
new_full now burst rate =
    refill-full now burst rate (new_bucket now (pos burst) (pos rate)) (omega arith, omega arith)
      (refl, refl) (omega arith)

-- A bucket that has been idle until it is full again does what a new one does.
pub take-new_bucket :
    (now burst rate : ℕ) (n : ℤ) (b : TokenBucket)
    → IsValid b
    → IsFor burst rate b
    → burst * unit ≤ pos_part b.tokens + (now - b.last_refill) * rate
    → is_nonpos n ≡ false
    → take now n b ≡ take now n (new_bucket now (pos burst) (pos rate))
unfolding take
take-new_bucket now burst rate n b v f h p =
    rw (p, take)
      (ap (λ x. spend (tokens_of n) x)
        (refill-full now burst rate b v f h ∙ sym (new_full now burst rate)))

-- No key stands twice, as in a Go map.
abbrev pub IsMap : Table TokenBucket → Type 0
IsMap [] = Unit
IsMap ((k, b) ∷ m) = (lookup k m ≡ none) × IsMap m

cleanup-none :
    (c : RateLimitConfig) (now : ℕ) (k : Text) (m : Table TokenBucket)
    → lookup k m ≡ none
    → lookup k (cleanup c now m) ≡ none
unfolding cleanup lookup
cleanup-none c now k [] h = refl
cleanup-none c now k ((j, b) ∷ m) h = elim (Bool-cases (j == k)) [
  | inl e ↦ cc (rw e at h)
  | inr e ↦
      let rest = cleanup-none c now k m (rw e at h) in
      elim (Bool-cases (is_fresh c now (j, b))) [ inl f ↦ rw f (rw e rest) | inr f ↦ rw f rest ]
]

-- After `Cleanup`, a key has its bucket, as it was, unless that has been idle for longer than the
-- time to live of the key; then it has none.
pub lookup-cleanup :
    (c : RateLimitConfig) (now : ℕ) (k : Text) (m : Table TokenBucket)
    → IsMap m
    → lookup k (cleanup c now m)
      ≡ elim (lookup k m) [ none ↦ none | some b ↦ if is_fresh c now (k, b) then some b else none ]
unfolding cleanup lookup
lookup-cleanup c now k [] h = refl
lookup-cleanup c now k ((j, b) ∷ m) h = elim (Bool-cases (j == k)) [
  | inl e ↦ elim (Bool-cases (is_fresh c now (j, b))) [
    | inl f ↦
        rw (f, e)
          (let f' : is_fresh c now (k, b) ≡ true =
              subst (λ x. is_fresh c now (x, b) ≡ true) ((eq_iff j k).0 e) f in
            rw f' refl)
    | inr f ↦
        rw (f, e)
          (let f' : is_fresh c now (k, b) ≡ false =
              subst (λ x. is_fresh c now (x, b) ≡ false) ((eq_iff j k).0 e) f in
            rw f' (cleanup-none c now k m (subst (λ x. lookup x m ≡ none) ((eq_iff j k).0 e) h.0)))
  ]
  | inr e ↦ elim (Bool-cases (is_fresh c now (j, b))) [
    | inl f ↦ rw f (rw e (lookup-cleanup c now k m h.1))
    | inr f ↦ rw f (rw e (lookup-cleanup c now k m h.1))
  ]
]
