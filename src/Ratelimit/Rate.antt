-- ===== src/Ratelimit/Rate.antt =====
-- The rate that a token bucket (internal/ratelimit/limiter.go) keeps over a sequence of calls.
use ollama_gateway.Common.{
  ℕ, ◌+◌, ◌-◌, ◌*◌, ◌≤◌, ◌≡◌, sym, ap, ◌∙◌, List, [], ◌∷◌, Bool, true, false, arith, if◌then◌else◌,
}
use native.Mathlib.Nat.{add-mul}
use mathlib.Core.Path.{subst}
use ollama_gateway.Common.Int.{ℤ, pos, pos_part}
use ollama_gateway.Ratelimit.{unit, TokenBucket, new_bucket, take}
use ollama_gateway.Ratelimit.Bucket.{IsValid, Outcome, take-Outcome}

-- A call of `Take`: when, and for how many tokens.
abbrev pub Call : Type 0
Call = ℕ × ℤ

-- The tokens that the calls get, one after the other.
pub granted : List Call → TokenBucket → ℕ
granted [] b = 0
granted ((now, n) ∷ calls) b =
    let r = take now n b in (if r.0 then pos_part n else 0) + granted calls r.1

-- The calls come in order, from the given time on.
abbrev pub InOrder : ℕ → List Call → Type 0
InOrder t [] = Unit
InOrder t (c ∷ calls) = (t ≤ c.0) × InOrder c.0 calls

abbrev pub last_time : ℕ → List Call → ℕ
last_time t [] = t
last_time t (c ∷ calls) = last_time c.0 calls

last_time_le : (t : ℕ) (calls : List Call) → InOrder t calls → t ≤ last_time t calls
last_time_le t [] h = omega arith
last_time_le t (c ∷ calls) h = let k = last_time_le c.0 calls h.1 in omega (arith, h.0)

times_split : (a b c r : ℕ) → a ≤ b → b ≤ c → (b - a) * r + (c - b) * r ≡ (c - a) * r
times_split a b c r h k =
    sym (add-mul (b - a) (c - b) r)
    ∙ ap (λ x. x * r) (let e : (b - a) + (c - b) ≡ c - a = omega arith in e)

granted_sum :
    (o : Bool) (n m : ℕ)
    → ((if o then n else 0) + m) * unit ≡ (if o then n * unit else 0) + m * unit
granted_sum true n m = omega arith
granted_sum false n m = omega arith

-- From a bucket in range, calls in order get no more than the tokens it has and those that come in,
-- at its rate, until the last call.
pub rate_bound :
    (calls : List Call) (b : TokenBucket) (t : ℕ)
    → IsValid b
    → b.last_refill ≤ t
    → InOrder t calls
    → granted calls b * unit
      ≤ pos_part b.tokens + (last_time t calls - b.last_refill) * b.refill_rate
unfolding granted
rate_bound [] b t v l h = omega arith
rate_bound ((now, n) ∷ calls) b t v l h =
    let r = take now n b in
    let o : Outcome now n b r = take-Outcome now n b v (omega (arith, h.0)) in
    let rest = rate_bound calls r.1 now o.0 o.4 h.1 in
    let e =
      times_split b.last_refill r.1.last_refill (last_time now calls) b.refill_rate o.3
        (let k = last_time_le now calls h.1 in omega (arith, o.4)) in
    let rest' : granted calls r.1 * unit
        ≤ pos_part r.1.tokens + (last_time now calls - r.1.last_refill) * b.refill_rate =
      subst
        (λ x.
          granted calls r.1 * unit
          ≤ pos_part r.1.tokens + (last_time now calls - r.1.last_refill) * x)
        o.2 rest in
    rw (granted_sum r.0 (pos_part n) (granted calls r.1)) (omega (arith, rest', o.5, e))

-- A new bucket starts full: within a time, the calls get no more than the burst and what comes in
-- at the rate.
pub burst_bound :
    (calls : List Call) (burst rate t : ℕ)
    → InOrder t calls
    → granted calls (new_bucket t (pos burst) (pos rate)) * unit
      ≤ burst * unit + (last_time t calls - t) * rate
unfolding new_bucket
burst_bound calls burst rate t h =
    rate_bound calls (new_bucket t (pos burst) (pos rate)) t (omega arith, omega arith)
      (omega arith) h
