-- ===== src/Backends/Pool/Fairness.antt =====
-- Any number of calls of `Select` in a row (internal/backends/pool.go) share the calls by weight.
use mathlib.Core.Path.{fun_ext}
use native.Mathlib.Nat.{lt_of_mul-lt-mul_right}
use ollama_gateway.Common.{
  ℕ, zero, suc, ◌+◌, ◌*◌, ◌≤◌, ◌<◌, ◌^◌, ◌≡◌, refl, sym, ◌∙◌, List, [], ◌∷◌, Option, some, none,
  arith, eqb, length, All, All-zip, All-map, All-every, sum_by, if◌then◌else◌,
}
use ollama_gateway.Common.Int.{pos, sub_ℕ}
use ollama_gateway.Backends.Pool.{Heap, Entry, select}
use ollama_gateway.Backends.Pool.Loop.{IsDistinct, IsLive, amount, IsNonneg, total_weight}
use ollama_gateway.Backends.Pool.Shares.{bump, sum-le, sum-mul_left}
use ollama_gateway.Backends.Pool.Tally.{Tally, step_Tally, behind}

-- That many calls one after the other: the backends afterwards, and what the calls returned.
unfoldable pub run_select : ℕ → Heap → List Entry → Heap × List (Option ℕ)
run_select zero h es = (h, [])
run_select (suc n) h es =
    let (h₁, r) = select h es in let (h₂, rs) = run_select n h₁ es in (h₂, r ∷ rs)

abbrev hit : ℕ → Option ℕ → ℕ
hit p none = 0
hit p (some q) = if eqb p q then 1 else 0

-- How many of the calls returned the backend.
abbrev pub times : ℕ → List (Option ℕ) → ℕ
times p [] = 0
times p (r ∷ rs) = hit p r + times p rs

Tally-same :
    {es : List Entry} (k m : ℕ) (c d : ℕ → ℕ) {h : Heap}
    → k ≡ m
    → ((p : ℕ) → c p ≡ d p)
    → Tally es k c h
    → Tally es m d h
Tally-same k m c d e f t = rw (e, fun_ext f) at t

All-eq_of_le :
    (a b : Entry → ℕ) (es : List Entry)
    → All (λ e. a e ≤ b e) es
    → sum_by a es ≡ sum_by b es
    → All (λ e. a e ≡ b e) es
All-eq_of_le a b [] h s = tt
All-eq_of_le a b (e ∷ es) h s =
    let rest = sum-le b a es h.1 in (omega arith, All-eq_of_le a b es h.1 (omega arith))

-- A count that is less than one whole share ahead after `m` rounds is at most `m` shares.
le-share : (c m w T : ℕ) → c * T < m * T * w + T → c ≤ m * w
le-share c m w T h =
    let q : c * T < suc (m * w) * T = omega (arith, h) in omega (arith, lt_of_mul-lt-mul_right T q)

bump-hit :
    (q p : ℕ) (r : Option ℕ) (count : ℕ → ℕ) (n : ℕ)
    → r ≡ some p
    → n + bump count p q ≡ hit q r + n + count q
bump-hit q p r count n e = rw e (ground arith)

sub_ℕ_self : (m n : ℕ) → m ≡ n → sub_ℕ m n ≡ pos 0
sub_ℕ_self m n e = ground arith

sum-zero : (es : List Entry) → sum_by (λ e. 0) es ≡ 0
sum-zero [] = refl
sum-zero (e ∷ es) = omega (arith, sum-zero es)

module _ (es : List Entry) (d : IsDistinct es) (ws : All IsNonneg es)
    (some_weight : 0 < total_weight es) (small : length es * total_weight es < 2 ^ 63) where
  run_Tally :
      (n k : ℕ) (count : ℕ → ℕ) (h : Heap)
      → Tally es k count h
      → Tally es (n + k) (λ p. times p (run_select n h es).1 + count p) (run_select n h es).0
  unfolding run_select
  run_Tally zero k count h t =
      Tally-same k (0 + k) count (λ p. 0 + count p) (omega arith) (λ p. omega arith) t
  run_Tally (suc n) k count h t =
      let (p, returned, t₁) = step_Tally es d ws some_weight small k count h t in
      Tally-same (n + suc k) (suc n + k) _ _ (omega arith)
        (λ q. bump-hit q p (select h es).1 count _ returned)
        (run_Tally n (suc k) (bump count p) (select h es).0 t₁)

  -- The pool as it is built: no backend of it has been selected yet.
  abbrev IsFresh : Heap → Entry → Type 0
  IsFresh h e = (h e.ptr).current_weight ≡ pos 0

  fresh_Tally : (h : Heap) → All (IsLive h) es → All (IsFresh h) es → Tally es 0 (λ p. 0) h
  fresh_Tally h live fresh = record {
    live = live;
    current =
        All-map
          (λ e (q : IsFresh h e).
            q ∙ sym (sub_ℕ_self (0 * amount e) (0 * total_weight es) (omega arith)))
          es fresh;
    ahead = All-every (λ e. omega (arith, some_weight)) es;
    picks = sum-zero es;
  }

  module _ (h : Heap) (live : All (IsLive h) es) (fresh : All (IsFresh h) es) where
    after : (n : ℕ) → Tally es n (λ p. times p (run_select n h es).1) (run_select n h es).0
    after n =
        Tally-same (n + 0) n _ _ (omega arith) (λ p. omega arith)
          (run_Tally n 0 (λ p. 0) h (fresh_Tally h live fresh))

    -- From a fresh pool of selectable, distinct backends, after any number n of calls a backend of
    -- weight w has been returned fewer than n * w / T + 1 times and at least
    -- n * w / T - (number of entries - 1) times, for T the sum of the weights, and the calls together
    -- have returned n backends of the pool.
    pub share_bounds :
        (n : ℕ)
        → All
            (λ e.
              let c = times e.ptr (run_select n h es).1 in
              (c * total_weight es < n * amount e + total_weight es)
              × (n * amount e + total_weight es
                  ≤ c * total_weight es + length es * total_weight es))
            es
          × (sum_by (λ e. times e.ptr (run_select n h es).1) es ≡ n)
    share_bounds n =
        let t = after n in
        (
          All-zip
              (λ e
                  (a : times e.ptr (run_select n h es).1 * total_weight es
                    < n * amount e + total_weight es)
                  (b : n * amount e + total_weight es
                    ≤ times e.ptr (run_select n h es).1 * total_weight es
                      + length es * total_weight es).
                (a, b))
              es t.ahead (behind es d ws some_weight small n _ _ t),
          t.picks,
        )

    -- From a fresh pool of selectable, distinct backends, m rounds of T calls each, for T the sum of
    -- the weights, return a backend of weight w exactly m * w times, and set every current weight
    -- back to 0.
    pub fairness :
        (m : ℕ)
        → All
            (λ e.
              (times e.ptr (run_select (m * total_weight es) h es).1 ≡ m * amount e)
              × (((run_select (m * total_weight es) h es).0 e.ptr).current_weight ≡ pos 0))
            es
    fairness m =
        let n = m * total_weight es in
        let t = after n in
        let exact : All (λ e. times e.ptr (run_select n h es).1 ≡ m * amount e) es =
          All-eq_of_le _ (λ e. m * amount e) es
            (All-map
              (λ e
                  (a : times e.ptr (run_select n h es).1 * total_weight es
                    < n * amount e + total_weight es).
                le-share (times e.ptr (run_select n h es).1) m (amount e) (total_weight es) a)
              es t.ahead)
            (t.picks ∙ sym (sum-mul_left m amount es)) in
        All-zip
          (λ e (c : times e.ptr (run_select n h es).1 ≡ m * amount e)
              (v : ((run_select n h es).0 e.ptr).current_weight
                ≡ sub_ℕ (n * amount e) (times e.ptr (run_select n h es).1 * total_weight es)).
            (c, v ∙ sub_ℕ_self _ _ (rw c (omega arith))))
          es exact t.current
