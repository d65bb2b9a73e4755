-- ===== src/Backends/Pool/Loop.antt =====
-- The loop of `Select` (internal/backends/pool.go), over entries of distinct backends that may all
-- be selected. `f` gives the current weight with which each entry leaves the loop.
use ollama_gateway.Common.{
  ℕ, ◌+◌, ◌<◌, ◌^◌, ◌≡◌, ◌⊎◌, inl, inr, refl, ap, ◌∙◌, List, [], ◌∷◌, Bool, true, false, some,
  arith, eqb, any, All, All-zip, Any, sum_by,
}
use ollama_gateway.Common.Int.{ℤ, pos, ◌+ℤ◌, ◌≤ℤ◌, int64, int64-pos_add, pos_part}
use ollama_gateway.Backends.{Backend}
use ollama_gateway.Backends.Pool.{Heap, Entry, Scan, selectable, visit, scan}

abbrev pub member : ℕ → List Entry → Bool
member q es = any (λ e. eqb e.ptr q) es

abbrev pub IsDistinct : List Entry → Type 0
IsDistinct [] = Unit
IsDistinct (e ∷ es) = (member e.ptr es ≡ false) × IsDistinct es

abbrev pub IsLive : Heap → Entry → Type 0
IsLive h e = selectable (h e.ptr) ≡ true

abbrev pub with_current : ℤ → Backend → Backend
with_current c b = record b { current_weight = c }

abbrev pub Lands : (Entry → ℤ) → Heap → Entry → Type 0
Lands f h e = int64 ((h e.ptr).current_weight +ℤ e.weight) ≡ f e

visit-heap_ne : (s : Scan) (e : Entry) (q : ℕ) → eqb e.ptr q ≡ false → (visit s e).heap q ≡ s.heap q
unfolding visit
visit-heap_ne s e q h = ground arith

-- A backend that is not in the pool is left alone.
pub scan-heap_ne :
    (s : Scan) (es : List Entry) (q : ℕ) → member q es ≡ false → (scan s es).heap q ≡ s.heap q
unfolding scan
scan-heap_ne s [] q h = refl
scan-heap_ne s (e ∷ es) q h =
    scan-heap_ne (visit s e) es q (ground arith) ∙ visit-heap_ne s e q (ground arith)

visit-heap_rest :
    (s : Scan) (e : Entry) (es : List Entry)
    → member e.ptr es ≡ false
    → All (λ x. (visit s e).heap x.ptr ≡ s.heap x.ptr) es
visit-heap_rest s e [] h = tt
visit-heap_rest s e (x ∷ es) h =
    (visit-heap_ne s e x.ptr (ground arith), visit-heap_rest s e es (ground arith))

visit-heap_live :
    (f : Entry → ℤ) (s : Scan) (e : Entry)
    → IsLive s.heap e
    → Lands f s.heap e
    → (visit s e).heap e.ptr ≡ with_current (f e) (s.heap e.ptr)
unfolding visit
visit-heap_live f s e live lands = ground arith

module _ (f : Entry → ℤ) where
  -- What the lemmas below assume of each entry.
  abbrev Ready : Heap → Entry → Type 0
  Ready h e = IsLive h e × Lands f h e

  visit-Ready :
      (s : Scan) (e : Entry) (es : List Entry)
      → member e.ptr es ≡ false
      → All (Ready s.heap) es
      → All (Ready (visit s e).heap) es
  visit-Ready s e es h r =
      All-zip (λ x (q : (visit s e).heap x.ptr ≡ s.heap x.ptr) (k : Ready s.heap x). rw q k) es
        (visit-heap_rest s e es h) r

  -- Each entry leaves the loop with its new current weight, and is else unchanged.
  pub scan-heap_live :
      (s : Scan) (es : List Entry)
      → IsDistinct es
      → All (λ e. IsLive s.heap e × Lands f s.heap e) es
      → All (λ e. (scan s es).heap e.ptr ≡ with_current (f e) (s.heap e.ptr)) es
  unfolding scan
  scan-heap_live s [] d r = tt
  scan-heap_live s (e ∷ es) d r = (
    scan-heap_ne (visit s e) es e.ptr d.0 ∙ visit-heap_live f s e r.0.0 r.0.1,
    All-zip
        (λ x (q : (visit s e).heap x.ptr ≡ s.heap x.ptr)
            (k : (scan (visit s e) es).heap x.ptr ≡ with_current (f x) ((visit s e).heap x.ptr)).
          rw (← q) k)
        es (visit-heap_rest s e es d.0)
        (scan-heap_live (visit s e) es d.1 (visit-Ready s e es d.0 r.1)),
  )

  visit-best :
      (s : Scan) (e : Entry)
      → Ready s.heap e
      → (f e ≤ℤ (visit s e).best_weight)
        × (s.best_weight ≤ℤ (visit s e).best_weight)
        × ((((visit s e).best ≡ s.best) × ((visit s e).best_weight ≡ s.best_weight))
            ⊎ (((visit s e).best ≡ some e.ptr) × ((visit s e).best_weight ≡ f e)))
  unfolding visit
  visit-best s e r = ground arith

  abbrev pub BestOf : Scan → List Entry → Scan → Type 0
  BestOf s es s' =
      All (λ e. f e ≤ℤ s'.best_weight) es
      × (s.best_weight ≤ℤ s'.best_weight)
      × (((s'.best ≡ s.best) × (s'.best_weight ≡ s.best_weight))
          ⊎ Any (λ e. (s'.best ≡ some e.ptr) × (s'.best_weight ≡ f e)) es)

  -- The loop ends with the largest new current weight and the entry that has it.
  pub scan-best :
      (s : Scan) (es : List Entry)
      → IsDistinct es
      → All (λ e. IsLive s.heap e × Lands f s.heap e) es
      → BestOf s es (scan s es)
  unfolding scan
  scan-best s [] d r = (tt, omega arith, inl (refl, refl))
  scan-best s (e ∷ es) d r =
      join-BestOf s e es (visit s e) (scan (visit s e) es) (visit-best s e r.0)
        (scan-best (visit s e) es d.1 (visit-Ready s e es d.0 r.1))
    where
      join-BestOf :
          (s : Scan) (e : Entry) (es : List Entry) (s₁ s₂ : Scan)
          → (f e ≤ℤ s₁.best_weight)
            × (s.best_weight ≤ℤ s₁.best_weight)
            × (((s₁.best ≡ s.best) × (s₁.best_weight ≡ s.best_weight))
                ⊎ ((s₁.best ≡ some e.ptr) × (s₁.best_weight ≡ f e)))
          → BestOf s₁ es s₂
          → BestOf s (e ∷ es) s₂
      join-BestOf s e es s₁ s₂ (a, b, inl c) (x, y, inl z) =
          ((omega arith, x), omega arith, inl (cc, cc))
      join-BestOf s e es s₁ s₂ (a, b, inr c) (x, y, inl z) =
          ((omega arith, x), omega arith, inr (inl (cc, cc)))
      join-BestOf s e es s₁ s₂ (a, b, c) (x, y, inr z) =
          ((omega arith, x), omega arith, inr (inr z))

abbrev pub amount : Entry → ℕ
amount e = pos_part e.weight

abbrev pub IsNonneg : Entry → Type 0
IsNonneg e = e.weight ≡ pos (amount e)

visit-total :
    (s : Scan) (e : Entry) (t : ℕ)
    → IsLive s.heap e
    → IsNonneg e
    → s.total ≡ pos t
    → t + amount e < 2 ^ 63
    → (visit s e).total ≡ pos (t + amount e)
unfolding visit
visit-total s e t live p h k = ground (arith, int64-pos_add s.total e.weight h p k)

abbrev pub total_weight : List Entry → ℕ
total_weight es = sum_by amount es

-- The loop adds up the weights of the entries.
pub scan-total :
    (f : Entry → ℤ) (s : Scan) (es : List Entry) (t : ℕ)
    → IsDistinct es
    → All (λ e. IsLive s.heap e × Lands f s.heap e) es
    → All IsNonneg es
    → s.total ≡ pos t
    → t + total_weight es < 2 ^ 63
    → (scan s es).total ≡ pos (t + total_weight es)
unfolding scan
scan-total f s [] t d r p h k = h ∙ ap pos (omega arith)
scan-total f s (e ∷ es) t d r p h k =
    scan-total f (visit s e) es (t + amount e) d.1 (visit-Ready f s e es d.0 r.1) p.1
      (visit-total s e t r.0.0 p.0 h (omega arith)) (omega arith)
    ∙ ap pos (omega arith)
