-- ===== src/Backends/Pool/Choice.antt =====
-- Which backends `Select` may return, in any pool (internal/backends/pool.go).
use ollama_gateway.Common.{
  ℕ, zero, suc, ◌≡◌, ◌⊎◌, inl, inr, refl, sym, ap, ◌∙◌, List, [], ◌∷◌, Bool, true, false, Option,
  some, none, arith, eqb, eqb_refl, keep, Bool-cases,
}
use ollama_gateway.Common.Int.{pos, ◌<ℤ◌}
use ollama_gateway.Backends.{Backend}
use ollama_gateway.Backends.Pool.{
  Heap, Entry, Scan, selectable, visit, scan, start, finish, charge, select,
}
use ollama_gateway.Backends.Pool.Loop.{member}
use ollama_gateway.Backends.Pool.Fairness.{run_select}

visit-unselectable : (s : Scan) (e : Entry) → selectable (s.heap e.ptr) ≡ false → visit s e ≡ s
unfolding visit
visit-unselectable s e h = rw h

-- The loop changes no backend's part in the selection.
visit-selectable :
    (s : Scan) (e : Entry) (q : ℕ) → selectable ((visit s e).heap q) ≡ selectable (s.heap q)
unfolding visit selectable
visit-selectable s e q = ground arith

scan-selectable :
    (s : Scan) (es : List Entry) (q : ℕ) → selectable ((scan s es).heap q) ≡ selectable (s.heap q)
unfolding scan
scan-selectable s [] q = refl
scan-selectable s (e ∷ es) q = scan-selectable (visit s e) es q ∙ visit-selectable s e q

scan-keep :
    (live : ℕ → Bool) (s : Scan) (es : List Entry)
    → ((q : ℕ) → selectable (s.heap q) ≡ live q)
    → scan s es ≡ scan s (keep (λ e. live e.ptr) es)
unfolding scan
scan-keep live s [] h = refl
scan-keep live s (e ∷ es) h = elim (Bool-cases (live e.ptr)) [
  | inl on ↦ rw on (scan-keep live (visit s e) es (λ q. visit-selectable s e q ∙ h q))
  | inr off ↦ rw (off, visit-unselectable s e (h e.ptr ∙ off)) (scan-keep live s es h)
]

select-keep :
    (live : ℕ → Bool) (h : Heap) (es : List Entry)
    → ((q : ℕ) → selectable (h q) ≡ live q)
    → select h es ≡ select h (keep (λ e. live e.ptr) es)
unfolding select start
select-keep live h es same = ap (λ (s : Scan). finish s s.best) (scan-keep live _ es same)

charge-selectable : (s : Scan) (p q : ℕ) → selectable (charge s p q) ≡ selectable (s.heap q)
unfolding charge selectable
charge-selectable s p q = ground arith

finish-selectable :
    (s : Scan) (o : Option ℕ) (q : ℕ) → selectable ((finish s o).0 q) ≡ selectable (s.heap q)
unfolding finish
finish-selectable s none q = refl
finish-selectable s (some p) q = ground (arith, charge-selectable s p q)

-- A call changes no backend's part in the selection.
pub select-selectable :
    (h : Heap) (es : List Entry) (q : ℕ) → selectable ((select h es).0 q) ≡ selectable (h q)
unfolding select start
select-selectable h es q =
    finish-selectable (scan (start h) es) (scan (start h) es).best q
    ∙ scan-selectable (start h) es q

run_select-keep_live :
    (n : ℕ) (live : ℕ → Bool) (h : Heap) (es : List Entry)
    → ((q : ℕ) → selectable (h q) ≡ live q)
    → run_select n h es ≡ run_select n h (keep (λ e. live e.ptr) es)
unfolding run_select
run_select-keep_live zero live h es same = refl
run_select-keep_live (suc n) live h es same =
    let step = select-keep live h es same in
    let rest =
      run_select-keep_live n live (select h es).0 es (λ q. select-selectable h es q ∙ same q) in
    let kept = keep (λ e. live e.ptr) es in
    ap (λ (x : Heap × List (Option ℕ)). (x.0, (select h es).1 ∷ x.1)) rest
    ∙ ap (λ (y : Heap × Option ℕ). ((run_select n y.0 kept).0, y.1 ∷ (run_select n y.0 kept).1))
        step

-- Any number of calls, on any pool and from any state, do to the backends and return what the same
-- calls do on the pool without its unselectable entries.
pub run_select-keep :
    (n : ℕ) (h : Heap) (es : List Entry)
    → run_select n h es ≡ run_select n h (keep (λ e. selectable (h e.ptr)) es)
run_select-keep n h es = run_select-keep_live n (λ q. selectable (h q)) h es (λ q. refl)

raised :
    (s : Scan) (e : Entry)
    → ((visit s e).best ≡ s.best)
      ⊎ (((visit s e).best ≡ some e.ptr) × (selectable (s.heap e.ptr) ≡ true))
unfolding visit
raised s e = ground arith

visit-best_cases :
    (s : Scan) (e : Entry) (p : ℕ)
    → (visit s e).best ≡ some p
    → (s.best ≡ some p) ⊎ ((eqb e.ptr p ≡ true) × (selectable (s.heap p) ≡ true))
visit-best_cases s e p h = elim (raised s e) [
  | inl same ↦ inl (sym same ∙ h)
  | inr (new, on) ↦ let here : e.ptr ≡ p = cc in inr (rw here (eqb_refl p), rw here at on)
]

scan-best_cases :
    (s : Scan) (es : List Entry) (p : ℕ)
    → (scan s es).best ≡ some p
    → (s.best ≡ some p) ⊎ ((member p es ≡ true) × (selectable (s.heap p) ≡ true))
unfolding scan
scan-best_cases s [] p h = inl h
scan-best_cases s (e ∷ es) p h = elim (scan-best_cases (visit s e) es p h) [
  | inl q ↦ elim (visit-best_cases s e p q) [ inl r ↦ inl r | inr r ↦ inr (ground arith, r.1) ]
  | inr q ↦ inr (ground arith, sym (visit-selectable s e p) ∙ q.1)
]

finish-some : (s : Scan) (o : Option ℕ) (p : ℕ) → (finish s o).1 ≡ some p → o ≡ some p
unfolding finish
finish-some s none p h = cc
finish-some s (some q) p h = ground arith

-- A backend that a call returns, from any state, is an entry of the pool and is healthy and enabled
-- with a positive effective weight.
pub select_sound :
    (h : Heap) (es : List Entry) (p : ℕ)
    → (select h es).1 ≡ some p
    → (member p es ≡ true)
      × ((h p).healthy ≡ true)
      × ((h p).enabled ≡ true)
      × (pos 0 <ℤ (h p).effective_weight)
unfolding select start selectable
select_sound h es p r =
    elim (scan-best_cases (start h) es p (finish-some (scan (start h) es) _ p r)) [
      | inl absent ↦ cc
      | inr (inside, on) ↦ (inside, ground arith, ground arith, ground arith)
    ]

-- A backend without what a pool changes of it.
abbrev pub settled : Backend → Backend
settled b = record b { current_weight = pos 0 }

visit-settled : (s : Scan) (e : Entry) (q : ℕ) → settled ((visit s e).heap q) ≡ settled (s.heap q)
unfolding visit
visit-settled s e q = ground arith

scan-settled :
    (s : Scan) (es : List Entry) (q : ℕ) → settled ((scan s es).heap q) ≡ settled (s.heap q)
unfolding scan
scan-settled s [] q = refl
scan-settled s (e ∷ es) q = scan-settled (visit s e) es q ∙ visit-settled s e q

finish-settled : (s : Scan) (o : Option ℕ) (q : ℕ) → settled ((finish s o).0 q) ≡ settled (s.heap q)
unfolding finish charge
finish-settled s none q = refl
finish-settled s (some p) q = ground arith

-- A call changes nothing of a backend but its current weight.
pub select-settled :
    (h : Heap) (es : List Entry) (q : ℕ) → settled ((select h es).0 q) ≡ settled (h q)
unfolding select start
select-settled h es q =
    finish-settled (scan (start h) es) (scan (start h) es).best q ∙ scan-settled (start h) es q
