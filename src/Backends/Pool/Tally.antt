-- ===== src/Backends/Pool/Tally.antt =====
-- One call of `Select` against the ideal shares. With weights w summing to T, after k calls of which
-- c chose an entry, its current weight is k * w - c * T.
use ollama_gateway.Common.{
  ℕ, suc, ◌+◌, ◌*◌, ◌≤◌, ◌<◌, ◌^◌, ◌≡◌, inl, inr, refl, ap, ◌∙◌, List, true, false, Option, some,
  arith, eqb, eqb_iff, eqb_refl, length, All, All-zip, All-zip6, All-map, Any, Any-All, sum_by,
  Bool-cases, sym,
}
use ollama_gateway.Common.Int.{ℤ, pos, sub_ℕ, ◌-ℤ◌, ◌≤ℤ◌, ◌<ℤ◌, int64, is_nonpos}
use ollama_gateway.Backends.{Backend}
use ollama_gateway.Backends.Pool.{
  Heap, Entry, Scan, selectable, scan, start, finish, select, charge,
}
use ollama_gateway.Backends.Pool.Loop.{
  IsDistinct, IsLive, Lands, with_current, amount, IsNonneg, total_weight, scan-heap_live,
  scan-best, scan-total, BestOf,
}
use ollama_gateway.Backends.Pool.Shares.{
  bump, sum-le, close_below, sum-mul_left, sum-mul_right, sum-bump, int64-raise, amount-le,
  total-le-mul, int64-charge, Any-ptr, sum-add,
}

pub record Tally (es : List Entry) (k : ℕ) (count : ℕ → ℕ) (h : Heap) : Type 0 where
  pub live : All (IsLive h) es
  pub current :
      All (λ e. (h e.ptr).current_weight ≡ sub_ℕ (k * amount e) (count e.ptr * total_weight es)) es
  pub ahead : All (λ e. count e.ptr * total_weight es < k * amount e + total_weight es) es
  pub picks : sum_by (λ e. count e.ptr) es ≡ k

charge_ne : (s : Scan) (p q : ℕ) → eqb q p ≡ false → charge s p q ≡ s.heap q
unfolding charge
charge_ne s p q h = rw h

charge_self :
    (s : Scan) (p q : ℕ) (c : ℤ) (n : ℕ) (b : Backend)
    → q ≡ p
    → s.total ≡ pos n
    → s.heap q ≡ with_current c b
    → charge s p q ≡ with_current (int64 (c -ℤ pos n)) b
unfolding charge
charge_self s p q c n b same t v = rw (same, eqb_refl p, t, rw same at v)

finish-some :
    (s : Scan) (p n : ℕ) → s.total ≡ pos n → 0 < n → finish s (some p) ≡ (charge s p, some p)
unfolding finish
finish-some s p n e h = ground arith

-- The step of the invariant, over entries of distinct backends with weights that 64 bits hold.
module _ (es : List Entry) (d : IsDistinct es) (ws : All IsNonneg es)
    (some_weight : 0 < total_weight es) (small : length es * total_weight es < 2 ^ 63) where
  next : ℕ → (ℕ → ℕ) → Entry → ℤ
  next k count e = sub_ℕ (k * amount e + amount e) (count e.ptr * total_weight es)

  module _ (k : ℕ) (count : ℕ → ℕ) (h : Heap) (t : Tally es k count h) where
    -- What is known of each entry before the call.
    abbrev Known : Entry → Type 0
    Known e =
        IsLive h e
        × ((h e.ptr).current_weight ≡ sub_ℕ (k * amount e) (count e.ptr * total_weight es))
        × (count e.ptr * total_weight es < k * amount e + total_weight es)
        × (k * amount e + total_weight es
            ≤ count e.ptr * total_weight es + length es * total_weight es)
        × IsNonneg e
        × (amount e ≤ total_weight es)

    -- No entry is behind its share by as much as all the others could be ahead.
    pub behind :
        All
          (λ e.
            k * amount e + total_weight es
            ≤ count e.ptr * total_weight es + length es * total_weight es)
          es
    behind =
        close_below (λ e. count e.ptr * total_weight es) (λ e. k * amount e) (total_weight es) 0 0 0
          (length es * total_weight es) es t.ahead
          (omega (
            arith,
            sum-mul_right (total_weight es) (λ e. count e.ptr) es,
            sum-mul_left k amount es,
            ap (λ (n : ℕ). n * total_weight es) t.picks,
          ))
          (omega arith) (omega arith)

    known : All Known es
    known = All-zip6 _ _ _ _ _ _ es t.live t.current t.ahead behind ws (amount-le es)

    lands : All (λ e. IsLive h e × Lands (next k count) h e) es
    unfolding next
    lands =
        All-map
          (λ e (v : Known e). (
            v.0,
            int64-raise _ _ (k * amount e) (count e.ptr * total_weight es) (amount e)
                (total_weight es) (length es * total_weight es) v.1 v.4 v.5
                (total-le-mul es _ some_weight) v.2 v.3 small,
          ))
          es known

    s' : Scan
    s' = scan (start h) es

    heap_after : All (λ e. s'.heap e.ptr ≡ with_current (next k count e) (h e.ptr)) es
    unfolding s' start
    heap_after = scan-heap_live (next k count) (start h) es d lands

    total_after : s'.total ≡ pos (total_weight es)
    unfolding s' start
    total_after =
        scan-total (next k count) (start h) es 0 d lands ws refl
          (omega (arith, total-le-mul es (total_weight es) some_weight))
        ∙ ap pos (omega arith)

    best_after : BestOf (next k count) (start h) es s'
    unfolding s' start
    best_after = scan-best (next k count) (start h) es d lands

    -- Together the entries have had k shares, so they cannot all be a share behind.
    someone_due : All (λ e. k * amount e + amount e ≤ count e.ptr * total_weight es) es → ⊥
    someone_due q = omega (
      arith,
      sum-le (λ e. count e.ptr * total_weight es) (λ e. k * amount e + amount e) es q,
      sum-add (λ e. k * amount e) amount es,
      sum-mul_left k amount es,
      sum-mul_right (total_weight es) (λ e. count e.ptr) es,
      ap (λ (n : ℕ). n * total_weight es) t.picks,
    )

    not_due :
        (e : Entry) (c : ℤ)
        → is_nonpos c ≡ true
        → next k count e ≤ℤ c
        → k * amount e + amount e ≤ count e.ptr * total_weight es
    unfolding next
    not_due e c n q = ground arith

    -- The largest new current weight is positive.
    best_positive : pos 0 <ℤ s'.best_weight
    best_positive = elim (Bool-cases (is_nonpos s'.best_weight)) [
      | inl low ↦ absurd (
          someone_due (
            All-map (λ e (q : next k count e ≤ℤ s'.best_weight). not_due e _ low q) es
              best_after.0))
      | inr high ↦ ground arith
    ]

    abbrev IsChosen : ℕ → Type 0
    IsChosen p = (s'.best ≡ some p) × ((s'.heap p).current_weight ≡ s'.best_weight)

    chosen : (p : ℕ) × IsChosen p × Any (λ e. e.ptr ≡ p) es
    unfolding start
    chosen = elim best_after.2 [
      | inl (_, none_raised) ↦ absurd (start_low best_positive none_raised)
      | inr found ↦ Any-ptr IsChosen es (
          Any-All
            (λ e (q : (s'.best ≡ some e.ptr) × (s'.best_weight ≡ next k count e))
                (v : s'.heap e.ptr ≡ with_current (next k count e) (h e.ptr)).
              (q.0, ap (λ (b : Backend). b.current_weight) v ∙ sym q.1))
            es found heap_after)
    ]
      where
        start_low : pos 0 <ℤ s'.best_weight → s'.best_weight ≡ (start h).best_weight → ⊥
        start_low a b = ground arith

    w : ℕ
    w = chosen.0

    landed : Entry → ℤ
    landed e = sub_ℕ (k * amount e + amount e) (bump count w e.ptr * total_weight es)

    charged_positive :
        (e : Entry)
        → IsNonneg e
        → e.ptr ≡ w
        → s'.heap e.ptr ≡ with_current (next k count e) (h e.ptr)
        → count e.ptr * total_weight es < k * amount e + amount e
    unfolding w next
    charged_positive e n same v =
        let q : next k count e ≡ s'.best_weight =
          sym (ap (λ (b : Backend). b.current_weight) v)
          ∙ ap (λ (p : ℕ). (s'.heap p).current_weight) same
          ∙ chosen.1.1 in
        ground (arith, best_positive)

    landed_ne : (e : Entry) → eqb e.ptr w ≡ false → next k count e ≡ landed e
    unfolding next landed
    landed_ne e other = rw other

    landed_eq :
        (e : Entry)
        → Known e
        → e.ptr ≡ w
        → eqb e.ptr w ≡ true
        → s'.heap e.ptr ≡ with_current (next k count e) (h e.ptr)
        → int64 (next k count e -ℤ pos (total_weight es)) ≡ landed e
    unfolding landed next
    landed_eq e v here same q = rw same (
        int64-charge (next k count e) (k * amount e + amount e) (count e.ptr * total_weight es)
          (total_weight es) refl (charged_positive e v.4 here q)
          (omega (arith, total-le-mul es (total_weight es) some_weight)) (omega arith)
        ∙ ap (sub_ℕ (k * amount e + amount e)) (omega arith))

    charge_at :
        (e : Entry)
        → Known e
        → s'.heap e.ptr ≡ with_current (next k count e) (h e.ptr)
        → charge s' w e.ptr ≡ with_current (landed e) (h e.ptr)
    charge_at e v q = elim (Bool-cases (eqb e.ptr w)) [
      | inl same ↦
          let here : e.ptr ≡ w = (eqb_iff e.ptr w).0 same in
          charge_self s' w e.ptr (next k count e) (total_weight es) (h e.ptr) here total_after q
          ∙ ap (λ (c : ℤ). with_current c (h e.ptr)) (landed_eq e v here same q)
      | inr other ↦
          charge_ne s' w e.ptr other
          ∙ q
          ∙ ap (λ (c : ℤ). with_current c (h e.ptr)) (landed_ne e other)
    ]

    select_eq : select h es ≡ (charge s' w, some w)
    unfolding select w s'
    select_eq =
        ap (finish (scan (start h) es)) chosen.1.0 ∙ finish-some s' w _ total_after some_weight

    ahead_at :
        (e : Entry)
        → Known e
        → s'.heap e.ptr ≡ with_current (next k count e) (h e.ptr)
        → bump count w e.ptr * total_weight es < suc k * amount e + total_weight es
    ahead_at e v q = elim (Bool-cases (eqb e.ptr w)) [
      | inl same ↦
          let due : count e.ptr * total_weight es < k * amount e + amount e =
            charged_positive e v.4 ((eqb_iff e.ptr w).0 same) q in
          rw same (omega arith)
      | inr other ↦ rw other (omega arith)
    ]

    charged : Tally es (suc k) (bump count w) (charge s' w)
    unfolding w selectable landed
    charged = record {
      live =
          All-zip
            (λ e (v : Known e) (q : s'.heap e.ptr ≡ with_current (next k count e) (h e.ptr)).
              ap selectable (charge_at e v q) ∙ v.0)
            es known heap_after;
      current =
          All-zip
            (λ e (v : Known e) (q : s'.heap e.ptr ≡ with_current (next k count e) (h e.ptr)).
              ap (λ (b : Backend). b.current_weight) (charge_at e v q)
              ∙ ap (λ (n : ℕ). sub_ℕ n (bump count w e.ptr * total_weight es)) (omega arith))
            es known heap_after;
      ahead = All-zip ahead_at es known heap_after;
      picks = sum-bump count w es d chosen.2 ∙ ap suc t.picks;
    }

    -- The call returns an entry of the pool, and the counts with one more for it fit again.
    pub step_Tally :
        (p : ℕ) × ((select h es).1 ≡ some p) × Tally es (suc k) (bump count p) (select h es).0
    step_Tally = (w, ap (λ (r : Heap × Option ℕ). r.1) select_eq, rw select_eq charged)
