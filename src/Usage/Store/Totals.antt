-- ===== src/Usage/Store/Totals.antt =====
-- The sums by model of internal/usage/store.go.
use ollama_gateway.Common.{
  ℕ, ◌+◌, ◌≤◌, ◌≡◌, refl, sym, ap, ◌∙◌, inl, inr, Text, ◌==◌, eq_iff, List, [], ◌∷◌, Bool, false,
  All, keep, map, take, take-length, length, sum_by, length-sum, arith, Bool-cases, if◌then◌else◌,
}
use ollama_gateway.Common.Int.{ℤ, pos, ◌+ℤ◌, +ℤ_parts, eq_of_parts}
use ollama_gateway.Common.Table.{Table, lookup, insert}
use ollama_gateway.Common.Ordering.{order_by, insert_before, sum-order_by}
use ollama_gateway.Usage.Store.{
  UsageRow, UsageTable, OverviewOptions, ModelCost, sum_ℤ, row_cost, joined, group_by_model,
  costs_more, groups_of, limited, breakdown_of, overview_where, summary_of, overview_summary,
  model_cost_breakdown,
}

abbrev pub cost_of : ModelCost → ℤ
cost_of g = g.cost

assoc : (a b c : ℤ) → (a +ℤ b) +ℤ c ≡ a +ℤ (b +ℤ c)
assoc a b c = eq_of_parts _ _ (omega (arith, +ℤ_parts))

swap_front : (a b c : ℤ) → a +ℤ (b +ℤ c) ≡ b +ℤ (a +ℤ c)
swap_front a b c = eq_of_parts _ _ (omega (arith, +ℤ_parts))

module _ {A : Type 0} (f : A → ℤ) (before : A → A → Bool) where
  sum_ℤ-insert_before :
      (x : A) (xs : List A) → sum_ℤ f (insert_before before x xs) ≡ f x +ℤ sum_ℤ f xs
  unfolding insert_before sum_ℤ
  sum_ℤ-insert_before x [] = refl
  sum_ℤ-insert_before x (y ∷ ys) = elim (Bool-cases (before x y)) [
    | inl e ↦ rw e refl
    | inr e ↦ rw e (rw (sum_ℤ-insert_before x ys) (swap_front (f y) (f x) (sum_ℤ f ys)))
  ]

  sum_ℤ-order_by : (xs : List A) → sum_ℤ f (order_by before xs) ≡ sum_ℤ f xs
  unfolding order_by sum_ℤ
  sum_ℤ-order_by [] = refl
  sum_ℤ-order_by (x ∷ xs) = sum_ℤ-insert_before x (order_by before xs) ∙ rw (sum_ℤ-order_by xs) refl

abbrev values : Table ModelCost → List ModelCost
values t = map (λ (e : Text × ModelCost). e.1) t

lookup-past :
    (m j : Text) (g : ModelCost) (t : Table ModelCost)
    → (j == m) ≡ false
    → lookup m ((j, g) ∷ t) ≡ lookup m t
unfolding lookup
lookup-past m j g t e = rw e refl

cost-joined :
    (r : UsageRow) (t : Table ModelCost)
    → sum_ℤ cost_of (values (insert r.entry.model (joined r (lookup r.entry.model t)) t))
      ≡ r.entry.cost +ℤ sum_ℤ cost_of (values t)
unfolding insert lookup sum_ℤ
cost-joined r [] = refl
cost-joined r ((j, g) ∷ t) = elim (Bool-cases (j == r.entry.model)) [
  | inl e ↦ rw e (assoc r.entry.cost g.cost (sum_ℤ cost_of (values t)))
  | inr e ↦
      let m = r.entry.model in
      rw e (
        ap (λ o. g.cost +ℤ sum_ℤ cost_of (values (insert m (joined r o) t))) (lookup-past m j g t e)
        ∙ ap (λ s. g.cost +ℤ s) (cost-joined r t)
        ∙ swap_front g.cost r.entry.cost (sum_ℤ cost_of (values t)))
]

cost-groups_of : (rows : List UsageRow) → sum_ℤ cost_of (groups_of rows) ≡ sum_ℤ row_cost rows
unfolding group_by_model sum_ℤ
cost-groups_of [] = refl
cost-groups_of (r ∷ rows) = cost-joined r (group_by_model rows) ∙ rw (cost-groups_of rows) refl

-- The requests of one model that a group counts.
abbrev pub count_at : Text → ModelCost → ℕ
count_at n g = if g.model == n then g.count else 0

-- Each group stands under its model.
abbrev IsKeyed : Table ModelCost → Type 0
IsKeyed t = All (λ (e : Text × ModelCost). e.1.model ≡ e.0) t

abbrev one_if : Bool → ℕ
one_if b = if b then 1 else 0

joined-model :
    (r : UsageRow) (t : Table ModelCost)
    → IsKeyed t
    → (joined r (lookup r.entry.model t)).model ≡ r.entry.model
unfolding lookup
joined-model r [] v = refl
joined-model r ((j, g) ∷ t) v = elim (Bool-cases (j == r.entry.model)) [
  | inl e ↦ rw e (v.0 ∙ (eq_iff j r.entry.model).0 e)
  | inr e ↦ rw e (joined-model r t v.1)
]

insert-IsKeyed :
    (k : Text) (g : ModelCost) (t : Table ModelCost)
    → g.model ≡ k
    → IsKeyed t
    → IsKeyed (insert k g t)
unfolding insert
insert-IsKeyed k g [] h v = (h, tt)
insert-IsKeyed k g ((j, q) ∷ t) h v = elim (Bool-cases (j == k)) [
  | inl e ↦ rw e (h, v.1)
  | inr e ↦ rw e (v.0, insert-IsKeyed k g t h v.1)
]

group_by_model-IsKeyed : (rows : List UsageRow) → IsKeyed (group_by_model rows)
unfolding group_by_model
group_by_model-IsKeyed [] = tt
group_by_model-IsKeyed (r ∷ rows) =
    let groups = group_by_model rows in
    let v = group_by_model-IsKeyed rows in
    insert-IsKeyed r.entry.model (joined r (lookup r.entry.model groups)) groups
      (joined-model r groups v) v

count-joined :
    (n : Text) (r : UsageRow) (t : Table ModelCost)
    → IsKeyed t
    → sum_by (count_at n) (values (insert r.entry.model (joined r (lookup r.entry.model t)) t))
      ≡ one_if (r.entry.model == n) + sum_by (count_at n) (values t)
unfolding insert lookup
count-joined n r [] v = ground arith
count-joined n r ((j, g) ∷ t) v = elim (Bool-cases (j == r.entry.model)) [
  | inl e ↦
      let same : g.model ≡ r.entry.model = v.0 ∙ (eq_iff j r.entry.model).0 e in
      rw e (rw same (ground arith))
  | inr e ↦
      let m = r.entry.model in
      let rest = count-joined n r t v.1 in
      rw e (
        ap (λ o. count_at n g + sum_by (count_at n) (values (insert m (joined r o) t)))
          (lookup-past m j g t e)
        ∙ omega (arith, rest))
]

count-groups_of :
    (n : Text) (rows : List UsageRow)
    → sum_by (count_at n) (groups_of rows)
      ≡ length (keep (λ (r : UsageRow). r.entry.model == n) rows)
unfolding group_by_model
count-groups_of n [] = refl
count-groups_of n (r ∷ rows) =
    count-joined n r (group_by_model rows) (group_by_model-IsKeyed rows)
    ∙ rw (count-groups_of n rows) (elim (Bool-cases (r.entry.model == n)) [
      | inl e ↦ rw e (omega arith)
      | inr e ↦ rw e (omega arith)
    ])

-- A breakdown with room for every model adds up: it counts each model's requests in the period, and its
-- costs make the cost of the overview.
pub model_cost_breakdown-overview_summary :
    (limit : ℕ) (o : OverviewOptions) (t : UsageTable)
    → length (groups_of (keep (overview_where o) t.rows)) ≤ limit
    → (sum_ℤ cost_of (model_cost_breakdown (pos limit) o t) ≡ (overview_summary o t).cost)
      × ((n : Text)
          → sum_by (count_at n) (model_cost_breakdown (pos limit) o t)
            ≡ length (keep (λ (r : UsageRow). r.entry.model == n) (keep (overview_where o) t.rows)))
unfolding model_cost_breakdown overview_summary breakdown_of limited summary_of
model_cost_breakdown-overview_summary limit o t h =
    let rows = keep (overview_where o) t.rows in
    let groups = groups_of rows in
    let size : length (order_by costs_more groups) ≡ length groups =
      sym (length-sum (order_by costs_more groups))
      ∙ sum-order_by costs_more (λ g. 1) groups
      ∙ length-sum groups in
    let whole : take limit (order_by costs_more groups) ≡ order_by costs_more groups =
      take-length limit (order_by costs_more groups) (omega (arith, h, size)) in
    (
      rw whole (sum_ℤ-order_by cost_of costs_more groups ∙ cost-groups_of rows),
      λ n. rw whole (sum-order_by costs_more (count_at n) groups ∙ count-groups_of n rows),
    )
