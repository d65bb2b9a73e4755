-- ===== src/Models/Store/Pricing.antt =====
-- `LoadModelPricing` and `ReplaceModelPricing` of internal/models/store.go: the table `model_pricing`.
use ollama_gateway.Common.{
  sym, ◌≡◌, refl, ap, ◌∙◌, inl, inr, Text, ◌==◌, eq_iff, Option, none, some, List, [], ◌∷◌, Bool,
  any, map, Bool-cases, Option-cases, arith, if◌then◌else◌,
}
use ollama_gateway.Common.Table.{
  Table, lookup, insert, lookup-insert, lookup-key, IsPrimary, insert-IsPrimary,
}
use ollama_gateway.Common.Sorting.{sort_by, any-sort_by}
use ollama_gateway.Usage.Pricing.{ModelPricing}
use ollama_gateway.Models.Catalog.{member}
use ollama_gateway.Models.Store.{ModelRow, same_text}

abbrev put_price : Text → Option ModelPricing → Table ModelPricing → Table ModelPricing
put_price n none out = out
put_price n (some p) out = insert n p out

-- The name has a row in `models`.
abbrev pub is_model : Text → Table ModelRow → Bool
is_model n models = any (λ (e : Text × ModelRow). e.0 == n) models

-- A price is inserted for each name that is a model's; others are passed over.
unfoldable pub insert_prices :
    Table ModelRow → Table ModelPricing → List Text → Table ModelPricing → Table ModelPricing
insert_prices models pricing [] out = out
insert_prices models pricing (n ∷ names) out =
    insert_prices models pricing names
      (if is_model n models then put_price n (lookup n pricing) out else out)

-- `ReplaceModelPricing`: the table after it.
unfoldable pub replace_model_pricing : Table ModelRow → Table ModelPricing → Table ModelPricing
unfolding insert_prices
replace_model_pricing models pricing =
    insert_prices models pricing
      (sort_by same_text (map (λ (e : Text × ModelPricing). e.0) pricing)) []

unfoldable pub load_prices : Table ModelPricing → Table ModelPricing → Table ModelPricing
load_prices [] out = out
load_prices ((n, p) ∷ rows) out = load_prices rows (insert n p out)

-- `LoadModelPricing`; the order of the rows, by name, does not show in the map.
unfoldable pub load_model_pricing : Table ModelPricing → Table ModelPricing
unfolding load_prices
load_model_pricing rows = load_prices rows []

-- The price that the sync keeps of a name: that of the given table, if the name is a model's.
abbrev pub kept_price : Table ModelRow → Table ModelPricing → Text → Option ModelPricing
kept_price models pricing n = if is_model n models then lookup n pricing else none

or_price : Option ModelPricing → Option ModelPricing → Option ModelPricing
or_price none q = q
or_price (some p) q = some p

or_price_twice : (o q : Option ModelPricing) → or_price o (or_price o q) ≡ or_price o q
unfolding or_price
or_price_twice none q = refl
or_price_twice (some p) q = refl

lookup-put_price :
    (k n : Text) (o : Option ModelPricing) (out : Table ModelPricing)
    → lookup n (put_price k o out) ≡ (if k == n then or_price o (lookup n out) else lookup n out)
unfolding or_price
lookup-put_price k n none out = ground arith
lookup-put_price k n (some p) out = lookup-insert k n p out

-- One round of the loop.
lookup-round :
    (models : Table ModelRow) (pricing : Table ModelPricing) (k n : Text) (out : Table ModelPricing)
    → lookup n (if is_model k models then put_price k (lookup k pricing) out else out)
      ≡ (if k == n then or_price (kept_price models pricing n) (lookup n out) else lookup n out)
unfolding or_price
lookup-round models pricing k n out = elim (Bool-cases (k == n)) [
  | inl e ↦ rw⁻¹ ((eq_iff k n).0 e) (elim (Bool-cases (is_model k models)) [
    | inl h ↦ rw h (lookup-put_price k k (lookup k pricing) out)
    | inr h ↦ rw h (ground arith)
  ])
  | inr e ↦ rw e (elim (Bool-cases (is_model k models)) [
    | inl h ↦ rw h (lookup-put_price k n (lookup k pricing) out ∙ rw e refl)
    | inr h ↦ rw h refl
  ])
]

lookup-insert_prices :
    (models : Table ModelRow) (pricing : Table ModelPricing) (names : List Text)
    (out : Table ModelPricing) (n : Text)
    → lookup n (insert_prices models pricing names out) ≡ (
        if member n names
        then or_price (kept_price models pricing n) (lookup n out)
        else lookup n out)
unfolding insert_prices
lookup-insert_prices models pricing [] out n = refl
lookup-insert_prices models pricing (k ∷ names) out n =
    let kept = kept_price models pricing n in
    lookup-insert_prices models pricing names
      (if is_model k models then put_price k (lookup k pricing) out else out) n
    ∙ rw (lookup-round models pricing k n out) (ground (arith, or_price_twice kept (lookup n out)))

keys-map :
    {A : Type 0} (n : Text) (m : Table A)
    → member n (map (λ (e : Text × A). e.0) m) ≡ any (λ (e : Text × A). e.0 == n) m
keys-map n [] = refl
keys-map n ((k, v) ∷ m) = rw (keys-map n m) refl

pub member-keys :
    {A : Type 0} (n : Text) (m : Table A)
    → member n (sort_by same_text (map (λ (e : Text × A). e.0) m))
      ≡ any (λ (e : Text × A). e.0 == n) m
member-keys {A} n m =
    any-sort_by same_text (λ y. y == n) (map (λ (e : Text × A). e.0) m) ∙ keys-map n m

or_price-none : (o : Option ModelPricing) → or_price o none ≡ o
unfolding or_price
or_price-none none = refl
or_price-none (some p) = refl

lookup-replace_model_pricing :
    (models : Table ModelRow) (pricing : Table ModelPricing) (n : Text)
    → lookup n (replace_model_pricing models pricing) ≡ kept_price models pricing n
unfolding replace_model_pricing
lookup-replace_model_pricing models pricing n =
    let names = sort_by same_text (map (λ (e : Text × ModelPricing). e.0) pricing) in
    lookup-insert_prices models pricing names [] n
    ∙ rw (member-keys n pricing)
        (elim (Bool-cases (any (λ (e : Text × ModelPricing). e.0 == n) pricing)) [
          | inl h ↦ rw h (unfold lookup in or_price-none (kept_price models pricing n))
          | inr h ↦ rw h (rw (lookup-key n pricing h) (unfold lookup in ground arith))
        ])

lookup-load_prices :
    (rows out : Table ModelPricing) (n : Text)
    → IsPrimary rows
    → lookup n (load_prices rows out) ≡ or_price (lookup n rows) (lookup n out)
unfolding load_prices or_price lookup
lookup-load_prices [] out n v = refl
lookup-load_prices ((k, p) ∷ rows) out n v =
    lookup-load_prices rows (insert k p out) n v.1
    ∙ rw (lookup-insert k n p out) (elim (Bool-cases (k == n)) [
      | inl h ↦
          let gone : lookup n rows ≡ none =
            ap (λ x. lookup x rows) (sym ((eq_iff k n).0 h)) ∙ v.0 in
          rw h (rw gone refl)
      | inr h ↦ rw h refl
    ])

insert_prices-IsPrimary :
    (models : Table ModelRow) (pricing : Table ModelPricing) (names : List Text)
    (out : Table ModelPricing)
    → IsPrimary out
    → IsPrimary (insert_prices models pricing names out)
unfolding insert_prices
insert_prices-IsPrimary models pricing [] out v = v
insert_prices-IsPrimary models pricing (k ∷ names) out v =
    insert_prices-IsPrimary models pricing names _ (elim (Bool-cases (is_model k models)) [
      | inl h ↦ rw h (elim (Option-cases (lookup k pricing)) [
        | inl e ↦ rw e v
        | inr (p, e) ↦ rw e (insert-IsPrimary k p out v)
      ])
      | inr h ↦ rw h v
    ])

replace_model_pricing-IsPrimary :
    (models : Table ModelRow) (pricing : Table ModelPricing)
    → IsPrimary (replace_model_pricing models pricing)
unfolding replace_model_pricing
replace_model_pricing-IsPrimary models pricing =
    insert_prices-IsPrimary models pricing
      (sort_by same_text (map (λ (e : Text × ModelPricing). e.0) pricing)) [] tt

-- After the replacement, the prices that are loaded are those given, but only of names that are
-- models; nothing is left of the prices before.
pub replace_model_pricing-load_model_pricing :
    (models : Table ModelRow) (pricing : Table ModelPricing) (n : Text)
    → lookup n (load_model_pricing (replace_model_pricing models pricing))
      ≡ kept_price models pricing n
unfolding load_model_pricing
replace_model_pricing-load_model_pricing models pricing n =
    let rows = replace_model_pricing models pricing in
    lookup-load_prices rows [] n (replace_model_pricing-IsPrimary models pricing)
    ∙ unfold lookup in or_price-none (lookup n rows) ∙ lookup-replace_model_pricing models pricing n
