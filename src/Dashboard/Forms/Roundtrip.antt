-- ===== src/Dashboard/Forms/Roundtrip.antt =====
-- The aliases that a form shows are read back (internal/dashboard/handler.go).
use ollama_gateway.Common.{
  ◌≡◌, refl, ◌∙◌, inl, inr, Text, ◌==◌, eq_refl, trim_space, some, List, [], ◌∷◌, true, false, any,
  map, is_empty, arith, Bool-cases, Option-cases,
}
use ollama_gateway.Common.Table.{Table, lookup, lookup-key, key-lookup}
use ollama_gateway.Common.Sorting.{sort_by, any-sort_by, is_empty-sort_by}
use ollama_gateway.Models.Store.{same_text}
use ollama_gateway.Dashboard.Servers.{holds}
use ollama_gateway.Dashboard.Forms.{
  comma, blank, split, add_aliases, parse_aliases, join, or_blank, alias_item, keys_of,
  format_aliases,
}
use ollama_gateway.Dashboard.Forms.Aliases.{
  starts_tidy, ends_tidy, starts_tidy-append, ends_tidy-append, ends_tidy-cons, trim_space-tidy,
  trim_space-blank, not_empty, split-alone, split-append, is_pair, item, set_all, lookup-set_all,
  starts-item, ends-item, plain-item, add_aliases-item, ArePairs,
}

abbrev joined : (Text → Text) → List Text → Text
joined f ks = join (map (item f) ks)

starts-joined :
    (f : Text → Text) (k : Text) (ks : List Text)
    → ArePairs f (k ∷ ks)
    → starts_tidy (joined f (k ∷ ks)) ≡ true
unfolding join
starts-joined f k [] h = starts-item f k (h k (rw (eq_refl k) refl))
starts-joined f k (l ∷ ks) h =
    starts_tidy-append (item f k) (comma ∷ blank ∷ joined f (l ∷ ks))
      (starts-item f k (h k (rw (eq_refl k) refl)))

ArePairs-rest : (f : Text → Text) (k : Text) (ks : List Text) → ArePairs f (k ∷ ks) → ArePairs f ks
ArePairs-rest f k ks h n e = h n (ground (arith, e))

ends-joined :
    (f : Text → Text) (k : Text) (ks : List Text)
    → ArePairs f (k ∷ ks)
    → ends_tidy (joined f (k ∷ ks)) ≡ true
unfolding join
ends-joined f k [] h = ends-item f k (h k (rw (eq_refl k) refl))
ends-joined f k (l ∷ ks) h =
    let rest = joined f (l ∷ ks) in
    ends_tidy-append (item f k) (comma ∷ blank ∷ rest) (
      ends_tidy-cons comma (blank ∷ rest)
        (ends_tidy-cons blank rest (ends-joined f l ks (ArePairs-rest f k (l ∷ ks) h))))

-- Reading the items of a list, each after whatever blank stands in front of the first.
read_all :
    (f : Text → Text) (k : Text) (ks : List Text) (part : Text) (t : Table Text)
    → ArePairs f (k ∷ ks)
    → trim_space part ≡ item f k
    → add_aliases (part ∷ map (λ l. blank ∷ item f l) ks) t ≡ some (set_all f (k ∷ ks) t)
unfolding add_aliases
read_all f k [] part t h e = add_aliases-item f k part [] t (h k (rw (eq_refl k) refl)) e
read_all f k (l ∷ ks) part t h e =
    let g = ArePairs-rest f k (l ∷ ks) h in
    let p = g l (rw (eq_refl l) refl) in
    add_aliases-item f k part (map (λ l. blank ∷ item f l) (l ∷ ks)) t (h k (rw (eq_refl k) refl)) e
    ∙ read_all f l ks (blank ∷ item f l) _ g (
        trim_space-blank (item f l)
        ∙ trim_space-tidy (item f l) (starts-item f l p) (ends-item f l p))

split-joined :
    (f : Text → Text) (k : Text) (ks : List Text)
    → ArePairs f (k ∷ ks)
    → split comma (joined f (k ∷ ks)) ≡ item f k ∷ map (λ l. blank ∷ item f l) ks
unfolding join split
split-joined f k [] h = split-alone (item f k) (plain-item f k (h k (rw (eq_refl k) refl)))
split-joined f k (l ∷ ks) h =
    split-append (item f k) (blank ∷ joined f (l ∷ ks)) (plain-item f k (h k (rw (eq_refl k) refl)))
    ∙ rw (split-joined f l ks (ArePairs-rest f k (l ∷ ks) h)) refl

parse-joined :
    (f : Text → Text) (k : Text) (ks : List Text)
    → ArePairs f (k ∷ ks)
    → parse_aliases (joined f (k ∷ ks)) ≡ some (set_all f (k ∷ ks) [])
unfolding parse_aliases
parse-joined f k ks h =
    let s = starts-joined f k ks h in
    let p = h k (rw (eq_refl k) refl) in
    rw
      (
        trim_space-tidy (joined f (k ∷ ks)) s (ends-joined f k ks h),
        not_empty (joined f (k ∷ ks)) s,
        split-joined f k ks h,
      )
      (read_all f k ks (item f k) [] h
        (trim_space-tidy (item f k) (starts-item f k p) (ends-item f k p)))

holds-keys :
    (n : Text) (m : Table Text)
    → holds n (map (λ (e : Text × Text). e.0) m) ≡ any (λ (e : Text × Text). e.0 == n) m
holds-keys n [] = refl
holds-keys n ((k, v) ∷ m) = rw (holds-keys n m) refl

holds-keys_of :
    (n : Text) (m : Table Text) → holds n (keys_of m) ≡ any (λ (e : Text × Text). e.0 == n) m
holds-keys_of n m =
    any-sort_by same_text (λ x. x == n) (map (λ (e : Text × Text). e.0) m) ∙ holds-keys n m

abbrev value_in : Table Text → Text → Text
value_in m n = or_blank (lookup n m)

-- A table that is filled from the keys of another is the same table.
lookup-refilled :
    (n : Text) (m : Table Text) → lookup n (set_all (value_in m) (keys_of m) []) ≡ lookup n m
unfolding lookup
lookup-refilled n m =
    lookup-set_all (value_in m) n (keys_of m) [] ∙ elim (Option-cases (lookup n m)) [
      | inl e ↦ rw (holds-keys_of n m, key-lookup n m e, e) refl
      | inr (v, e) ↦ elim (Bool-cases (any (λ (p : Text × Text). p.0 == n) m)) [
        | inl f ↦ rw (holds-keys_of n m, f, e) refl
        | inr f ↦ cc (lookup-key n m f, e)
      ]
    ]

keys_of-ArePairs :
    (m : Table Text)
    → ((n v : Text) → lookup n m ≡ some v → is_pair n v ≡ true)
    → ArePairs (value_in m) (keys_of m)
keys_of-ArePairs m h n e = elim (Option-cases (lookup n m)) [
  | inl q ↦ cc (key-lookup n m q, holds-keys_of n m, e)
  | inr (v, q) ↦ rw q (h n v q)
]

parse-keys :
    (m : Table Text) (ks : List Text)
    → ArePairs (value_in m) ks
    → is_empty ks ≡ false
    → parse_aliases (join (map (alias_item m) ks)) ≡ some (set_all (value_in m) ks [])
parse-keys m [] h e = cc
parse-keys m (k ∷ ks) h e = parse-joined (value_in m) k ks h

parse-format :
    (m : Table Text)
    → ((n v : Text) → lookup n m ≡ some v → is_pair n v ≡ true)
    → parse_aliases (format_aliases m) ≡ some (set_all (value_in m) (keys_of m) [])
unfolding format_aliases parse_aliases trim_space sort_by ◌==◌
parse-format [] h = refl
parse-format (e ∷ m) h =
    parse-keys (e ∷ m) (keys_of (e ∷ m)) (keys_of-ArePairs (e ∷ m) h)
      (is_empty-sort_by same_text (map (λ (e : Text × Text). e.0) (e ∷ m)))

-- The aliases that the form shows are read back as they are, if each name and model has no comma, no
-- blank at its ends and is not empty, and if the name has no colon (a model may).
pub parse_aliases-format_aliases :
    (m : Table Text)
    → ((n v : Text) → lookup n m ≡ some v → is_pair n v ≡ true)
    → (m' : Table Text) × (parse_aliases (format_aliases m) ≡ some m')
      × ((n : Text) → lookup n m' ≡ lookup n m)
parse_aliases-format_aliases m h =
    (set_all (value_in m) (keys_of m) [], parse-format m h, λ n. lookup-refilled n m)
