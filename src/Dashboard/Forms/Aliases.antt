-- ===== src/Dashboard/Forms/Aliases.antt =====
-- Reading back the aliases that a form shows (`formatAliases` and `parseAliases` of
-- internal/dashboard/handler.go).
use ollama_gateway.Common.{
  ℕ, ◌≡◌, refl, ◌∙◌, inl, inr, Text, ◌==◌, eq_iff, trim_left, trim_right, drop_blank, trim_space,
  is_space, some, List, [], ◌∷◌, ◌++◌, Bool, true, false, not, ◌&&◌, ◌||◌, any, eqb, arith,
  Bool-cases, if◌then◌else◌,
}
use ollama_gateway.Common.Table.{Table, lookup, insert, lookup-insert}
use ollama_gateway.Dashboard.Servers.{holds}
use ollama_gateway.Dashboard.Forms.{comma, colon, blank, split, cut, read_alias, add_aliases}

-- Neither end of the text is blank, and it is not empty.
abbrev pub starts_tidy : Text → Bool
starts_tidy [] = false
starts_tidy (c ∷ s) = not (is_space c)

abbrev pub ends_tidy : Text → Bool
ends_tidy [] = false
ends_tidy (c ∷ []) = not (is_space c)
ends_tidy (c ∷ d ∷ s) = ends_tidy (d ∷ s)

abbrev pub has_byte : ℕ → Text → Bool
has_byte c s = any (λ d. eqb d c) s

abbrev pub is_tidy : Text → Bool
is_tidy t = starts_tidy t && ends_tidy t && not (has_byte comma t)

pub starts_tidy-append : (a b : Text) → starts_tidy a ≡ true → starts_tidy (a ++ b) ≡ true
starts_tidy-append [] b h = cc
starts_tidy-append (c ∷ a) b h = h

pub ends_tidy-cons : (c : ℕ) (s : Text) → ends_tidy s ≡ true → ends_tidy (c ∷ s) ≡ true
ends_tidy-cons c [] h = cc
ends_tidy-cons c (d ∷ s) h = h

pub ends_tidy-append : (a b : Text) → ends_tidy b ≡ true → ends_tidy (a ++ b) ≡ true
ends_tidy-append [] b h = h
ends_tidy-append (c ∷ a) b h = ends_tidy-cons c (a ++ b) (ends_tidy-append a b h)

trim_left-tidy : (s : Text) → starts_tidy s ≡ true → trim_left s ≡ s
unfolding trim_left
trim_left-tidy [] h = cc
trim_left-tidy (c ∷ s) h = ground (arith, h)

trim_right-tidy : (s : Text) → ends_tidy s ≡ true → trim_right s ≡ s
unfolding trim_right drop_blank
trim_right-tidy [] h = refl
trim_right-tidy (c ∷ []) h = ground (arith, h)
trim_right-tidy (c ∷ d ∷ s) h = rw (trim_right-tidy (d ∷ s) h) refl

pub trim_space-tidy : (s : Text) → starts_tidy s ≡ true → ends_tidy s ≡ true → trim_space s ≡ s
unfolding trim_space
trim_space-tidy s h k = rw (trim_left-tidy s h) (trim_right-tidy s k)

pub not_empty : (s : Text) → starts_tidy s ≡ true → (s == []) ≡ false
unfolding ◌==◌
not_empty [] h = cc
not_empty (c ∷ s) h = refl

pub split-alone : (t : Text) → has_byte comma t ≡ false → split comma t ≡ t ∷ []
unfolding split
split-alone [] h = refl
split-alone (c ∷ s) h = elim (Bool-cases (eqb c comma)) [
  | inl e ↦ cc (rw e at h)
  | inr e ↦ rw e (rw (split-alone s (rw e at h)) refl)
]

pub split-append :
    (t s : Text) → has_byte comma t ≡ false → split comma (t ++ (comma ∷ s)) ≡ t ∷ split comma s
unfolding split
split-append [] s h = refl
split-append (c ∷ t) s h = elim (Bool-cases (eqb c comma)) [
  | inl e ↦ cc (rw e at h)
  | inr e ↦ rw e (rw (split-append t s (rw e at h)) refl)
]

cut-append : (a b : Text) → has_byte colon a ≡ false → cut colon (a ++ (colon ∷ b)) ≡ some (a, b)
unfolding cut
cut-append [] b h = refl
cut-append (c ∷ a) b h = elim (Bool-cases (eqb c colon)) [
  | inl e ↦ cc (rw e at h)
  | inr e ↦ rw e (rw (cut-append a b (rw e at h)) refl)
]

-- A blank in front does not count.
pub trim_space-blank : (s : Text) → trim_space (blank ∷ s) ≡ trim_space s
unfolding trim_space trim_left
trim_space-blank s = refl

-- A model may be an alias's value: it has no comma, and the alias no colon either.
abbrev pub is_pair : Text → Text → Bool
is_pair k v = is_tidy k && is_tidy v && not (has_byte colon k)

-- The items that the form shows, for a value of each name.
abbrev pub item : (Text → Text) → Text → Text
item f k = k ++ (colon ∷ f k)

abbrev pub set_all : (Text → Text) → List Text → Table Text → Table Text
set_all f [] t = t
set_all f (k ∷ ks) t = set_all f ks (insert k (f k) t)

pub lookup-set_all :
    (f : Text → Text) (n : Text) (ks : List Text) (t : Table Text)
    → lookup n (set_all f ks t) ≡ (if holds n ks then some (f n) else lookup n t)
lookup-set_all f n [] t = refl
lookup-set_all f n (k ∷ ks) t =
    lookup-set_all f n ks (insert k (f k) t) ∙ elim (Bool-cases (k == n)) [
      | inl e ↦
          let q : k ≡ n = (eq_iff k n).0 e in rw (lookup-insert k n (f k) t, e, q) (ground arith)
      | inr e ↦ rw (lookup-insert k n (f k) t, e) refl
    ]

read_alias-item :
    (f : Text → Text) (k : Text) → is_pair k (f k) ≡ true → read_alias (item f k) ≡ some (k, f k)
unfolding read_alias
read_alias-item f k h =
    let c = cut-append k (f k) (ground (arith, h)) in
    let a = trim_space-tidy k (ground (arith, h)) (ground (arith, h)) in
    let b = trim_space-tidy (f k) (ground (arith, h)) (ground (arith, h)) in
    let p = not_empty k (ground (arith, h)) in
    let q = not_empty (f k) (ground (arith, h)) in rw (c, a, b, p, q, read_alias) refl

pub starts-item :
    (f : Text → Text) (k : Text) → is_pair k (f k) ≡ true → starts_tidy (item f k) ≡ true
starts-item f k h = starts_tidy-append k (colon ∷ f k) (ground (arith, h))

pub ends-item : (f : Text → Text) (k : Text) → is_pair k (f k) ≡ true → ends_tidy (item f k) ≡ true
ends-item f k h = ends_tidy-append k (colon ∷ f k) (ends_tidy-cons colon (f k) (ground (arith, h)))

has_byte-append : (c : ℕ) (a b : Text) → has_byte c (a ++ b) ≡ (has_byte c a || has_byte c b)
has_byte-append c [] b = refl
has_byte-append c (d ∷ a) b = ground (arith, has_byte-append c a b)

pub plain-item :
    (f : Text → Text) (k : Text) → is_pair k (f k) ≡ true → has_byte comma (item f k) ≡ false
plain-item f k h = has_byte-append comma k (colon ∷ f k) ∙ ground (arith, h)

-- One item that is read, alone or after a blank.
pub add_aliases-item :
    (f : Text → Text) (k part : Text) (parts : List Text) (t : Table Text)
    → is_pair k (f k) ≡ true
    → trim_space part ≡ item f k
    → add_aliases (part ∷ parts) t ≡ add_aliases parts (insert k (f k) t)
unfolding add_aliases
add_aliases-item f k part parts t h e =
    rw (e, not_empty (item f k) (starts-item f k h), read_alias-item f k h) refl

-- The texts of the items of a list are those of pairs.
abbrev pub ArePairs : (Text → Text) → List Text → Type 0
ArePairs f ks = (n : Text) → holds n ks ≡ true → is_pair n (f n) ≡ true
