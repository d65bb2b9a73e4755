-- ===== src/Models/Resolution.antt =====
-- `ResolveModel` of internal/models/registry.go against the rules of access.
use ollama_gateway.Common.{
  ◌≡◌, ◌≢◌, ◌↔◌, refl, sym, ap, ◌∙◌, ◌⊎◌, inl, inr, Text, ◌==◌, eq_iff, Option, none, some, List,
  [], ◌∷◌, true, false, arith, Any, Bool-cases, Option-cases, eq_of_some, is_empty,
}
use mathlib.Core.Path.{subst}
use ollama_gateway.Common.Table.{Table, lookup}
use ollama_gateway.Models.{
  ModelEntry, Registry, UserOverrides, model_not_found, model_denied, model_not_allowed, Result, ok,
  err, normalize, alias_for, resolve_name, names, check_access, resolve_model,
}

empty_true : (xs : List Text) → is_empty xs ≡ true → xs ≡ []
empty_true [] h = refl
empty_true (x ∷ xs) h = cc

empty_false : (xs : List Text) → is_empty xs ≡ false → xs ≢ []
empty_false xs h e = cc (ap (λ (l : List Text). is_empty l) e)

-- Some name of the list stands for the model.
abbrev pub Names : Text → List Text → Type 0
Names n xs = Any (λ x. normalize x ≡ n) xs

-- The user's aliases have a model under the name; one that is empty does not count.
abbrev pub IsAlias : Table Text → Text → Text → Type 0
IsAlias aliases k a = (lookup k aliases ≡ some a) × (a ≢ [])

-- The model that a requested name stands for: that of its alias as it is written, else that of the alias of
-- its normal form, else itself, in normal form.
pub data StandsFor (requested : Text) (aliases : Table Text) : Text → Type 0 where
  as_written : (a : Text) → IsAlias aliases requested a → StandsFor requested aliases (normalize a)
  as_normal :
      (a : Text)
      → ((b : Text) → ¬ IsAlias aliases requested b)
      → IsAlias aliases (normalize requested) a
      → StandsFor requested aliases (normalize a)
  as_itself :
      ((b : Text) → ¬ IsAlias aliases requested b)
      → ((b : Text) → ¬ IsAlias aliases (normalize requested) b)
      → StandsFor requested aliases (normalize requested)

alias_for_cases :
    (k : Text) (aliases : Table Text)
    → ((a : Text) × (alias_for k aliases ≡ some a) × IsAlias aliases k a)
      ⊎ ((alias_for k aliases ≡ none) × ((b : Text) → ¬ IsAlias aliases k b))
unfolding alias_for
alias_for_cases k aliases = elim (Option-cases (lookup k aliases)) [
  | inl e ↦ inr (rw (e, alias_for) refl, λ b q. cc (q.0, e))
  | inr (a, e) ↦ elim (Bool-cases (a == [])) [
    | inl f ↦ inr (
      rw (e, alias_for) (rw f refl),
      λ b q. let same : a ≡ b = eq_of_some (sym e ∙ q.0) in q.1 (sym same ∙ (eq_iff a []).0 f),
    )
    | inr f ↦ inl (a, rw (e, alias_for) (rw f refl), (e, λ q. ground (arith, eq_iff a [], q, f)))
  ]
]

resolve_name-StandsFor :
    (requested : Text) (aliases : Table Text)
    → StandsFor requested aliases (resolve_name requested aliases)
unfolding resolve_name
resolve_name-StandsFor requested aliases = elim (alias_for_cases requested aliases) [
  | inl (a, e, h) ↦ rw (e, resolve_name) (as_written a h)
  | inr (e, h) ↦ elim (alias_for_cases (normalize requested) aliases) [
    | inl (a, f, k) ↦ rw (e, f, resolve_name) (as_normal a h k)
    | inr (f, k) ↦ rw (e, f, resolve_name) (as_itself h k)
  ]
]

same_alias :
    (k : Text) (aliases : Table Text) (a : Text)
    → IsAlias aliases k a
    → alias_for k aliases ≡ some a
same_alias k aliases a h = elim (alias_for_cases k aliases) [
  | inl (b, e, q) ↦ e ∙ (sym (q.0) ∙ h.0)
  | inr (e, q) ↦ absurd (q a h)
]

no_alias :
    (k : Text) (aliases : Table Text)
    → ((b : Text) → ¬ IsAlias aliases k b)
    → alias_for k aliases ≡ none
no_alias k aliases h = elim (alias_for_cases k aliases) [
  | inl (b, e, q) ↦ absurd (h b q)
  | inr (e, q) ↦ e
]

-- A name stands for one model.
pub StandsFor-resolve_name :
    {requested : Text} {aliases : Table Text} {n : Text}
    → StandsFor requested aliases n
    → n ≡ resolve_name requested aliases
unfolding resolve_name
StandsFor-resolve_name {requested} {aliases} (as_written a h) =
    rw (same_alias requested aliases a h, resolve_name) refl
StandsFor-resolve_name {requested} {aliases} (as_normal a h k) =
    rw (no_alias requested aliases h, same_alias (normalize requested) aliases a k, resolve_name)
      refl
StandsFor-resolve_name {requested} {aliases} (as_itself h k) =
    rw (no_alias requested aliases h, no_alias (normalize requested) aliases k, resolve_name) refl

-- The access rules: the catalog comes first, then the deny list, then the allow list.
pub data Resolves (requested : Text) (registry : Registry) (o : UserOverrides)
    : Result (Text × List Text) → Type 0 where
  missing :
      (n : Text)
      → StandsFor requested o.aliases n
      → lookup n registry ≡ none
      → Resolves requested registry o (err (model_not_found requested))
  denied :
      (n : Text) (entry : ModelEntry)
      → StandsFor requested o.aliases n
      → lookup n registry ≡ some entry
      → Names n o.deny
      → Resolves requested registry o (err (model_denied requested))
  not_allowed :
      (n : Text) (entry : ModelEntry)
      → StandsFor requested o.aliases n
      → lookup n registry ≡ some entry
      → ¬ Names n o.deny
      → o.allow ≢ []
      → ¬ Names n o.allow
      → Resolves requested registry o (err (model_not_allowed requested o.allow))
  granted :
      (n : Text) (entry : ModelEntry)
      → StandsFor requested o.aliases n
      → lookup n registry ≡ some entry
      → ¬ Names n o.deny
      → (o.allow ≡ []) ⊎ Names n o.allow
      → Resolves requested registry o (ok (n, entry.backends))

pub names-true : (n : Text) (xs : List Text) → names n xs ≡ true → Names n xs
unfolding names
names-true n [] h = cc
names-true n (x ∷ xs) h = elim (Bool-cases (normalize x == n)) [
  | inl e ↦ inl ((eq_iff (normalize x) n).0 e)
  | inr e ↦ inr (names-true n xs (unfold names in ground arith))
]

pub names-false : (n : Text) (xs : List Text) → names n xs ≡ false → ¬ Names n xs
unfolding names
names-false n [] h q = q
names-false n (x ∷ xs) h (inl q) = ground (arith, eq_iff (normalize x) n)
names-false n (x ∷ xs) h (inr q) = names-false n xs (ground arith) q

check_access-Resolves :
    (requested : Text) (registry : Registry) (o : UserOverrides) (n : Text) (entry : ModelEntry)
    → StandsFor requested o.aliases n
    → lookup n registry ≡ some entry
    → Resolves requested registry o (check_access requested n entry o)
unfolding check_access
check_access-Resolves requested registry o n entry e l = elim (Bool-cases (names n o.deny)) [
  | inl d ↦ rw (d, check_access) (denied n entry e l (names-true n o.deny d))
  | inr d ↦
      let kept = names-false n o.deny d in
      elim (Bool-cases (is_empty o.allow)) [
        | inl a ↦
            rw (d, check_access) (rw a (granted n entry e l kept (inl (empty_true o.allow a))))
        | inr a ↦ elim (Bool-cases (names n o.allow)) [
          | inl b ↦
              rw (d, check_access)
                (rw a (rw b (granted n entry e l kept (inr (names-true n o.allow b)))))
          | inr b ↦
              rw (d, check_access)
                (rw a (
                  rw b (
                    not_allowed n entry e l kept (empty_false o.allow a)
                      (names-false n o.allow b))))
        ]
      ]
]

-- The code follows the access rules.
resolve_model_lem :
    (requested : Text) (registry : Registry) (o : UserOverrides)
    → Resolves requested registry o (resolve_model requested registry o)
unfolding resolve_model
resolve_model_lem requested registry o =
    let n = resolve_name requested o.aliases in
    elim (Option-cases (lookup n registry)) [
      | inl e ↦ rw (e, resolve_model) (missing n (resolve_name-StandsFor requested o.aliases) e)
      | inr (entry, e) ↦
          rw (e, resolve_model)
            (check_access-Resolves requested registry o n entry
              (resolve_name-StandsFor requested o.aliases) e)
    ]

Names-true : (n : Text) (xs : List Text) → Names n xs → names n xs ≡ true
Names-true n xs h = elim (Bool-cases (names n xs)) [
  | inl e ↦ e
  | inr e ↦ absurd (names-false n xs e h)
]

Names-false : (n : Text) (xs : List Text) → ¬ Names n xs → names n xs ≡ false
Names-false n xs h = elim (Bool-cases (names n xs)) [
  | inl e ↦ absurd (h (names-true n xs e))
  | inr e ↦ e
]

not_empty : (xs : List Text) → xs ≢ [] → is_empty xs ≡ false
not_empty [] h = absurd (h refl)
not_empty (x ∷ xs) h = refl

at_name :
    (registry : Registry) (n m : Text) {r : Option ModelEntry}
    → n ≡ m
    → lookup n registry ≡ r
    → lookup m registry ≡ r
at_name registry n m e l = sym (ap (λ k. lookup k registry) e) ∙ l

resolve_found :
    (requested : Text) (registry : Registry) (o : UserOverrides) (n : Text) (entry : ModelEntry)
    → n ≡ resolve_name requested o.aliases
    → lookup n registry ≡ some entry
    → resolve_model requested registry o ≡ check_access requested n entry o
unfolding resolve_model
resolve_found requested registry o n entry e l =
    rw (at_name registry n (resolve_name requested o.aliases) e l, resolve_model)
      (ap (λ m. check_access requested m entry o) (sym e))

resolve_missing :
    (requested : Text) (registry : Registry) (o : UserOverrides) (n : Text)
    → n ≡ resolve_name requested o.aliases
    → lookup n registry ≡ none
    → resolve_model requested registry o ≡ err (model_not_found requested)
unfolding resolve_model
resolve_missing requested registry o n e l =
    rw (at_name registry n (resolve_name requested o.aliases) e l, resolve_model) refl

access_granted :
    (requested : Text) (o : UserOverrides) (n : Text) (entry : ModelEntry)
    → ¬ Names n o.deny
    → (o.allow ≡ []) ⊎ Names n o.allow
    → check_access requested n entry o ≡ ok (n, entry.backends)
unfolding check_access
access_granted requested o n entry d (inl a) = rw (Names-false n o.deny d, check_access) (rw a refl)
access_granted requested o n entry d (inr b) = elim (Bool-cases (is_empty o.allow)) [
  | inl a ↦ rw (Names-false n o.deny d, check_access) (rw a refl)
  | inr a ↦ rw (Names-false n o.deny d, check_access) (rw a (rw (Names-true n o.allow b) refl))
]

-- The access rules leave no other result.
pub Resolves-unique :
    {requested : Text} {registry : Registry} {o : UserOverrides} {r : Result (Text × List Text)}
    → Resolves requested registry o r
    → resolve_model requested registry o ≡ r
unfolding check_access
Resolves-unique {requested} {registry} {o} (missing n e l) =
    resolve_missing requested registry o n (StandsFor-resolve_name e) l
Resolves-unique {requested} {registry} {o} (denied n entry e l d) =
    resolve_found requested registry o n entry (StandsFor-resolve_name e) l
    ∙ rw (Names-true n o.deny d, check_access) refl
Resolves-unique {requested} {registry} {o} (not_allowed n entry e l d a b) =
    resolve_found requested registry o n entry (StandsFor-resolve_name e) l
    ∙ rw (Names-false n o.deny d, check_access)
        (rw (not_empty o.allow a) (rw (Names-false n o.allow b) refl))
Resolves-unique {requested} {registry} {o} (granted n entry e l d a) =
    resolve_found requested registry o n entry (StandsFor-resolve_name e) l
    ∙ access_granted requested o n entry d a

-- The access rules give exactly one result, which is the code's: a name stands for a model by the user's
-- aliases; a model that the catalog has not is not found; of the others, one that a name of the deny list
-- stands for in normal form is denied; one that the allow list does not name is not allowed, unless the
-- list is empty; and else the backends of its entry are given.
pub resolve_model-Resolves :
    (requested : Text) (registry : Registry) (o : UserOverrides) (r : Result (Text × List Text))
    → Resolves requested registry o r ↔ (resolve_model requested registry o ≡ r)
resolve_model-Resolves requested registry o r = (
  λ h. Resolves-unique h,
  λ e. subst (Resolves requested registry o) e (resolve_model_lem requested registry o),
)
