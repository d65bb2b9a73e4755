-- ===== src/Models/Discovery/Found.antt =====
-- What the catalog of internal/models/discovery.go has of the backends' answers.
use ollama_gateway.Common.{
  suc, ◌+◌, ◌≡◌, ◌≢◌, refl, sym, ap, ◌∙◌, inl, inr, Text, ◌==◌, eq_iff, Option, none, some, List,
  [], ◌∷◌, Bool, true, false, any, ◌&&◌, ◌||◌, length, arith, leb, ltb, trim_space, trim_left,
  trim_right, to_lower, has_suffix, Bool-cases, Option-cases,
}
use ollama_gateway.Common.Int.{ℤ}
use ollama_gateway.Common.Table.{lookup}
use ollama_gateway.Backends.{BackendConfig}
use ollama_gateway.Models.{normalize}
use ollama_gateway.Models.Catalog.{CatalogEntry, Catalog, member}
use ollama_gateway.Models.Catalog.Merging.{refers, refers-append, serves, serves-insert}
use ollama_gateway.Models.Discovery.{
  TagsAnswer, distinct_names, discover_backend_models, entry_or_new, refers_to, with_backend,
  add_model, add_models, Discovery, discover_one, discover_all, discover_catalog,
}

refers-with_backend :
    (b backend : Text) (w : ℤ) (e : CatalogEntry)
    → refers b (with_backend backend w e).backends ≡ (refers b e.backends || (backend == b))
unfolding with_backend
refers-with_backend b backend w e = elim (Bool-cases (refers_to backend e)) [
  | inl h ↦ rw h (elim (Bool-cases (backend == b)) [
    | inl q ↦
        let on : refers b e.backends ≡ true =
          ap (λ x. refers x e.backends) (sym ((eq_iff backend b).0 q)) ∙ h in
        rw q (rw on refl)
    | inr q ↦ rw q (ground arith)
  ])
  | inr h ↦
      rw h (refers-append b (record { backend = backend; weight = w }) e.backends ∙ ground arith)
]

refers-entry_or_new :
    (n b : Text) (m : Catalog) → refers b (entry_or_new n (lookup n m)).backends ≡ serves n b m
unfolding serves
refers-entry_or_new n b m = elim (Option-cases (lookup n m)) [
  | inl e ↦ rw (e, serves) refl
  | inr (x, e) ↦ rw (e, serves) refl
]

serves-add_model :
    (n b backend : Text) (w : ℤ) (raw : Text) (m : Catalog)
    → n ≢ []
    → serves n b (add_model backend w raw m)
      ≡ (serves n b m || ((backend == b) && (normalize raw == n)))
unfolding add_model
serves-add_model n b backend w raw m far = elim (Bool-cases (normalize raw == [])) [
  | inl e ↦ rw e (ground (arith, eq_iff (normalize raw) [], eq_iff (normalize raw) n))
  | inr e ↦
      let name = normalize raw in
      let new = with_backend backend w (entry_or_new name (lookup name m)) in
      rw e (
        serves-insert n b name new m ∙ elim (Bool-cases (name == n)) [
          | inl h ↦
              let same : serves name b m ≡ serves n b m =
                ap (λ x. serves x b m) ((eq_iff name n).0 h) in
              rw h (
                refers-with_backend b backend w (entry_or_new name (lookup name m))
                ∙ rw (refers-entry_or_new name b m ∙ same) (ground arith))
          | inr h ↦ rw h (ground arith)
        ])
]

-- Some name of the answer normalizes to `n`.
abbrev pub lists : Text → List Text → Bool
lists n ms = any (λ m. normalize m == n) ms

serves-add_models :
    (n b backend : Text) (w : ℤ) (ms : List Text) (m : Catalog)
    → n ≢ []
    → serves n b (add_models backend w ms m) ≡ (serves n b m || ((backend == b) && lists n ms))
unfolding add_models
serves-add_models n b backend w [] m far = ground arith
serves-add_models n b backend w (raw ∷ ms) m far =
    serves-add_models n b backend w ms (add_model backend w raw m) far
    ∙ rw (serves-add_model n b backend w raw m far) (ground arith)

abbrev lists_opt : Text → Option (List Text) → Bool
lists_opt n none = false
lists_opt n (some ms) = lists n ms

-- Some name of the answer, without the blanks around it, normalizes to `n`.
abbrev pub offers : Text → List Text → Bool
offers n ms = any (λ m. normalize (trim_space m) == n) ms

abbrev pub offers_opt : Text → Option (List Text) → Bool
offers_opt n none = false
offers_opt n (some ms) = offers n ms

-- The backend was reached, answered with a status from 200 to 299, and the body was decoded and has the
-- model.
abbrev pub offered : Text → Option TagsAnswer → Bool
offered n none = false
offered n (some a) = leb 200 a.status && ltb a.status 300 && offers_opt n a.names

lists-member :
    (n x : Text) (seen : List Text)
    → member x seen ≡ true
    → (normalize x == n) ≡ true
    → lists n seen ≡ true
lists-member n x [] h k = cc
lists-member n x (y ∷ seen) h k = elim (Bool-cases (y == x)) [
  | inl e ↦ rw (ap (λ t. normalize t == n) ((eq_iff y x).0 e) ∙ k) refl
  | inr e ↦ ground (arith, lists-member n x seen (rw e at h) k)
]

nothing_named : (n : Text) → n ≢ [] → (normalize [] == n) ≡ false
unfolding normalize trim_space trim_left trim_right to_lower has_suffix ◌==◌
nothing_named [] far = absurd (far refl)
nothing_named (c ∷ n) far = refl

-- What is left of the names still has the model, or it has been seen.
lists-distinct_names :
    (n : Text) (seen names : List Text)
    → n ≢ []
    → (lists n seen || lists n (distinct_names seen names)) ≡ (lists n seen || offers n names)
unfolding distinct_names
lists-distinct_names n seen [] far = refl
lists-distinct_names n seen (raw ∷ names) far =
    let name = trim_space raw in
    elim (Bool-cases (name == [])) [
      | inl e ↦
          let blank : (normalize name == n) ≡ false =
            ap (λ x. normalize x == n) ((eq_iff name []).0 e) ∙ nothing_named n far in
          rw e (rw blank (lists-distinct_names n seen names far))
      | inr e ↦ elim (Bool-cases (member name seen)) [
        | inl m ↦ rw e (
            rw m
              (ground (arith, lists-distinct_names n seen names far, lists-member n name seen m)))
        | inr m ↦ rw e (rw m (ground (arith, lists-distinct_names n (name ∷ seen) names far)))
      ]
    ]

lists-discover_backend_models :
    (n : Text) (a : Option TagsAnswer)
    → n ≢ []
    → lists_opt n (discover_backend_models a) ≡ offered n a
unfolding discover_backend_models
lists-discover_backend_models n none far = refl
lists-discover_backend_models n (some a) far =
    elim (Bool-cases (ltb a.status 200 || leb 300 a.status)) [
      | inl e ↦ rw e (ground (arith, e))
      | inr e ↦ rw e (elim (Option-cases (a.names)) [
        | inl q ↦ rw q (ground arith)
        | inr (ms, q) ↦ rw q (ground (arith, e, lists-distinct_names n [] ms far))
      ])
    ]

-- The backend of that name answered, with a list that has the model.
abbrev pub reported : Text → Text → List (BackendConfig × Option TagsAnswer) → Bool
reported n b answers =
    any (λ (a : BackendConfig × Option TagsAnswer). (a.0.name == b) && offered n a.1) answers

serves-discover_one :
    (n b : Text) (c : BackendConfig) (o : Option (List Text)) (d : Discovery)
    → n ≢ []
    → serves n b (discover_one c o d).catalog
      ≡ (serves n b d.catalog || ((c.name == b) && lists_opt n o))
unfolding discover_one
serves-discover_one n b c none d far = ground arith
serves-discover_one n b c (some ms) d far = serves-add_models n b c.name _ ms d.catalog far

serves-discover_all :
    (n b : Text) (answers : List (BackendConfig × Option TagsAnswer)) (d : Discovery)
    → n ≢ []
    → serves n b (discover_all answers d).catalog ≡ (serves n b d.catalog || reported n b answers)
unfolding discover_all
serves-discover_all n b [] d far = ground arith
serves-discover_all n b ((c, a) ∷ more) d far =
    serves-discover_all n b more (discover_one c (discover_backend_models a) d) far
    ∙ rw (serves-discover_one n b c (discover_backend_models a) d far)
        (rw (lists-discover_backend_models n a far) (ground arith))

counted :
    (answers : List (BackendConfig × Option TagsAnswer)) (d : Discovery)
    → (discover_all answers d).successful + (discover_all answers d).failed
      ≡ d.successful + d.failed + length answers
unfolding discover_all discover_one
counted [] d = omega arith
counted ((c, a) ∷ more) d = elim (Option-cases (discover_backend_models a)) [
  | inl e ↦ rw (e, discover_all) (omega (arith, counted more (record d { failed = suc d.failed })))
  | inr (ms, e) ↦ rw (e, discover_all) (omega (arith, counted more (discover_one c (some ms) d)))
]

-- The catalog has a backend under a model exactly if that backend answered, with a status from 200 to
-- 299 and a body that was decoded, and one of the names in it normalizes to the model's, whichever
-- backends failed; and every backend is counted once, as one that answered or as one that failed.
pub discover_catalog-serves :
    (answers : List (BackendConfig × Option TagsAnswer)) (n b : Text)
    → n ≢ []
    → let d = (discover_catalog answers).0 in
      (serves n b d.catalog ≡ reported n b answers) × (d.successful + d.failed ≡ length answers)
unfolding discover_catalog
discover_catalog-serves answers n b far =
    let d : Discovery = record { catalog = []; successful = 0; failed = 0 } in
    (
      serves-discover_all n b answers d far ∙ (unfold serves lookup in refl),
      omega (arith, counted answers d),
    )
