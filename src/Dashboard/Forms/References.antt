-- ===== src/Dashboard/Forms/References.antt =====
-- What the backends of a model look like once `parseModelBackendRefs` of internal/dashboard/handler.go has
-- read them, and the lists of `splitCSV`.
use ollama_gateway.Common.{
  ◌≡◌, refl, ◌∙◌, inl, inr, Text, ◌==◌, eq_iff, trim_space, List, [], ◌∷◌, ◌++◌, Bool, true, false,
  not, ◌&&◌, ◌||◌, any-append, is_empty, arith, Bool-cases, Option-cases,
}
use ollama_gateway.Common.Int.{is_nonpos}
use ollama_gateway.Backends.Manager.{BackendRef}
use ollama_gateway.Dashboard.Servers.{holds}
use ollama_gateway.Dashboard.Forms.{
  comma, colon, split, cut, ParsedRefs, refs_read, refs_refused, Atoi, has_ref, read_ref,
  add_refs_read, nonempty, parse_model_backend_refs,
}

-- Each backend is one of the valid ones, with a positive weight, and named once.
abbrev pub are_sound : List Text → List BackendRef → Bool
are_sound valid [] = true
are_sound valid (r ∷ refs) =
    not (r.backend == [])
    && holds r.backend valid
    && not (is_nonpos r.weight)
    && not (has_ref r.backend refs)
    && are_sound valid refs

-- What was read is sound; a refusal says nothing.
abbrev pub ReadsSound : List Text → ParsedRefs → Type 0
ReadsSound valid (refs_refused e) = Unit
ReadsSound valid (refs_read refs) = are_sound valid refs ≡ true

has_ref-append :
    (name : Text) (refs : List BackendRef) (r : BackendRef)
    → has_ref name (refs ++ (r ∷ [])) ≡ (has_ref name refs || r.backend == name)
has_ref-append name refs r =
    any-append (λ (q : BackendRef). q.backend == name) refs (r ∷ []) ∙ ground arith

-- A backend that may stand in the list.
abbrev is_valid : List Text → BackendRef → Bool
is_valid valid r = not (r.backend == []) && holds r.backend valid && not (is_nonpos r.weight)

sound-append :
    (valid : List Text) (refs : List BackendRef) (r : BackendRef)
    → are_sound valid refs ≡ true
    → is_valid valid r ≡ true
    → has_ref r.backend refs ≡ false
    → are_sound valid (refs ++ (r ∷ [])) ≡ true
sound-append valid [] r h k f = ground (arith, k)
sound-append valid (q ∷ refs) r h k f = rw (has_ref-append q.backend refs r) (
    ground (
      arith,
      h,
      f,
      eq_iff q.backend r.backend,
      eq_iff r.backend q.backend,
      sound-append valid refs r (ground (arith, h)) k (ground (arith, f)),
    ))

read_ref_sound :
    (atoi : Atoi) (valid : List Text) (refs : List BackendRef) (item : Text)
    → are_sound valid refs ≡ true
    → ReadsSound valid (read_ref atoi valid refs item)
unfolding read_ref
read_ref_sound atoi valid refs item h = elim (Option-cases (cut colon item)) [
  | inl e ↦ rw (e, read_ref) tt
  | inr ((a, b), e) ↦ elim (Bool-cases (trim_space a == [])) [
    | inl f ↦ rw (e, f, read_ref) tt
    | inr f ↦ elim (Bool-cases (holds (trim_space a) valid)) [
      | inr g ↦ rw (e, f, g, read_ref) tt
      | inl g ↦ elim (Option-cases (atoi (trim_space b))) [
        | inl i ↦ rw (e, f, g, i, read_ref) tt
        | inr (w, i) ↦ elim (Bool-cases (is_nonpos w)) [
          | inl j ↦ rw (e, f, g, i, j, read_ref) tt
          | inr j ↦ elim (Bool-cases (has_ref (trim_space a) refs)) [
            | inl l ↦ rw (e, f, g, i, j, l, read_ref) tt
            | inr l ↦
                let r : BackendRef = record { backend = trim_space a; weight = w } in
                rw (e, f, g, i, j, l, read_ref)
                  (sound-append valid refs r h (ground (arith, f, g, j)) l)
          ]
        ]
      ]
    ]
  ]
]

onwards :
    (valid : List Text) (next : List BackendRef → ParsedRefs) (p : ParsedRefs)
    → ((refs : List BackendRef) → are_sound valid refs ≡ true → ReadsSound valid (next refs))
    → ReadsSound valid p
    → ReadsSound valid (elim p [ refs_refused e ↦ refs_refused e | refs_read more ↦ next more ])
onwards valid next (refs_refused e) f h = tt
onwards valid next (refs_read more) f h = f more h

add_refs_read_sound :
    (atoi : Atoi) (valid : List Text) (parts : List Text) (refs : List BackendRef)
    → are_sound valid refs ≡ true
    → ReadsSound valid (add_refs_read atoi valid parts refs)
unfolding add_refs_read
add_refs_read_sound atoi valid [] refs h = h
add_refs_read_sound atoi valid (part ∷ parts) refs h = elim (Bool-cases (trim_space part == [])) [
  | inl e ↦ rw e (add_refs_read_sound atoi valid parts refs h)
  | inr e ↦ rw e (
      onwards valid (add_refs_read atoi valid parts) (read_ref atoi valid refs (trim_space part))
        (λ more k. add_refs_read_sound atoi valid parts more k)
        (read_ref_sound atoi valid refs (trim_space part) h))
]

-- The reading ends in backends for the model, at least one, or it is refused.
abbrev pub ReadsWell : List Text → ParsedRefs → Type 0
ReadsWell valid (refs_refused e) = Unit
ReadsWell valid (refs_read refs) = (are_sound valid refs ≡ true) × (is_empty refs ≡ false)

nonempty_sound :
    (valid : List Text) (p : ParsedRefs) → ReadsSound valid p → ReadsWell valid (nonempty p)
nonempty_sound valid (refs_refused e) h = tt
nonempty_sound valid (refs_read []) h = tt
nonempty_sound valid (refs_read (r ∷ refs)) h = (h, refl)

-- The backends that the form for a model is read as, if it is not refused, are at least one, each of them
-- is a backend that exists and has a positive weight, and none is named twice.
pub parse_model_backend_refs_sound :
    (atoi : Atoi) (input : Text) (valid : List Text)
    → ReadsWell valid (parse_model_backend_refs atoi input valid)
unfolding parse_model_backend_refs
parse_model_backend_refs_sound atoi input valid = elim (Bool-cases (trim_space input == [])) [
  | inl e ↦ rw e tt
  | inr e ↦ rw e (
      nonempty_sound valid (add_refs_read atoi valid (split comma (trim_space input)) [])
        (add_refs_read_sound atoi valid (split comma (trim_space input)) [] refl))
]
