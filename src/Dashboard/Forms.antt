-- ===== src/Dashboard/Forms.antt =====
-- The texts of the forms of internal/dashboard/handler.go: lists, aliases, and the backends of a model.
-- `strconv.Atoi` is a parameter.
pub mod Aliases
pub mod Roundtrip
pub mod References
use ollama_gateway.Common.{
  ℕ, Text, codes, ◌==◌, trim_space, Option, none, some, List, [], ◌∷◌, ◌++◌, Bool, not, ◌||◌, any,
  eqb, map, is_empty, if◌then◌else◌,
}
use mathlib.Core.Option
use ollama_gateway.Common.Int.{ℤ, is_nonpos}
use ollama_gateway.Common.Table.{Table, lookup, insert}
use ollama_gateway.Common.Sorting.{sort_by}
use ollama_gateway.Backends.Manager.{BackendRef}
use ollama_gateway.Models.Store.{same_text}
use ollama_gateway.Dashboard.Servers.{holds}

abbrev pub comma : ℕ
comma = 44

abbrev pub colon : ℕ
colon = 58

abbrev pub blank : ℕ
blank = 32

abbrev pub put_first : ℕ → List Text → List Text
put_first c [] = (c ∷ []) ∷ []
put_first c (t ∷ ts) = (c ∷ t) ∷ ts

-- `strings.Split` at a separator of one byte
unfoldable pub split : ℕ → Text → List Text
split sep [] = [] ∷ []
split sep (c ∷ s) = let rest = split sep s in if eqb c sep then [] ∷ rest else put_first c rest

-- `strings.SplitN` into two parts
unfoldable pub cut : ℕ → Text → Option (Text × Text)
cut sep [] = none
cut sep (c ∷ s) =
    let rest = cut sep s in
    if eqb c sep then some ([], s) else Option.map (λ (p : Text × Text). (c ∷ p.0, p.1)) rest

-- The loop of `splitCSV`
unfoldable pub add_items : List Text → List Text → List Text
add_items [] items = items
add_items (part ∷ parts) items =
    let item = trim_space part in
    add_items parts (if item == [] || holds item items then items else items ++ (item ∷ []))

-- `splitCSV`
unfoldable pub split_csv : Text → List Text
unfolding split add_items
split_csv input =
    let trimmed = trim_space input in
    if trimmed == [] then [] else add_items (split comma trimmed) []

-- What an item of `parseAliases` says, trimmed.
unfoldable pub read_alias : Text → Option (Text × Text)
unfolding cut
read_alias item = elim (cut colon item) [
  | none ↦ none
  | some (a, b) ↦
      let alias = trim_space a in
      let model = trim_space b in if alias == [] || model == [] then none else some (alias, model)
]

-- The loop of `parseAliases`; `none` is an error.
unfoldable pub add_aliases : List Text → Table Text → Option (Table Text)
unfolding read_alias
add_aliases [] aliases = some aliases
add_aliases (part ∷ parts) aliases =
    let item = trim_space part in
    let skipped = add_aliases parts aliases in
    if item == [] then skipped else elim (read_alias item) [
      | none ↦ none
      | some (alias, model) ↦ add_aliases parts (insert alias model aliases)
    ]

-- `parseAliases`
unfoldable pub parse_aliases : Text → Option (Table Text)
unfolding split add_aliases
parse_aliases input =
    let trimmed = trim_space input in
    if trimmed == [] then some [] else add_aliases (split comma trimmed) []

-- `strings.Join` with a comma and a blank
unfoldable pub join : List Text → Text
join [] = []
join (t ∷ []) = t
join (t ∷ u ∷ ts) = t ++ (comma ∷ blank ∷ join (u ∷ ts))

abbrev pub or_blank : Option Text → Text
or_blank none = []
or_blank (some t) = t

abbrev pub alias_item : Table Text → Text → Text
alias_item aliases k = k ++ (colon ∷ or_blank (lookup k aliases))

abbrev pub keys_of : Table Text → List Text
keys_of aliases = sort_by same_text (map (λ (e : Text × Text). e.0) aliases)

-- `formatAliases`
unfoldable pub format_aliases : Table Text → Text
unfolding join
format_aliases aliases =
    if is_empty aliases then [] else join (map (alias_item aliases) (keys_of aliases))

-- What is wrong with the backends of a model.
pub data RefProblem : Type 0 where
  no_pairs nameless : RefProblem
  malformed unknown bad_weight duplicated : Text → RefProblem

pub data ParsedRefs : Type 0 where
  refs_read : List BackendRef → ParsedRefs
  refs_refused : RefProblem → ParsedRefs

abbrev pub Atoi : Type 0
Atoi = Text → Option ℤ

abbrev pub has_ref : Text → List BackendRef → Bool
has_ref name refs = any (λ (r : BackendRef). r.backend == name) refs

-- The body of the loop of `parseModelBackendRefs` for an item that is not empty, after the refs so far.
unfoldable pub read_ref : Atoi → List Text → List BackendRef → Text → ParsedRefs
unfolding cut
read_ref atoi valid refs item = elim (cut colon item) [
  | none ↦ refs_refused (malformed item)
  | some (a, b) ↦
      let name = trim_space a in
      if name == []
      then refs_refused nameless
      else if not (holds name valid)
      then refs_refused (unknown name)
      else elim (atoi (trim_space b)) [
        | none ↦ refs_refused (bad_weight name)
        | some w ↦
            if is_nonpos w
            then refs_refused (bad_weight name)
            else if has_ref name refs
            then refs_refused (duplicated name)
            else refs_read (refs ++ (record { backend = name; weight = w } ∷ []))
      ]
]

unfoldable pub add_refs_read : Atoi → List Text → List Text → List BackendRef → ParsedRefs
unfolding read_ref
add_refs_read atoi valid [] refs = refs_read refs
add_refs_read atoi valid (part ∷ parts) refs =
    let item = trim_space part in
    let skipped = add_refs_read atoi valid parts refs in
    if item == [] then skipped else elim (read_ref atoi valid refs item) [
      | refs_refused e ↦ refs_refused e
      | refs_read more ↦ add_refs_read atoi valid parts more
    ]

abbrev pub nonempty : ParsedRefs → ParsedRefs
nonempty (refs_refused e) = refs_refused e
nonempty (refs_read []) = refs_refused no_pairs
nonempty (refs_read (r ∷ rs)) = refs_read (r ∷ rs)

-- `parseModelBackendRefs`, with the names of the backends.
unfoldable pub parse_model_backend_refs : Atoi → Text → List Text → ParsedRefs
unfolding split add_refs_read
parse_model_backend_refs atoi input valid =
    let trimmed = trim_space input in
    if trimmed == []
    then refs_refused no_pairs
    else nonempty (add_refs_read atoi valid (split comma trimmed) [])
