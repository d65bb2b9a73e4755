-- ===== src/Models/Catalog/Merging.antt =====
-- `NormalizeCatalog` of internal/models/normalize.go: what the normalized catalog has of the given one.
use ollama_gateway.Common.{
  ◌≡◌, ◌≢◌, refl, ap, ◌∙◌, inl, inr, Text, ◌==◌, eq_iff, none, some, List, [], ◌∷◌, ◌++◌, Bool,
  true, false, arith, any, ◌&&◌, ◌||◌, Bool-cases, Option-cases, if◌then◌else◌,
}
use ollama_gateway.Common.Table.{lookup, insert, lookup-insert}
use ollama_gateway.Models.{normalize}
use ollama_gateway.Backends.Manager.{BackendRef}
use ollama_gateway.Models.Catalog.{
  CatalogEntry, Catalog, Merge, member, add_ref, add_refs, start_merge, current_entry, merged_entry,
  merge_entry, normalize_into, normalize_catalog,
}

-- Whether the references have the backend.
abbrev pub refers : Text → List BackendRef → Bool
refers b rs = any (λ r. r.backend == b) rs

-- The set has the backends of the list.
abbrev Synced : Merge → Type 0
Synced s = (b : Text) → member b s.seen ≡ refers b s.refs

start_merge-Synced : (refs : List BackendRef) → Synced (start_merge refs)
unfolding start_merge
start_merge-Synced [] b = refl
start_merge-Synced (r ∷ refs) b = ap (λ t. (r.backend == b) || t) (start_merge-Synced refs b)

pub refers-append :
    (b : Text) (r : BackendRef) (rs : List BackendRef)
    → refers b (rs ++ (r ∷ [])) ≡ ((r.backend == b) || refers b rs)
refers-append b r [] = refl
refers-append b r (q ∷ rs) = ground (arith, refers-append b r rs)

add_ref-Synced : (s : Merge) (r : BackendRef) → Synced s → Synced (add_ref s r)
unfolding add_ref
add_ref-Synced s r h b = elim (Bool-cases (r.backend == [])) [
  | inl e ↦ rw (e, add_ref) (h b)
  | inr e ↦ elim (Bool-cases (member r.backend s.seen)) [
    | inl f ↦ rw (e, add_ref) (rw f (h b))
    | inr f ↦ rw (e, add_ref) (rw f (rw (refers-append b r s.refs) (rw (h b) refl)))
  ]
]

refers-same : (b c : Text) (rs : List BackendRef) → (b == c) ≡ true → refers b rs ≡ refers c rs
refers-same b c rs h = ap (λ t. refers t rs) ((eq_iff b c).0 h)

add_ref-refers :
    (s : Merge) (r : BackendRef) (b : Text)
    → Synced s
    → b ≢ []
    → refers b (add_ref s r).refs ≡ (refers b s.refs || (r.backend == b))
unfolding add_ref
add_ref-refers s r b h k = elim (Bool-cases (r.backend == [])) [
  | inl e ↦ rw (e, add_ref) (ground (arith, eq_iff r.backend [], eq_iff r.backend b))
  | inr e ↦ elim (Bool-cases (member r.backend s.seen)) [
    | inl f ↦ rw (e, add_ref) (rw f (ground (arith, h r.backend, refers-same r.backend b s.refs)))
    | inr f ↦ rw (e, add_ref) (rw f (rw (refers-append b r s.refs) (ground arith)))
  ]
]

add_refs-refers :
    (s : Merge) (rs : List BackendRef) (b : Text)
    → Synced s
    → b ≢ []
    → refers b (add_refs s rs).refs ≡ (refers b s.refs || refers b rs)
unfolding add_refs
add_refs-refers s [] b h k = ground arith
add_refs-refers s (r ∷ rs) b h k =
    add_refs-refers (add_ref s r) rs b (add_ref-Synced s r h) k
    ∙ rw (add_ref-refers s r b h k) (ground arith)

-- Whether the catalog has the backend under that name.
unfoldable pub serves : Text → Text → Catalog → Bool
serves n b out = elim (lookup n out) [ none ↦ false | some e ↦ refers b e.backends ]

-- Whether some entry whose name normalizes to `n` refers to the backend.
pub offered : Text → Text → Catalog → Bool
offered n b m = any (λ (e : Text × CatalogEntry). (normalize e.0 == n) && refers b e.1.backends) m

pub serves-insert :
    (n b k : Text) (e : CatalogEntry) (m : Catalog)
    → serves n b (insert k e m) ≡ (if k == n then refers b e.backends else serves n b m)
unfolding serves
serves-insert n b k e m =
    rw (lookup-insert k n e m, serves)
      (elim (Bool-cases (k == n)) [ inl h ↦ rw h refl | inr h ↦ rw h refl ])

current-serves :
    (n b : Text) (out : Catalog) → refers b (current_entry n out).backends ≡ serves n b out
unfolding current_entry serves
current-serves n b out = elim (Option-cases (lookup n out)) [
  | inl e ↦ rw (e, current_entry, serves) refl
  | inr (c, e) ↦ rw (e, current_entry, serves) refl
]

merged_refers :
    (out : Catalog) (k b : Text) (e : CatalogEntry)
    → b ≢ []
    → refers b (merged_entry k out e).backends ≡ (serves k b out || refers b e.backends)
unfolding merged_entry
merged_refers out k b e l =
    add_refs-refers (start_merge (current_entry k out).backends) e.backends b
      (start_merge-Synced (current_entry k out).backends) l
    ∙ rw (current-serves k b out) refl

merge_entry-serves :
    (out : Catalog) (raw : Text) (e : CatalogEntry) (n b : Text)
    → n ≢ []
    → b ≢ []
    → serves n b (merge_entry out raw e)
      ≡ (serves n b out || ((normalize raw == n) && refers b e.backends))
unfolding merge_entry
merge_entry-serves out raw e n b k l = elim (Bool-cases (normalize raw == [])) [
  | inl f ↦
      rw (f, merge_entry) (ground (arith, eq_iff (normalize raw) n, eq_iff (normalize raw) []))
  | inr f ↦ elim (Bool-cases (normalize raw == n)) [
    | inl g ↦
        rw (f, merge_entry)
          (rw (serves-insert n b (normalize raw) (merged_entry (normalize raw) out e) out) (
            rw (g) (
              rw (merged_refers out (normalize raw) b e l) (
                ap (λ x. serves x b out || refers b e.backends) ((eq_iff (normalize raw) n).0 g)))))
    | inr g ↦
        rw (f, merge_entry)
          (rw (serves-insert n b (normalize raw) (merged_entry (normalize raw) out e) out)
            (rw g (ground arith)))
  ]
]

normalize_into-serves :
    (out m : Catalog) (n b : Text)
    → n ≢ []
    → b ≢ []
    → serves n b (normalize_into out m) ≡ (serves n b out || offered n b m)
unfolding normalize_into offered
normalize_into-serves out [] n b k l = ground arith
normalize_into-serves out ((raw, e) ∷ m) n b k l =
    normalize_into-serves (merge_entry out raw e) m n b k l
    ∙ rw (merge_entry-serves out raw e n b k l) (ground arith)

-- Under a model name, the normalized catalog has exactly the backends that the entries whose names
-- normalize to it refer to; an empty backend name counts for none.
pub normalize_catalog-serves :
    (m : Catalog) (n b : Text) → n ≢ [] → b ≢ [] → serves n b (normalize_catalog m) ≡ offered n b m
unfolding normalize_catalog offered serves lookup
normalize_catalog-serves m n b k l = normalize_into-serves [] m n b k l
