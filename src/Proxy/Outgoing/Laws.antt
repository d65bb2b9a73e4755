-- ===== src/Proxy/Outgoing/Laws.antt =====
-- What `Director` of internal/proxy/handler.go keeps of a request, and what it sets.
use ollama_gateway.Common.{
  ◌≡◌, ◌≢◌, refl, sym, ap, ◌∙◌, inl, inr, Text, codes, ◌==◌, eq_iff, eq_refl, [], ◌∷◌, ◌++◌, Bool,
  false, not, some, any, if◌then◌else◌, Bool-cases,
}
use ollama_gateway.Common.Table.{Table, lookup, insert, lookup-insert}
use ollama_gateway.Backends.{Backend}
use ollama_gateway.Proxy.Outgoing.{Request, Library, client_ip, apply_headers, forwarded, direct}

-- Some header of the list has that name.
abbrev pub sets : Library → Text → Table Text → Bool
sets l n hs = any (λ (e : Text × Text). l.canonical e.0 == n) hs

apply-other :
    (l : Library) (n : Text) (hs header : Table Text)
    → sets l n hs ≡ false
    → lookup n (apply_headers l hs header) ≡ lookup n header
unfolding apply_headers
apply-other l n [] header h = refl
apply-other l n ((k, v) ∷ hs) header h = elim (Bool-cases (l.canonical k == n)) [
  | inl e ↦ cc (rw e at h)
  | inr e ↦
      apply-other l n hs (insert (l.canonical k) v header) (rw e at h)
      ∙ lookup-insert (l.canonical k) n v header
      ∙ rw e refl
]

apply-last :
    (l : Library) (k v : Text) (first last header : Table Text)
    → sets l (l.canonical k) last ≡ false
    → lookup (l.canonical k) (apply_headers l (first ++ (k, v) ∷ last) header) ≡ some v
unfolding apply_headers
apply-last l k v [] last header h =
    apply-other l (l.canonical k) last (insert (l.canonical k) v header) h
    ∙ lookup-insert (l.canonical k) (l.canonical k) v header
    ∙ rw (eq_refl (l.canonical k)) refl
apply-last l k v ((j, w) ∷ first) last header h =
    apply-last l k v first last (insert (l.canonical j) w header) h

abbrev pub forwarded_for : Text
forwarded_for = codes "X-Forwarded-For"

abbrev pub forwarded_host : Text
forwarded_host = codes "X-Forwarded-Host"

abbrev pub forwarded_proto : Text
forwarded_proto = codes "X-Forwarded-Proto"

differ : (a b : Text) → b ≢ a → (a == b) ≡ false
differ a b h = elim (Bool-cases (a == b)) [
  | inl e ↦ absurd (h (sym ((eq_iff a b).0 e)))
  | inr e ↦ e
]

forwarded-other :
    (ip host n : Text) (header : Table Text)
    → n ≢ forwarded_for
    → n ≢ forwarded_host
    → n ≢ forwarded_proto
    → lookup n (forwarded ip host header) ≡ lookup n header
unfolding forwarded
forwarded-other ip host n header a b c =
    let h = if not (ip == []) then insert forwarded_for ip header else header in
    lookup-insert forwarded_proto n (codes "http") (insert forwarded_host host h)
    ∙ rw (differ forwarded_proto n c) (
        lookup-insert forwarded_host n host h
        ∙ rw (differ forwarded_host n b) (elim (Bool-cases (ip == [])) [
          | inl e ↦ rw e refl
          | inr e ↦
              rw e (lookup-insert forwarded_for n ip header ∙ rw (differ forwarded_for n a) refl)
        ]))

-- The request goes to the scheme and the host of the backend, with the method, the path and the body
-- that it had. It keeps every header but those of forwarding and those that the backend's
-- configuration sets; and of the latter it has, under each name, the value that was set last.
pub direct_lem :
    (l : Library) (b : Backend) (r : Request)
    → let out = direct l b r in
      ((out.scheme ≡ b.url.scheme) × (out.url_host ≡ b.url.host) × (out.host ≡ b.url.host))
      × ((out.method ≡ r.method) × (out.path ≡ r.path) × (out.body ≡ r.body))
      × ((n : Text)
          → sets l n b.headers ≡ false
          → n ≢ forwarded_for
          → n ≢ forwarded_host
          → n ≢ forwarded_proto
          → lookup n out.header ≡ lookup n r.header)
      × ((k v : Text) (first last : Table Text)
          → b.headers ≡ first ++ (k, v) ∷ last
          → sets l (l.canonical k) last ≡ false
          → lookup (l.canonical k) out.header ≡ some v)
unfolding direct
direct_lem l b r =
    let h = forwarded (client_ip r) b.url.host r.header in
    (
      (refl, refl, refl),
      (refl, refl, refl),
      λ n free a c d.
          apply-other l n b.headers h free
          ∙ forwarded-other (client_ip r) b.url.host n r.header a c d,
      λ k v first last e free.
          ap (λ (hs : Table Text). lookup (l.canonical k) (apply_headers l hs h)) e
          ∙ apply-last l k v first last h free,
    )
