-- ===== src/Tls/Refresh.antt =====
-- The certificate that the watcher of internal/tlsruntime/manager.go keeps in force.
use ollama_gateway.Common.{
  ◌≡◌, refl, sym, ap, ◌∙◌, inl, inr, Text, ◌==◌, eq_iff, Option, none, some, List, [], ◌∷◌, ◌++◌,
  true, false, All, Bool-cases, Option-cases,
}
use ollama_gateway.Common.Int.{ℤ}
use ollama_gateway.Tls.{
  Certificate, Files, Manager, same_fingerprint, read_both, put_certificate, check_contents,
  reload_if_changed, load_initial, run, get_certificate,
}

abbrev pub found_in : Files → Option (Text × Text) → Option Certificate
found_in fs none = none
found_in fs (some p) = fs.parse p.0 p.1

-- The certificate that the files of those paths have, if they can be read and parsed.
abbrev pub found : Text → Text → Files → Option Certificate
found cert key fs = found_in fs (read_both (fs.read cert) (fs.read key))

abbrev pub or_else : Certificate → Option Certificate → Certificate
or_else c none = c
or_else c (some d) = d

-- The last certificate that the files had at a check, from one that is in force.
pub last_good : Text → Text → Certificate → List (Files × ℤ) → Certificate
last_good cert key c [] = c
last_good cert key c ((fs, now) ∷ ticks) = last_good cert key (or_else c (found cert key fs)) ticks

-- The certificate is in force, and the fingerprint is that of texts that it was parsed from and that
-- occur.
abbrev pub IsLoaded :
    (Text → Text)
    → (Text → Text → Option Certificate)
    → (Text × Text → Type 0)
    → Certificate
    → Manager
    → Type 0
IsLoaded hash parse Occurs c m =
    (a : Text) × (b : Text) × (m.cert ≡ some c)
    × (m.fingerprint ≡ some (hash (a ++ b)))
    × (parse a b ≡ some c)
    × Occurs (a, b)

-- What is read occurs, if it can be read.
abbrev pub Reads : (Text × Text → Type 0) → Option (Text × Text) → Type 0
Reads Occurs none = Unit
Reads Occurs (some p) = Occurs p

-- Whatever is read occurs, if everything does.
pub Reads-all : (o : Option (Text × Text)) → Reads (λ p. Unit) o
Reads-all none = tt
Reads-all (some p) = tt

check_contents-loads :
    (fs : Files) (Occurs : Text × Text → Type 0) (now : ℤ) (o : Option (Text × Text)) (m : Manager)
    → Reads Occurs o
    → (check_contents fs true now o m).1 ≡ true
    → (c : Certificate) × IsLoaded fs.hash fs.parse Occurs c (check_contents fs true now o m).0
unfolding check_contents put_certificate
check_contents-loads fs Occurs now none m w h = cc
check_contents-loads fs Occurs now (some (p, q)) m w h = elim (Option-cases (fs.parse p q)) [
  | inl n ↦ cc (rw (n, put_certificate) at h)
  | inr (c, s) ↦ (c, rw s (p, q, refl, refl, s, w))
]

-- Loading for the first time ends with a certificate in force, or with an error.
pub load_initial-IsLoaded :
    (fs : Files) (Occurs : Text × Text → Type 0) (now : ℤ) (m : Manager)
    → Reads Occurs (read_both (fs.read m.cert_path) (fs.read m.key_path))
    → (load_initial fs now m).1 ≡ true
    → (c : Certificate) × IsLoaded fs.hash fs.parse Occurs c (load_initial fs now m).0
unfolding load_initial reload_if_changed
load_initial-IsLoaded fs Occurs now m =
    check_contents-loads fs Occurs now (read_both (fs.read m.cert_path) (fs.read m.key_path)) m

module _ (hash : Text → Text) (parse : Text → Text → Option Certificate)
    (Occurs : Text × Text → Type 0)
    (apart : (p q : Text × Text)
      → Occurs p
      → Occurs q
      → hash (p.0 ++ p.1) ≡ hash (q.0 ++ q.1)
      → p ≡ q) where
  abbrev pub files : (Text → Option Text) → Files
  files read = record { read = read; hash = hash; parse = parse }

  check_contents-IsLoaded :
      (read : Text → Option Text) (now : ℤ) (o : Option (Text × Text)) (c : Certificate)
      (m : Manager)
      → Reads Occurs o
      → IsLoaded hash parse Occurs c m
      → IsLoaded hash parse Occurs
          (or_else c (found_in (files read) o))
          (check_contents (files read) false now o m).0
  unfolding check_contents
  check_contents-IsLoaded read now none c m w v = v
  check_contents-IsLoaded read now (some (p, q)) c m w (a, b, e, f, g, k) =
      let now_hash = hash (p ++ q) in
      let same : same_fingerprint m.fingerprint now_hash ≡ (hash (a ++ b) == now_hash) =
        ap (λ x. same_fingerprint x now_hash) f in
      elim (Bool-cases (hash (a ++ b) == now_hash)) [
        | inl h ↦
            let pair : (a, b) ≡ (p, q) =
              apart (a, b) (p, q) k w ((eq_iff (hash (a ++ b)) now_hash).0 h) in
            let old : parse p q ≡ some c = ap (λ (x : Text × Text). parse x.0 x.1) (sym pair) ∙ g in
            rw (same ∙ h) (rw old (a, b, e, f, g, k))
        | inr h ↦ elim (Option-cases (parse p q)) [
          | inl n ↦ rw (same ∙ h) (rw n (a, b, e, f, g, k))
          | inr (d, s) ↦ rw (same ∙ h) (rw s (p, q, refl, refl, s, w))
        ]
      ]

  check_contents-paths :
      (read : Text → Option Text) (now : ℤ) (o : Option (Text × Text)) (m : Manager)
      → let m' = (check_contents (files read) false now o m).0 in
        (m'.cert_path ≡ m.cert_path) × (m'.key_path ≡ m.key_path)
  unfolding check_contents put_certificate
  check_contents-paths read now none m = (refl, refl)
  check_contents-paths read now (some (p, q)) m =
      elim (Bool-cases (same_fingerprint m.fingerprint (hash (p ++ q)))) [
        | inl h ↦ rw h (refl, refl)
        | inr h ↦ elim (Option-cases (parse p q)) [
          | inl n ↦ rw h (rw n (refl, refl))
          | inr (d, s) ↦ rw h (rw s (refl, refl))
        ]
      ]

  -- The ticks of `Run`, by what the files are at each.
  abbrev pub ticks_of : List ((Text → Option Text) × ℤ) → List (Files × ℤ)
  ticks_of [] = []
  ticks_of ((read, now) ∷ reads) = (files read, now) ∷ ticks_of reads

  run-from :
      (reads : List ((Text → Option Text) × ℤ)) (cert key : Text) (c : Certificate) (m : Manager)
      → m.cert_path ≡ cert
      → m.key_path ≡ key
      → All (λ (r : (Text → Option Text) × ℤ). Reads Occurs (read_both (r.0 cert) (r.0 key))) reads
      → IsLoaded hash parse Occurs c m
      → get_certificate (run (ticks_of reads) m) ≡ some (last_good cert key c (ticks_of reads))
  unfolding run get_certificate last_good reload_if_changed
  run-from [] cert key c m p q w (a, b, e, f, g, k) = e
  run-from ((read, now) ∷ reads) cert key c m p q w v =
      let o = read_both (read cert) (read key) in
      let m' = (check_contents (files read) false now o m).0 in
      let c' = or_else c (found_in (files read) o) in
      let (p', q') = check_contents-paths read now o m in
      let here : read_both (read m.cert_path) (read m.key_path) ≡ o =
        ap (λ x. read_both (read x) (read m.key_path)) p
        ∙ ap (λ x. read_both (read cert) (read x)) q in
      ap
        (λ (x : Option (Text × Text)).
          get_certificate (run (ticks_of reads) (check_contents (files read) false now x m).0))
        here
      ∙ run-from reads cert key c' m' (p' ∙ p) (q' ∙ q) w.1
          (check_contents-IsLoaded read now o c m w.0 v)

  -- Once a certificate is loaded, the watcher serves at every time the last one that the two files had
  -- when it checked them, if no two different pairs of contents that occur have the same fingerprint:
  -- files that cannot be read or parsed change nothing, and no other certificate is served.
  pub run-last_good :
      (reads : List ((Text → Option Text) × ℤ)) (c : Certificate) (m : Manager)
      → All
          (λ (r : (Text → Option Text) × ℤ).
            Reads Occurs (read_both (r.0 m.cert_path) (r.0 m.key_path)))
          reads
      → IsLoaded hash parse Occurs c m
      → get_certificate (run (ticks_of reads) m)
        ≡ some (last_good m.cert_path m.key_path c (ticks_of reads))
  run-last_good reads c m = run-from reads m.cert_path m.key_path c m refl refl
