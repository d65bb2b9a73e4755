-- ===== src/Config/Reloader/Failsafe.antt =====
-- How a reload of internal/config/reloader.go ends, and what it has put in force by then.
use ollama_gateway.Common.{
  ℕ, ◌≡◌, refl, sym, ap, ◌∙◌, inl, inr, Text, Option, none, some, List, [], ◌∷◌, ◌++◌, Bool, true,
  false, if◌then◌else◌, Bool-cases, Option-cases,
}
use mathlib.Core.Path.{subst}
use ollama_gateway.Config.{Config}
use ollama_gateway.Config.Policy.{RuntimePolicy, validate_runtime_change}
use ollama_gateway.Config.Reloader.{
  Status, RuntimeApplier, Applied, backends_applied, tls_paths_applied, admin_token_hash_applied,
  config_snapshot_applied, record_applied, ReloadError, load_failed, backends_failed,
  tls_paths_failed, rejected, fail, finish, apply_tls, apply_all, reload,
}

-- What the appliers answer for a configuration; one that is not set cannot fail.
abbrev pub backends_taken : RuntimeApplier → Config → Bool
backends_taken a next = elim (a.apply_backends) [ none ↦ true | some f ↦ f next.backends ]

abbrev pub tls_taken : RuntimeApplier → Config → Bool
tls_taken a next = elim (a.apply_tls_paths) [
  | none ↦ true
  | some f ↦
      f next.server.tls_cert_path next.server.tls_key_path next.server.tls_check_interval
        next.server.tls_expiry_warning_days
]

-- The calls so far, with those of a step after them.
abbrev pub with_backends : RuntimeApplier → Config → List Applied → List Applied
with_backends a next calls = elim (a.apply_backends) [
  | none ↦ calls
  | some f ↦ calls ++ (backends_applied next.backends ∷ [])
]

abbrev pub with_tls : RuntimeApplier → Config → List Applied → List Applied
with_tls a next calls = elim (a.apply_tls_paths) [
  | none ↦ calls
  | some f ↦
      calls
      ++ (tls_paths_applied next.server.tls_cert_path next.server.tls_key_path
            next.server.tls_check_interval next.server.tls_expiry_warning_days
          ∷ [])
]

abbrev pub with_token : RuntimeApplier → Config → List Applied → List Applied
with_token a next calls =
    if a.apply_admin_token_hash
    then calls ++ (admin_token_hash_applied next.token_hash ∷ [])
    else calls

abbrev pub with_snapshot : RuntimeApplier → Config → List Applied → List Applied
with_snapshot a next calls =
    if a.apply_config_snapshot then calls ++ (config_snapshot_applied next ∷ []) else calls

-- Why a reload failed, and the calls that it had made.
abbrev pub Failed :
    RuntimePolicy → RuntimeApplier → Option Config → Status → ReloadError → List Applied → Type 0
Failed p a loaded s load_failed calls = (loaded ≡ none) × (calls ≡ s.applied)
Failed p a loaded s (rejected e) calls =
    (next : Config) × (loaded ≡ some next)
    × (validate_runtime_change p s.current next ≡ some e)
    × (calls ≡ s.applied)
Failed p a loaded s backends_failed calls =
    (next : Config) × (loaded ≡ some next)
    × (validate_runtime_change p s.current next ≡ none)
    × (backends_taken a next ≡ false)
    × (calls ≡ with_backends a next s.applied)
Failed p a loaded s tls_paths_failed calls =
    (next : Config) × (loaded ≡ some next)
    × (validate_runtime_change p s.current next ≡ none)
    × (backends_taken a next ≡ true)
    × (tls_taken a next ≡ false)
    × (calls ≡ with_tls a next (with_backends a next s.applied))

-- How a reload ends: it succeeds and has made every call for the loaded configuration, in order, or it
-- fails at the first step that does.
abbrev pub Ended :
    RuntimePolicy
    → RuntimeApplier
    → ℕ
    → Text
    → Option Config
    → Status
    → Option ReloadError × Status
    → Type 0
Ended p a now reason loaded s (none, t) =
    (loaded ≡ some t.current)
    × (validate_runtime_change p s.current t.current ≡ none)
    × (backends_taken a t.current ≡ true)
    × (tls_taken a t.current ≡ true)
    × (t.applied
        ≡ with_snapshot a t.current
            (with_token a t.current (with_tls a t.current (with_backends a t.current s.applied))))
    × (t.last_error ≡ none)
    × (t.last_reload_at ≡ some now)
    × (t.last_trigger ≡ reason)
Ended p a now reason loaded s (some e, t) =
    Failed p a loaded s e t.applied
    × (t.current ≡ s.current)
    × (t.last_error ≡ some e)
    × (t.last_reload_at ≡ s.last_reload_at)
    × (t.last_trigger ≡ reason)

-- The state while a reload goes on.
abbrev Going : Text → Status → List Applied → Status → Type 0
Going reason s calls t =
    (t.current ≡ s.current)
    × (t.last_reload_at ≡ s.last_reload_at)
    × (t.last_trigger ≡ reason)
    × (t.applied ≡ calls)

finish-Ended :
    (p : RuntimePolicy) (a : RuntimeApplier) (now : ℕ) (reason : Text) (next : Config)
    (s t : Status)
    → validate_runtime_change p s.current next ≡ none
    → backends_taken a next ≡ true
    → tls_taken a next ≡ true
    → Going reason s (with_tls a next (with_backends a next s.applied)) t
    → Ended p a now reason (some next) s (finish a now next t)
unfolding finish
finish-Ended p a now reason next s t v b c (h, l, r, e) =
    let calls : t.applied ≡ with_tls a next (with_backends a next s.applied) = e in
    elim (Bool-cases (a.apply_admin_token_hash)) [
      | inl x ↦ elim (Bool-cases (a.apply_config_snapshot)) [
        | inl y ↦ rw (x, y) (refl, v, b, c, rw calls refl, refl, refl, r)
        | inr y ↦ rw (x, y) (refl, v, b, c, rw calls refl, refl, refl, r)
      ]
      | inr x ↦ elim (Bool-cases (a.apply_config_snapshot)) [
        | inl y ↦ rw (x, y) (refl, v, b, c, rw calls refl, refl, refl, r)
        | inr y ↦ rw (x, y) (refl, v, b, c, calls, refl, refl, r)
      ]
    ]

fail-Ended :
    (p : RuntimePolicy) (a : RuntimeApplier) (now : ℕ) (reason : Text) (loaded : Option Config)
    (e : ReloadError) (s t : Status) (calls : List Applied)
    → Failed p a loaded s e t.applied
    → Going reason s calls t
    → Ended p a now reason loaded s (fail e t)
unfolding fail
fail-Ended p a now reason loaded e s t calls f (h, l, r, q) = (f, h, refl, l, r)

apply_tls-Ended :
    (p : RuntimePolicy) (a : RuntimeApplier) (now : ℕ) (reason : Text) (next : Config)
    (s t : Status)
    → validate_runtime_change p s.current next ≡ none
    → backends_taken a next ≡ true
    → Going reason s (with_backends a next s.applied) t
    → Ended p a now reason (some next) s (apply_tls a now next t)
unfolding apply_tls
apply_tls-Ended p a now reason next s t v k (h, l, r, q) = elim (Option-cases (a.apply_tls_paths)) [
  | inl e ↦
      let same : apply_tls a now next t ≡ finish a now next t = rw (e, apply_tls) refl in
      let calls : t.applied ≡ with_tls a next (with_backends a next s.applied) =
        q ∙ sym (rw e refl) in
      subst (Ended p a now reason (some next) s) (sym same)
        (finish-Ended p a now reason next s t v k (rw e refl) (h, l, r, calls))
  | inr (f, e) ↦
      let w = next.server in
      let call =
        tls_paths_applied w.tls_cert_path w.tls_key_path w.tls_check_interval
          w.tls_expiry_warning_days in
      let tried = record_applied call t in
      let calls : tried.applied ≡ with_tls a next (with_backends a next s.applied) =
        rw e (ap (λ x. x ++ (call ∷ [])) q) in
      elim (Bool-cases
        (f w.tls_cert_path w.tls_key_path w.tls_check_interval w.tls_expiry_warning_days)) [
          | inl b ↦
              let same : apply_tls a now next t ≡ finish a now next tried =
                rw (e, apply_tls) (rw b refl) in
              subst (Ended p a now reason (some next) s) (sym same)
                (finish-Ended p a now reason next s tried v k (rw e b) (h, l, r, calls))
          | inr b ↦
              let same : apply_tls a now next t ≡ fail tls_paths_failed tried =
                rw (e, apply_tls) (rw b refl) in
              subst (Ended p a now reason (some next) s) (sym same) (
                fail-Ended p a now reason (some next) tls_paths_failed s tried tried.applied
                  (next, refl, v, k, rw e b, calls) (h, l, r, refl))
        ]
]

apply_all-Ended :
    (p : RuntimePolicy) (a : RuntimeApplier) (now : ℕ) (reason : Text) (next : Config)
    (s t : Status)
    → validate_runtime_change p s.current next ≡ none
    → Going reason s s.applied t
    → Ended p a now reason (some next) s (apply_all a now next t)
unfolding apply_all
apply_all-Ended p a now reason next s t v (h, l, r, q) = elim (Option-cases (a.apply_backends)) [
  | inl e ↦
      let same : apply_all a now next t ≡ apply_tls a now next t = rw (e, apply_all) refl in
      let calls : t.applied ≡ with_backends a next s.applied = q ∙ sym (rw e refl) in
      subst (Ended p a now reason (some next) s) (sym same)
        (apply_tls-Ended p a now reason next s t v (rw e refl) (h, l, r, calls))
  | inr (f, e) ↦
      let tried = record_applied (backends_applied next.backends) t in
      let calls : tried.applied ≡ with_backends a next s.applied =
        rw e (ap (λ x. x ++ (backends_applied next.backends ∷ [])) q) in
      elim (Bool-cases (f next.backends)) [
        | inl b ↦
            let same : apply_all a now next t ≡ apply_tls a now next tried =
              rw (e, apply_all) (rw b refl) in
            subst (Ended p a now reason (some next) s) (sym same)
              (apply_tls-Ended p a now reason next s tried v (rw e b) (h, l, r, calls))
        | inr b ↦
            let same : apply_all a now next t ≡ fail backends_failed tried =
              rw (e, apply_all) (rw b refl) in
            subst (Ended p a now reason (some next) s) (sym same) (
              fail-Ended p a now reason (some next) backends_failed s tried tried.applied
                (next, refl, v, rw e b, calls) (h, l, r, refl))
      ]
]

-- A reload that succeeds has loaded a configuration that the policy lets through, has had its backends and
-- its TLS paths taken, and has made the calls that are set in their order; then it is the current one. A
-- reload that fails keeps the current one and notes the error; it has made no call where the file does
-- not load or the policy refuses it, that of the backends where they are not taken, and that of the
-- TLS paths too where those are not.
pub reload-Ended :
    (p : RuntimePolicy) (a : RuntimeApplier) (now : ℕ) (reason : Text) (loaded : Option Config)
    (s : Status)
    → Ended p a now reason loaded s (reload p a now reason loaded s)
unfolding reload
reload-Ended p a now reason none s =
    fail-Ended p a now reason none load_failed s (record s { last_trigger = reason }) s.applied
      (refl, refl) (refl, refl, refl, refl)
reload-Ended p a now reason (some next) s =
    let t = record s { last_trigger = reason } in
    elim (Option-cases (validate_runtime_change p s.current next)) [
      | inl v ↦ rw (v, reload) (apply_all-Ended p a now reason next s t v (refl, refl, refl, refl))
      | inr (e, v) ↦
          rw (v, reload)
            (fail-Ended p a now reason (some next) (rejected e) s t s.applied (next, refl, v, refl)
              (refl, refl, refl, refl))
    ]
