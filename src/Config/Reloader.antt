-- ===== src/Config/Reloader.antt =====
-- internal/config/reloader.go: a reload of the configuration, and the poll that decides when.
pub mod Debounce
pub mod Failsafe
use ollama_gateway.Common.{
  ℕ, ◌-◌, Text, codes, Option, none, some, List, [], ◌∷◌, ◌++◌, Bool, true, false, not, ◌&&◌, ◌||◌,
  eqb, leb, if◌then◌else◌,
}
use ollama_gateway.Common.Int.{ℤ}
use ollama_gateway.Backends.{BackendConfig}
use ollama_gateway.Config.{Config}
use ollama_gateway.Config.Policy.{RuntimePolicy, PolicyError, validate_runtime_change}

-- What `RuntimeApplier` was told to put in force.
pub data Applied : Type 0 where
  backends_applied : List BackendConfig → Applied
  tls_paths_applied : Text → Text → ℤ → ℤ → Applied
  admin_token_hash_applied : Text → Applied
  config_snapshot_applied : Config → Applied

-- The functions of `RuntimeApplier` that are set; `false` is an error of the two that can fail.
pub record RuntimeApplier : Type 0 where
  pub apply_backends : Option (List BackendConfig → Bool)
  pub apply_tls_paths : Option (Text → Text → ℤ → ℤ → Bool)
  pub apply_admin_token_hash : Bool
  pub apply_config_snapshot : Bool

pub data ReloadError : Type 0 where
  load_failed backends_failed tls_paths_failed : ReloadError
  rejected : PolicyError → ReloadError

-- `last_error` is `none` where the code has an empty string; `applied` has the calls in order.
pub record Status : Type 0 where
  pub last_reload_at : Option ℕ
  pub last_error : Option ReloadError
  pub last_trigger : Text
  pub current : Config
  pub applied : List Applied

abbrev pub record_applied : Applied → Status → Status
record_applied e s = record s { applied = s.applied ++ (e ∷ []) }

pub fail : ReloadError → Status → Option ReloadError × Status
fail e s = (some e, record s { last_error = some e })

-- The steps of `reload` that cannot fail, with what follows them.
pub finish : RuntimeApplier → ℕ → Config → Status → Option ReloadError × Status
finish a now next s =
    let s₁ =
      if a.apply_admin_token_hash
      then record_applied (admin_token_hash_applied next.token_hash) s
      else s in
    let s₂ =
      if a.apply_config_snapshot then record_applied (config_snapshot_applied next) s₁ else s₁ in
    (none, record s₂ { current = next; last_reload_at = some now; last_error = none })

pub apply_tls : RuntimeApplier → ℕ → Config → Status → Option ReloadError × Status
unfolding finish fail
apply_tls a now next s = elim (a.apply_tls_paths) [
  | none ↦ finish a now next s
  | some f ↦
      let v = next.server in
      let s' =
        record_applied
          (tls_paths_applied v.tls_cert_path v.tls_key_path v.tls_check_interval
            v.tls_expiry_warning_days)
          s in
      if f v.tls_cert_path v.tls_key_path v.tls_check_interval v.tls_expiry_warning_days
      then finish a now next s'
      else fail tls_paths_failed s'
]

pub apply_all : RuntimeApplier → ℕ → Config → Status → Option ReloadError × Status
unfolding apply_tls fail
apply_all a now next s = elim (a.apply_backends) [
  | none ↦ apply_tls a now next s
  | some f ↦
      let s' = record_applied (backends_applied next.backends) s in
      if f next.backends then apply_tls a now next s' else fail backends_failed s'
]

-- `reload`; `loaded` is what `Load` returns, with `none` for an error.
pub reload :
    RuntimePolicy → RuntimeApplier → ℕ → Text → Option Config → Status → Option ReloadError × Status
unfolding fail apply_all
reload p a now reason none s = fail load_failed (record s { last_trigger = reason })
reload p a now reason (some next) s = elim (validate_runtime_change p s.current next) [
  | some e ↦ fail (rejected e) (record s { last_trigger = reason })
  | none ↦ apply_all a now next (record s { last_trigger = reason })
]

-- What the watcher knows of the file: the hash that it saw last, and the change that waits.
pub record Watch : Type 0 where
  pub has_hash : Bool
  pub last_hash : ℕ
  pub pending : Bool
  pub pending_hash : ℕ
  pub pending_since : ℕ
  pub has_attempted_hash : Bool
  pub attempted_hash : ℕ

unfoldable pub new_watch : Watch
new_watch = record {
  has_hash = false;
  last_hash = 0;
  pending = false;
  pending_hash = 0;
  pending_since = 0;
  has_attempted_hash = false;
  attempted_hash = 0;
}

-- 300 ms
abbrev pub debounce : ℕ
debounce = 300000000

unfoldable pub note_hash : ℕ → ℕ → Watch → Watch
note_hash now h w =
    if eqb h w.last_hash
    then w
    else record w { last_hash = h; pending = true; pending_hash = h; pending_since = now }

unfoldable pub is_due : ℕ → Watch → Bool
is_due now w =
    w.pending
    && leb debounce (now - w.pending_since)
    && not (w.has_attempted_hash && eqb w.attempted_hash w.pending_hash)

-- `pollAndMaybeReload` up to the reload: whether it reloads, and the state after it. The hash is
-- that of the file, `none` if it cannot be read; `now` is the monotonic clock in nanoseconds.
unfoldable pub poll : ℕ → Option ℕ → Watch → Bool × Watch
poll now none w = (false, w)
poll now (some h) w =
    let w' = note_hash now h w in
    if not w.has_hash
    then (false, record w { has_hash = true; last_hash = h })
    else if is_due now w'
    then (
      true,
      record w' { has_attempted_hash = true; attempted_hash = w'.pending_hash; pending = false },
    )
    else (false, w')

-- `pollAndMaybeReload`
pub poll_and_maybe_reload :
    RuntimePolicy → RuntimeApplier → ℕ → Option ℕ → Option Config → Watch × Status → Watch × Status
unfolding poll reload
poll_and_maybe_reload p a now h loaded (w, s) =
    let r = poll now h w in
    (r.1, (if r.0 then (reload p a now (codes "watcher") loaded s).1 else s))
