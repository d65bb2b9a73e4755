-- ===== src/Tls.antt =====
-- internal/tlsruntime: the server certificate that is reloaded when its files change (manager.go),
-- and the provider that swaps its manager and runs its watcher (provider.go). Times are in
-- nanoseconds.
pub mod Refresh
pub mod Expiry
pub mod Provider
use ollama_gateway.Common.{
  ℕ, suc, ◌*◌, ◌/◌, Text, ◌==◌, Option, none, some, List, [], ◌∷◌, ◌++◌, Bool, true, false, not,
  ◌&&◌, eqb, keep, if◌then◌else◌,
}
use ollama_gateway.Common.Int.{ℤ, pos, negsuc, sub_ℕ, ◌-ℤ◌, ltb_ℤ, leb_ℤ, is_nonpos}

-- A parsed key pair by its bytes, with the end of its validity.
pub record Certificate : Type 0 where
  pub pair : Text × Text
  pub not_after : ℤ

-- What the code uses of Go and of the file system: `os.ReadFile`, SHA-256, and `tls.X509KeyPair` with
-- the parsing of the leaf; `none` is an error.
pub record Files : Type 0 where
  pub read : Text → Option Text
  pub hash : Text → Text
  pub parse : Text → Text → Option Certificate

-- `fingerprint` and `hasFingerprint` are one field.
pub record Manager : Type 0 where
  pub cert_path : Text
  pub key_path : Text
  pub check_interval : ℤ
  pub warning_days : ℤ
  pub cert : Option Certificate
  pub last_reload_at : ℤ
  pub expires_at : ℤ
  pub fingerprint : Option Text

-- 24 hours
abbrev pub day : ℕ
day = 86400000000000

-- `NewManager`
unfoldable pub new_manager : Text → Text → ℤ → ℤ → Manager
new_manager cert_path key_path check_interval warning_days = record {
  cert_path = cert_path;
  key_path = key_path;
  check_interval = if is_nonpos check_interval then pos day else check_interval;
  warning_days = if is_nonpos warning_days then pos 30 else warning_days;
  cert = none;
  last_reload_at = pos 0;
  expires_at = pos 0;
  fingerprint = none;
}

unfoldable pub same_fingerprint : Option Text → Text → Bool
same_fingerprint none f = false
same_fingerprint (some g) f = g == f

-- The two files, in the order in which they are read.
unfoldable pub read_both : Option Text → Option Text → Option (Text × Text)
read_both none k = none
read_both (some c) none = none
read_both (some c) (some k) = some (c, k)

unfoldable pub put_certificate : ℤ → Text → Option Certificate → Manager → Manager × Bool
put_certificate now f none m = (m, false)
put_certificate now f (some c) m = (
  record m { cert = some c; last_reload_at = now; expires_at = c.not_after; fingerprint = some f },
  true,
)

unfoldable pub check_contents : Files → Bool → ℤ → Option (Text × Text) → Manager → Manager × Bool
unfolding put_certificate same_fingerprint
check_contents fs force now none m = (m, false)
check_contents fs force now (some p) m =
    let f = fs.hash (p.0 ++ p.1) in
    if not force && same_fingerprint m.fingerprint f
    then (m, true)
    else put_certificate now f (fs.parse p.0 p.1) m

-- `reloadIfChanged`, and whether it ends without an error.
unfoldable pub reload_if_changed : Files → Bool → ℤ → Manager → Manager × Bool
unfolding check_contents read_both
reload_if_changed fs force now m =
    check_contents fs force now (read_both (fs.read m.cert_path) (fs.read m.key_path)) m

-- `LoadInitial`
unfoldable pub load_initial : Files → ℤ → Manager → Manager × Bool
unfolding reload_if_changed
load_initial fs now m = reload_if_changed fs true now m

-- The ticks of `Run`, each with what the files are then. An error is logged.
unfoldable pub run : List (Files × ℤ) → Manager → Manager
unfolding reload_if_changed
run [] m = m
run ((fs, now) ∷ ticks) m = run ticks (reload_if_changed fs false now m).0

-- `GetCertificate` of the manager; `none` is its error.
unfoldable pub get_certificate : Manager → Option Certificate
get_certificate m = m.cert

-- `int(d.Hours() / 24)`: whole days, towards zero
unfoldable pub whole_days : ℤ → ℤ
whole_days (pos n) = pos (n / day)
whole_days (negsuc n) = sub_ℕ 0 (suc n / day)

-- `daysUntilExpiry`
unfoldable pub days_until_expiry : ℤ → ℤ → ℤ
unfolding whole_days
days_until_expiry now not_after = whole_days (not_after -ℤ now)

pub record Status : Type 0 where
  pub cert_path : Text
  pub key_path : Text
  pub check_interval : ℤ
  pub warning_days : ℤ
  pub loaded : Bool
  pub last_reload_at : ℤ
  pub expires_at : ℤ
  pub days_remaining : ℤ
  pub expired : Bool
  pub expiring_soon : Bool

-- `Status` of the manager, at one time for its two readings of the clock.
unfoldable pub status : ℤ → Manager → Status
unfolding days_until_expiry
status now m =
    let blank : Status = record {
      cert_path = m.cert_path;
      key_path = m.key_path;
      check_interval = m.check_interval;
      warning_days = m.warning_days;
      loaded = false;
      last_reload_at = pos 0;
      expires_at = pos 0;
      days_remaining = pos 0;
      expired = false;
      expiring_soon = false;
    } in
    elim m.cert [
      | none ↦ blank
      | some c ↦
          let days = days_until_expiry now c.not_after in
          let expired = ltb_ℤ m.expires_at now in
          record blank {
            loaded = true;
            last_reload_at = m.last_reload_at;
            expires_at = m.expires_at;
            days_remaining = days;
            expired = expired;
            expiring_soon = not expired && leb_ℤ days m.warning_days;
          }
    ]
