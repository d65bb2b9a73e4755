-- ===== src/Tls/Expiry.antt =====
-- What `Status` of internal/tlsruntime/manager.go says of a certificate's end.
use ollama_gateway.Common.{ℕ, ◌+◌, ◌*◌, ◌<◌, ◌≡◌, ◌↔◌, true, some, arith}
use ollama_gateway.Common.Int.{ℤ, pos, negsuc, pos_part, ◌-ℤ◌, ◌≤ℤ◌, ◌<ℤ◌, -ℤ_parts, leb_ℤ}
use ollama_gateway.Tls.{Certificate, Manager, day, whole_days, status}

-- The time that is left.
abbrev pub remaining : ℤ → Certificate → ℤ
remaining now c = c.not_after -ℤ now

whole_days_le :
    (t : ℤ) (w : ℕ) → (leb_ℤ (whole_days t) (pos w) ≡ true) ↔ (pos_part t < (w + 1) * day)
unfolding whole_days
whole_days_le (pos n) w = ground arith
whole_days_le (negsuc n) w = ground arith

-- Of a loaded certificate, `Expired` says that its end has passed, and `ExpiringSoon` that less than
-- a day more than the days of warning are left; the two never hold together.
pub status-loaded :
    (now : ℤ) (m : Manager) (c : Certificate) (warn : ℕ)
    → m.cert ≡ some c
    → m.expires_at ≡ c.not_after
    → m.warning_days ≡ pos warn
    → let s = status now m in
      (s.loaded ≡ true)
      × ((s.expired ≡ true) ↔ (c.not_after <ℤ now))
      × ((s.expiring_soon ≡ true)
          ↔ ((now ≤ℤ c.not_after) × (pos_part (remaining now c) < (warn + 1) * day)))
unfolding status
status-loaded now m c warn e f g =
    rw (e, status)
      (ground (arith, f, g, whole_days_le (c.not_after -ℤ now) warn, -ℤ_parts c.not_after now))
