-- ===== src/Ratelimit/Keys.antt =====
-- The store of buckets by key (internal/ratelimit/limiter.go).
use ollama_gateway.Common.{
  ℕ, ◌≡◌, ◌≢◌, refl, ◌∙◌, inl, inr, false, arith, Option-cases, Text, ◌==◌, eq_iff, Option, none,
  some,
}
use ollama_gateway.Common.Int.{pos, ◌<ℤ◌}
use ollama_gateway.Common.Table.{Table, lookup, lookup-insert}
use ollama_gateway.Ratelimit.{
  TokenBucket, new_bucket, Settings, UserRateLimit, RateLimitConfig, AuthStore, default_settings,
  override, config_settings, resolve_settings, get_or_create_bucket, take_one, allow_local,
}

got_other :
    (now : ℕ) (key other : Text) (s : Settings) (m : Table TokenBucket)
    → (key == other) ≡ false
    → lookup other (get_or_create_bucket now key s m).1 ≡ lookup other m
unfolding get_or_create_bucket
got_other now key other s m f = elim (Option-cases (lookup key m)) [
  | inl e ↦
      rw (e, get_or_create_bucket)
        (rw (lookup-insert key other (new_bucket now s.burst s.rate) m) (rw f refl))
  | inr (b, e) ↦ rw (e, get_or_create_bucket) refl
]

-- A request leaves the buckets of the other keys as they are.
pub allow_local-other :
    (now : ℕ) (key other : Text) (s : Settings) (m : Table TokenBucket)
    → other ≢ key
    → lookup other (allow_local now key s m).1 ≡ lookup other m
unfolding allow_local
allow_local-other now key other s m h =
    let f : (key == other) ≡ false = ground (arith, eq_iff key other) in
    let got = get_or_create_bucket now key s m in
    lookup-insert key other (take_one now got.0).1 got.1 ∙ rw f (got_other now key other s m f)

override-IsPositive :
    (u : UserRateLimit) (s : Settings)
    → (pos 0 <ℤ s.rate) × (pos 0 <ℤ s.burst)
    → let r = override u s in (pos 0 <ℤ r.rate) × (pos 0 <ℤ r.burst)
unfolding override
override-IsPositive u s h = (ground arith, ground arith)

abbrev pub IsPositive : Settings → Type 0
IsPositive s = (pos 0 <ℤ s.rate) × (pos 0 <ℤ s.burst)

config_settings-IsPositive :
    (c : RateLimitConfig) (key : Text)
    → IsPositive (default_settings c)
    → IsPositive (config_settings c key)
unfolding config_settings
config_settings-IsPositive c key h = elim (Option-cases (lookup key c.users)) [
  | inl e ↦ rw (e, config_settings) h
  | inr (none, e) ↦ rw (e, config_settings) h
  | inr (some u, e) ↦ rw (e, config_settings) (override-IsPositive u (default_settings c) h)
]

-- Where the default rate and burst are positive, every key gets a positive rate and burst, whatever
-- its user's rate limit in the configuration and in the auth store is.
pub resolve_settings-IsPositive :
    (c : RateLimitConfig) (auth : Option AuthStore) (key : Text)
    → IsPositive (default_settings c)
    → IsPositive (resolve_settings c auth key)
unfolding resolve_settings
resolve_settings-IsPositive c none key h = config_settings-IsPositive c key h
resolve_settings-IsPositive c (some auth) key h = elim (Option-cases (auth key)) [
  | inl e ↦ rw (e, resolve_settings) (config_settings-IsPositive c key h)
  | inr (none, e) ↦ rw (e, resolve_settings) (config_settings-IsPositive c key h)
  | inr (some u, e) ↦ rw (e, resolve_settings) (override-IsPositive u (default_settings c) h)
]
