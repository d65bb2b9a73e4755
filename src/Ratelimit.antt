-- ===== src/Ratelimit.antt =====
-- internal/ratelimit: token buckets, the store that keeps one for each API key, and the middleware.
-- The amounts that the code keeps as float64 are exact here: tokens in units of 10^-18 and rates in
-- units of 10^-9 tokens a second, so that nanoseconds times rate is in units of tokens. `now` is
-- Go's monotonic clock in nanoseconds.
pub mod Bucket
pub mod Rate
pub mod Eviction
pub mod Keys
use ollama_gateway.Common.{
  ℕ, ◌+◌, ◌-◌, ◌*◌, ◌/◌, ◌^◌, Text, codes, ◌==◌, Option, none, some, List, [], ◌∷◌, Bool, true,
  false, not, ◌&&◌, ltb, leb, eqb, keep, if◌then◌else◌,
}
use ollama_gateway.Common.Int.{ℤ, pos, negsuc, pos_part, ◌+ℤ◌, ◌-ℤ◌, leb_ℤ, ltb_ℤ, is_nonpos, min_ℤ}
use ollama_gateway.Common.Table.{Table, lookup, insert}

-- one token
abbrev pub unit : ℕ
unit = 10 ^ 18

-- one second
abbrev pub second : ℕ
second = 10 ^ 9

pub record TokenBucket : Type 0 where
  pub capacity : ℕ
  pub tokens : ℤ
  pub refill_rate : ℕ
  pub last_refill : ℕ

-- So many whole tokens.
abbrev pub tokens_of : ℤ → ℤ
tokens_of (pos n) = pos (n * unit)
tokens_of (negsuc n) = negsuc (n * unit + unit - 1)

pub new_bucket : ℕ → ℤ → ℤ → TokenBucket
new_bucket now capacity rate = record {
  capacity = pos_part (tokens_of capacity);
  tokens = tokens_of capacity;
  refill_rate = pos_part rate;
  last_refill = now;
}

unfoldable pub refill : ℕ → TokenBucket → TokenBucket
refill now b = record b {
  tokens = min_ℤ (pos b.capacity) (b.tokens +ℤ pos ((now - b.last_refill) * b.refill_rate));
  last_refill = now;
}

unfoldable pub spend : ℤ → TokenBucket → Bool × TokenBucket
spend amount b =
    if leb_ℤ amount b.tokens then (true, record b { tokens = b.tokens -ℤ amount }) else (false, b)

-- `Take`
unfoldable pub take : ℕ → ℤ → TokenBucket → Bool × TokenBucket
unfolding spend refill
take now n b = if is_nonpos n then (true, b) else spend (tokens_of n) (refill now b)

-- The least number of seconds that gives the amount.
unfoldable pub ceil_seconds : ℕ → ℕ → ℕ
ceil_seconds needed rate = (needed + (rate * second - 1)) / (rate * second)

-- `RetryAfterSeconds`, of exact amounts: the code's float64 sums may fall short of a token by their
-- rounding after the seconds that it gives.
unfoldable pub retry_after_seconds : TokenBucket → ℕ
unfolding ceil_seconds
retry_after_seconds b =
    if eqb b.refill_rate 0
    then 0
    else if leb_ℤ (pos unit) b.tokens
    then 0
    else ceil_seconds (pos_part (pos unit -ℤ b.tokens)) b.refill_rate

-- config.UserRateLimit
pub record UserRateLimit : Type 0 where
  pub rate : ℤ
  pub burst : ℤ
  pub ttl : ℤ

-- What the limiter reads of the configuration; a user has a rate limit or none.
pub record RateLimitConfig : Type 0 where
  pub default_rate : ℤ
  pub default_burst : ℤ
  pub ttl : ℤ
  pub backend : Text
  pub redis_addr : Text
  pub redis_timeout_sec : ℤ
  pub users : Table (Option UserRateLimit)

-- Refill rate, burst and time to live of a key.
pub record Settings : Type 0 where
  pub rate : ℤ
  pub burst : ℤ
  pub ttl : ℤ

abbrev pub default_settings : RateLimitConfig → Settings
default_settings c = record { rate = c.default_rate; burst = c.default_burst; ttl = c.ttl }

-- The user's values where they are positive.
pub override : UserRateLimit → Settings → Settings
override u s = record {
  rate = if is_nonpos u.rate then s.rate else u.rate;
  burst = if is_nonpos u.burst then s.burst else u.burst;
  ttl = if is_nonpos u.ttl then s.ttl else u.ttl;
}

-- `resolveSettings` of the local backend, which has the configuration only.
unfoldable pub config_settings : RateLimitConfig → Text → Settings
unfolding override
config_settings c key = elim (lookup key c.users) [
  | none ↦ default_settings c
  | some o ↦ elim o [ none ↦ default_settings c | some u ↦ override u (default_settings c) ]
]

-- `GetUserConfig` of the auth store: the user's rate limit, if there is a user and it has one.
abbrev pub AuthStore : Type 0
AuthStore = Text → Option (Option UserRateLimit)

-- `resolveSettings` of the limiter store: a rate limit of the auth store comes first.
unfoldable pub resolve_settings : RateLimitConfig → Option AuthStore → Text → Settings
unfolding override config_settings
resolve_settings c none key = config_settings c key
resolve_settings c (some auth) key = elim (auth key) [
  | none ↦ config_settings c key
  | some o ↦ elim o [ none ↦ config_settings c key | some u ↦ override u (default_settings c) ]
]

-- `getOrCreateBucket`: the key's bucket, and the buckets with it. A bucket that exists is not changed.
unfoldable pub get_or_create_bucket :
    ℕ → Text → Settings → Table TokenBucket → TokenBucket × Table TokenBucket
unfolding new_bucket
get_or_create_bucket now key s buckets = elim (lookup key buckets) [
  | some b ↦ (b, buckets)
  | none ↦ let b = new_bucket now s.burst s.rate in (b, insert key b buckets)
]

-- The two calls of `Allow` on the bucket.
unfoldable pub take_one : ℕ → TokenBucket → (Bool × ℕ) × TokenBucket
unfolding take retry_after_seconds
take_one now b =
    let r = take now (pos 1) b in ((r.0, (if r.0 then 0 else retry_after_seconds r.1)), r.1)

-- `Allow` of the local backend
unfoldable pub allow_local :
    ℕ → Text → Settings → Table TokenBucket → (Bool × ℕ) × Table TokenBucket
unfolding take_one get_or_create_bucket
allow_local now key s buckets =
    let got = get_or_create_bucket now key s buckets in
    let r = take_one now got.0 in (r.0, insert key r.1 got.1)

-- Whether `Cleanup` leaves the bucket.
pub is_fresh : RateLimitConfig → ℕ → Text × TokenBucket → Bool
unfolding config_settings
is_fresh c now e = not (ltb_ℤ (config_settings c e.0).ttl (pos (now - e.1.last_refill)))

-- `Cleanup` of the local backend
pub cleanup : RateLimitConfig → ℕ → Table TokenBucket → Table TokenBucket
unfolding is_fresh
cleanup c now buckets = keep (is_fresh c now) buckets

pub data LimiterBackend : Type 0 where
  local_backend : Table TokenBucket → LimiterBackend
  redis_backend : LimiterBackend

-- `NewLimiterStore`; `dial` tells whether a TCP connection to the address comes about in time.
pub new_limiter_store : (Text → ℤ → Bool) → RateLimitConfig → LimiterBackend
new_limiter_store dial c =
    if c.backend == codes "redis"
      && not (c.redis_addr == [])
      && dial c.redis_addr c.redis_timeout_sec
    then redis_backend
    else local_backend []

-- `Allow` of the limiter store
unfoldable pub allow :
    RateLimitConfig → Option AuthStore → ℕ → Text → LimiterBackend → (Bool × ℕ) × LimiterBackend
unfolding allow_local resolve_settings
allow c auth now key (local_backend buckets) =
    let r = allow_local now key (resolve_settings c auth key) buckets in (r.0, local_backend r.1)
allow c auth now key redis_backend = ((true, 0), redis_backend)

-- What the middleware does with a request: hand it on, or answer 429 with that `Retry-After`.
pub data Verdict : Type 0 where
  passed : Verdict
  too_many_requests : ℕ → Verdict

-- `Handler` of middleware.go; the key is that of the auth context, if there is one.
unfoldable pub handler :
    RateLimitConfig → Option AuthStore → ℕ → Option Text → LimiterBackend → Verdict × LimiterBackend
unfolding allow
handler c auth now none b = (passed, b)
handler c auth now (some key) b =
    let r = allow c auth now key b in ((if r.0.0 then passed else too_many_requests r.0.1), r.1)
