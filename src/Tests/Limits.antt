-- ===== src/Tests/Limits.antt =====
-- The theorems on rate limits (internal/ratelimit) at a bucket of two tokens.
use ollama_gateway.Common.{
  ℕ, ◌+◌, ◌-◌, ◌*◌, ◌≤◌, ◌≡◌, ◌≢◌, refl, Text, codes, Option, none, some, List, [], ◌∷◌, Bool, true,
  false, arith, if◌then◌else◌,
}
use ollama_gateway.Common.Int.{ℤ, pos, negsuc}
use ollama_gateway.Common.Table.{Table}
use ollama_gateway.Ratelimit.{
  unit, TokenBucket, new_bucket, retry_after_seconds, Settings, RateLimitConfig,
}
use ollama_gateway.Ratelimit.Rate.{Call, granted, last_time, burst_bound}

-- Half a token, of two, at one token in two seconds.
abbrev bucket : TokenBucket
bucket = record {
  capacity = 2 * unit;
  tokens = pos 500000000000000000;
  refill_rate = 500000000;
  last_refill = 1000;
}

abbrev calls : List Call
calls = (10, pos 1) ∷ (20, pos 2) ∷ (5000000000, pos 1) ∷ []

burst_bound_example :
    granted calls (new_bucket 5 (pos 2) (pos 500000000)) * unit
    ≤ 2 * unit + (last_time 5 calls - 5) * 500000000
burst_bound_example =
    burst_bound calls 2 500000000 5 (omega arith, (omega arith, (omega arith, tt)))

retry : retry_after_seconds bucket ≡ 1
unfolding retry_after_seconds ollama_gateway.Common.Int.◌-ℤ◌
retry = refl

abbrev pub buckets : Table TokenBucket
buckets = (codes "k", bucket) ∷ (codes "j", bucket) ∷ []

abbrev pub config : RateLimitConfig
config = record {
  default_rate = pos 500000000;
  default_burst = pos 2;
  ttl = pos 60000000000;
  backend = codes "local";
  redis_addr = [];
  redis_timeout_sec = pos 2;
  users = (codes "j", some (record { rate = pos 0; burst = pos 0; ttl = pos 5 })) ∷ [];
}

abbrev settings : Settings
settings = record { rate = pos 500000000; burst = pos 2; ttl = pos 60000000000 }
