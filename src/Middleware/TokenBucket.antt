-- ===== src/Middleware/TokenBucket.antt =====
-- The token bucket of internal/middleware/ratelimit.go. A client is the text of its IP, numbered.
-- Times are nanoseconds. The float `tokens` is counted in parts, of which 60 * 10^9 make a token, so
-- that `rpm / 60` tokens a second are exactly `rpm` parts a nanosecond.
pub mod Rate
pub mod Idle
use regent_backend.Base.{
  ℕ, ◌+◌, ◌-◌, ◌*◌, Bool, true, false, Option, none, some, List, [], ◌∷◌, ltb, leb, if◌then◌else◌,
  Table, nothing, put, remove,
}

abbrev pub token : ℕ
token = 60_000_000_000

pub record Bucket : Type 0 where
  pub tokens : ℕ
  pub last_fill : ℕ
  pub max_tokens : ℕ
  pub fill_rate : ℕ

-- The first part of `bucket.allow`: the refill. The clock is monotonic, so `elapsed` is not negative.
unfoldable pub refill : Bucket → ℕ → Bucket
refill b now =
    let filled = b.tokens + (now - b.last_fill) * b.fill_rate in
    record b { tokens = if ltb b.max_tokens filled then b.max_tokens else filled; last_fill = now }

unfoldable pub take_token : Bucket → Bucket × Bool
take_token b =
    if leb token b.tokens then (record b { tokens = b.tokens - token }, true) else (b, false)

unfoldable pub allow : Bucket → ℕ → Bucket × Bool
unfolding refill take_token
allow b now = take_token (refill b now)

pub record RateLimiter : Type 0 where
  pub buckets : Table Bucket
  pub rpm : ℕ

unfoldable pub new_rate_limiter : ℕ → RateLimiter
new_rate_limiter rpm = record { buckets = nothing; rpm = rpm }

unfoldable pub full_bucket : (rpm now : ℕ) → Bucket
full_bucket rpm now = record {
  tokens = rpm * token;
  last_fill = now;
  max_tokens = rpm * token;
  fill_rate = rpm;
}

-- The bucket of a client, which is made where it is missing.
unfoldable pub bucket_for : (rpm now : ℕ) → Option Bucket → Bucket
unfolding full_bucket
bucket_for rpm now none = full_bucket rpm now
bucket_for rpm now (some b) = b

unfoldable pub allow_ip : RateLimiter → (ip now : ℕ) → RateLimiter × Bool
unfolding allow bucket_for
allow_ip rl ip now =
    let (b, ok) = allow (bucket_for rl.rpm now (rl.buckets ip)) now in
    (record rl { buckets = put ip b rl.buckets }, ok)

abbrev pub ten_minutes : ℕ
ten_minutes = 600_000_000_000

-- `b.lastFill.Before(cutoff)` with a cutoff ten minutes ago.
unfoldable pub keep_bucket : ℕ → Option Bucket → Option Bucket
keep_bucket now none = none
keep_bucket now (some b) = if ltb (b.last_fill + ten_minutes) now then none else some b

unfoldable pub cleanup : RateLimiter → ℕ → RateLimiter
unfolding keep_bucket
cleanup rl now = record rl { buckets = λ ip. keep_bucket now (rl.buckets ip) }

unfoldable pub reset_for_testing : RateLimiter → ℕ → RateLimiter
reset_for_testing rl ip = record rl { buckets = remove ip rl.buckets }

-- The handler: a request that is not allowed is answered by 429, `Retry-After: 60`.
pub data Answer : Type 0 where
  served rate_limited : Answer

unfoldable pub answer : RateLimiter → (ip now : ℕ) → RateLimiter × Answer
unfolding allow_ip
answer rl ip now = let (rl', ok) = allow_ip rl ip now in (rl', if ok then served else rate_limited)

-- The requests of one client, by their times.
unfoldable pub allow_all : Bucket → List ℕ → Bucket × List Bool
allow_all b [] = (b, [])
allow_all b (t ∷ ts) =
    let (b', ok) = allow b t in let (b'', oks) = allow_all b' ts in (b'', ok ∷ oks)
