-- ===== src/Server/RateLimit/Runs.antt =====
-- Calls of the rate limiter in internal/server/api/ratelimit.go, one after the other: the mutex
-- makes every call atomic.
pub mod Avail
pub mod Bound
pub mod Spend
pub mod Total
pub mod Retry
use ragota.Base.{List, Option, [], if◌then◌else◌, none, some, ℕ, ◌&&◌, ◌*◌, ◌+◌, ◌<◌, ◌∷◌, ◌≤◌}
use ragota.Base.Text.{Str, str_eq}
use ragota.Server.RateLimit.{Bucket, RateLimiter, allow, cleanup_old_clients, token}

pub data LimiterCall : Type 0 where
  request : Str → LimiterCall
  sweep : LimiterCall

unfoldable pub limiter_call : RateLimiter → ℕ → LimiterCall → RateLimiter
unfolding allow cleanup_old_clients
limiter_call rl now (request key) = (allow rl now key).0
limiter_call rl now sweep = cleanup_old_clients rl now

unfoldable pub limiter_run : RateLimiter → List (ℕ × LimiterCall) → RateLimiter
unfolding limiter_call
limiter_run rl [] = rl
limiter_run rl ((now, c) ∷ cs) = limiter_run (limiter_call rl now c) cs

-- 1 for a request of the key that is let through
unfoldable pub granted : Str → RateLimiter → ℕ → LimiterCall → ℕ
unfolding allow
granted key rl now sweep = 0
granted key rl now (request k) = if str_eq k key && (allow rl now k).1 then 1 else 0

-- how many requests of the key a run lets through
unfoldable pub grants : Str → RateLimiter → List (ℕ × LimiterCall) → ℕ
unfolding limiter_call granted
grants key rl [] = 0
grants key rl ((now, c) ∷ cs) = granted key rl now c + grants key (limiter_call rl now c) cs

-- calls that are made one after the other, between two times
unfoldable pub InOrder : ℕ → ℕ → List (ℕ × LimiterCall) → Type 0
InOrder t u [] = t ≤ u
InOrder t u ((now, c) ∷ cs) = (t ≤ now) × InOrder now u cs

-- a bucket is not over-full, and was not seen later than now
abbrev pub BucketOk : RateLimiter → ℕ → Option Bucket → Type 0
BucketOk rl t none = Unit
BucketOk rl t (some c) = (c.tokens ≤ rl.burst * token) × (c.last_seen ≤ t)

pub record IsInBounds (rl : RateLimiter) (t : ℕ) : Type 0 where
  pub positive_rate : 0 < rl.per_minute
  pub positive_burst : 0 < rl.burst
  pub buckets : (key : Str) → BucketOk rl t (rl.clients key)
