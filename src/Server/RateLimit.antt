-- ===== src/Server/RateLimit.antt =====
-- The token buckets of internal/server/api/ratelimit.go. Times are in nanoseconds. The source counts
-- tokens in float64; here they are counted exactly, in parts of 1 / token: with that many parts in
-- a token, a rate of n requests a minute adds n parts in a nanosecond.
pub mod Runs
use ragota.Base.{
  Bool, Option, false, if◌then◌else◌, leb, ltb, min, none, some, suc, true, zero, ℕ, ◌*◌, ◌+◌, ◌-◌,
  ◌/◌,
}
use ragota.Base.Int.{negsuc, pos, ℤ}
use ragota.Base.Text.{Str, str_eq}

abbrev pub token : ℕ
token = 60 * 1000000000

abbrev pub five_minutes : ℕ
five_minutes = 5 * token

-- `client`
pub record Bucket : Type 0 where
  pub tokens : ℕ
  pub last_seen : ℕ

pub record RateLimiter : Type 0 where
  pub clients : Str → Option Bucket
  pub per_minute : ℕ
  pub burst : ℕ

abbrev pub or_default : ℤ → ℕ → ℕ
or_default (pos zero) d = d
or_default (pos (suc n)) d = suc n
or_default (negsuc n) d = d

-- `NewRateLimiter`, without its goroutine
unfoldable pub new_rate_limiter : ℤ → ℤ → RateLimiter
new_rate_limiter requests_per_minute burst =
    let n = or_default requests_per_minute 60 in
    record { clients = λ k. none; per_minute = n; burst = or_default burst n }

abbrev pub set_bucket : (Str → Option Bucket) → Str → Bucket → Str → Option Bucket
set_bucket m key c k = if str_eq key k then some c else m k

abbrev pub with_bucket : RateLimiter → Str → Bucket → RateLimiter
with_bucket rl key c = record rl { clients = set_bucket rl.clients key c }

-- the tokens of a client that is seen now
abbrev pub refilled : RateLimiter → Bucket → ℕ → ℕ
refilled rl c now =
    if ltb c.last_seen now
    then min (rl.burst * token) (c.tokens + (now - c.last_seen) * rl.per_minute)
    else c.tokens

abbrev pub wait_for : RateLimiter → ℕ → ℕ
wait_for rl tokens = (token - tokens) / rl.per_minute + 1000000

-- `Allow` on a client that is known
abbrev pub spend : RateLimiter → ℕ → Str → ℕ → RateLimiter × Bool × ℕ
spend rl now key tokens =
    if leb token tokens
    then (with_bucket rl key record { tokens = tokens - token; last_seen = now }, true, 0)
    else (with_bucket rl key record { tokens = tokens; last_seen = now }, false, wait_for rl tokens)

abbrev pub allow_on : RateLimiter → ℕ → Str → Option Bucket → RateLimiter × Bool × ℕ
allow_on rl now key none =
    (with_bucket rl key record { tokens = rl.burst * token - token; last_seen = now }, true, 0)
allow_on rl now key (some c) = spend rl now key (refilled rl c now)

-- `Allow`
unfoldable pub allow : RateLimiter → ℕ → Str → RateLimiter × Bool × ℕ
unfolding str_eq
allow rl now key = allow_on rl now key (rl.clients key)

abbrev pub seen_lately : ℕ → Option Bucket → Option Bucket
seen_lately now none = none
seen_lately now (some c) = if ltb five_minutes (now - c.last_seen) then none else some c

-- `cleanupOldClients`
unfoldable pub cleanup_old_clients : RateLimiter → ℕ → RateLimiter
cleanup_old_clients rl now = record rl { clients = λ k. seen_lately now (rl.clients k) }
