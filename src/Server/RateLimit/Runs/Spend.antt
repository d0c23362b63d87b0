-- ===== src/Server/RateLimit/Runs/Spend.antt =====
-- What one call of internal/server/api/ratelimit.go takes from a bucket.

-- what a call leaves of the configuration
use ragota.Base.{
  Bool-cases, Option, ap, arith, false, inl, inr, leb, none, refl, some, sym, ℕ, ◌*◌, ◌+◌, ◌-◌, ◌≡◌,
  ◌≤◌,
}
use ragota.Base.Text.{Str, str_eq, str_eq_iff}
use ragota.Server.RateLimit.{
  Bucket, RateLimiter, allow, allow_on, cleanup_old_clients, refilled, token,
}
use ragota.Server.RateLimit.Runs.{IsInBounds, LimiterCall, granted, limiter_call, request, sweep}
use ragota.Server.RateLimit.Runs.Avail.{avail, holds}
use ragota.Server.RateLimit.Runs.Bound.{allow_on-spends, seen_lately-holds}

unfoldable pub SameRate : RateLimiter → RateLimiter → Type 0
SameRate a b = (a.per_minute ≡ b.per_minute) × (a.burst ≡ b.burst)

pub allow_on-SameRate :
    (rl : RateLimiter) (now : ℕ) (key : Str) (o : Option Bucket)
    → SameRate (allow_on rl now key o).0 rl
unfolding SameRate
allow_on-SameRate rl now key none = (refl, refl)
allow_on-SameRate rl now key (some c) = elim (Bool-cases (leb token (refilled rl c now))) [
  | inl e ↦ rw e (refl, refl)
  | inr e ↦ rw e (refl, refl)
]

pub limiter_call-SameRate :
    (rl : RateLimiter) (now : ℕ) (c : LimiterCall) → SameRate (limiter_call rl now c) rl
unfolding limiter_call allow cleanup_old_clients SameRate
limiter_call-SameRate rl now (request key) = allow_on-SameRate rl now key (rl.clients key)
limiter_call-SameRate rl now sweep = (refl, refl)

holds-SameRate :
    (a b : RateLimiter) (o : Option Bucket) (t : ℕ) → SameRate a b → holds a o t ≡ holds b o t
unfolding SameRate
holds-SameRate a b none t (e1, e2) = ap (λ n. n * token) e2
holds-SameRate a b (some c) t (e1, e2) = omega (arith, ap (λ n. (t - c.last_seen) * n) e1, e2)

-- a request leaves the buckets of the other keys
pub allow_on-other :
    (rl : RateLimiter) (now : ℕ) (k key : Str) (o : Option Bucket)
    → str_eq k key ≡ false
    → (allow_on rl now k o).0.clients key ≡ rl.clients key
allow_on-other rl now k key none h = rw h refl
allow_on-other rl now k key (some c) h = elim (Bool-cases (leb token (refilled rl c now))) [
  | inl e ↦ rw (e, h) refl
  | inr e ↦ rw (e, h) refl
]

request-spends :
    (rl : RateLimiter) (t now : ℕ) (k key : Str)
    → IsInBounds rl t
    → granted key rl now (request k) * token
        + holds rl ((limiter_call rl now (request k)).clients key) now
      ≤ avail rl key now
unfolding limiter_call granted allow
request-spends rl t now k key v = elim (Bool-cases (str_eq k key)) [
  | inl e ↦
      rw (e, sym ((str_eq_iff k key).0 e))
        (allow_on-spends rl t now k (rl.clients k) v (v.buckets k))
  | inr e ↦ rw (e, allow_on-other rl now k key (rl.clients k) e) (omega arith)
]

sweep-spends :
    (rl : RateLimiter) (now : ℕ) (key : Str)
    → rl.burst ≤ 5 * rl.per_minute
    → 0 * token + avail (limiter_call rl now sweep) key now ≤ avail rl key now
unfolding limiter_call cleanup_old_clients
sweep-spends rl now key small = omega (arith, seen_lately-holds rl now (rl.clients key) small)

-- one call takes from a bucket what it lets through
pub limiter_call-spends :
    (rl : RateLimiter) (t now : ℕ) (c : LimiterCall) (key : Str)
    → IsInBounds rl t
    → rl.burst ≤ 5 * rl.per_minute
    → granted key rl now c * token + avail (limiter_call rl now c) key now ≤ avail rl key now
unfolding granted
limiter_call-spends rl t now (request k) key v small = omega (
  arith,
  request-spends rl t now k key v,
  holds-SameRate (limiter_call rl now (request k)) rl
      ((limiter_call rl now (request k)).clients key) now
      (limiter_call-SameRate rl now (request k)),
)
limiter_call-spends rl t now sweep key v small = sweep-spends rl now key small
