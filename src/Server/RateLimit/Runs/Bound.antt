-- ===== src/Server/RateLimit/Runs/Bound.antt =====
-- How many requests the rate limiter of internal/server/api/ratelimit.go lets through.
use native.Mathlib.Nat.{mul-le-mul, le_refl}
use ragota.Base.{
  Bool-cases, List, Option, [], arith, inl, inr, leb, ltb, none, some, ℕ, ◌*◌, ◌+◌, ◌-◌, ◌∷◌, ◌≤◌,
}
use ragota.Base.Text.{Str, str_eq, str_eq_refl}
use ragota.Server.RateLimit.{
  Bucket, RateLimiter, allow, allow_on, cleanup_old_clients, five_minutes, refilled, seen_lately,
  token, with_bucket,
}
use ragota.Server.RateLimit.Runs.{
  BucketOk, InOrder, IsInBounds, LimiterCall, limiter_call, request, sweep,
}
use ragota.Server.RateLimit.Runs.Avail.{full, holds, holds-now, one_if, refilled-holds, spend-holds}

BucketOk-later :
    (rl : RateLimiter) (t now : ℕ) (o : Option Bucket)
    → t ≤ now
    → BucketOk rl t o
    → BucketOk rl now o
BucketOk-later rl t now none le b = tt
BucketOk-later rl t now (some c) le (room, old) = (room, omega arith)

with_bucket-IsInBounds :
    (rl : RateLimiter) (t now : ℕ) (key : Str) (n : ℕ)
    → t ≤ now
    → IsInBounds rl t
    → n ≤ full rl
    → IsInBounds (with_bucket rl key record { tokens = n; last_seen = now }) now
with_bucket-IsInBounds rl t now key n le v room = record {
  positive_rate = v.positive_rate;
  positive_burst = v.positive_burst;
  buckets = λ k. elim (Bool-cases (str_eq key k)) [
    | inl e ↦ rw e (room, omega arith)
    | inr e ↦ rw e (BucketOk-later rl t now (rl.clients k) le (v.buckets k))
  ];
}

refilled-le :
    (rl : RateLimiter) (c : Bucket) (now : ℕ) → c.tokens ≤ full rl → refilled rl c now ≤ full rl
refilled-le rl c now room = omega (arith, refilled-holds rl c now room)

pub allow_on-IsInBounds :
    (rl : RateLimiter) (t now : ℕ) (key : Str) (o : Option Bucket)
    → t ≤ now
    → IsInBounds rl t
    → BucketOk rl t o
    → IsInBounds (allow_on rl now key o).0 now
allow_on-IsInBounds rl t now key none le v b =
    with_bucket-IsInBounds rl t now key (full rl - token) le v (omega arith)
allow_on-IsInBounds rl t now key (some c) le v (room, old) =
    let n = refilled rl c now in
    let fits = refilled-le rl c now room in
    elim (Bool-cases (leb token n)) [
      | inl e ↦ rw e (with_bucket-IsInBounds rl t now key (n - token) le v (omega arith))
      | inr e ↦ rw e (with_bucket-IsInBounds rl t now key n le v fits)
    ]

seen_lately-BucketOk :
    (rl : RateLimiter) (t now : ℕ) (o : Option Bucket)
    → t ≤ now
    → BucketOk rl t o
    → BucketOk rl now (seen_lately now o)
seen_lately-BucketOk rl t now none le b = tt
seen_lately-BucketOk rl t now (some c) le b =
    elim (Bool-cases (ltb five_minutes (now - c.last_seen))) [
      | inl e ↦ rw e tt
      | inr e ↦ rw e (BucketOk-later rl t now (some c) le b)
    ]

-- one call
pub limiter_call-IsInBounds :
    (rl : RateLimiter) (t now : ℕ) (c : LimiterCall)
    → t ≤ now
    → IsInBounds rl t
    → IsInBounds (limiter_call rl now c) now
unfolding limiter_call allow cleanup_old_clients
limiter_call-IsInBounds rl t now (request key) le v =
    allow_on-IsInBounds rl t now key (rl.clients key) le v (v.buckets key)
limiter_call-IsInBounds rl t now sweep le v = record {
  positive_rate = v.positive_rate;
  positive_burst = v.positive_burst;
  buckets = λ k. seen_lately-BucketOk rl t now (rl.clients k) le (v.buckets k);
}

-- a bucket that a sweep drops was full by then
pub seen_lately-holds :
    (rl : RateLimiter) (now : ℕ) (o : Option Bucket)
    → rl.burst ≤ 5 * rl.per_minute
    → holds rl (seen_lately now o) now ≤ holds rl o now
seen_lately-holds rl now none small = omega arith
seen_lately-holds rl now (some c) small = elim (Bool-cases (ltb five_minutes (now - c.last_seen))) [
  | inl e ↦
      let idle : five_minutes ≤ now - c.last_seen = ground arith in
      rw e (omega (arith, small, mul-le-mul idle (le_refl rl.per_minute)))
  | inr e ↦ rw e (omega arith)
]

pub allow_on-spends :
    (rl : RateLimiter) (t now : ℕ) (key : Str) (o : Option Bucket)
    → IsInBounds rl t
    → BucketOk rl t o
    → one_if (allow_on rl now key o).1 * token
        + holds rl ((allow_on rl now key o).0.clients key) now
      ≤ holds rl o now
allow_on-spends rl t now key none v b =
    rw (str_eq_refl key)
      (omega (arith, v.positive_burst, holds-now rl (full rl - token) now (omega arith)))
allow_on-spends rl t now key (some c) v (room, old) = omega (
  arith,
  spend-holds rl key now (refilled rl c now) (refilled-le rl c now room),
  refilled-holds rl c now room,
)

pub IsInBounds-later : (rl : RateLimiter) (t u : ℕ) → t ≤ u → IsInBounds rl t → IsInBounds rl u
IsInBounds-later rl t u le v = record {
  positive_rate = v.positive_rate;
  positive_burst = v.positive_burst;
  buckets = λ k. BucketOk-later rl t u (rl.clients k) le (v.buckets k);
}

pub InOrder-le : (t u : ℕ) (cs : List (ℕ × LimiterCall)) → InOrder t u cs → t ≤ u
unfolding InOrder
InOrder-le t u [] o = o
InOrder-le t u ((now, c) ∷ cs) (le, o) = omega (arith, le, InOrder-le now u cs o)

pub holds-full : (rl : RateLimiter) (o : Option Bucket) (t : ℕ) → holds rl o t ≤ full rl
holds-full rl none t = omega arith
holds-full rl (some c) t = omega arith
