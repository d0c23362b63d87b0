-- ===== src/Server/RateLimit/Runs/Avail.antt =====
-- The tokens that a client of internal/server/api/ratelimit.go could spend at a time.
use native.Mathlib.Nat.{mul-add, mul_comm}
use ragota.Base.{
  Bool, Bool-cases, Option, ap, arith, if◌then◌else◌, inl, inr, leb, leb→le, ltb, min, none, refl,
  some, ℕ, ◌*◌, ◌+◌, ◌-◌, ◌≡◌, ◌≤◌,
}
use ragota.Base.Text.{Str, str_eq_refl}
use ragota.Server.RateLimit.{Bucket, RateLimiter, refilled, spend, token}
use ragota.Server.RateLimit.Runs.{BucketOk}

abbrev pub full : RateLimiter → ℕ
full rl = rl.burst * token

-- what a bucket would hold at a time
abbrev pub holds : RateLimiter → Option Bucket → ℕ → ℕ
holds rl none t = full rl
holds rl (some c) t = min (full rl) (c.tokens + (t - c.last_seen) * rl.per_minute)

abbrev pub avail : RateLimiter → Str → ℕ → ℕ
avail rl key t = holds rl (rl.clients key) t

pub add-mul : (a b r : ℕ) → (a + b) * r ≡ a * r + b * r
add-mul a b r = omega (arith, mul_comm (a + b) r, mul-add r a b, mul_comm r a, mul_comm r b)

-- tokens come at the rate, and no faster
pub avail-later :
    (rl : RateLimiter) (o : Option Bucket) (t u : ℕ)
    → t ≤ u
    → BucketOk rl t o
    → holds rl o u ≤ holds rl o t + (u - t) * rl.per_minute
avail-later rl none t u le v = omega arith
avail-later rl (some c) t u le (room, old) =
    let split : (u - c.last_seen) ≡ (t - c.last_seen) + (u - t) = omega (arith, le, old) in
    omega
      (arith, ap (λ x. x * rl.per_minute) split, add-mul (t - c.last_seen) (u - t) rl.per_minute)

pub refilled-holds :
    (rl : RateLimiter) (c : Bucket) (t : ℕ)
    → c.tokens ≤ full rl
    → refilled rl c t ≡ holds rl (some c) t
refilled-holds rl c t room = elim (Bool-cases (ltb c.last_seen t)) [
  | inl e ↦ rw e refl
  | inr e ↦
      let none_new : t - c.last_seen ≡ 0 = ground arith in
      rw e (omega (arith, ap (λ x. x * rl.per_minute) none_new, mul_comm 0 rl.per_minute))
]

pub holds-now :
    (rl : RateLimiter) (n t : ℕ)
    → n ≤ full rl
    → holds rl (some record { tokens = n; last_seen = t }) t ≡ n
holds-now rl n t room =
    let none_new : t - t ≡ 0 = omega arith in
    omega (arith, ap (λ x. x * rl.per_minute) none_new, mul_comm 0 rl.per_minute)

abbrev pub one_if : Bool → ℕ
one_if b = if b then 1 else 0

-- a bucket pays for the request that it lets through
pub spend-holds :
    (rl : RateLimiter) (key : Str) (now n : ℕ)
    → n ≤ full rl
    → one_if (spend rl now key n).1 * token + holds rl ((spend rl now key n).0.clients key) now ≤ n
spend-holds rl key now n room = elim (Bool-cases (leb token n)) [
  | inl e ↦
      simp (e, str_eq_refl key)
        (omega (arith, holds-now rl (n - token) now (omega (arith, room)), leb→le token n e))
  | inr e ↦ simp (e, str_eq_refl key) (omega (arith, holds-now rl n now room))
]
