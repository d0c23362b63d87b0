-- ===== src/Server/RateLimit/Runs/Total.antt =====
-- The requests that a run of internal/server/api/ratelimit.go lets through.
use ragota.Base.{List, [], ap, arith, refl, suc, zero, ℕ, ◌*◌, ◌+◌, ◌-◌, ◌<◌, ◌∙◌, ◌∷◌, ◌≡◌, ◌≤◌}
use ragota.Base.Int.{negsuc, pos, ℤ}
use ragota.Base.Text.{Str}
use ragota.Server.RateLimit.{RateLimiter, new_rate_limiter, or_default, token}
use ragota.Server.RateLimit.Runs.{
  InOrder, IsInBounds, LimiterCall, grants, limiter_call, limiter_run,
}
use ragota.Server.RateLimit.Runs.Avail.{add-mul, avail, avail-later}
use ragota.Server.RateLimit.Runs.Bound.{
  InOrder-le, IsInBounds-later, holds-full, limiter_call-IsInBounds,
}
use ragota.Server.RateLimit.Runs.Spend.{SameRate, limiter_call-SameRate, limiter_call-spends}

grants-le :
    (cs : List (ℕ × LimiterCall)) (rl : RateLimiter) (t u : ℕ) (key : Str)
    → InOrder t u cs
    → IsInBounds rl t
    → rl.burst ≤ 5 * rl.per_minute
    → grants key rl cs * token ≤ avail rl key t + (u - t) * rl.per_minute
unfolding grants InOrder SameRate
grants-le [] rl t u key o v small = omega arith
grants-le ((now, c) ∷ cs) rl t u key (le, o) v small =
    let rl' = limiter_call rl now c in
    let (rate, cap) = limiter_call-SameRate rl now c in
    let rest =
      grants-le cs rl' now u key o (limiter_call-IsInBounds rl t now c le v)
        (omega (arith, rate, cap, small)) in
    let span : (u - t) ≡ (now - t) + (u - now) = omega (arith, le, InOrder-le now u cs o) in
    omega (
      arith,
      rest,
      limiter_call-spends rl t now c key v small,
      avail-later rl (rl.clients key) t now le (v.buckets key),
      ap (λ x. x * rl.per_minute) span,
      add-mul (now - t) (u - now) rl.per_minute,
      ap (λ x. (u - now) * x) rate,
    )

pub limiter_run-kept :
    (cs : List (ℕ × LimiterCall)) (rl : RateLimiter) (t u : ℕ)
    → InOrder t u cs
    → IsInBounds rl t
    → IsInBounds (limiter_run rl cs) u × SameRate (limiter_run rl cs) rl
unfolding limiter_run InOrder SameRate
limiter_run-kept [] rl t u o v = (IsInBounds-later rl t u o v, (refl, refl))
limiter_run-kept ((now, c) ∷ cs) rl t u (le, o) v =
    let (rate, cap) = limiter_call-SameRate rl now c in
    let (bounds, (rate', cap')) =
      limiter_run-kept cs (limiter_call rl now c) now u o
        (limiter_call-IsInBounds rl t now c le v) in
    (bounds, (rate' ∙ rate, cap' ∙ cap))

or_default-positive : (n : ℤ) (d : ℕ) → 0 < d → 0 < or_default n d
or_default-positive (pos zero) d h = h
or_default-positive (pos (suc n)) d h = omega arith
or_default-positive (negsuc n) d h = h

pub new_rate_limiter-IsInBounds : (n b : ℤ) → IsInBounds (new_rate_limiter n b) 0
unfolding new_rate_limiter
new_rate_limiter-IsInBounds n b =
    let rate = or_default-positive n 60 (omega arith) in
    record {
      positive_rate = rate;
      positive_burst = or_default-positive b (or_default n 60) rate;
      buckets = λ k. tt;
    }

-- After calls of a new limiter that took its lock in the order of the times that they read, further
-- calls in that order between two times let through no more requests of a key than the burst and
-- what the rate gives for the time between, if the burst is no more than the rate gives in five
-- minutes.
pub grants_bound :
    (requests_per_minute burst : ℤ) (past calls : List (ℕ × LimiterCall)) (t u : ℕ) (key : Str)
    → InOrder 0 t past
    → InOrder t u calls
    → (new_rate_limiter requests_per_minute burst).burst
      ≤ 5 * (new_rate_limiter requests_per_minute burst).per_minute
    → grants key (limiter_run (new_rate_limiter requests_per_minute burst) past) calls * token
      ≤ (new_rate_limiter requests_per_minute burst).burst * token
        + (u - t) * (new_rate_limiter requests_per_minute burst).per_minute
unfolding SameRate
grants_bound n b past calls t u key o1 o2 small =
    let rl = new_rate_limiter n b in
    let (bounds, (rate, cap)) = limiter_run-kept past rl 0 t o1 (new_rate_limiter-IsInBounds n b) in
    let end = limiter_run rl past in
    omega (
      arith,
      grants-le calls end t u key o2 bounds (omega (arith, rate, cap, small)),
      holds-full end (end.clients key) t,
      rate,
      cap,
      ap (λ x. (u - t) * x) rate,
    )
