-- ===== src/Server/Tests.antt =====
-- Runs of internal/server/api/ratelimit.go, and instances of the theorems.

use ragota.Base.{
  List, [], arith, if◌then◌else◌, none, not, refl, some, ℕ, ◌*◌, ◌++◌, ◌+◌, ◌-◌, ◌/◌, ◌∷◌, ◌≡◌, ◌≤◌,
}
use ragota.Base.Int.{pos}
use ragota.Base.Text.{Str, codes, has_prefix, split, str_eq, trim, trim_left, trim_right}
use ragota.Server.ClientIp.{
  Net, Request, addr_in_any, client_ip, closest_hop, forwarded, peer_ip, rate_limit_key,
}
use ragota.Server.ClientIp.Forged.{forwarding, rate_limit_key-forwarding}
use ragota.Server.RateLimit.{
  RateLimiter, allow, cleanup_old_clients, five_minutes, new_rate_limiter, set_bucket, token,
}
use ragota.Server.RateLimit.Runs.{
  InOrder, LimiterCall, granted, grants, limiter_call, limiter_run, request, sweep,
}
use ragota.Server.RateLimit.Runs.Total.{grants_bound}

abbrev client : Str
client = codes "ip:10.0.0.7"

abbrev second : ℕ
second = 1000000000

-- three requests at once, and one after half a second
abbrev calls : List (ℕ × LimiterCall)
calls =
    (second, request client)
    ∷ (second, request client)
    ∷ (second, request client)
    ∷ (second + 500000000, request client)
    ∷ []

grants-calls : grants client (new_rate_limiter (pos 60) (pos 2)) calls ≡ 2
unfolding grants granted limiter_call allow new_rate_limiter cleanup_old_clients str_eq
grants-calls = refl

-- a sweep fills a bucket that is larger than what the rate gives in five minutes
abbrev seven : ℕ → List (ℕ × LimiterCall)
seven t =
    (t, request client)
    ∷ (t, request client)
    ∷ (t, request client)
    ∷ (t, request client)
    ∷ (t, request client)
    ∷ (t, request client)
    ∷ (t, request client)
    ∷ []

-- A call that read its time first and takes the lock last sets the time of the bucket back: the
-- next one gets the same minute once more, and three requests pass within a minute.
grants-out_of_order :
    grants client (new_rate_limiter (pos 1) (pos 1)) (
      (0, request client)
      ∷ (five_minutes / 5, request client)
      ∷ (0, request client)
      ∷ (five_minutes / 5, request client)
      ∷ [])
    ≡ 3
unfolding grants granted limiter_call allow new_rate_limiter cleanup_old_clients str_eq
grants-out_of_order = refl

grants-swept :
    grants client
      (new_rate_limiter (pos 1) (pos 7))
      (seven 0 ++ (five_minutes + 1, sweep) ∷ seven (five_minutes + 1))
    ≡ 14
unfolding grants granted limiter_call allow new_rate_limiter cleanup_old_clients str_eq
grants-swept = refl

grants-not_swept :
    grants client (new_rate_limiter (pos 1) (pos 7)) (seven 0 ++ seven (five_minutes + 1)) ≡ 12
unfolding grants granted limiter_call allow new_rate_limiter cleanup_old_clients str_eq
grants-not_swept = refl

calls-InOrder : InOrder second (3 * second) calls
unfolding InOrder
calls-InOrder = (omega arith, (omega arith, (omega arith, (omega arith, omega arith))))

no_calls-InOrder : InOrder 0 second []
unfolding InOrder
no_calls-InOrder = omega arith

grants_bound_example :
    grants client (limiter_run (new_rate_limiter (pos 60) (pos 2)) []) calls * token
    ≤ (new_rate_limiter (pos 60) (pos 2)).burst * token
      + (3 * second - second) * (new_rate_limiter (pos 60) (pos 2)).per_minute
unfolding new_rate_limiter
grants_bound_example =
    grants_bound (pos 60) (pos 2) [] calls second (3 * second) client no_calls-InOrder calls-InOrder
      (omega arith)

-- a limiter that has let two requests of one client through
abbrev spent : RateLimiter
unfolding str_eq
spent = record {
  clients = set_bucket (λ k. none) client record { tokens = 0; last_seen = second };
  per_minute = 60;
  burst = 2;
}

abbrev others : List (ℕ × LimiterCall)
others = (2 * second, request (codes "key:ci")) ∷ (2 * second, sweep) ∷ []

-- addresses are texts, and a prefix holds the texts that begin with it
abbrev text_net : Net
text_net = record {
  Addr = Str;
  Prefix = Str;
  no_addr = [];
  is_valid = λ a. not (str_eq a []);
  unmap = λ a. a;
  contains_addr = λ p a. has_prefix a p;
  addr_string = λ a. a;
  parse_addr = λ s. if str_eq s [] then none else some s;
  parse_prefix = λ s. none;
  host_prefix = λ a. a;
  split_host = λ s. none;
}

abbrev proxied : Request
proxied = record {
  url_path = codes "/search";
  remote_addr = codes "10.0.0.1";
  forwarded_for = [];
  real_ip = [];
  identity = [];
}

rate_limit_key-proxied :
    rate_limit_key text_net
      (forwarding text_net proxied (codes "1.1.1.1, 7.7.7.7, 10.0.0.2"))
      (codes "10." ∷ [])
    ≡ codes "ip:7.7.7.7"
unfolding rate_limit_key client_ip forwarded closest_hop peer_ip addr_in_any split trim str_eq
    has_prefix trim_left trim_right
rate_limit_key-proxied = refl

rate_limit_key-forwarding_example :
    rate_limit_key text_net
      (forwarding text_net proxied (codes "1.1.1.1" ++ b',' ∷ codes "7.7.7.7, 10.0.0.2"))
      (codes "10." ∷ [])
    ≡ rate_limit_key text_net
        (forwarding text_net proxied (codes "7.7.7.7, 10.0.0.2"))
        (codes "10." ∷ [])
unfolding closest_hop addr_in_any split trim str_eq has_prefix trim_left trim_right
rate_limit_key-forwarding_example =
    rate_limit_key-forwarding text_net (codes "10." ∷ []) proxied (codes "1.1.1.1") b'7'
      (codes ".7.7.7, 10.0.0.2") (codes "7.7.7.7") refl
