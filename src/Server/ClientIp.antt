-- ===== src/Server/ClientIp.antt =====
-- Who a request is counted for: `clientIP`, `rateLimitKey` and the middleware of
-- internal/server/api/ratelimit.go. The address types of net and net/netip are an argument.
pub mod Forged
use ragota.Base.{
  Bool, List, Option, [], any, false, if◌then◌else◌, ltb, none, not, some, true, ℕ, ◌&&◌, ◌++◌, ◌+◌,
  ◌-◌, ◌/◌, ◌==◌, ◌||◌, ◌∷◌,
}
use ragota.Base.Text.{Str, codes, split, str_eq, trim, trim_space}
use ragota.Server.RateLimit.{RateLimiter, allow}

pub record Net : Type 1 where
  pub Addr : Type 0
  pub Prefix : Type 0
  pub no_addr : Addr  -- `netip.Addr{}`
  pub is_valid : Addr → Bool
  pub unmap : Addr → Addr
  pub contains_addr : Prefix → Addr → Bool
  pub addr_string : Addr → Str
  pub parse_addr : Str → Option Addr
  pub parse_prefix : Str → Option Prefix
  pub host_prefix : Addr → Prefix  -- `PrefixFrom` with all the bits of the address
  pub split_host : Str → Option Str  -- the host of `SplitHostPort`

-- what the limiter reads of a request; a header that is missing is empty
pub record Request : Type 0 where
  pub url_path : Str
  pub remote_addr : Str
  pub forwarded_for : Str
  pub real_ip : Str
  pub identity : Str

pub data Reply : Type 0 where
  passed_on : Reply
  too_many : ℕ → Reply  -- with the Retry-After seconds

abbrev pub key_of : Str → Str → Str
key_of [] ip = codes "ip:" ++ ip
key_of (b ∷ id) ip = codes "key:" ++ b ∷ id

abbrev pub one_second : ℕ
one_second = 1000000000

-- the seconds of a wait, rounded up, and one at least
abbrev pub retry_seconds : ℕ → ℕ
retry_seconds wait = let n = (wait + (one_second - 1)) / one_second in if ltb n 1 then 1 else n

abbrev pub reply_of : RateLimiter × Bool × ℕ → RateLimiter × Reply
reply_of (rl, true, wait) = (rl, passed_on)
reply_of (rl, false, wait) = (rl, too_many (retry_seconds wait))

module _ (N : Net) where
  abbrev pub addr_or_none : Option N.Addr → N.Addr
  addr_or_none none = N.no_addr
  addr_or_none (some a) = N.unmap a

  abbrev pub host_or : Str → Option Str → Str
  host_or s none = s
  host_or s (some h) = h

  abbrev pub is_bracket : ℕ → Bool
  is_bracket b = b == 91 || b == 93

  -- `peerIP`
  unfoldable pub peer_ip : Str → N.Addr
  unfolding trim
  peer_ip remote =
      addr_or_none (N.parse_addr (trim is_bracket (host_or remote (N.split_host remote))))

  -- `addrInAny`
  unfoldable pub addr_in_any : N.Addr → List N.Prefix → Bool
  addr_in_any a prefixes = N.is_valid a && any (λ p. N.contains_addr p a) prefixes

  abbrev pub unless_trusted : List N.Prefix → Option N.Addr → Option N.Addr
  unless_trusted trusted none = none
  unless_trusted trusted (some a) =
      if addr_in_any (N.unmap a) trusted then none else some (N.unmap a)

  abbrev pub or_hop : Option N.Addr → Option N.Addr → Option N.Addr
  or_hop none b = b
  or_hop (some a) b = some a

  -- the walk from right to left over the hops
  unfoldable pub closest_hop : List N.Prefix → List Str → Option N.Addr
  unfolding trim
  closest_hop trusted [] = none
  closest_hop trusted (p ∷ ps) =
      or_hop (closest_hop trusted ps) (unless_trusted trusted (N.parse_addr (trim_space p)))

  abbrev pub hop_or : N.Addr → Option N.Addr → Str
  hop_or peer none = N.addr_string peer
  hop_or peer (some a) = N.addr_string a

  abbrev pub unmapped : Option N.Addr → Option N.Addr
  unmapped none = none
  unmapped (some a) = some (N.unmap a)

  -- the address of the X-Real-IP header
  abbrev pub real_hop : Str → Option N.Addr
  real_hop [] = none
  real_hop (b ∷ s) = unmapped (N.parse_addr (b ∷ s))

  -- what a trusted proxy says of the client
  unfoldable pub forwarded : List N.Prefix → N.Addr → Str → Str → Str
  unfolding trim split closest_hop
  forwarded trusted peer real [] = hop_or peer (real_hop (trim_space real))
  forwarded trusted peer real (b ∷ fwd) = hop_or peer (closest_hop trusted (split (b',') (b ∷ fwd)))

  -- `clientIP`
  unfoldable pub client_ip : Request → List N.Prefix → Str
  unfolding peer_ip addr_in_any forwarded
  client_ip r trusted =
      let peer = peer_ip r.remote_addr in
      if not (addr_in_any peer trusted)
      then N.addr_string peer
      else forwarded trusted peer r.real_ip r.forwarded_for

  abbrev pub prefix_of : Option N.Prefix → Option N.Addr → List N.Prefix
  prefix_of (some p) a = p ∷ []
  prefix_of none (some a) = N.host_prefix (N.unmap a) ∷ []
  prefix_of none none = []

  abbrev pub parsed_entry : Str → List N.Prefix
  parsed_entry [] = []
  parsed_entry (b ∷ e) = prefix_of (N.parse_prefix (b ∷ e)) (N.parse_addr (b ∷ e))

  -- `ParseTrustedProxies`
  unfoldable pub parse_trusted_proxies : List Str → List N.Prefix
  unfolding trim
  parse_trusted_proxies [] = []
  parse_trusted_proxies (e ∷ es) = parsed_entry (trim_space e) ++ parse_trusted_proxies es

  -- `rateLimitKey`
  unfoldable pub rate_limit_key : Request → List N.Prefix → Str
  unfolding client_ip
  rate_limit_key r trusted = key_of r.identity (client_ip r trusted)

  -- `RateLimitMiddleware`
  unfoldable pub rate_limited : RateLimiter → List N.Prefix → ℕ → Request → RateLimiter × Reply
  unfolding allow rate_limit_key str_eq
  rate_limited rl trusted now r =
      if str_eq r.url_path (codes "/health") || str_eq r.url_path (codes "/ready")
      then (rl, passed_on)
      else reply_of (allow rl now (rate_limit_key r trusted))
