-- ===== src/Server/RateLimit/Runs/Retry.antt =====
-- A client that the rate limiter of internal/server/api/ratelimit.go sends away comes back.
use ragota.Base.{Bool, not, true}
use ragota.Base.Text.{Str, str_eq}
use ragota.Server.RateLimit.Runs.{LimiterCall, request, sweep}

-- a call that is not a request of the key
unfoldable pub spares : Str → LimiterCall → Bool
unfolding str_eq
spares key sweep = true
spares key (request k) = not (str_eq k key)
