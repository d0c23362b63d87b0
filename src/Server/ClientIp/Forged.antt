-- ===== src/Server/ClientIp/Forged.antt =====
-- What a client cannot choose in internal/server/api/ratelimit.go.
use ragota.Base.{
  List, Option, [], ap, false, if◌then◌else◌, none, not, refl, some, sym, ℕ, ◌++◌, ◌∙◌, ◌∷◌, ◌≡◌,
}
use ragota.Base.Text.{Str, codes, split, trim_space}
use ragota.Base.Text.Laws.{split-sep}
use ragota.Server.ClientIp.{
  Net, Request, addr_in_any, client_ip, closest_hop, forwarded, hop_or, key_of, or_hop, peer_ip,
  rate_limit_key, unless_trusted,
}

module _ (N : Net) where
  or_hop_assoc : (a b c : Option (N.Addr)) → or_hop N (or_hop N a b) c ≡ or_hop N a (or_hop N b c)
  or_hop_assoc none b c = refl
  or_hop_assoc (some x) b c = refl

  or_hop-none : (a : Option (N.Addr)) → a ≡ or_hop N a none
  or_hop-none none = refl
  or_hop-none (some x) = refl

  closest_hop-append :
      (trusted : List N.Prefix) (ps qs : List Str)
      → closest_hop N trusted (ps ++ qs)
        ≡ or_hop N (closest_hop N trusted qs) (closest_hop N trusted ps)
  unfolding closest_hop
  closest_hop-append trusted [] qs = or_hop-none (closest_hop N trusted qs)
  closest_hop-append trusted (p ∷ ps) qs =
      ap (λ x. or_hop N x (unless_trusted N trusted (N.parse_addr (trim_space p))))
        (closest_hop-append trusted ps qs)
      ∙ or_hop_assoc (closest_hop N trusted qs) (closest_hop N trusted ps) _

  -- the same request with another header
  abbrev pub forwarding : Request → Str → Request
  forwarding r fwd = record r { forwarded_for = fwd }

  closest_hop-forged :
      (trusted : List N.Prefix) (forged chain : Str) (a : N.Addr)
      → closest_hop N trusted (split b',' chain) ≡ some a
      → closest_hop N trusted (split b',' (forged ++ b',' ∷ chain)) ≡ some a
  closest_hop-forged trusted forged chain a e =
      ap (closest_hop N trusted) (split-sep b',' forged chain)
      ∙ closest_hop-append trusted (split b',' forged) (split b',' chain)
      ∙ ap (λ x. or_hop N x (closest_hop N trusted (split b',' forged))) e

  forwarded-hop :
      (trusted : List N.Prefix) (peer : N.Addr) (real : Str) (b : ℕ) (fwd : Str) (a : N.Addr)
      → closest_hop N trusted (split b',' (b ∷ fwd)) ≡ some a
      → forwarded N trusted peer real (b ∷ fwd) ≡ N.addr_string a
  unfolding forwarded
  forwarded-hop trusted peer real b fwd a e = ap (hop_or N peer) e

  forwarded-forged :
      (trusted : List N.Prefix) (peer : N.Addr) (real forged : Str) (b : ℕ) (chain : Str)
      (a : N.Addr)
      → closest_hop N trusted (split b',' (b ∷ chain)) ≡ some a
      → forwarded N trusted peer real (forged ++ b',' ∷ b ∷ chain)
        ≡ forwarded N trusted peer real (b ∷ chain)
  forwarded-forged trusted peer real [] b chain a e =
      forwarded-hop trusted peer real b',' (b ∷ chain) a
        (closest_hop-forged trusted [] (b ∷ chain) a e)
      ∙ sym (forwarded-hop trusted peer real b chain a e)
  forwarded-forged trusted peer real (c ∷ forged) b chain a e =
      forwarded-hop trusted peer real c (forged ++ b',' ∷ b ∷ chain) a
        (closest_hop-forged trusted (c ∷ forged) (b ∷ chain) a e)
      ∙ sym (forwarded-hop trusted peer real b chain a e)

  -- When the hops that the proxies added hold an address that is not trusted, then the key of the
  -- request is that of this part of the header: nothing that stands before it, as the client may
  -- have sent it, makes a difference.
  pub rate_limit_key-forwarding :
      (trusted : List N.Prefix) (r : Request) (forged : Str) (b : ℕ) (chain : Str) (a : N.Addr)
      → closest_hop N trusted (split b',' (b ∷ chain)) ≡ some a
      → rate_limit_key N (forwarding r (forged ++ b',' ∷ b ∷ chain)) trusted
        ≡ rate_limit_key N (forwarding r (b ∷ chain)) trusted
  unfolding rate_limit_key client_ip
  rate_limit_key-forwarding trusted r forged b chain a e =
      let peer = peer_ip N r.remote_addr in
      ap
        (λ x.
          key_of r.identity (if not (addr_in_any N peer trusted) then N.addr_string peer else x))
        (forwarded-forged trusted peer r.real_ip forged b chain a e)

  -- A request without an identity, from a peer that is not a trusted proxy, is counted for the
  -- address of the peer, whatever its headers say.
  pub rate_limit_key-peer :
      (trusted : List N.Prefix) (r : Request)
      → r.identity ≡ []
      → addr_in_any N (peer_ip N r.remote_addr) trusted ≡ false
      → rate_limit_key N r trusted ≡ codes "ip:" ++ N.addr_string (peer_ip N r.remote_addr)
  unfolding rate_limit_key client_ip
  rate_limit_key-peer trusted r anonymous untrusted =
      simp (anonymous) (rw (untrusted, client_ip) refl)
