-- ===== src/Server/Networks/Rejected.antt =====
-- What handleCreateNetwork of internal/server/routes_networks.go answers to a subnet that overlaps
-- that of a stored network.
use wgpilot.Base.{ℕ, ◌≡◌, ap, ◌∙◌, true, some, List, [], ◌∷◌, Str, arith, Member, inl, inr}
use wgpilot.IpAlloc.{Subnet, contains}
use wgpilot.Wg.Nets.{v4}
use wgpilot.Wg.Types.{ok, err}
use wgpilot.Server.Types.{Network, subnet_conflict, failed, Ip, Parsers, Env, Server}
use wgpilot.Server.Validate.{CreateNetworkRequest, validate_create_network}
use wgpilot.Server.Subnets.{overlaps, overlaps_iff}
use wgpilot.Server.Networks.{has_conflict, conflicts, handle_create_network}
use wgpilot.Server.Passes.{
  bind_pass, bind_stop, decoded_pass, reject_invalid_pass, query_pass, reject_stop,
}

-- An address that the two networks share.
pub record Shared (P : Parsers) (s t : Str) : Type 0 where
  pub own : Subnet
  pub other : Subnet
  pub own_ip : Ip
  pub other_ip : Ip
  pub address : ℕ
  pub parsed : P.parse_cidr s ≡ some (own_ip, v4 own)
  pub other_parsed : P.parse_cidr t ≡ some (other_ip, v4 other)
  pub inside : contains own address ≡ true
  pub other_inside : contains other address ≡ true

module _ (P : Parsers) where
  has_conflict_found :
      (s : Str) (n : Network) (ns : List Network) (h : Shared P s n.subnet)
      → Member n ns
      → has_conflict P (v4 h.own) ns ≡ true
  unfolding has_conflict
  has_conflict_found s n [] h m = absurd m
  has_conflict_found s n (k ∷ ns) h (inl e) =
      let meets : overlaps (v4 h.own) (v4 h.other) ≡ true =
        (overlaps_iff h.own h.other).1 (h.address, h.inside, h.other_inside) in
      let parsed : P.parse_cidr k.subnet ≡ some (h.other_ip, v4 h.other) =
        ap (λ (v : Network). P.parse_cidr v.subnet) e ∙ h.other_parsed in
      ground arith
  has_conflict_found s n (k ∷ ns) h (inr m) = ground (arith, has_conflict_found s n ns h m)

  conflicts_found :
      (s : Str) (n : Network) (ns : List Network)
      → Shared P s n.subnet
      → Member n ns
      → conflicts P s ns ≡ true
  unfolding conflicts
  conflicts_found s n ns h m = ground (arith, h.parsed, has_conflict_found s n ns h m)

-- A valid request whose subnet shares an IPv4 address with that of a stored network is answered
-- with 409 and the code of a subnet conflict, and changes nothing at all.
pub handle_create_network_conflict :
    (E : Env) (req : CreateNetworkRequest) (s : Server E) (n : Network) (ns : List Network)
    → validate_create_network E.parsers req ≡ []
    → E.database.list_networks s.db ≡ ok ns
    → Member n ns
    → Shared E.parsers req.subnet n.subnet
    → handle_create_network E (ok req) s ≡ (err (failed 409 subnet_conflict), s)
unfolding handle_create_network
handle_create_network_conflict E req s n ns valid listed m h =
    bind_pass E _ _ req s (decoded_pass E req s)
    ∙ bind_pass E _ _ tt s (reject_invalid_pass E _ s valid)
    ∙ bind_pass E _ _ ns s (query_pass E _ ns s listed)
    ∙ bind_stop E _ _ _ s (reject_stop E _ _ s (conflicts_found E.parsers req.subnet n ns h m))
