-- ===== src/Server/Peers/Lease.antt =====
-- The part of handleCreatePeer that gives a new peer its address. A stored subnet that is not of
-- IPv4 is answered like one that cannot be read.
use wgpilot.Base.{
  ℕ, Option, none, some, List, [], ◌∷◌, ◌++◌, Str, if◌then◌else◌, str_eq, ◌&&◌, not, bytes,
}
use wgpilot.Base.Space.{trim_space}
use wgpilot.IpAlloc.{
  Subnet, IpAllocator, Search, found, exhausted, diverged, new_ip_allocator, allocate, ip_string,
}
use wgpilot.Wg.Nets.{Net, v4, v6}
use wgpilot.Wg.Types.{Outcome, ok, err}
use wgpilot.Server.Types.{Ip, ip4, ip6, Parsers, Network, Peer, Reply, failed, ip_exhausted}
use wgpilot.Server.Handlers.{internal_error}
use wgpilot.Server.Validate.{split_comma}
use wgpilot.Server.Peers.Validate.{CreatePeerRequest, site_gateway}

abbrev pub subnet_of : Option (Ip × Net) → Option Subnet
subnet_of none = none
subnet_of (some (ip, v4 s)) = some s
subnet_of (some (ip, v6 a ones)) = none

-- The address of a CIDR text, where it is one of IPv4, in front of others.
abbrev pub with_address : Option (Ip × Net) → List ℕ → List ℕ
with_address none ips = ips
with_address (some (ip4 a, n)) ips = a ∷ ips
with_address (some (ip6 a, n)) ips = ips

-- How the reply follows from the search. The search does not run out of fuel.
unfoldable pub granted : Search → Outcome Reply ℕ
granted (found ip) = ok ip
granted exhausted = err (failed 409 ip_exhausted)
granted diverged = err internal_error

unfoldable pub allocated : Option IpAllocator → Outcome Reply ℕ
allocated none = err internal_error
allocated (some a) = granted (allocate a).0

module _ (P : Parsers) where
  unfoldable pub part_ips : List Str → List ℕ → List ℕ
  part_ips [] ips = ips
  part_ips (t ∷ ts) ips = with_address (P.parse_cidr (trim_space t)) (part_ips ts ips)

  -- The addresses in the allowed IPs of the peers.
  unfoldable pub used_ips : List Peer → List ℕ
  used_ips [] = []
  used_ips (p ∷ ps) = part_ips (split_comma p.allowed_ips) (used_ips ps)

  unfoldable pub lease : Network → List Peer → Outcome Reply ℕ
  lease n ps = allocated (new_ip_allocator (subnet_of (P.parse_cidr n.subnet)) (used_ips ps))

-- `serverAllowedIPs`.
unfoldable pub server_allowed_ips : ℕ → CreatePeerRequest → Str
server_allowed_ips ip req =
    let own = ip_string ip ++ bytes "/32" in
    if str_eq req.role site_gateway && not (str_eq req.site_networks [])
    then own ++ (bytes ", " ++ req.site_networks)
    else own
