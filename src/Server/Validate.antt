-- ===== src/Server/Validate.antt =====
-- The checks of requests in internal/server/routes_networks.go.
pub mod Private
mod Tests
use wgpilot.Base.{
  ℕ, ◌/◌, ◌%◌, ◌^◌, Bool, true, false, ◌&&◌, ◌||◌, not, Option, none, some, List, [], ◌∷◌, ◌++◌,
  Str, bytes, str_eq, if◌then◌else◌, ltb, leb, ◌==◌, length,
}
use wgpilot.Base.Lines.{onto}
use wgpilot.Base.Space.{between, trim_space}
use wgpilot.IpAlloc.{Subnet}
use wgpilot.Wg.Nets.{Net, v4, v6}
use wgpilot.Server.Types.{Ip, ip4, ip6, Parsers}

pub record CreateNetworkRequest : Type 0 where
  pub name : Str
  pub mode : Str
  pub subnet : Str
  pub listen_port : ℕ
  pub dns_servers : Str
  pub nat_enabled : Bool
  pub inter_peer_routing : Bool

-- `none` is a field that the request leaves out.
pub record UpdateNetworkRequest : Type 0 where
  pub name : Option Str
  pub dns_servers : Option Str
  pub nat_enabled : Option Bool
  pub inter_peer_routing : Option Bool

-- A character of the class [a-zA-Z0-9 _-].
unfoldable pub is_name_char : ℕ → Bool
is_name_char c =
    between b'a' b'z' c
    || (between b'A' b'Z' c
        || (between b'0' b'9' c || ((c == b' ') || ((c == b'_') || (c == b'-')))))

unfoldable pub all_chars : (ℕ → Bool) → Str → Bool
all_chars p [] = true
all_chars p (c ∷ s) = p c && all_chars p s

-- `^[a-zA-Z0-9 _-]{1,64}$`.
unfoldable pub is_valid_name : Str → Bool
unfolding is_name_char all_chars
is_valid_name name = between 1 64 (length name) && all_chars is_name_char name

unfoldable pub is_valid_mode : Str → Bool
is_valid_mode mode =
    str_eq mode (bytes "gateway")
    || (str_eq mode (bytes "site-to-site") || str_eq mode (bytes "hub-routed"))

-- The private ranges, by the first octets of an IPv4 address.
unfoldable pub is_private_address : ℕ → Bool
is_private_address ip =
    let first = ip / 2 ^ 24 in
    let second = ip / 2 ^ 16 % 256 in
    if first == 10
    then true
    else if (first == 172) && between 16 31 second
    then true
    else (first == 192) && (second == 168)

-- The mask of an IPv6 network has 128 bits.
unfoldable pub is_private_net : Ip → Net → Bool
unfolding is_private_address
is_private_net ip (v6 address ones) = false
is_private_net ip (v4 net) =
    if ltb net.ones 16 || ltb 30 net.ones
    then false
    else elim ip [ ip4 a ↦ is_private_address a | ip6 a ↦ false ]

-- `strings.Split(s, ",")`.
unfoldable pub split_comma : Str → List Str
split_comma [] = [] ∷ []
split_comma (c ∷ s) = let parts = split_comma s in if c == b',' then [] ∷ parts else onto c parts

-- The name of a field that fails, in front of those that follow.
abbrev pub unless_valid : Bool → Str → List Str → List Str
unless_valid b field errs = if b then errs else field ∷ errs

module _ (P : Parsers) where
  unfoldable pub is_valid_private_cidr : Str → Bool
  unfolding is_private_net
  is_valid_private_cidr cidr = elim (P.parse_cidr cidr) [
    | none ↦ false
    | some r ↦ is_private_net r.0 r.1
  ]

  each_ip : List Str → Bool
  unfolding trim_space
  each_ip [] = true
  each_ip (p ∷ ps) = P.parse_ip (trim_space p) && each_ip ps

  unfoldable pub is_valid_dns_servers : Str → Bool
  unfolding split_comma each_ip
  is_valid_dns_servers [] = true
  is_valid_dns_servers (c ∷ s) =
      let parts = split_comma (c ∷ s) in if ltb 3 (length parts) then false else each_ip parts

  unfoldable pub validate_create_network : CreateNetworkRequest → List Str
  validate_create_network r = unless_valid (is_valid_name r.name) (bytes "name") (
      unless_valid (is_valid_mode r.mode) (bytes "mode") (
        unless_valid (is_valid_private_cidr r.subnet) (bytes "subnet") (
          unless_valid (between 1024 65535 r.listen_port) (bytes "listen_port")
            (unless_valid (is_valid_dns_servers r.dns_servers) (bytes "dns_servers") []))))

  pub validate_update_network : UpdateNetworkRequest → List Str
  validate_update_network r =
      unless_valid (elim r.name [ none ↦ true | some s ↦ is_valid_name s ]) (bytes "name")
        (unless_valid (elim r.dns_servers [ none ↦ true | some s ↦ is_valid_dns_servers s ])
          (bytes "dns_servers") [])
