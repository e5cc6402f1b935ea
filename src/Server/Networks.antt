-- ===== src/Server/Networks.antt =====
-- The handlers of internal/server/routes_networks.go that change networks. A request comes as its
-- decoded path and body. A stored subnet that cannot be parsed is passed over, as the nil network
-- is.
pub mod Lifecycle
pub mod Rejected
mod Tests
use wgpilot.Base.{
  ℕ, Bool, true, false, not, Option, none, some, List, [], ◌∷◌, Str, if◌then◌else◌, ◌==◌,
}
use wgpilot.Wg.Nets.{Net}
use wgpilot.Wg.Types.{NetworkConfig, PeerConfig, Outcome, ok, err}
use wgpilot.Wg.Manager.{create_interface, delete_interface, add_peer}
use wgpilot.Nft.Manager.{
  add_nat, remove_nat, enable_forwarding, disable_forwarding, remove_bridge, open_port, close_port,
}
use wgpilot.Server.Types.{
  Network, Bridge, Peer, subnet_conflict, port_in_use, interface_create_failed, Reply, network,
  no_content, failed, Ip, Parsers, Env, Server,
}
use wgpilot.Server.Validate.{
  CreateNetworkRequest, UpdateNetworkRequest, validate_create_network, validate_update_network,
}
use wgpilot.Server.Subnets.{overlaps}
use wgpilot.Server.Names.{next_interface_name}
use wgpilot.Server.Handlers.{
  internal_error, Handler, ◌>>=◌, ◌>>◌, done, decoded, reject, reject_invalid, when, query, must,
  ignore, nothing, change, firewall, wireguard, find_network, fetch_network, fetch_or,
}

-- Does the subnet overlap that of a network of the list?
unfoldable pub has_conflict : Parsers → Net → List Network → Bool
has_conflict P s [] = false
has_conflict P s (n ∷ ns) = elim (P.parse_cidr n.subnet) [
  | none ↦ has_conflict P s ns
  | some r ↦ if overlaps s r.1 then true else has_conflict P s ns
]

-- The subnet of the request has passed the validation.
unfoldable pub conflicts : Parsers → Str → List Network → Bool
conflicts P s ns = elim (P.parse_cidr s) [ none ↦ false | some r ↦ has_conflict P r.1 ns ]

unfoldable pub port_taken : ℕ → List Network → Bool
port_taken port [] = false
port_taken port (n ∷ ns) = if n.listen_port == port then true else port_taken port ns

-- The row of the request; the database gives the identifier.
abbrev pub new_network : CreateNetworkRequest → Str → Str × Str → Network
new_network req name keys = record {
  id = 0;
  name = req.name;
  interface = name;
  mode = req.mode;
  subnet = req.subnet;
  listen_port = req.listen_port;
  private_key = keys.0;
  public_key = keys.1;
  dns_servers = req.dns_servers;
  nat_enabled = req.nat_enabled;
  inter_peer_routing = req.inter_peer_routing;
  enabled = true;
}

abbrev pub interface_config : Network → NetworkConfig
interface_config n = record {
  id = 0;
  name = [];
  interface = n.interface;
  mode = [];
  subnet = n.subnet;
  listen_port = n.listen_port;
  private_key = n.private_key;
  public_key = n.public_key;
  dns_servers = [];
  nat_enabled = false;
  inter_peer_routing = false;
  enabled = false;
}

abbrev pub peer_config : Peer → PeerConfig
peer_config p = record {
  id = 0;
  network_id = 0;
  name = p.name;
  public_key = p.public_key;
  preshared_key = p.preshared_key;
  allowed_ips = p.allowed_ips;
  endpoint = p.endpoint;
  persistent_keepalive = p.persistent_keepalive;
  role = [];
  site_networks = [];
  enabled = false;
}

module _ (E : Env) where
  unfoldable pub draw_keys : Handler E (Str × Str)
  draw_keys s =
      let (r, seed) = E.generate_key_pair s.seed in
      elim r [
        | ok keys ↦ (ok keys, record s { seed = seed })
        | err e ↦ (err internal_error, record s { seed = seed })
      ]

  -- The clean-up of the steps after the interface is there.
  unfoldable pub drop_interface : Str → Server E → Server E
  drop_interface name s = (wireguard (delete_interface E.host name) s).1

  unfoldable pub store_network : Network → Handler E ℕ
  unfolding drop_interface
  store_network n s =
      let (r, db) = E.database.create_network n s.db in
      elim r [
        | ok id ↦ (ok id, record s { db = db })
        | err e ↦ (err internal_error, drop_interface n.interface (record s { db = db }))
      ]

  -- From the creation of the interface on.
  unfoldable pub build_network : Network → Handler E Reply
  unfolding store_network drop_interface
  build_network n = do
    must (wireguard (create_interface E.host (interface_config n))) nothing
        (failed 500 interface_create_failed)
    must (firewall (open_port n.listen_port)) (drop_interface n.interface) internal_error
    when n.nat_enabled
        (must (firewall (add_nat n.interface n.subnet)) (drop_interface n.interface) internal_error)
    when n.inter_peer_routing (
        must (firewall (enable_forwarding n.interface)) (drop_interface n.interface) internal_error)
    id ← store_network n
    created ← fetch_network id
    done (network 201 created)

  unfoldable pub handle_create_network : Outcome Reply CreateNetworkRequest → Handler E Reply
  unfolding draw_keys build_network conflicts has_conflict port_taken
  handle_create_network body = do
    req ← decoded body
    reject_invalid (validate_create_network E.parsers req)
    networks ← query E.database.list_networks
    reject (conflicts E.parsers req.subnet networks) (failed 409 subnet_conflict)
    reject (port_taken req.listen_port networks) (failed 409 port_in_use)
    keys ← draw_keys
    build_network (new_network req (next_interface_name networks) keys)

  abbrev differs : Bool → Bool → Bool
  differs true b = not b
  differs false b = b

  unfoldable pub toggle_nat : Option Bool → Network → Handler E Network
  toggle_nat none n = done n
  toggle_nat (some b) n =
      if differs b n.nat_enabled
      then must (firewall (if b then add_nat n.interface n.subnet else remove_nat n.interface))
          nothing internal_error
        >> done (record n { nat_enabled = b })
      else done n

  unfoldable pub toggle_forwarding : Option Bool → Network → Handler E Network
  toggle_forwarding none n = done n
  toggle_forwarding (some b) n =
      if differs b n.inter_peer_routing
      then must
          (firewall (if b then enable_forwarding n.interface else disable_forwarding n.interface))
          nothing internal_error
        >> done (record n { inter_peer_routing = b })
      else done n

  abbrev pub renamed : UpdateNetworkRequest → Network → Network
  renamed req n = record n {
    name = elim req.name [ none ↦ n.name | some s ↦ s ];
    dns_servers = elim req.dns_servers [ none ↦ n.dns_servers | some s ↦ s ];
  }

  unfoldable pub handle_update_network :
      Outcome Reply ℕ → Outcome Reply UpdateNetworkRequest → Handler E Reply
  unfolding toggle_nat toggle_forwarding
  handle_update_network path body = do
    id ← decoded path
    req ← decoded body
    reject_invalid (validate_update_network E.parsers req)
    old ← find_network id
    n ← toggle_nat req.nat_enabled (renamed req old)
    m ← toggle_forwarding req.inter_peer_routing n
    must (change (E.database.update_network m)) nothing internal_error
    updated ← fetch_network id
    done (network 200 updated)
