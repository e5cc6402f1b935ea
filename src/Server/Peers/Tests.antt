-- ===== src/Server/Peers/Tests.antt =====
-- Requests for networks and peers to a server with a database in memory.
use wgpilot.Base.{
  ℕ, ◌+◌, Str, arith, true, str_eq, List, [], ◌∷◌, bytes, none, some, false, ◌≡◌, refl,
}
use wgpilot.Base.Int.{pos}
use wgpilot.Wg.Types.{Host, ok, err}
use wgpilot.Wg.Nets.{v4}
use wgpilot.Wg.Nets.Tests.{small_text}
use wgpilot.Nft.Manager.Tests.{small, in_order, empty}
use wgpilot.Server.Types.{Network, Peer, ip4, Env, Server}
use wgpilot.Server.Example.{office, lan, lan_text, memory, parse_example}
use wgpilot.Server.Requests.{
  Request, to_networks, to_peers, create, add, change_peer, remove, serve,
}
use wgpilot.Server.Peers.Validate.{CreatePeerRequest, UpdatePeerRequest}
use wgpilot.Server.Peers.Example.{
  host_env, parse_hosts, host_or, dotted, host_parsers, host_parsers-ReadsAddresses,
  memory-StoredPeers,
}
use wgpilot.Server.Peers.Leased.{Leased, keys}
use wgpilot.Server.Peers.Lease.{lease}
use wgpilot.Server.Peers.Handlers.{handle_update_peer}
use wgpilot.Server.Peers.Answers.{Leases, lease-Leases}
use wgpilot.Server.Peers.Enabled.{update_peer_switches_nothing}
use wgpilot.Server.Peers.Histories.{serve-Leased}

abbrev laptop : CreatePeerRequest
laptop = record {
  name = bytes "laptop";
  email = [];
  role = bytes "client";
  persistent_keepalive = pos 25;
  site_networks = [];
  expires_in = [];
}

abbrev gateway : CreatePeerRequest
gateway = record laptop {
  name = bytes "gateway";
  role = bytes "site-gateway";
  site_networks = bytes "10.1.2.0/23";
}

abbrev switched_off : UpdatePeerRequest
switched_off = record {
  name = none;
  email = none;
  enabled = some false;
  persistent_keepalive = none;
  endpoint = none;
  expires_in = none;
}

abbrev fresh : Server host_env
fresh = record {
  db = record { networks = []; bridges = []; peers = [] };
  firewall = empty;
  world = tt;
  seed = 0;
}

-- The third peer gets the address that the first one has left.
abbrev requests : List Request
requests =
    to_networks (create (ok office))
    ∷ to_peers (add (ok 1) (ok laptop))
    ∷ to_peers (add (ok 1) (ok gateway))
    ∷ to_peers (remove (ok 1) (ok 1))
    ∷ to_peers (add (ok 1) (ok laptop))
    ∷ to_peers (change_peer (ok 1) (ok 2) (ok switched_off))
    ∷ []

serve-Leased_example : Leased (keys host_parsers (serve host_env requests fresh).db.peers)
unfolding memory-StoredPeers
serve-Leased_example =
    serve-Leased host_env memory-StoredPeers host_parsers-ReadsAddresses requests fresh tt

abbrev leased : Network
leased = record {
  id = 1;
  name = bytes "office";
  interface = bytes "wg0";
  mode = bytes "gateway";
  subnet = lan_text;
  listen_port = 51820;
  private_key = bytes "private";
  public_key = bytes "public";
  dns_servers = [];
  nat_enabled = false;
  inter_peer_routing = false;
  enabled = true;
}

-- The first host of the subnet is taken.
abbrev held : Peer
held = record {
  id = 1;
  network_id = 1;
  name = bytes "laptop";
  email = [];
  private_key = bytes "private";
  public_key = bytes "public";
  preshared_key = [];
  allowed_ips = bytes "10.1.0.2/32";
  endpoint = [];
  persistent_keepalive = 0;
  role = bytes "client";
  site_networks = [];
  enabled = true;
  expires_at = none;
}

lan-read : host_parsers.parse_cidr lan_text ≡ some (ip4 lan.ip, v4 lan)
unfolding parse_hosts host_or dotted parse_example str_eq
lan-read = refl

-- A kernel that counts the configurations that it gets.
abbrev counting_host : Host
counting_host = record {
  World = ℕ;
  text = small_text;
  configure_device = λ n c w. (none, w + 1);
  device = λ n w. err (bytes "missing");
  devices = λ w. ok [];
  create_wireguard_link = λ n w. (none, w);
  delete_link = λ n w. (none, w);
  set_link_up = λ n w. (none, w);
  set_link_down = λ n w. (none, w);
  add_address = λ n a w. (none, w);
}

abbrev counting_env : Env
counting_env = record {
  applier = small;
  range = in_order;
  host = counting_host;
  database = memory;
  parsers = host_parsers;
  Seed = ℕ;
  generate_key_pair = λ seed. (ok (bytes "private", bytes "public"), seed + 1);
  generate_preshared_key = λ seed. (ok (bytes "shared"), seed + 1);
  now = λ seed. seed;
  has_firewall = true;
  has_wireguard = true;
}

abbrev running : Server counting_env
running = record {
  db = record { networks = leased ∷ []; bridges = []; peers = held ∷ [] };
  firewall = empty;
  world = 0;
  seed = 0;
}

lease-Leases_example : Leases host_parsers lan (held ∷ []) (lease host_parsers leased (held ∷ []))
lease-Leases_example =
    lease-Leases host_parsers host_parsers-ReadsAddresses leased (held ∷ []) (ip4 lan.ip) lan
      lan-read (omega arith)

update_peer_switches_nothing_example :
    (handle_update_peer counting_env (ok 1) (ok 1) (ok switched_off) running).1.world
    ≡ (handle_update_peer counting_env
        (ok 1)
        (ok 1)
        (ok (record switched_off { enabled = none }))
        running).1.world
update_peer_switches_nothing_example =
    update_peer_switches_nothing counting_env (ok 1) (ok 1) (record switched_off { enabled = none })
      (some false) running

abbrev all_routes : Str
all_routes = bytes "0.0.0.0/0, ::/0"
