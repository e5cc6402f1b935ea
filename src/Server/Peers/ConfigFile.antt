-- ===== src/Server/Peers/ConfigFile.antt =====
-- handlePeerConfig of internal/server/routes_peers.go: the wg-quick file of a peer. The name of the
-- file is left out.
use wgpilot.Base.{ℕ, ◌≡◌, ◌≢◌, [], ◌∷◌, ◌++◌, Str, bytes}
use wgpilot.Base.Decimal.{decimal}
use wgpilot.Base.Int.{pos, IsInt}
use wgpilot.Wg.Types.{Outcome, ok, err}
use wgpilot.WgQuick.Types.{ClientConfigParams, ImportedConfig, Required}
use wgpilot.WgQuick.Sizes.{IsValue, Fits, max_value}
use wgpilot.WgQuick.Export.{generate_client_config, compute_client_allowed_ips}
use wgpilot.Server.Types.{Network, Peer, Reply, config_file, Env, Server}
use wgpilot.Server.Handlers.{internal_error, Handler, ◌>>=◌, decoded}
use wgpilot.Server.Peers.Handlers.{find_peer, network_of}

-- An error of the database is only logged, and a missing address is written as a placeholder.
unfoldable pub public_ip : Outcome Str Str → Str
public_ip (ok []) = bytes "YOUR_SERVER_IP"
public_ip (ok (c ∷ s)) = c ∷ s
public_ip (err e) = bytes "YOUR_SERVER_IP"

unfoldable pub client_params : Outcome Str Str → Network → Peer → ClientConfigParams
client_params setting n p = record {
  peer_name = p.name;
  peer_private_key = p.private_key;
  peer_address = p.allowed_ips;
  dns_servers = n.dns_servers;
  server_public_key = n.public_key;
  preshared_key = p.preshared_key;
  allowed_ips = compute_client_allowed_ips n.mode n.subnet p.site_networks;
  server_endpoint = public_ip setting ++ (b':' ∷ decimal n.listen_port);
  persistent_keepalive = pos p.persistent_keepalive;
}

unfoldable pub written : Outcome Required Str → Outcome Reply Reply
written (ok text) = ok (config_file text)
written (err e) = err internal_error

-- The allowed IPs that the file names, by the mode of the network.
pub data Routed (n : Network) (p : Peer) : Str → Type 0 where
  hub_routed : n.mode ≡ bytes "hub-routed" → Routed n p n.subnet
  to_sites : n.mode ≡ bytes "site-to-site" → p.site_networks ≢ [] → Routed n p p.site_networks
  no_sites : n.mode ≡ bytes "site-to-site" → p.site_networks ≡ [] → Routed n p n.subnet
  to_all :
      n.mode ≢ bytes "hub-routed"
      → n.mode ≢ bytes "site-to-site"
      → Routed n p (bytes "0.0.0.0/0, ::/0")

-- The host that the file names: the address in the settings, or a placeholder for an empty one and
-- for one that cannot be read.
pub data Reached (setting : Outcome Str Str) : Str → Type 0 where
  at_address : (ip : Str) → setting ≡ ok ip → ip ≢ [] → Reached setting ip
  unset : setting ≡ ok [] → Reached setting (bytes "YOUR_SERVER_IP")
  unread : (e : Str) → setting ≡ err e → Reached setting (bytes "YOUR_SERVER_IP")

abbrev pub endpoint : Network → Str → Str
endpoint n host = host ++ (b':' ∷ decimal n.listen_port)

-- The fields of the rows, the routes and the endpoint are clean, and both keys are there.
abbrev pub IsCleanFile : Network → Peer → Str → Str → Type 0
IsCleanFile n p routes host =
    (IsValue p.private_key
      × IsValue p.allowed_ips
      × IsValue n.dns_servers
      × IsValue n.public_key
      × IsValue p.preshared_key
      × IsValue routes
      × IsValue (endpoint n host)
      × IsInt (pos p.persistent_keepalive)
      × Fits max_value p.name)
    × (p.private_key ≢ [])
    × (n.public_key ≢ [])
    × (routes ≢ [])

-- What the file says to the device of the peer: its own key and address, the servers for names, and
-- as its one peer the server.
abbrev pub device_config : Network → Peer → Str → Str → ImportedConfig
device_config n p routes host = record {
  private_key = p.private_key;
  address = p.allowed_ips;
  listen_port = pos 0;
  dns_servers = n.dns_servers;
  mtu = pos 0;
  peers =
      record {
        public_key = n.public_key;
        preshared_key = p.preshared_key;
        allowed_ips = routes;
        endpoint = endpoint n host;
        persistent_keepalive = pos p.persistent_keepalive;
      }
      ∷ [];
}

abbrev device_params : Network → Peer → Str → Str → ClientConfigParams
device_params n p routes host = record {
  peer_name = p.name;
  peer_private_key = p.private_key;
  peer_address = p.allowed_ips;
  dns_servers = n.dns_servers;
  server_public_key = n.public_key;
  preshared_key = p.preshared_key;
  allowed_ips = routes;
  server_endpoint = endpoint n host;
  persistent_keepalive = pos p.persistent_keepalive;
}

module _ (E : Env) where
  unfoldable pub read_setting : Str → Handler E (Outcome Str Str)
  read_setting name s = (ok (E.database.get_setting name s.db), s)

  unfoldable pub handle_peer_config : Outcome Reply ℕ → Outcome Reply ℕ → Handler E Reply
  handle_peer_config path peer_path = do
    network_id ← decoded path
    id ← decoded peer_path
    p ← find_peer E network_id id
    n ← network_of E network_id
    setting ← read_setting (bytes "public_ip")
    decoded (written (generate_client_config (client_params setting n p)))
