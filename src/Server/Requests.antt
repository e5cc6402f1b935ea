-- ===== src/Server/Requests.antt =====
-- The requests of internal/server that change networks, bridges and peers, and the server that
-- answers them one after the other.
use wgpilot.Base.{ℕ, List, [], ◌∷◌}
use wgpilot.Wg.Types.{Outcome}
use wgpilot.Server.Types.{Reply, Env, Server}
use wgpilot.Server.Handlers.{Handler, answer}
use wgpilot.Server.Validate.{CreateNetworkRequest, UpdateNetworkRequest}
use wgpilot.Server.Networks.{handle_create_network, handle_update_network}
use wgpilot.Server.Networks.Lifecycle.{
  handle_delete_network, handle_enable_network, handle_disable_network,
}
use wgpilot.Server.Bridges.{
  CreateBridgeRequest, UpdateBridgeRequest, handle_create_bridge, handle_update_bridge,
  handle_delete_bridge,
}
use wgpilot.Server.Peers.Validate.{CreatePeerRequest, UpdatePeerRequest}
use wgpilot.Server.Peers.Handlers.{
  handle_create_peer, handle_update_peer, handle_delete_peer, handle_enable_peer,
  handle_disable_peer,
}

pub data NetworkRequest : Type 0 where
  create : Outcome Reply CreateNetworkRequest → NetworkRequest
  update : Outcome Reply ℕ → Outcome Reply UpdateNetworkRequest → NetworkRequest
  delete enable disable : Outcome Reply ℕ → NetworkRequest

pub data BridgeRequest : Type 0 where
  connect : Outcome Reply CreateBridgeRequest → BridgeRequest
  change_bridge : Outcome Reply ℕ → Outcome Reply UpdateBridgeRequest → BridgeRequest
  disconnect : Outcome Reply ℕ → BridgeRequest

-- The paths name the network and the peer.
pub data PeerRequest : Type 0 where
  add : Outcome Reply ℕ → Outcome Reply CreatePeerRequest → PeerRequest
  change_peer : Outcome Reply ℕ → Outcome Reply ℕ → Outcome Reply UpdatePeerRequest → PeerRequest
  remove enable_peer disable_peer : Outcome Reply ℕ → Outcome Reply ℕ → PeerRequest

pub data Request : Type 0 where
  to_networks : NetworkRequest → Request
  to_bridges : BridgeRequest → Request
  to_peers : PeerRequest → Request

unfoldable pub network_handler : (E : Env) → NetworkRequest → Handler E Reply
network_handler E (create body) = handle_create_network E body
network_handler E (update path body) = handle_update_network E path body
network_handler E (delete path) = handle_delete_network path
network_handler E (enable path) = handle_enable_network path
network_handler E (disable path) = handle_disable_network path

unfoldable pub bridge_handler : (E : Env) → BridgeRequest → Handler E Reply
bridge_handler E (connect body) = handle_create_bridge E body
bridge_handler E (change_bridge path body) = handle_update_bridge E path body
bridge_handler E (disconnect path) = handle_delete_bridge E path

unfoldable pub peer_handler : (E : Env) → PeerRequest → Handler E Reply
peer_handler E (add path body) = handle_create_peer E path body
peer_handler E (change_peer path peer_path body) = handle_update_peer E path peer_path body
peer_handler E (remove path peer_path) = handle_delete_peer E path peer_path
peer_handler E (enable_peer path peer_path) = handle_enable_peer E path peer_path
peer_handler E (disable_peer path peer_path) = handle_disable_peer E path peer_path

unfoldable pub handler : (E : Env) → Request → Handler E Reply
handler E (to_networks r) = network_handler E r
handler E (to_bridges r) = bridge_handler E r
handler E (to_peers r) = peer_handler E r

unfoldable pub serve : (E : Env) → List Request → Server E → Server E
unfolding handler network_handler bridge_handler peer_handler
serve E [] s = s
serve E (r ∷ rs) s = serve E rs (answer (handler E r) s).1
