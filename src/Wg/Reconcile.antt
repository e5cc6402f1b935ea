-- ===== src/Wg/Reconcile.antt =====
-- internal/wg/reconcile.go: the database is the source of truth, and the kernel is made to match
-- it. A failed step is logged there and the loop goes on, which `attempt` says. Logging is left
-- out.
pub mod Frame
pub mod Keys
pub mod Sent
pub mod Turns
pub mod Peers
pub mod Bridges
mod BridgeTests
mod Tests
use wgpilot.Base.{ℕ, Bool, true, false, Option, none, some, List, [], ◌∷◌, Str, if◌then◌else◌}
use wgpilot.Base.Dict.{Dict, lookup, insert}
use wgpilot.Wg.Nets.{Net, parse_allowed_ips, allowed_ips_match}
use wgpilot.Wg.Types.{
  WgPeerConfig, WgPeerInfo, DeviceInfo, NetworkConfig, PeerConfig, BridgeConfig, Outcome, ok, err,
  Host, NetworkStore,
}
use wgpilot.Wg.Manager.{
  Error, configure, parse_allowed, M, call, peers_only, remove_config, create_interface,
  delete_interface, add_peer,
}

pub data Failure : Type 0 where
  networks_unlisted : Str → Failure
  devices_unlisted : Str → Failure
  bridges_unlisted : Str → Failure

-- The map by name, and the map by public key: the last of two entries counts.
pub device_map : List DeviceInfo → Dict DeviceInfo → Dict DeviceInfo
device_map [] m = m
device_map (d ∷ ds) m = device_map ds (insert d.name d m)

pub kernel_peers : List WgPeerInfo → Dict WgPeerInfo → Dict WgPeerInfo
kernel_peers [] m = m
kernel_peers (p ∷ ps) m = kernel_peers ps (insert p.public_key p m)

pub db_peer_keys : List PeerConfig → Dict Bool → Dict Bool
db_peer_keys [] m = m
db_peer_keys (p ∷ ps) m = db_peer_keys ps (insert p.public_key true m)

abbrev pub found : {V : Type 0} → Str → Dict V → Bool
found k m = elim (lookup k m) [ none ↦ false | some v ↦ true ]

abbrev pub update_config : PeerConfig → List Net → WgPeerConfig
update_config p nets = record {
  public_key = p.public_key;
  remove = false;
  update_only = true;
  preshared_key = [];
  endpoint = [];
  keepalive_seconds = 0;
  replace_allowed_ips = true;
  allowed_ips = nets;
}

module _ (H : Host) where
  abbrev pub attempt : M H (Unit {0}) → H.World → H.World
  attempt m w = (m w).1

  pub remove_peer_locked : Str → Str → M H (Unit {0})
  remove_peer_locked iface key w =
      call H configure (H.configure_device iface (peers_only (remove_config key ∷ []))) w

  pub update_peer_locked : Str → PeerConfig → M H (Unit {0})
  update_peer_locked iface p w = elim (parse_allowed_ips H.text p.allowed_ips) [
    | none ↦ (err (parse_allowed p.allowed_ips), w)
    | some nets ↦
        call H configure (H.configure_device iface (peers_only (update_config p nets ∷ []))) w
  ]

  -- The body of the loop over the database's peers.
  pub sync_peer : Str → Dict WgPeerInfo → PeerConfig → H.World → H.World
  sync_peer iface known p w = elim p.enabled [
    | false ↦ elim (lookup p.public_key known) [
      | none ↦ w
      | some q ↦ attempt (remove_peer_locked iface p.public_key) w
    ]
    | true ↦ elim (lookup p.public_key known) [
      | none ↦ attempt (add_peer H iface p) w
      | some q ↦ elim (allowed_ips_match H.text p.allowed_ips q.allowed_ips) [
        | true ↦ w
        | false ↦ attempt (update_peer_locked iface p) w
      ]
    ]
  ]

  pub sync_each : Str → Dict WgPeerInfo → List PeerConfig → H.World → H.World
  sync_each iface known [] w = w
  sync_each iface known (p ∷ ps) w = sync_each iface known ps (sync_peer iface known p w)

  -- The body of the loop over the kernel's peers.
  pub remove_orphan : Str → Dict Bool → WgPeerInfo → H.World → H.World
  remove_orphan iface keys q w = elim (lookup q.public_key keys) [
    | some b ↦ w
    | none ↦ attempt (remove_peer_locked iface q.public_key) w
  ]

  pub remove_orphans : Str → Dict Bool → List WgPeerInfo → H.World → H.World
  remove_orphans iface keys [] w = w
  remove_orphans iface keys (q ∷ qs) w = remove_orphans iface keys qs (remove_orphan iface keys q w)

  pub sync_peers : Str → Option DeviceInfo → List PeerConfig → H.World → H.World
  sync_peers iface none ps w = sync_each iface [] ps w
  sync_peers iface (some d) ps w =
      remove_orphans iface (db_peer_keys ps []) d.peers
        (sync_each iface (kernel_peers d.peers []) ps w)

  pub sync_network : NetworkStore → NetworkConfig → Option DeviceInfo → H.World → H.World
  sync_network S n dev w = elim (S.list_peers_by_network_id n.id) [
    | err e ↦ w
    | ok ps ↦ sync_peers n.interface dev ps w
  ]

  -- An enabled network without a device: no peers are synchronised if it cannot be created.
  pub recreate : NetworkStore → NetworkConfig → H.World → H.World
  recreate S n w =
      let (r, w') = create_interface H n w in
      elim r [ err e ↦ w' | ok u ↦ sync_network S n none w' ]

  -- The body of the loop over the database's networks.
  pub reconcile_network : NetworkStore → Dict DeviceInfo → NetworkConfig → H.World → H.World
  reconcile_network S devs n w = elim n.enabled [
    | false ↦ elim (lookup n.interface devs) [
      | none ↦ w
      | some d ↦ attempt (delete_interface H n.interface) w
    ]
    | true ↦ elim (lookup n.interface devs) [
      | none ↦ recreate S n w
      | some d ↦ sync_network S n (some d) w
    ]
  ]

  pub reconcile_each : NetworkStore → Dict DeviceInfo → List NetworkConfig → H.World → H.World
  reconcile_each S devs [] w = w
  reconcile_each S devs (n ∷ ns) w = reconcile_each S devs ns (reconcile_network S devs n w)

  pub reconcile : NetworkStore → H.World → Option Failure × H.World
  reconcile S w = elim S.list_networks [
    | err e ↦ (some (networks_unlisted e), w)
    | ok ns ↦ elim (H.devices w) [
      | err e ↦ (some (devices_unlisted e), w)
      | ok ds ↦ (none, reconcile_each S (device_map ds []) ns w)
    ]
  ]

-- The bridges, over the one method of the firewall manager that is called.
module _ {World E : Type 0} (add_network_bridge : Str → Str → Str → World → Option E × World) where
  -- The body of the loop over the database's bridges.
  pub apply_bridge : BridgeConfig → World → World
  apply_bridge b w = elim b.enabled [
    | false ↦ w
    | true ↦ (add_network_bridge b.interface_a b.interface_b b.direction w).1
  ]

  pub apply_bridges : List BridgeConfig → World → World
  unfolding apply_bridge
  apply_bridges [] w = w
  apply_bridges (b ∷ bs) w = apply_bridges bs (apply_bridge b w)

  pub reconcile_bridges : Outcome Str (List BridgeConfig) → World → Option Failure × World
  reconcile_bridges (err e) w = (some (bridges_unlisted e), w)
  reconcile_bridges (ok bs) w = (none, apply_bridges bs w)
