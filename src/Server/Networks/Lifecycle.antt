-- ===== src/Server/Networks/Lifecycle.antt =====
-- handleDeleteNetwork, handleEnableNetwork and handleDisableNetwork of
-- internal/server/routes_networks.go. Their managers' failures are logged and passed over.
use wgpilot.Base.{ℕ, true, false, none, some, List, [], ◌∷◌, if◌then◌else◌, ◌==◌}
use wgpilot.Wg.Types.{Outcome, ok, err}
use wgpilot.Wg.Manager.{create_interface, delete_interface, add_peer}
use wgpilot.Nft.Manager.{
  add_nat, remove_nat, enable_forwarding, disable_forwarding, remove_bridge, open_port, close_port,
}
use wgpilot.Server.Types.{
  Network, Bridge, Peer, interface_create_failed, Reply, network, no_content, failed, Env,
}
use wgpilot.Server.Handlers.{
  internal_error, Handler, ◌>>=◌, ◌>>◌, done, decoded, when, must, ignore, nothing, change,
  firewall, wireguard, find_network, fetch_or,
}
use wgpilot.Server.Networks.{interface_config, peer_config}

-- The other network of a bridge.
abbrev pub other_id : ℕ → Bridge → ℕ
other_id id b = if b.network_b_id == id then b.network_a_id else b.network_b_id

module _ {E : Env} where
  unfoldable pub remove_one_bridge : Network → Bridge → Handler E (Unit {0})
  remove_one_bridge n b s = elim (E.database.get_network_by_id (other_id n.id b) s.db) [
    | err e ↦ (ok tt, s)
    | ok r ↦ elim r [
      | none ↦ (ok tt, s)
      | some other ↦ ignore (firewall (remove_bridge n.interface other.interface)) s
    ]
  ]

  unfoldable pub remove_each_bridge : Network → List Bridge → Handler E (Unit {0})
  unfolding remove_one_bridge
  remove_each_bridge n [] = done tt
  remove_each_bridge n (b ∷ bs) = remove_one_bridge n b >> remove_each_bridge n bs

  -- The rules of the network's bridges, before the database deletes the bridges with it.
  unfoldable pub remove_bridges : Network → Handler E (Unit {0})
  unfolding remove_each_bridge
  remove_bridges n s = elim (E.database.list_bridges_by_network_id n.id s.db) [
    | err e ↦ (ok tt, s)
    | ok bs ↦ remove_each_bridge n bs s
  ]

  -- The rules of the network alone.
  unfoldable pub close_rules : Network → Handler E (Unit {0})
  close_rules n = do
    ignore (firewall (close_port n.listen_port))
    when n.nat_enabled (ignore (firewall (remove_nat n.interface)))
    when n.inter_peer_routing (ignore (firewall (disable_forwarding n.interface)))

  unfoldable pub open_rules : Network → Handler E (Unit {0})
  open_rules n = do
    ignore (firewall (open_port n.listen_port))
    when n.nat_enabled (ignore (firewall (add_nat n.interface n.subnet)))
    when n.inter_peer_routing (ignore (firewall (enable_forwarding n.interface)))

  -- `network.ID` is the identifier of the path.
  unfoldable pub handle_delete_network : Outcome Reply ℕ → Handler E Reply
  unfolding remove_bridges close_rules
  handle_delete_network path = do
    id ← decoded path
    n ← find_network id
    when E.has_firewall (remove_bridges n)
    close_rules n
    ignore (wireguard (delete_interface E.host n.interface))
    must (change (E.database.delete_network id)) nothing internal_error
    done no_content

  unfoldable pub add_each_peer : Network → List Peer → Handler E (Unit {0})
  add_each_peer n [] = done tt
  add_each_peer n (p ∷ ps) = do
    when p.enabled (ignore (wireguard (add_peer E.host n.interface (peer_config p))))
    add_each_peer n ps

  unfoldable pub add_peers : Network → Handler E (Unit {0})
  unfolding add_each_peer
  add_peers n s = elim (E.database.list_peers_by_network_id n.id s.db) [
    | err e ↦ (ok tt, s)
    | ok ps ↦ add_each_peer n ps s
  ]

  -- Of a network that is not enabled yet.
  unfoldable pub enable_network : Network → Handler E Reply
  unfolding add_peers open_rules
  enable_network n = do
    must (wireguard (create_interface E.host (interface_config n))) nothing
        (failed 500 interface_create_failed)
    when E.has_wireguard (add_peers n)
    open_rules n
    must (change (E.database.update_network (record n { enabled = true }))) nothing internal_error
    updated ← fetch_or (record n { enabled = true })
    done (network 200 updated)

  unfoldable pub handle_enable_network : Outcome Reply ℕ → Handler E Reply
  unfolding enable_network
  handle_enable_network path = do
    id ← decoded path
    n ← find_network id
    if n.enabled then done (network 200 n) else enable_network n

  unfoldable pub disable_network : Network → Handler E Reply
  unfolding close_rules
  disable_network n = do
    close_rules n
    ignore (wireguard (delete_interface E.host n.interface))
    must (change (E.database.update_network (record n { enabled = false }))) nothing internal_error
    updated ← fetch_or (record n { enabled = false })
    done (network 200 updated)

  unfoldable pub handle_disable_network : Outcome Reply ℕ → Handler E Reply
  unfolding disable_network
  handle_disable_network path = do
    id ← decoded path
    n ← find_network id
    if n.enabled then disable_network n else done (network 200 n)
