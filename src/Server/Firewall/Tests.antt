-- ===== src/Server/Firewall/Tests.antt =====
-- The firewall of a server with a database in memory, over a kernel that accepts every rule set.
use wgpilot.Base.{◌≡◌, refl, arith, true, false, none, some, bytes, List, [], ◌∷◌, str_eq}
use wgpilot.Base.Dict.{lookup, insert, delete}
use wgpilot.Base.Decimal.{decimal}
use wgpilot.Nft.Rules.{Rule, rule_key, a_to_b, bidirectional, valid_direction}
use wgpilot.Nft.Manager.{
  Applier, step, open_udp_port, close_udp_port, add_nat_masquerade, remove_nat_masquerade, add_once,
  remove_once, settle, apply, replace, add_network_bridge, remove_network_bridge,
}
use wgpilot.Nft.Manager.View.{Agrees, view}
use wgpilot.Wg.Types.{ok}
use wgpilot.Server.Types.{Network, Bridge, Env, Server, network, bridge}
use wgpilot.Server.Networks.{new_network, build_network, store_network}
use wgpilot.Server.Networks.Lifecycle.{disable_network, close_rules}
use wgpilot.Server.Handlers.{
  ◌>>=◌, must, when, ignore, done, firewall, wireguard, fetch_network, fetch_or, decoded, reject,
}
use wgpilot.Server.Bridges.{
  UpdateBridgeRequest, handle_update_bridge, redirect, turn, find_bridge, end_network,
  fetch_bridge_or, is_valid_direction,
}
use wgpilot.Server.Example.{example_env, office, find_row, find_link, next_id}
use wgpilot.Server.Firewall.{table}
use wgpilot.Server.Firewall.Networks.{opened, build_network-opened, disable-build, Unused}
use wgpilot.Server.Firewall.Bridges.{redirected, update_bridge-redirected}

abbrev willing : Applier
willing = record { Kernel = List Rule; apply = λ rs g. (none, rs) }

abbrev willing_env : Env
willing_env = record example_env { applier = willing }

abbrev start : Server willing_env
start = record {
  db = record { networks = []; bridges = []; peers = [] };
  firewall = record { rules = []; kernel = [] };
  world = tt;
  seed = 0;
}

abbrev built : Network
built = new_network office (bytes "wg0") (bytes "private", bytes "public")

abbrev stored : Network
stored = record built { id = 1 }

created : (build_network willing_env built start).0 ≡ ok (network 201 stored)
unfolding build_network ◌>>=◌ must when done firewall wireguard store_network fetch_network find_row
    next_id step open_udp_port add_nat_masquerade add_once settle apply lookup insert rule_key
    str_eq decimal
created = refl

abbrev running : Server willing_env
running = (build_network willing_env built start).1

disabled :
    (disable_network {E = willing_env} stored running).0
    ≡ ok (network 200 (record stored { enabled = false }))
unfolding build_network ◌>>=◌ must when ignore done firewall wireguard store_network fetch_network
    find_row next_id step open_udp_port add_nat_masquerade add_once settle apply lookup insert
    rule_key str_eq decimal disable_network close_rules close_udp_port remove_nat_masquerade
    remove_once fetch_or delete
disabled = refl

start-Unused : Unused built (table willing_env start)
unfolding view lookup
start-Unused = record { port = refl; nat = refl; forwarding = refl }

build_network-opened_example :
    Agrees
      (table willing_env (build_network willing_env built start).1)
      (opened built (table willing_env start))
build_network-opened_example =
    build_network-opened willing_env built start (network 201 stored) refl created

disable-build_example :
    Agrees
      (table willing_env (disable_network {E = willing_env} stored running).1)
      (table willing_env start)
disable-build_example =
    disable-build willing_env built 1 start (network 201 stored)
      (network 200 (record stored { enabled = false })) refl (λ rs g. refl) start-Unused created
      disabled

abbrev joined : Bridge
joined = record {
  id = 1;
  network_a_id = 1;
  network_b_id = 2;
  direction = a_to_b;
  allowed_cidrs = [];
  enabled = true;
}

abbrev branch : Network
branch = record stored { id = 2; interface = bytes "wg1" }

abbrev bridging : Server willing_env
bridging = record start {
  db = record { networks = stored ∷ branch ∷ []; bridges = joined ∷ []; peers = [] };
}

-- The bridge is disabled, and its rules stay with the new direction.
abbrev opening : UpdateBridgeRequest
opening = record { direction = some bidirectional; allowed_cidrs = none; enabled = some false }

updated :
    (handle_update_bridge willing_env (ok 1) (ok opening) bridging).0
    ≡ ok (bridge 200 (record joined { direction = bidirectional; enabled = false }))
unfolding handle_update_bridge redirect turn find_bridge end_network fetch_bridge_or ◌>>=◌ must when
    ignore done decoded reject firewall find_link find_row step add_network_bridge
    remove_network_bridge replace remove_once settle apply lookup insert rule_key str_eq
    valid_direction is_valid_direction
updated = refl

update_bridge-redirected_example :
    Agrees
      (table willing_env (handle_update_bridge willing_env (ok 1) (ok opening) bridging).1)
      (redirected (bytes "wg0") (bytes "wg1") a_to_b bidirectional (table willing_env bridging))
update_bridge-redirected_example =
    update_bridge-redirected willing_env 1 opening joined stored branch
      (bridge 200 (record joined { direction = bidirectional; enabled = false })) bridging refl
      (λ rs g. refl) (unfold find_link in refl) (unfold find_row in refl) (unfold find_row in refl)
      (omega arith) (omega arith) (unfold is_valid_direction in unfold str_eq in refl) updated
