-- ===== src/Server/Example.antt =====
-- A database in memory, as the examples of the handlers use it.
use wgpilot.Base.{
  ℕ, ◌+◌, ◌*◌, ◌^◌, ◌≤◌, ◌≡◌, ◌≢◌, refl, subst, true, false, Option, none, some, List, [], ◌∷◌,
  ◌++◌, Str, arith, All, Member, if◌then◌else◌, ◌==◌, bytes, str_eq, inl, inr, Bool-cases,
}
use wgpilot.IpAlloc.{Subnet}
use wgpilot.Wg.Types.{ok, err, Host}
use wgpilot.Wg.Nets.{Net, v4}
use wgpilot.Wg.Nets.Tests.{small_text}
use wgpilot.Nft.Manager.Tests.{small, in_order, empty}
use wgpilot.Server.Types.{Network, Bridge, Peer, Database, Parsers, Ip, ip4, Env, Server}
use wgpilot.Server.Validate.{CreateNetworkRequest}
use wgpilot.Server.Stored.{
  Stored, peers_of, replace_peer_row, remove_peer_row, remove_peers_of, replace_row, remove_row,
  joins, replace_link, remove_link, remove_links_of,
}

pub record Memory : Type 0 where
  pub networks : List Network
  pub bridges : List Bridge
  pub peers : List Peer

unfoldable pub find_row : ℕ → List Network → Option Network
find_row i [] = none
find_row i (n ∷ ns) = if n.id == i then some n else find_row i ns

unfoldable pub find_link : ℕ → List Bridge → Option Bridge
find_link i [] = none
find_link i (b ∷ bs) = if b.id == i then some b else find_link i bs

unfoldable pub find_peer_row : ℕ → List Peer → Option Peer
find_peer_row i [] = none
find_peer_row i (p ∷ ps) = if p.id == i then some p else find_peer_row i ps

unfoldable pub next_peer_id : List Peer → ℕ
next_peer_id [] = 1
next_peer_id (p ∷ ps) = p.id + next_peer_id ps

-- More than each identifier of the list.
unfoldable pub next_id : List Network → ℕ
next_id [] = 1
next_id (n ∷ ns) = n.id + next_id ns

pub find_row-Member :
    (i : ℕ) (ns : List Network) (n : Network) → find_row i ns ≡ some n → Member n ns
unfolding find_row
find_row-Member i [] n h = cc
find_row-Member i (m ∷ ns) n h = elim (Bool-cases (m.id == i)) [
  | inl e ↦ inl (ground arith)
  | inr e ↦ inr (find_row-Member i ns n (ground arith))
]

next_id_pos : (ns : List Network) → 1 ≤ next_id ns
unfolding next_id
next_id_pos [] = omega arith
next_id_pos (n ∷ ns) = omega (arith, next_id_pos ns)

pub next_id_fresh : (k : ℕ) (ns : List Network) → All (λ (m : Network). m.id ≢ k + next_id ns) ns
unfolding next_id
next_id_fresh k [] = tt
next_id_fresh k (n ∷ ns) =
    let start = next_id_pos ns in
    (
      λ e. omega arith,
      subst (λ t. All (λ (m : Network). m.id ≢ t) ns) (omega arith) (next_id_fresh (k + n.id) ns),
    )

abbrev pub memory : Database
memory = record {
  Db = Memory;
  list_networks = λ d. ok d.networks;
  get_network_by_id = λ i d. ok (find_row i d.networks);
  create_network = λ n d.
      let i = next_id d.networks in
      (ok i, record d { networks = d.networks ++ record n { id = i } ∷ [] });
  update_network = λ n d. (none, record d { networks = replace_row n d.networks });
  delete_network = λ i d. (
    none,
    record {
      networks = remove_row i d.networks;
      bridges = remove_links_of i d.bridges;
      peers = remove_peers_of i d.peers;
    },
  );
  list_peers_by_network_id = λ i d. ok (peers_of i d.peers);
  list_bridges_by_network_id = λ i d. ok [];
  bridge_exists_between = λ a b d. ok (joins a b d.bridges);
  get_bridge_by_id = λ i d. ok (find_link i d.bridges);
  create_bridge = λ b d. (ok 1, record d { bridges = d.bridges ++ record b { id = 1 } ∷ [] });
  update_bridge = λ b d. (none, record d { bridges = replace_link b d.bridges });
  delete_bridge = λ i d. (none, record d { bridges = remove_link i d.bridges });
  get_peer_by_id = λ i d. ok (find_peer_row i d.peers);
  create_peer = λ p d.
      let i = next_peer_id d.peers in
      (ok i, record d { peers = d.peers ++ record p { id = i } ∷ [] });
  update_peer = λ p d. (none, record d { peers = replace_peer_row p d.peers });
  delete_peer = λ i d. (none, record d { peers = remove_peer_row i d.peers });
  get_setting = λ key d. ok [];
}

unfoldable pub memory-Stored : Stored memory
memory-Stored = record {
  rows = λ d. d.networks;
  listed = λ d ns e. ground arith;
  got = λ i d n e. find_row-Member i d.networks n (ground arith);
  inserted = λ n d i e. (
    ground arith,
    subst (λ t. All (λ (m : Network). m.id ≢ t) d.networks) (ground arith)
        (next_id_fresh 0 d.networks),
  );
  refused = λ n d e h. cc;
  updated = λ n d. refl;
  deleted = λ i d. refl;
  links = λ d. d.bridges;
  exists = λ a b d e h. ground arith;
  linked = λ b d. refl;
  relinked = λ b d. refl;
  unlinked = λ i d. refl;
  cascaded = λ i d. refl;
  links_created = λ n d. refl;
  links_updated = λ n d. refl;
  rows_linked = λ b d. refl;
  rows_relinked = λ b d. refl;
  rows_unlinked = λ i d. refl;
  rows_add_peer = λ p d. refl;
  rows_set_peer = λ p d. refl;
  rows_drop_peer = λ i d. refl;
  links_add_peer = λ p d. refl;
  links_set_peer = λ p d. refl;
  links_drop_peer = λ i d. refl;
}

-- 10.1.0.0/24 and 10.1.2.0/23
abbrev pub lan : Subnet
lan = record { ip = 10 * 2 ^ 24 + 2 ^ 16; ones = 24 }

abbrev pub wide : Subnet
wide = record { ip = 10 * 2 ^ 24 + 2 ^ 16 + 2 * 2 ^ 8; ones = 23 }

abbrev pub lan_text : Str
lan_text = bytes "10.1.0.0/24"

abbrev pub wide_text : Str
wide_text = bytes "10.1.2.0/23"

unfoldable pub parse_example : Str → Option (Ip × Net)
parse_example s =
    if str_eq s lan_text
    then some (ip4 lan.ip, v4 lan)
    else if str_eq s wide_text
    then some (ip4 wide.ip, v4 wide)
    else none

abbrev pub example_parsers : Parsers
example_parsers = record {
  parse_cidr = parse_example;
  parse_ip = λ s. true;
  split_host_port = λ s. none;
  parse_duration = λ s. none;
}

-- A kernel that knows no links.
abbrev pub calm_host : Host
calm_host = record {
  World = Unit {0};
  text = small_text;
  configure_device = λ n c w. (none, w);
  device = λ n w. err (bytes "missing");
  devices = λ w. ok [];
  create_wireguard_link = λ n w. (none, w);
  delete_link = λ n w. (none, w);
  set_link_up = λ n w. (none, w);
  set_link_down = λ n w. (none, w);
  add_address = λ n a w. (none, w);
}

abbrev pub example_env : Env
example_env = record {
  applier = small;
  range = in_order;
  host = calm_host;
  database = memory;
  parsers = example_parsers;
  Seed = ℕ;
  generate_key_pair = λ seed. (ok (bytes "private", bytes "public"), seed + 1);
  generate_preshared_key = λ seed. (ok (bytes "shared"), seed + 1);
  now = λ seed. seed;
  has_firewall = true;
  has_wireguard = false;
}

abbrev pub fresh_server : Server example_env
fresh_server = record {
  db = record { networks = []; bridges = []; peers = [] };
  firewall = empty;
  world = tt;
  seed = 0;
}

abbrev pub office : CreateNetworkRequest
office = record {
  name = bytes "office";
  mode = bytes "gateway";
  subnet = lan_text;
  listen_port = 51820;
  dns_servers = [];
  nat_enabled = true;
  inter_peer_routing = false;
}

abbrev pub home : CreateNetworkRequest
home = record office { name = bytes "home"; subnet = wide_text }
