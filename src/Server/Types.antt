-- ===== src/Server/Types.antt =====
-- What the handlers of internal/server work on: the rows of internal/db, the replies, and the
-- server with its database and its two managers.
use wgpilot.Base.{ℕ, Bool, Option, List, Str}
use wgpilot.Base.Int.{ℤ}
use wgpilot.Wg.Nets.{Net}
use wgpilot.Wg.Types.{Outcome, Host}
use wgpilot.Nft.Manager.{Applier, RangeOrder, State}

-- A row of internal/db/networks.go, without its times.
pub record Network : Type 0 where
  pub id : ℕ
  pub name : Str
  pub interface : Str
  pub mode : Str
  pub subnet : Str
  pub listen_port : ℕ
  pub private_key : Str
  pub public_key : Str
  pub dns_servers : Str
  pub nat_enabled : Bool
  pub inter_peer_routing : Bool
  pub enabled : Bool

-- A row of internal/db/bridges.go, without its times.
pub record Bridge : Type 0 where
  pub id : ℕ
  pub network_a_id : ℕ
  pub network_b_id : ℕ
  pub direction : Str
  pub allowed_cidrs : Str
  pub enabled : Bool

-- A row of internal/db/peers.go, without the times of its creation and its last change. A moment is
-- the nanoseconds since 1970.
pub record Peer : Type 0 where
  pub id : ℕ
  pub network_id : ℕ
  pub name : Str
  pub email : Str
  pub private_key : Str
  pub public_key : Str
  pub preshared_key : Str
  pub allowed_ips : Str
  pub endpoint : Str
  pub persistent_keepalive : ℕ
  pub role : Str
  pub site_networks : Str
  pub enabled : Bool
  pub expires_at : Option ℤ

-- The codes of internal/errors/codes.go that the handlers send.
pub data Code : Type 0 where
  validation internal : Code
  network_not_found interface_create_failed subnet_conflict port_in_use : Code
  bridge_not_found bridge_already_exists bridge_self_reference : Code
  peer_not_found peer_add_failed ip_exhausted : Code

-- `failed` is what writeError sends, and `invalid` what writeValidationError does, by field.
pub data Reply : Type 0 where
  network : (status : ℕ) → Network → Reply
  bridge : (status : ℕ) → Bridge → Reply
  peer : (status : ℕ) → Peer → Reply
  config_file : Str → Reply
  no_content : Reply
  failed : (status : ℕ) → Code → Reply
  invalid : List Str → Reply

-- `net.IP` as ParseCIDR returns it beside the network.
pub data Ip : Type 0 where
  ip4 : ℕ → Ip
  ip6 : ℕ → Ip

-- What the packages net and time read: ParseCIDR, whether ParseIP accepts a text, the host and the
-- port of SplitHostPort, and the nanoseconds of ParseDuration.
pub record Parsers : Type 0 where
  pub parse_cidr : Str → Option (Ip × Net)
  pub parse_ip : Str → Bool
  pub split_host_port : Str → Option (Str × Str)
  pub parse_duration : Str → Option ℤ

-- The methods of the database that the handlers call. A query changes nothing, and a change may
-- fail: it reports an error as `some` or `err`.
pub record Database : Type 1 where
  pub Db : Type 0
  pub list_networks : Db → Outcome Str (List Network)
  pub get_network_by_id : ℕ → Db → Outcome Str (Option Network)
  pub create_network : Network → Db → Outcome Str ℕ × Db
  pub update_network : Network → Db → Option Str × Db
  pub delete_network : ℕ → Db → Option Str × Db
  pub list_peers_by_network_id : ℕ → Db → Outcome Str (List Peer)
  pub list_bridges_by_network_id : ℕ → Db → Outcome Str (List Bridge)
  pub bridge_exists_between : ℕ → ℕ → Db → Outcome Str Bool
  pub get_bridge_by_id : ℕ → Db → Outcome Str (Option Bridge)
  pub create_bridge : Bridge → Db → Outcome Str ℕ × Db
  pub update_bridge : Bridge → Db → Option Str × Db
  pub delete_bridge : ℕ → Db → Option Str × Db
  pub get_peer_by_id : ℕ → Db → Outcome Str (Option Peer)
  pub create_peer : Peer → Db → Outcome Str ℕ × Db
  pub update_peer : Peer → Db → Option Str × Db
  pub delete_peer : ℕ → Db → Option Str × Db
  pub get_setting : Str → Db → Outcome Str Str

-- The code around the handlers: the kernel's two sides, the database, the parsers, and whether the
-- two managers are there. The keys and the present moment come from a seed.
pub record Env : Type 1 where
  pub applier : Applier
  pub range : RangeOrder
  pub host : Host
  pub database : Database
  pub parsers : Parsers
  pub Seed : Type 0
  pub generate_key_pair : Seed → Outcome Str (Str × Str) × Seed
  pub generate_preshared_key : Seed → Outcome Str Str × Seed
  pub now : Seed → ℕ
  pub has_firewall : Bool
  pub has_wireguard : Bool

-- The state that a handler reads and changes.
pub record Server (E : Env) : Type 0 where
  pub db : E.database.Db
  pub firewall : State E.applier
  pub world : E.host.World
  pub seed : E.Seed
