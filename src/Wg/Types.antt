-- ===== src/Wg/Types.antt =====
-- internal/wg/interfaces.go: the records that the manager passes on, and its two interfaces to the
-- kernel as one record of operations on a world.
use wgpilot.Base.{ℕ, Bool, Option, List, Str}
use wgpilot.Wg.Nets.{Net, NetText}

pub record WgPeerConfig : Type 0 where
  pub public_key : Str
  pub remove : Bool
  pub update_only : Bool
  pub preshared_key : Str
  pub endpoint : Str
  pub keepalive_seconds : ℕ
  pub replace_allowed_ips : Bool
  pub allowed_ips : List Net

pub record DeviceConfig : Type 0 where
  pub private_key : Str
  pub listen_port : ℕ
  pub replace_peers : Bool
  pub peers : List WgPeerConfig

-- `last_handshake` is `none` for the zero time.
pub record WgPeerInfo : Type 0 where
  pub public_key : Str
  pub preshared_key : Str
  pub endpoint : Str
  pub allowed_ips : List Net
  pub last_handshake : Option ℕ
  pub receive_bytes : ℕ
  pub transmit_bytes : ℕ

pub record DeviceInfo : Type 0 where
  pub name : Str
  pub public_key : Str
  pub listen_port : ℕ
  pub peers : List WgPeerInfo

pub record NetworkConfig : Type 0 where
  pub id : ℕ
  pub name : Str
  pub interface : Str
  pub mode : Str
  pub subnet : Str
  pub listen_port : ℕ
  pub private_key : Str
  pub public_key : Str
  pub dns_servers : Str
  pub nat_enabled : Bool
  pub inter_peer_routing : Bool
  pub enabled : Bool

pub record PeerConfig : Type 0 where
  pub id : ℕ
  pub network_id : ℕ
  pub name : Str
  pub public_key : Str
  pub preshared_key : Str
  pub allowed_ips : Str
  pub endpoint : Str
  pub persistent_keepalive : ℕ
  pub role : Str
  pub site_networks : Str
  pub enabled : Bool

-- The outcome of a method: a value, or the error.
pub data Outcome {ℓ} (E : Type 0) (A : Type ℓ) : Type ℓ where
  ok : A → Outcome E A
  err : E → Outcome E A

-- WireGuardController and LinkManager. An operation that only reports an error returns `none`
-- where Go returns nil.
pub record Host : Type 1 where
  pub World : Type 0
  pub text : NetText
  pub configure_device : Str → DeviceConfig → World → Option Str × World
  pub device : Str → World → Outcome Str DeviceInfo
  pub devices : World → Outcome Str (List DeviceInfo)
  pub create_wireguard_link : Str → World → Option Str × World
  pub delete_link : Str → World → Option Str × World
  pub set_link_up : Str → World → Option Str × World
  pub set_link_down : Str → World → Option Str × World
  pub add_address : Str → Str → World → Option Str × World

-- The part of NetworkStore that the reconciliation of devices reads.
pub record NetworkStore : Type 0 where
  pub list_networks : Outcome Str (List NetworkConfig)
  pub list_peers_by_network_id : ℕ → Outcome Str (List PeerConfig)

-- The fields that the reconciliation reads.
pub record BridgeConfig : Type 0 where
  pub id : ℕ
  pub interface_a : Str
  pub interface_b : Str
  pub direction : Str
  pub enabled : Bool
