-- ===== src/WgQuick/Types.antt =====
-- The data of internal/wg/import.go, internal/wg/export.go and internal/wg/config_gen.go.
use wgpilot.Base.{Bool, List, Str}
use wgpilot.Base.Int.{ℤ}

pub record ImportedPeer : Type 0 where
  pub public_key : Str
  pub preshared_key : Str
  pub allowed_ips : Str
  pub endpoint : Str
  pub persistent_keepalive : ℤ

pub record ImportedConfig : Type 0 where
  pub private_key : Str
  pub address : Str
  pub listen_port : ℤ
  pub dns_servers : Str
  pub mtu : ℤ
  pub peers : List ImportedPeer

pub record ExportPeer : Type 0 where
  pub name : Str
  pub public_key : Str
  pub preshared_key : Str
  pub allowed_ips : Str
  pub endpoint : Str
  pub persistent_keepalive : ℤ

pub record ServerConfigParams : Type 0 where
  pub interface_name : Str
  pub private_key : Str
  pub address : Str
  pub listen_port : ℤ
  pub dns_servers : Str
  pub nat_enabled : Bool
  pub nat_interface : Str
  pub peers : List ExportPeer

pub record ClientConfigParams : Type 0 where
  pub peer_name : Str
  pub peer_private_key : Str
  pub peer_address : Str
  pub dns_servers : Str
  pub server_public_key : Str
  pub preshared_key : Str
  pub allowed_ips : Str
  pub server_endpoint : Str
  pub persistent_keepalive : ℤ

pub data ImportError : Type 0 where
  line_too_long : ImportError
  no_private_key : ImportError

-- The field that a template needs and that is empty or 0.
pub data Required : Type 0 where
  private_key_required : Required
  listen_port_required : Required
  public_key_required : Required
  endpoint_required : Required
  allowed_ips_required : Required
