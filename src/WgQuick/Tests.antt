-- ===== src/WgQuick/Tests.antt =====
-- A server with two peers, a device, and a text that the import rejects.
use wgpilot.Base.{true, [], ◌∷◌, ◌++◌, Str, str_eq, bytes, ◌≡◌, ◌≢◌, refl, arith}
use wgpilot.Base.Lines.{lines, onto}
use wgpilot.Base.Int.{pos, negsuc, atoi, with_sign, signed, read_digits, all_digits}
use wgpilot.Base.Decimal.{read}
use wgpilot.Base.Space.{trim_space, drop_cr, trim_start, trim_end, trim_before, is_space}
use wgpilot.Wg.Types.{ok}
use wgpilot.WgQuick.Types.{
  ExportPeer, ImportedPeer, ImportedConfig, ServerConfigParams, ClientConfigParams,
}
use wgpilot.WgQuick.Export.{generate_server_config, generate_client_config}
use wgpilot.WgQuick.Import.{
  parse_wg_quick_config, finish, scan, take_line, is_skipped, close_peer, lower, cut, take_pair,
  set_field, set_interface, set_peer, number,
}
use wgpilot.WgQuick.Sizes.{no_newline, Fits-text, value}
use wgpilot.WgQuick.Blocks.{CleanPeer}
use wgpilot.WgQuick.Interface.{IsCleanServer, imported_server}
use wgpilot.WgQuick.RoundTrip.{parse-generate}
use wgpilot.WgQuick.Client.{IsCleanClient, imported_client, parse-generate_client}
use wgpilot.WgQuick.Parsed.{IsTidy, parse-IsTidy}

abbrev laptop : ExportPeer
laptop = record {
  name = bytes "laptop";
  public_key = bytes "bGFwdG9w=";
  preshared_key = bytes "cHNr";
  allowed_ips = bytes "10.0.0.2/32, 10.1.0.0/24";
  endpoint = [];
  persistent_keepalive = pos 25;
}

abbrev phone : ExportPeer
phone = record {
  name = [];
  public_key = bytes "cGhvbmU=";
  preshared_key = [];
  allowed_ips = bytes "10.0.0.3/32";
  endpoint = bytes "198.51.100.7:4500";
  persistent_keepalive = pos 0;
}

abbrev office : ServerConfigParams
office = record {
  interface_name = bytes "wg0";
  private_key = bytes "a2V5=";
  address = bytes "10.0.0.1/24";
  listen_port = pos 51820;
  dns_servers = bytes "1.1.1.1";
  nat_enabled = true;
  nat_interface = [];
  peers = laptop ∷ phone ∷ [];
}

abbrev device : ClientConfigParams
device = record {
  peer_name = bytes "laptop";
  peer_private_key = bytes "a2V5";
  peer_address = bytes "10.0.0.2/32";
  dns_servers = [];
  server_public_key = bytes "c2VydmVy";
  preshared_key = [];
  allowed_ips = bytes "0.0.0.0/0, ::/0";
  server_endpoint = bytes "vpn.example.org:51820";
  persistent_keepalive = pos 25;
}

laptop-CleanPeer : CleanPeer laptop
unfolding no_newline trim_start trim_end trim_before is_space
laptop-CleanPeer = (
  value _ refl (refl, refl) (omega arith),
  value _ refl (refl, refl) (omega arith),
  value _ refl (refl, refl) (omega arith),
  value _ refl (refl, refl) (omega arith),
  omega arith,
  Fits-text 30000 _ refl (omega arith),
)

phone-CleanPeer : CleanPeer phone
unfolding no_newline trim_start trim_end trim_before is_space
phone-CleanPeer = (
  value _ refl (refl, refl) (omega arith),
  value _ refl (refl, refl) (omega arith),
  value _ refl (refl, refl) (omega arith),
  value _ refl (refl, refl) (omega arith),
  omega arith,
  Fits-text 30000 _ refl (omega arith),
)

office-IsCleanServer : IsCleanServer office
unfolding no_newline trim_start trim_end trim_before is_space
office-IsCleanServer = (
  value _ refl (refl, refl) (omega arith),
  value _ refl (refl, refl) (omega arith),
  omega arith,
  value _ refl (refl, refl) (omega arith),
  (laptop-CleanPeer, (phone-CleanPeer, tt)),
  Fits-text 30000 _ refl (omega arith),
  Fits-text 30000 _ refl (omega arith),
)

parse-generate_office :
    (text : Str) × (generate_server_config office ≡ ok text)
    × (parse_wg_quick_config text ≡ ok (imported_server office))
parse-generate_office = parse-generate office office-IsCleanServer (λ e. cc) (λ e. cc)

device-IsCleanClient : IsCleanClient device
unfolding no_newline trim_start trim_end trim_before is_space
device-IsCleanClient = (
  value _ refl (refl, refl) (omega arith),
  value _ refl (refl, refl) (omega arith),
  value _ refl (refl, refl) (omega arith),
  value _ refl (refl, refl) (omega arith),
  value _ refl (refl, refl) (omega arith),
  value _ refl (refl, refl) (omega arith),
  value _ refl (refl, refl) (omega arith),
  omega arith,
  Fits-text 30000 _ refl (omega arith),
)

parse-generate_device :
    (text : Str) × (generate_client_config device ≡ ok text)
    × (parse_wg_quick_config text ≡ ok (imported_client device))
parse-generate_device =
    parse-generate_client device device-IsCleanClient ((λ e. cc), (λ e. cc), (λ e. cc), (λ e. cc))

-- Spaces, comments, the case of the keys, a number that is none, and a field that is not known.
abbrev typed_text : Str
typed_text =
    bytes " [INTERFACE] "
    ++ 13 ∷ b'\n' ∷ bytes "privatekey=  a2V5=  "
    ++ b'\n' ∷ bytes "; note"
    ++ b'\n' ∷ bytes "ListenPort = none"
    ++ b'\n' ∷ bytes "Table = off"
    ++ b'\n' ∷ bytes "[peer]"
    ++ b'\n' ∷ bytes "PersistentKeepalive = -5"

abbrev typed_peer : ImportedPeer
typed_peer = record {
  public_key = [];
  preshared_key = [];
  allowed_ips = [];
  endpoint = [];
  persistent_keepalive = negsuc 4;
}

abbrev typed : ImportedConfig
typed = record {
  private_key = bytes "a2V5=";
  address = [];
  listen_port = pos 0;
  dns_servers = [];
  mtu = pos 0;
  peers = typed_peer ∷ [];
}

parse-typed_text : parse_wg_quick_config typed_text ≡ ok typed
unfolding parse_wg_quick_config finish scan lines onto drop_cr trim_space trim_start trim_end
    trim_before is_space take_line is_skipped close_peer lower cut take_pair set_field set_interface
    set_peer number atoi with_sign signed read_digits all_digits read str_eq
parse-typed_text = refl

parse-IsTidy_example : IsTidy typed × (typed.private_key ≢ [])
parse-IsTidy_example = parse-IsTidy typed_text typed parse-typed_text
