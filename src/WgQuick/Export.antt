-- ===== src/WgQuick/Export.antt =====
-- internal/wg/export.go and internal/wg/config_gen.go. The templates write whole lines, so a file
-- is the list of its lines.
use wgpilot.Base.{
  zero, suc, Bool, true, false, ◌&&◌, List, [], ◌∷◌, ◌++◌, Str, bytes, str_eq, if◌then◌else◌,
}
use wgpilot.Base.Lines.{unlines}
use wgpilot.Base.Int.{ℤ, pos, negsuc, print_int}
use wgpilot.Wg.Types.{Outcome, ok, err}
use wgpilot.WgQuick.Types.{
  ExportPeer, ServerConfigParams, ClientConfigParams, Required, private_key_required,
  listen_port_required, public_key_required, endpoint_required, allowed_ips_required,
}

abbrev pub pair : Str → Str → Str
pair key value = key ++ b' ' ∷ b'=' ∷ b' ' ∷ value

-- `{{ if .Field }}` around the line of the field.
unfoldable pub optional : Str → Str → List Str
optional key [] = []
optional key (c ∷ s) = pair key (c ∷ s) ∷ []

-- `{{ if gt .PersistentKeepalive 0 }}` around its line.
unfoldable pub keepalive_line : ℤ → List Str
keepalive_line (pos zero) = []
keepalive_line (pos (suc n)) = pair (bytes "PersistentKeepalive") (print_int (pos (suc n))) ∷ []
keepalive_line (negsuc n) = []

-- The name of the generator, with the dash of UTF-8.
abbrev pub title : Str → Str
title name = b'#' ∷ bytes " Generated by wgpilot " ++ 226 ∷ 128 ∷ 148 ∷ b' ' ∷ name

abbrev pub masquerade : Str → Str → Str
masquerade flag interface =
    bytes "iptables -t nat -"
    ++ flag
    ++ bytes " POSTROUTING -o "
    ++ interface
    ++ bytes " -j MASQUERADE; ip6tables -t nat -"
    ++ flag
    ++ bytes " POSTROUTING -o "
    ++ interface
    ++ bytes " -j MASQUERADE"

unfoldable pub nat_lines : Bool → Str → List Str
nat_lines false interface = []
nat_lines true interface =
    pair (bytes "PostUp") (masquerade (bytes "A") interface)
    ∷ pair (bytes "PostDown") (masquerade (bytes "D") interface)
    ∷ []

unfoldable pub export_fields_lines : ExportPeer → List Str
export_fields_lines p =
    pair (bytes "PublicKey") p.public_key
    ∷ (optional (bytes "PresharedKey") p.preshared_key
        ++ (pair (bytes "AllowedIPs") p.allowed_ips
            ∷ (optional (bytes "Endpoint") p.endpoint ++ keepalive_line p.persistent_keepalive)))

unfoldable pub export_peer_lines : ExportPeer → List Str
export_peer_lines p = [] ∷ (b'#' ∷ b' ' ∷ p.name) ∷ bytes "[Peer]" ∷ export_fields_lines p

unfoldable pub export_peers_lines : List ExportPeer → List Str
export_peers_lines [] = []
export_peers_lines (p ∷ ps) = export_peer_lines p ++ export_peers_lines ps

unfoldable pub interface_lines : ServerConfigParams → List Str
interface_lines s =
    pair (bytes "PrivateKey") s.private_key
    ∷ pair (bytes "Address") s.address
    ∷ pair (bytes "ListenPort") (print_int s.listen_port)
    ∷ (optional (bytes "DNS") s.dns_servers
        ++ (nat_lines s.nat_enabled s.nat_interface ++ export_peers_lines s.peers))

unfoldable pub server_lines : ServerConfigParams → List Str
server_lines s = title s.interface_name ∷ bytes "[Interface]" ∷ interface_lines s

-- The interface that the rules of a network with NAT name when none is given.
unfoldable pub with_nat_interface : ServerConfigParams → ServerConfigParams
with_nat_interface s =
    if s.nat_enabled && str_eq s.nat_interface []
    then record s { nat_interface = bytes "eth0" }
    else s

unfoldable pub is_zero : ℤ → Bool
is_zero (pos zero) = true
is_zero (pos (suc n)) = false
is_zero (negsuc n) = false

-- `GenerateServerConfig`.
unfoldable pub generate_server_config : ServerConfigParams → Outcome Required Str
unfolding with_nat_interface is_zero
generate_server_config s =
    if str_eq s.private_key []
    then err private_key_required
    else if is_zero s.listen_port
    then err listen_port_required
    else ok (unlines (server_lines (with_nat_interface s)))

unfoldable pub client_lines : ClientConfigParams → List Str
client_lines c =
    title c.peer_name
    ∷ bytes "[Interface]"
    ∷ pair (bytes "PrivateKey") c.peer_private_key
    ∷ pair (bytes "Address") c.peer_address
    ∷ (optional (bytes "DNS") c.dns_servers
        ++ ([]
            ∷ bytes "[Peer]"
            ∷ pair (bytes "PublicKey") c.server_public_key
            ∷ (optional (bytes "PresharedKey") c.preshared_key
                ++ (pair (bytes "AllowedIPs") c.allowed_ips
                    ∷ pair (bytes "Endpoint") c.server_endpoint
                    ∷ keepalive_line c.persistent_keepalive))))

-- `GenerateClientConfig`.
unfoldable pub generate_client_config : ClientConfigParams → Outcome Required Str
generate_client_config c =
    if str_eq c.peer_private_key []
    then err private_key_required
    else if str_eq c.server_public_key []
    then err public_key_required
    else if str_eq c.server_endpoint []
    then err endpoint_required
    else if str_eq c.allowed_ips []
    then err allowed_ips_required
    else ok (unlines (client_lines c))

-- `ComputeClientAllowedIPs`.
unfoldable pub compute_client_allowed_ips : Str → Str → Str → Str
compute_client_allowed_ips mode subnet site_networks =
    if str_eq mode (bytes "gateway")
    then bytes "0.0.0.0/0, ::/0"
    else if str_eq mode (bytes "hub-routed")
    then subnet
    else if str_eq mode (bytes "site-to-site")
    then (if str_eq site_networks [] then subnet else site_networks)
    else bytes "0.0.0.0/0, ::/0"
