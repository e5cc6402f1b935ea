-- ===== src/WgQuick/Client.antt =====
-- The file of a device, of internal/wg/config_gen.go, is read back as its interface and its one
-- peer, the server.
use wgpilot.Base.{
  ℕ, List, [], ◌∷◌, ◌++◌, Str, bytes, str_eq, ◌≡◌, ◌≢◌, refl, ap, ◌∙◌, All, All-append, arith,
}
use wgpilot.Base.Lines.{unlines}
use wgpilot.Base.Int.{pos, IsInt}
use wgpilot.Wg.Types.{ok}
use wgpilot.WgQuick.Types.{ImportedConfig, ExportPeer, ClientConfigParams}
use wgpilot.WgQuick.Export.{
  pair, optional, export_fields_lines, client_lines, title, generate_client_config,
}
use wgpilot.WgQuick.Import.{
  start, close_peer, set_field, set_interface, empty_config, parse_wg_quick_config,
}
use wgpilot.WgQuick.Keys.{Reads-private_key, Reads-address, Reads-dns}
use wgpilot.WgQuick.Lines.{step, run, run-append, run-optional, step_key, step_comment, step_empty}
use wgpilot.WgQuick.Sizes.{Fits, IsLine, IsValue, max_value, Fits-text, no_newline}
use wgpilot.WgQuick.Blocks.{
  CleanPeer, imported_peer, positive, step_interface, step_peer, run_fields,
}
use wgpilot.WgQuick.Interface.{inside}
use wgpilot.WgQuick.Short.{
  title-IsLine, interface_header-IsLine, peer_header-IsLine, empty-IsLine, pair-IsLine,
  optional-IsLine, export_fields_lines-IsLine,
}
use wgpilot.WgQuick.RoundTrip.{str_eq-nonempty, parse-unlines}

-- The server as a peer of the device.
unfoldable pub server_peer : ClientConfigParams → ExportPeer
server_peer c = record {
  name = [];
  public_key = c.server_public_key;
  preshared_key = c.preshared_key;
  allowed_ips = c.allowed_ips;
  endpoint = c.server_endpoint;
  persistent_keepalive = c.persistent_keepalive;
}

unfoldable pub imported_client : ClientConfigParams → ImportedConfig
unfolding server_peer
imported_client c = record {
  private_key = c.peer_private_key;
  address = c.peer_address;
  listen_port = pos 0;
  dns_servers = c.dns_servers;
  mtu = pos 0;
  peers = imported_peer (server_peer c) ∷ [];
}

pub imported_client_natural :
    (c : ClientConfigParams) (k : ℕ)
    → imported_client (record c { persistent_keepalive = pos k }) ≡ record {
      private_key = c.peer_private_key;
      address = c.peer_address;
      listen_port = pos 0;
      dns_servers = c.dns_servers;
      mtu = pos 0;
      peers =
          record {
            public_key = c.server_public_key;
            preshared_key = c.preshared_key;
            allowed_ips = c.allowed_ips;
            endpoint = c.server_endpoint;
            persistent_keepalive = pos k;
          }
          ∷ [];
    }
unfolding imported_client imported_peer positive server_peer
imported_client_natural c k = refl

abbrev pub IsCleanClient : ClientConfigParams → Type 0
IsCleanClient c =
    IsValue c.peer_private_key
    × IsValue c.peer_address
    × IsValue c.dns_servers
    × IsValue c.server_public_key
    × IsValue c.preshared_key
    × IsValue c.allowed_ips
    × IsValue c.server_endpoint
    × IsInt c.persistent_keepalive
    × Fits max_value c.peer_name

-- The fields that the generator wants.
abbrev pub HasFields : ClientConfigParams → Type 0
HasFields c =
    (c.peer_private_key ≢ [])
    × (c.server_public_key ≢ [])
    × (c.server_endpoint ≢ [])
    × (c.allowed_ips ≢ [])

optional-nonempty : (key v : Str) → v ≢ [] → optional key v ≡ pair key v ∷ []
unfolding optional
optional-nonempty key [] h = absurd (h refl)
optional-nonempty key (c ∷ s) h = refl

abbrev device_lines : ClientConfigParams → List Str
device_lines c =
    pair (bytes "PrivateKey") c.peer_private_key
    ∷ pair (bytes "Address") c.peer_address
    ∷ (optional (bytes "DNS") c.dns_servers
        ++ ([] ∷ bytes "[Peer]" ∷ export_fields_lines (server_peer c)))

client_lines-device_lines :
    (c : ClientConfigParams)
    → c.server_endpoint ≢ []
    → client_lines c ≡ title c.peer_name ∷ bytes "[Interface]" ∷ device_lines c
unfolding client_lines export_fields_lines server_peer
client_lines-device_lines c h = rw (optional-nonempty (bytes "Endpoint") c.server_endpoint h) refl

server_peer-CleanPeer : (c : ClientConfigParams) → IsCleanClient c → CleanPeer (server_peer c)
unfolding server_peer no_newline
server_peer-CleanPeer c h = (h.3, h.4, h.5, h.6, h.7, Fits-text 30000 [] refl (omega arith))

run-device_lines :
    (c : ClientConfigParams)
    → IsCleanClient c
    → close_peer (run (inside empty_config) (device_lines c)) ≡ imported_client c
unfolding run set_field set_interface str_eq imported_client
run-device_lines c h =
    let peer = [] ∷ bytes "[Peer]" ∷ export_fields_lines (server_peer c) in
    let fields = export_fields_lines (server_peer c) in
    let d = record empty_config { private_key = c.peer_private_key } in
    let e = record d { address = c.peer_address } in
    let f = record e { dns_servers = c.dns_servers } in
    ap
      (λ p. close_peer (
        run p
          (pair (bytes "Address") c.peer_address ∷ (optional (bytes "DNS") c.dns_servers ++ peer))))
      (step_key (inside empty_config) _ _ c.peer_private_key Reads-private_key h.0.0)
    ∙ ap (λ p. close_peer (run p (optional (bytes "DNS") c.dns_servers ++ peer)))
        (step_key (inside d) _ _ c.peer_address Reads-address h.1.0)
    ∙ ap close_peer (run-append (inside e) (optional (bytes "DNS") c.dns_servers) peer)
    ∙ ap (λ p. close_peer (run p peer))
        (run-optional (inside e) _ _ c.dns_servers Reads-dns h.2.0 refl)
    ∙ ap (λ p. close_peer (run (step p (bytes "[Peer]")) fields)) (step_empty (inside f))
    ∙ ap (λ p. close_peer (run p fields)) (step_peer (inside f))
    ∙ ap close_peer (run_fields (close_peer (inside f)) (server_peer c) (server_peer-CleanPeer c h))
    ∙ unfold close_peer in refl

device_lines-IsLine : (c : ClientConfigParams) → IsCleanClient c → All IsLine (device_lines c)
unfolding no_newline
device_lines-IsLine c h = (
  pair-IsLine (bytes "PrivateKey") _ refl (omega arith) h.0.1 (omega arith),
  (
    pair-IsLine (bytes "Address") _ refl (omega arith) h.1.1 (omega arith),
    All-append IsLine (optional (bytes "DNS") c.dns_servers) _
        (optional-IsLine _ _ refl (omega arith) h.2.1)
        (
          empty-IsLine,
          (
            peer_header-IsLine,
            export_fields_lines-IsLine (server_peer c) (server_peer-CleanPeer c h),
          ),
        ),
  ),
)

run-client_lines :
    (c : ClientConfigParams)
    → IsCleanClient c
    → close_peer (run start (title c.peer_name ∷ bytes "[Interface]" ∷ device_lines c))
      ≡ imported_client c
unfolding run
run-client_lines c h =
    ap (λ p. close_peer (run (step p (bytes "[Interface]")) (device_lines c)))
      (step_comment start (bytes " Generated by wgpilot " ++ 226 ∷ 128 ∷ 148 ∷ b' ' ∷ c.peer_name))
    ∙ ap (λ p. close_peer (run p (device_lines c))) (step_interface start)
    ∙ run-device_lines c h

generate-client_lines :
    (c : ClientConfigParams)
    → HasFields c
    → generate_client_config c ≡ ok (unlines (client_lines c))
unfolding generate_client_config
generate-client_lines c f =
    rw
      (
        str_eq-nonempty c.peer_private_key f.0,
        str_eq-nonempty c.server_public_key f.1,
        str_eq-nonempty c.server_endpoint f.2,
        str_eq-nonempty c.allowed_ips f.3,
      )
      refl

-- If every text of the parameters is one line of at most 30,000 bytes, the values start and end
-- with no space, the keep-alive is a 64-bit number, and no field that the generator requires is
-- empty, then the file of a device is generated, and the import reads it back: the interface of the
-- device, and the server as its one peer.
pub parse-generate_client :
    (c : ClientConfigParams)
    → IsCleanClient c
    → HasFields c
    → (text : Str) × (generate_client_config c ≡ ok text)
      × (parse_wg_quick_config text ≡ ok (imported_client c))
parse-generate_client c h f = (
  unlines (client_lines c),
  generate-client_lines c f,
  ap (λ ls. parse_wg_quick_config (unlines ls)) (client_lines-device_lines c f.2)
      ∙ parse-unlines _ (imported_client c)
          (title-IsLine c.peer_name h.8, (interface_header-IsLine, device_lines-IsLine c h))
          (run-client_lines c h) (unfold imported_client in f.0),
)
