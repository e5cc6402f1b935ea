-- ===== src/WgQuick/Interface.antt =====
-- The parser over a whole file that GenerateServerConfig writes.
use wgpilot.Base.{
  Bool, true, false, [], ◌∷◌, ◌++◌, map, none, Str, bytes, str_eq, ◌≡◌, refl, ap, ◌∙◌, All,
}
use wgpilot.Base.Int.{IsInt, pos, print_int}
use wgpilot.WgQuick.Types.{ImportedConfig, ServerConfigParams}
use wgpilot.WgQuick.Export.{
  pair, optional, nat_lines, export_peers_lines, interface_lines, server_lines, masquerade,
}
use wgpilot.WgQuick.Import.{
  Parser, interface_section, set_field, set_interface, close_peer, start, empty_config,
}
use wgpilot.WgQuick.Keys.{
  Reads-private_key, Reads-address, Reads-listen_port, Reads-dns, Reads-post_up, Reads-post_down,
}
use wgpilot.WgQuick.Sizes.{Fits, IsValue, max_value}
use wgpilot.WgQuick.Lines.{
  step, run, run-append, run-optional, step_key, step_key_trim, step_comment,
}
use wgpilot.WgQuick.Blocks.{
  CleanPeer, imported_peer, run_export_peers, number-print_int, print_int-IsTrimmed, step_interface,
}

abbrev pub IsCleanServer : ServerConfigParams → Type 0
IsCleanServer s =
    IsValue s.private_key
    × IsValue s.address
    × IsInt s.listen_port
    × IsValue s.dns_servers
    × All CleanPeer s.peers
    × Fits max_value s.interface_name
    × Fits max_value s.nat_interface

-- What a file says of its interface: the rules of NAT are not read.
unfoldable pub imported_server : ServerConfigParams → ImportedConfig
imported_server s = record {
  private_key = s.private_key;
  address = s.address;
  listen_port = s.listen_port;
  dns_servers = s.dns_servers;
  mtu = pos 0;
  peers = map imported_peer s.peers;
}

-- The parser inside the section of an interface.
abbrev pub inside : ImportedConfig → Parser
inside c = record { section = interface_section; config = c; current = none }

run-nat_lines :
    (c : ImportedConfig) (b : Bool) (i : Str) → run (inside c) (nat_lines b i) ≡ inside c
unfolding run nat_lines set_field set_interface str_eq
run-nat_lines c false i = refl
run-nat_lines c true i =
    ap (λ p. step p (pair (bytes "PostDown") (masquerade (bytes "D") i)))
      (step_key_trim (inside c) _ _ (masquerade (bytes "A") i) Reads-post_up)
    ∙ step_key_trim (inside c) _ _ (masquerade (bytes "D") i) Reads-post_down

-- The lines of the interface, with what follows the line of its name.
run_interface :
    (s : ServerConfigParams)
    → IsCleanServer s
    → run (inside empty_config) (interface_lines s)
      ≡ run (inside (record (imported_server s) { peers = [] })) (export_peers_lines s.peers)
unfolding run interface_lines imported_server set_field set_interface str_eq
run_interface s h =
    let peers = export_peers_lines s.peers in
    let nat = nat_lines s.nat_enabled s.nat_interface in
    let ends = optional (bytes "DNS") s.dns_servers ++ (nat ++ peers) in
    let port = pair (bytes "ListenPort") (print_int s.listen_port) in
    let c = record empty_config { private_key = s.private_key } in
    let d = record c { address = s.address } in
    let e = record d { listen_port = s.listen_port } in
    let f = record e { dns_servers = s.dns_servers } in
    ap (λ p. run p (pair (bytes "Address") s.address ∷ port ∷ ends))
      (step_key (inside empty_config) _ _ s.private_key Reads-private_key h.0.0)
    ∙ ap (λ p. run p (port ∷ ends)) (step_key (inside c) _ _ s.address Reads-address h.1.0)
    ∙ ap (λ p. run p ends)
        (step_key (inside d) _ _ (print_int s.listen_port) Reads-listen_port
            (print_int-IsTrimmed s.listen_port)
          ∙ ap (λ i. inside (record d { listen_port = i }))
              (number-print_int s.listen_port (pos 0) h.2))
    ∙ run-append (inside e) (optional (bytes "DNS") s.dns_servers) (nat ++ peers)
    ∙ ap (λ p. run p (nat ++ peers))
        (run-optional (inside e) _ _ s.dns_servers Reads-dns h.3.0 refl)
    ∙ run-append (inside f) nat peers
    ∙ ap (λ p. run p peers) (run-nat_lines f s.nat_enabled s.nat_interface)

-- The whole file, its first lines included.
pub run-server_lines :
    (s : ServerConfigParams)
    → IsCleanServer s
    → close_peer (run start (server_lines s)) ≡ imported_server s
unfolding run server_lines
run-server_lines s h =
    ap (λ p. close_peer (run (step p (bytes "[Interface]")) (interface_lines s)))
      (step_comment start
        (bytes " Generated by wgpilot " ++ 226 ∷ 128 ∷ 148 ∷ b' ' ∷ s.interface_name))
    ∙ ap (λ p. close_peer (run p (interface_lines s))) (step_interface start)
    ∙ ap close_peer (run_interface s h)
    ∙ run_export_peers (inside (record (imported_server s) { peers = [] })) s.peers h.4
    ∙ unfold close_peer in unfold imported_server in refl
