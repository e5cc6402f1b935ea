-- ===== src/WgQuick/Blocks.antt =====
-- The parser over what the templates write for one peer, for all peers, and for an interface.
use wgpilot.Base.{
  suc, zero, List, [], ◌∷◌, ◌++◌, map, bytes, str_eq, some, ◌≡◌, refl, sym, ap, ◌∙◌, All,
  append-nil, append_assoc,
}
use wgpilot.Base.Int.{ℤ, pos, negsuc, IsInt, print_int, atoi-print_int, print_int-Nonspace}
use wgpilot.Base.Space.{
  IsTrimmed, drop_cr, Nonspace-IsTrimmed, trim_space, trim_start, trim_end, trim_before, is_space,
}
use wgpilot.WgQuick.Types.{ImportedPeer, ImportedConfig, ExportPeer}
use wgpilot.WgQuick.Export.{
  pair, optional, keepalive_line, export_fields_lines, export_peer_lines, export_peers_lines,
}
use wgpilot.WgQuick.Import.{
  Parser, interface_section, peer_section, set_field, set_peer, number, close_peer, empty_peer,
  take_line, lower, is_skipped,
}
use wgpilot.WgQuick.Sizes.{Fits, IsValue, max_value}
use wgpilot.WgQuick.Lines.{step, run, run-append, run-optional, step_key, step_comment, step_empty}
use wgpilot.WgQuick.Keys.{
  Reads-public_key, Reads-preshared_key, Reads-allowed_ips, Reads-endpoint,
  Reads-persistent_keepalive,
}

-- The parser inside the section of a peer.
abbrev pub reading : ImportedConfig → ImportedPeer → Parser
reading c q = record { section = peer_section; config = c; current = some q }

-- What a template prints of a keep-alive interval.
unfoldable pub positive : ℤ → ℤ
positive (pos n) = pos n
positive (negsuc n) = pos zero

unfoldable pub imported_peer : ExportPeer → ImportedPeer
imported_peer e = record {
  public_key = e.public_key;
  preshared_key = e.preshared_key;
  allowed_ips = e.allowed_ips;
  endpoint = e.endpoint;
  persistent_keepalive = positive e.persistent_keepalive;
}

abbrev pub CleanPeer : ExportPeer → Type 0
CleanPeer e =
    IsValue e.public_key
    × IsValue e.preshared_key
    × IsValue e.allowed_ips
    × IsValue e.endpoint
    × IsInt e.persistent_keepalive
    × Fits max_value e.name

pub print_int-IsTrimmed : (i : ℤ) → IsTrimmed (print_int i)
print_int-IsTrimmed i = Nonspace-IsTrimmed (print_int i) (print_int-Nonspace i)

pub number-print_int : (i old : ℤ) → IsInt i → number (print_int i) old ≡ i
unfolding number
number-print_int i old h = rw (number, atoi-print_int i h) refl

run-keepalive_line :
    (c : ImportedConfig) (q : ImportedPeer) (i : ℤ)
    → IsInt i
    → q.persistent_keepalive ≡ pos zero
    → run (reading c q) (keepalive_line i)
      ≡ reading c (record q { persistent_keepalive = positive i })
unfolding run keepalive_line positive set_field set_peer str_eq
run-keepalive_line c q (pos zero) h e =
    ap (λ k. reading c (record q { persistent_keepalive = k })) e
run-keepalive_line c q (negsuc n) h e =
    ap (λ k. reading c (record q { persistent_keepalive = k })) e
run-keepalive_line c q (pos (suc n)) h e =
    step_key (reading c q) _ _ _ Reads-persistent_keepalive (print_int-IsTrimmed (pos (suc n)))
    ∙ ap (λ k. reading c (record q { persistent_keepalive = k }))
        (number-print_int (pos (suc n)) _ h)

pub step_peer : (p : Parser) → step p (bytes "[Peer]") ≡ reading (close_peer p) empty_peer
unfolding take_line trim_space drop_cr trim_start trim_end trim_before is_space is_skipped lower
    str_eq
step_peer p = refl

pub step_interface :
    (p : Parser) → step p (bytes "[Interface]") ≡ record p { section = interface_section }
unfolding take_line trim_space drop_cr trim_start trim_end trim_before is_space is_skipped lower
    str_eq
step_interface p = refl

abbrev pub add_peers : ImportedConfig → List ImportedPeer → ImportedConfig
add_peers c qs = record c { peers = c.peers ++ qs }

-- The lines of a peer behind its name, from an empty peer.
pub run_fields :
    (c : ImportedConfig) (e : ExportPeer)
    → CleanPeer e
    → run (reading c empty_peer) (export_fields_lines e) ≡ reading c (imported_peer e)
unfolding run export_fields_lines set_field set_peer imported_peer str_eq
run_fields c e h =
    let q = record empty_peer { public_key = e.public_key } in
    let r = record q { preshared_key = e.preshared_key } in
    let s = record r { allowed_ips = e.allowed_ips } in
    let t = record s { endpoint = e.endpoint } in
    let last = keepalive_line e.persistent_keepalive in
    let ends = optional (bytes "Endpoint") e.endpoint ++ last in
    ap
      (λ p. run p (
        optional (bytes "PresharedKey") e.preshared_key
        ++ (pair (bytes "AllowedIPs") e.allowed_ips ∷ ends)))
      (step_key (reading c empty_peer) _ _ e.public_key Reads-public_key h.0.0)
    ∙ run-append (reading c q) (optional (bytes "PresharedKey") e.preshared_key) _
    ∙ ap (λ p. run p (pair (bytes "AllowedIPs") e.allowed_ips ∷ ends))
        (run-optional (reading c q) _ _ e.preshared_key Reads-preshared_key h.1.0 refl)
    ∙ ap (λ p. run p ends) (step_key (reading c r) _ _ e.allowed_ips Reads-allowed_ips h.2.0)
    ∙ run-append (reading c s) (optional (bytes "Endpoint") e.endpoint) last
    ∙ ap (λ p. run p last) (run-optional (reading c s) _ _ e.endpoint Reads-endpoint h.3.0 refl)
    ∙ run-keepalive_line c t e.persistent_keepalive h.4 refl

-- The whole block of a peer: the peer before it is closed.
pub run_export_peer :
    (p : Parser) (e : ExportPeer)
    → CleanPeer e
    → run p (export_peer_lines e) ≡ reading (close_peer p) (imported_peer e)
unfolding run export_peer_lines
run_export_peer p e h =
    ap (λ r. run (step (step r (b'#' ∷ b' ' ∷ e.name)) (bytes "[Peer]")) (export_fields_lines e))
      (step_empty p)
    ∙ ap (λ r. run (step r (bytes "[Peer]")) (export_fields_lines e))
        (step_comment p (b' ' ∷ e.name))
    ∙ ap (λ r. run r (export_fields_lines e)) (step_peer p)
    ∙ run_fields (close_peer p) e h

-- The peers of a file stand in the configuration in their order, once the last one is closed.
pub run_export_peers :
    (p : Parser) (es : List ExportPeer)
    → All CleanPeer es
    → close_peer (run p (export_peers_lines es)) ≡ add_peers (close_peer p) (map imported_peer es)
unfolding export_peers_lines run close_peer
run_export_peers p [] h =
    ap (λ qs. record (close_peer p) { peers = qs }) (sym (append-nil (close_peer p).peers))
run_export_peers p (e ∷ es) h =
    ap close_peer (run-append p (export_peer_lines e) (export_peers_lines es))
    ∙ ap (λ r. close_peer (run r (export_peers_lines es))) (run_export_peer p e h.0)
    ∙ run_export_peers (reading (close_peer p) (imported_peer e)) es h.1
    ∙ ap (λ qs. record (close_peer p) { peers = qs })
        (append_assoc (close_peer p).peers (imported_peer e ∷ []) (map imported_peer es))
