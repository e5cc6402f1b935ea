-- ===== src/WgQuick/Import.antt =====
-- internal/wg/import.go. The reader is `strings.NewReader`, which does not fail; the texts are
-- ASCII where a case or a space matters.
use wgpilot.Base.{
  ℕ, ◌+◌, ◌^◌, Bool, true, false, ◌||◌, Option, none, some, List, [], ◌∷◌, ◌++◌, map, Str, bytes,
  str_eq, if◌then◌else◌, leb, ◌==◌, length,
}
use wgpilot.Base.Space.{between, trim_space, drop_cr}
use wgpilot.Base.Lines.{lines}
use wgpilot.Base.Int.{ℤ, pos, atoi}
use wgpilot.Wg.Types.{Outcome, ok, err}
use wgpilot.WgQuick.Types.{ImportedPeer, ImportedConfig, ImportError, line_too_long, no_private_key}

-- `section`: "", "interface" or "peer".
pub data Section : Type 0 where
  no_section : Section
  interface_section : Section
  peer_section : Section

-- The variables of the loop.
pub record Parser : Type 0 where
  pub section : Section
  pub config : ImportedConfig
  pub current : Option ImportedPeer

abbrev pub empty_peer : ImportedPeer
empty_peer = record {
  public_key = [];
  preshared_key = [];
  allowed_ips = [];
  endpoint = [];
  persistent_keepalive = pos 0;
}

abbrev pub empty_config : ImportedConfig
empty_config = record {
  private_key = [];
  address = [];
  listen_port = pos 0;
  dns_servers = [];
  mtu = pos 0;
  peers = [];
}

abbrev pub start : Parser
start = record { section = no_section; config = empty_config; current = none }

-- `strings.ToLower` on ASCII.
unfoldable pub lower : ℕ → ℕ
lower c = if between b'A' b'Z' c then c + 32 else c

-- `strings.SplitN(line, "=", 2)`, `none` where there is only one part.
unfoldable pub cut : Str → Option (Str × Str)
cut [] = none
cut (c ∷ s) =
    let rest = cut s in
    if c == b'=' then some ([], s) else elim rest [ none ↦ none | some p ↦ some (c ∷ p.0, p.1) ]

abbrev pub or_else : ℤ → Option ℤ → ℤ
or_else old none = old
or_else old (some n) = n

-- A number that is not one leaves the field as it is.
unfoldable pub number : Str → ℤ → ℤ
number value old = or_else old (atoi value)

unfoldable pub set_interface : Str → Str → ImportedConfig → ImportedConfig
set_interface key value c =
    if str_eq key (bytes "privatekey")
    then record c { private_key = value }
    else if str_eq key (bytes "address")
    then record c { address = value }
    else if str_eq key (bytes "listenport")
    then record c { listen_port = number value c.listen_port }
    else if str_eq key (bytes "dns")
    then record c { dns_servers = value }
    else if str_eq key (bytes "mtu")
    then record c { mtu = number value c.mtu }
    else c

unfoldable pub set_peer : Str → Str → ImportedPeer → ImportedPeer
set_peer key value p =
    if str_eq key (bytes "publickey")
    then record p { public_key = value }
    else if str_eq key (bytes "presharedkey")
    then record p { preshared_key = value }
    else if str_eq key (bytes "allowedips")
    then record p { allowed_ips = value }
    else if str_eq key (bytes "endpoint")
    then record p { endpoint = value }
    else if str_eq key (bytes "persistentkeepalive")
    then record p { persistent_keepalive = number value p.persistent_keepalive }
    else p

abbrev pub set_current : Str → Str → Parser → Option ImportedPeer → Parser
set_current key value p none = p
set_current key value p (some peer) = record p { current = some (set_peer key value peer) }

unfoldable pub set_field : Section → Str → Str → Parser → Parser
set_field no_section key value p = p
set_field interface_section key value p = record p { config = set_interface key value p.config }
set_field peer_section key value p = set_current key value p p.current

abbrev pub add_current : ImportedConfig → Option ImportedPeer → ImportedConfig
add_current c none = c
add_current c (some peer) = record c { peers = c.peers ++ peer ∷ [] }

-- The peer that is being read goes to the end of the list.
unfoldable pub close_peer : Parser → ImportedConfig
close_peer p = add_current p.config p.current

unfoldable pub is_skipped : Str → Bool
is_skipped [] = true
is_skipped (c ∷ s) = (c == b'#') || (c == b';')

unfoldable pub take_pair : Parser → Option (Str × Str) → Parser
take_pair p none = p
take_pair p (some kv) = set_field p.section (trim_space (map lower kv.0)) (trim_space kv.1) p

-- One turn of the loop, on the trimmed line.
unfoldable pub take_line : Parser → Str → Parser
unfolding is_skipped close_peer
take_line p line =
    let lowered = map lower line in
    if is_skipped line
    then p
    else if str_eq lowered (bytes "[interface]")
    then record p { section = interface_section }
    else if str_eq lowered (bytes "[peer]")
    then record { section = peer_section; config = close_peer p; current = some empty_peer }
    else take_pair p (cut line)

-- `bufio.MaxScanTokenSize`: the scanner gives up on a line that fills its buffer.
abbrev pub max_token : ℕ
max_token = 2 ^ 16

-- The loop over the lines as they stand in the text, and whether it reached the end.
unfoldable pub scan : Parser → List Str → Parser × Bool
scan p [] = (p, true)
scan p (l ∷ ls) =
    let rest = scan (take_line p (trim_space (drop_cr l))) ls in
    if leb max_token (length l) then (p, false) else rest

unfoldable pub finish : Parser × Bool → Outcome ImportError ImportedConfig
finish r =
    let config = close_peer r.0 in
    if r.1
    then (if str_eq config.private_key [] then err no_private_key else ok config)
    else err line_too_long

-- `ParseWgQuickConfig`.
unfoldable pub parse_wg_quick_config : Str → Outcome ImportError ImportedConfig
parse_wg_quick_config text = finish (scan start (lines text))
