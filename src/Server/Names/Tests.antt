-- ===== src/Server/Names/Tests.antt =====
-- The name of the next interface of internal/server/routes_networks.go.
use wgpilot.Base.{ℕ, ◌≡◌, ltb, true, false, List, [], ◌∷◌, Str, bytes, if◌then◌else◌}
use wgpilot.Server.Types.{Network}
use wgpilot.Server.Names.{
  next_interface_name, interface_name, has_interface, next_interface_name-least,
}

abbrev on : Str → Network
on name = record {
  id = 1;
  name = [];
  interface = name;
  mode = [];
  subnet = [];
  listen_port = 1024;
  private_key = [];
  public_key = [];
  dns_servers = [];
  nat_enabled = false;
  inter_peer_routing = false;
  enabled = true;
}

abbrev rows : List Network
rows = on (bytes "wg0") ∷ on (bytes "wg2") ∷ []

next_interface_name-least_example :
    (i : ℕ) × (next_interface_name rows ≡ interface_name i)
    × (has_interface (interface_name i) rows ≡ false)
    × ((if ltb 0 i then has_interface (interface_name 0) rows else true) ≡ true)
next_interface_name-least_example = next_interface_name-least rows 0
