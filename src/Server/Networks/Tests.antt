-- ===== src/Server/Networks/Tests.antt =====
-- A request for a network whose subnet is stored already.
use wgpilot.Base.{◌≡◌, refl, [], ◌∷◌, bytes, inl, str_eq}
use wgpilot.IpAlloc.{contains, mask, block}
use wgpilot.Wg.Types.{ok, err}
use wgpilot.Server.Types.{Network, Server, failed, subnet_conflict, ip4}
use wgpilot.Server.Validate.{
  validate_create_network, is_valid_name, is_name_char, all_chars, is_valid_mode,
  is_valid_private_cidr, is_private_net, is_private_address, is_valid_dns_servers,
}
use wgpilot.Server.Networks.{new_network, handle_create_network}
use wgpilot.Server.Networks.Rejected.{Shared, handle_create_network_conflict}
use wgpilot.Server.Example.{
  example_env, example_parsers, fresh_server, office, lan, lan_text, parse_example,
}

abbrev present : Network
present = record (new_network office (bytes "wg0") (bytes "private", bytes "public")) { id = 1 }

abbrev occupied : Server example_env
occupied = record fresh_server { db = record { networks = present ∷ []; bridges = []; peers = [] } }

itself-Shared : Shared example_parsers lan_text lan_text
unfolding parse_example str_eq contains mask block
itself-Shared = record {
  own = lan;
  other = lan;
  own_ip = ip4 lan.ip;
  other_ip = ip4 lan.ip;
  address = lan.ip;
  parsed = refl;
  other_parsed = refl;
  inside = refl;
  other_inside = refl;
}

office_valid : validate_create_network example_parsers office ≡ []
unfolding validate_create_network is_valid_name is_name_char all_chars is_valid_mode
    is_valid_private_cidr is_private_net is_private_address is_valid_dns_servers parse_example
    str_eq
office_valid = refl

handle_create_network_conflict_example :
    handle_create_network example_env (ok office) occupied
    ≡ (err (failed 409 subnet_conflict), occupied)
handle_create_network_conflict_example =
    handle_create_network_conflict example_env office occupied present (present ∷ []) office_valid
      refl (inl refl) itself-Shared
