-- ===== src/Wg/Manager/Tests.antt =====
-- The manager over a kernel that only keeps which links there are.
use wgpilot.Base.{
  ◌≡◌, refl, arith, Bool, true, false, Option, none, some, [], Str, bytes, str_eq, if◌then◌else◌,
}
use wgpilot.Wg.Types.{DeviceInfo, NetworkConfig, ok, Host}
use wgpilot.Wg.Nets.Tests.{small_text}
use wgpilot.Wg.Manager.{create_interface, delete_interface}
use wgpilot.Wg.Manager.Links.{
  Linked, links_created, links_deleted, create_interface-atomic, delete_interface-links,
}

abbrev Links : Type 0
Links = Str → Bool

abbrev create : Str → Links → Option Str × Links
create n w =
    if w n then (some (bytes "exists"), w) else (none, λ j. if str_eq n j then true else w j)

abbrev remove : Str → Links → Option Str × Links
remove n w = (none, λ j. if str_eq n j then false else w j)

abbrev bare : Str → DeviceInfo
bare n = record { name = n; public_key = []; listen_port = 0; peers = [] }

abbrev links_host : Host
links_host = record {
  World = Links;
  text = small_text;
  configure_device = λ n c w. (none, w);
  device = λ n w. ok (bare n);
  devices = λ w. ok [];
  create_wireguard_link = create;
  delete_link = remove;
  set_link_up = λ n w. (some (bytes "down"), w);
  set_link_down = λ n w. (none, w);
  add_address = λ n a w. (none, w);
}

create_links :
    (n j : Str) (w : Links)
    → (create n w).1 j
      ≡ elim (create n w).0 [ none ↦ if str_eq n j then true else w j | some e ↦ w j ]
create_links n j w = ground arith

create_fresh : (n : Str) (w : Links) → (create n w).0 ≡ none → w n ≡ false
create_fresh n w h = ground arith

abbrev links_kernel : Linked links_host
links_kernel = record {
  exists = λ n w. w n;
  created = create_links;
  fresh = create_fresh;
  deleted = λ n j w. refl;
  deletable = λ n w h. refl;
  configured = λ n j c w. refl;
  upped = λ n j w. refl;
  downed = λ n j w. refl;
  addressed = λ n j a w. refl;
}

abbrev office : NetworkConfig
office = record {
  id = 1;
  name = bytes "office";
  interface = bytes "wg0";
  mode = [];
  subnet = bytes "10.0.0.0/24";
  listen_port = 51820;
  private_key = [];
  public_key = [];
  dns_servers = [];
  nat_enabled = true;
  inter_peer_routing = true;
  enabled = true;
}

abbrev no_links : Links
no_links n = false

abbrev one_link : Links
one_link n = str_eq (bytes "wg0") n

-- The link cannot be brought up, and is deleted again.
create_interface-atomic_example :
    links_kernel.exists (bytes "wg0") (create_interface links_host office no_links).1
    ≡ links_created links_host links_kernel
        (bytes "wg0")
        (create_interface links_host office no_links).0
        (bytes "wg0")
        no_links
create_interface-atomic_example =
    create_interface-atomic links_host links_kernel office no_links (bytes "wg0")

delete_interface-links_example :
    links_kernel.exists (bytes "wg0") (delete_interface links_host (bytes "wg0") one_link).1
    ≡ links_deleted links_host links_kernel
        (bytes "wg0")
        (delete_interface links_host (bytes "wg0") one_link).0
        (bytes "wg0")
        one_link
delete_interface-links_example =
    delete_interface-links links_host links_kernel (bytes "wg0") one_link (bytes "wg0")
