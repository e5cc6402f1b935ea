-- ===== src/Wg/Manager.antt =====
-- internal/wg/manager.go: interfaces and peers. A method is a function on the world, run under the
-- mutex. Logging is left out, and an error keeps the step that failed with the cause.
pub mod Links
pub mod Steps
pub mod Peers
mod Tests
use wgpilot.Base.{
  ℕ, ◌+◌, ◌-◌, ◌%◌, ◌^◌, ◌*◌, zero, suc, ◌≡◌, refl, Bool, true, false, Option, none, some, List, [],
  ◌∷◌, ◌++◌, map, Str, str_eq, if◌then◌else◌, ltb,
}
use wgpilot.Base.Decimal.{decimal}
use wgpilot.IpAlloc.{Subnet, mask, first_usable_ip, ip_string}
use wgpilot.Wg.Nets.{Net, v4, v6, NetText, net_string, parse_allowed_ips}
use wgpilot.Wg.Types.{
  WgPeerConfig, DeviceConfig, WgPeerInfo, DeviceInfo, NetworkConfig, PeerConfig, Outcome, ok, err,
  Host,
}

pub data Error : Type 0 where
  link_add : Str → Error
  parse_subnet : Str → Error
  assign_address : Str → Error
  configure : Str → Error
  bring_up : Str → Error
  get_device : Str → Error
  remove_peers : Str → Error
  bring_down : Str → Error
  delete_failed : Str → Error
  parse_allowed : Str → Error

-- The network and its prefix length of an IPv6 prefix: the host bits are cleared.
abbrev v6_network : ℕ → ℕ → ℕ
v6_network address ones = address - address % 2 ^ (128 - ones)

-- `fmt.Sprintf("%s/%d", firstUsableIP(subnet), ones)`.
pub server_address : NetText → Net → Str
server_address T (v4 s) = ip_string (first_usable_ip s) ++ (b'/' ∷ decimal s.ones)
server_address T (v6 address ones) =
    T.v6_string ((v6_network address ones + 1) % 2 ^ 128) ++ (b'/' ∷ decimal ones)

abbrev pub remove_config : Str → WgPeerConfig
remove_config key = record {
  public_key = key;
  remove = true;
  update_only = false;
  preshared_key = [];
  endpoint = [];
  keepalive_seconds = 0;
  replace_allowed_ips = false;
  allowed_ips = [];
}

abbrev pub peers_only : List WgPeerConfig → DeviceConfig
peers_only ps = record { private_key = []; listen_port = 0; replace_peers = false; peers = ps }

module _ (H : Host) where
  abbrev pub M : Type 0 → Type 0
  M A = H.World → Outcome Error A × H.World

  infixl 5 ◌>>=◌ ◌>>◌
  abbrev pub ◌>>=◌ : {A B : Type 0} → M A → (A → M B) → M B
  ◌>>=◌ m f w = let (r, w') = m w in elim r [ ok a ↦ f a w' | err e ↦ (err e, w') ]

  abbrev pub ◌>>◌ : {B : Type 0} → M (Unit {0}) → M B → M B
  m >> k = m >>= λ _. k

  -- A call of the host whose error is wrapped.
  abbrev pub call : (Str → Error) → (H.World → Option Str × H.World) → M (Unit {0})
  call wrap op w = let (e, w') = op w in elim e [ none ↦ (ok tt, w') | some s ↦ (err (wrap s), w') ]

  -- The clean-up of a step that fails: the link is deleted, whatever that returns.
  abbrev pub or_delete : {A : Type 0} → Str → M A → M A
  or_delete name m w =
      let (r, w') = m w in elim r [ ok a ↦ (ok a, w') | err e ↦ (err e, (H.delete_link name w').1) ]

  pub parse_net : Str → M Net
  parse_net s w = elim (H.text.parse_cidr s) [
    | none ↦ (err (parse_subnet s), w)
    | some n ↦ (ok n, w)
  ]

  abbrev pub key_and_port : NetworkConfig → DeviceConfig
  key_and_port n = record {
    private_key = n.private_key;
    listen_port = n.listen_port;
    replace_peers = false;
    peers = [];
  }

  pub create_interface : NetworkConfig → M (Unit {0})
  unfolding parse_net
  create_interface n = do
    call link_add (H.create_wireguard_link n.interface)
    net ← or_delete n.interface (parse_net n.subnet)
    or_delete n.interface
        (call assign_address (H.add_address n.interface (server_address H.text net)))
    or_delete n.interface (call configure (H.configure_device n.interface (key_and_port n)))
    or_delete n.interface (call bring_up (H.set_link_up n.interface))

  pub get_device_info : Str → M DeviceInfo
  get_device_info name w = elim (H.device name w) [
    | ok d ↦ (ok d, w)
    | err e ↦ (err (get_device e), w)
  ]

  -- No call is made for a device without peers.
  pub remove_all : Str → List WgPeerInfo → M (Unit {0})
  remove_all name [] w = (ok tt, w)
  remove_all name (p ∷ ps) w =
      call remove_peers
        (H.configure_device name
          (peers_only (map (λ (q : WgPeerInfo). remove_config q.public_key) (p ∷ ps))))
        w

  pub delete_interface : Str → M (Unit {0})
  unfolding get_device_info remove_all
  delete_interface name = do
    dev ← get_device_info name
    remove_all name dev.peers
    call bring_down (H.set_link_down name)
    call delete_failed (H.delete_link name)

  pub build_peer_config : PeerConfig → Bool → Outcome Error WgPeerConfig
  build_peer_config p update_only = elim (parse_allowed_ips H.text p.allowed_ips) [
    | none ↦ err (parse_allowed p.allowed_ips)
    | some nets ↦ ok (record {
      public_key = p.public_key;
      remove = false;
      update_only = update_only;
      preshared_key = p.preshared_key;
      endpoint = p.endpoint;
      keepalive_seconds = p.persistent_keepalive;
      replace_allowed_ips = true;
      allowed_ips = nets;
    })
  ]

  pub send_peer : Str → Outcome Error WgPeerConfig → M (Unit {0})
  send_peer iface (ok cfg) w = call configure (H.configure_device iface (peers_only (cfg ∷ []))) w
  send_peer iface (err e) w = (err e, w)

  pub add_peer : Str → PeerConfig → M (Unit {0})
  unfolding send_peer build_peer_config
  add_peer iface p w = send_peer iface (build_peer_config p false) w

  pub update_peer : Str → PeerConfig → M (Unit {0})
  unfolding send_peer build_peer_config
  update_peer iface p w = send_peer iface (build_peer_config p true) w

  -- The switch of a peer is not sent to the kernel.
  pub update_peer_ignores_enabled :
      (iface : Str) (p : PeerConfig) (b : Bool)
      → update_peer iface (record p { enabled = b }) ≡ update_peer iface p
  unfolding update_peer build_peer_config
  update_peer_ignores_enabled iface p b = refl

  pub remove_peer : Str → Str → M (Unit {0})
  remove_peer iface key w =
      call configure (H.configure_device iface (peers_only (remove_config key ∷ []))) w
