-- ===== src/Wg/Reconcile/Tests.antt =====
-- The reconciliation over a kernel that only keeps the allowed IPs of peers.
use wgpilot.Base.{
  ◌≡◌, refl, sym, ap, arith, true, false, Option, none, some, List, [], ◌∷◌, Str, bytes, str_eq,
  if◌then◌else◌, str_eq_refl, subst, ◌∙◌, inl, inr,
}
use wgpilot.Base.Dict.{lookup, insert}
use wgpilot.Wg.Types.{
  WgPeerConfig, WgPeerInfo, DeviceInfo, NetworkConfig, PeerConfig, ok, Host, NetworkStore,
}
use wgpilot.Wg.Nets.{Net, parse_allowed_ips}
use wgpilot.Wg.Nets.Tests.{small_text, net_a, net_b, text_b, read_b}
use wgpilot.Wg.Manager.Steps.{Quiet}
use wgpilot.Wg.Manager.Peers.{configured_ips, Shows, Loses, Peered}
use wgpilot.Wg.Reconcile.Turns.{Parsed, Unshared}
use wgpilot.Wg.Nets.Matching.{texts}
use wgpilot.Base.Distinct.{NoRepeat}
use wgpilot.Wg.Reconcile.{sync_peers, reconcile, kernel_peers}
use wgpilot.Wg.Reconcile.Frame.{reconcile-unmanaged}
use wgpilot.Wg.Reconcile.Keys.{db_peer}
use wgpilot.Wg.Reconcile.Peers.{Shown, Synced, sync_peers-Synced}

abbrev Peers : Type 0
Peers = Str → Str → Option (List Net)

abbrev set_peer : Str → WgPeerConfig → Peers → Peers
set_peer i c w j k =
    if str_eq i j
    then (if str_eq c.public_key k then configured_ips c (w j k) else w j k)
    else w j k

abbrev set_peers : Str → List WgPeerConfig → Peers → Peers
set_peers i [] w = w
set_peers i (c ∷ cs) w = set_peers i cs (set_peer i c w)

abbrev key_a : Str
key_a = bytes "A"

abbrev key_b : Str
key_b = bytes "B"

abbrev info : Str → WgPeerInfo
info key = record {
  public_key = key;
  preshared_key = [];
  endpoint = [];
  allowed_ips = net_a ∷ [];
  last_handshake = none;
  receive_bytes = 0;
  transmit_bytes = 0;
}

abbrev wg0 : DeviceInfo
wg0 = record {
  name = bytes "wg0";
  public_key = [];
  listen_port = 51820;
  peers = info key_a ∷ info key_b ∷ [];
}

abbrev peers_host : Host
peers_host = record {
  World = Peers;
  text = small_text;
  configure_device = λ n c w. (none, set_peers n c.peers w);
  device = λ n w. ok wg0;
  devices = λ w. ok (wg0 ∷ []);
  create_wireguard_link = λ n w. (none, w);
  delete_link = λ n w. (none, w);
  set_link_up = λ n w. (none, w);
  set_link_down = λ n w. (none, w);
  add_address = λ n a w. (none, w);
}

Shows-same : (o : Option (List Net)) → Shows small_text o o
Shows-same none = refl
Shows-same (some ips) = (ips, refl, (refl, λ a. (λ m. m, λ m. m)))

Loses-none :
    (nets : List Net) (old new : Option (List Net)) → new ≡ old → Loses small_text nets old new
Loses-none nets old new e = (λ h. e ∙ h, λ ips h. (ips, e ∙ h), λ ips h apart. e ∙ h)

named_peers :
    (i : Str) (c : WgPeerConfig) (w : Peers)
    → set_peer i c w i c.public_key ≡ configured_ips c (w i c.public_key)
named_peers i c w = rw (str_eq_refl i, str_eq_refl c.public_key) refl

other_peers :
    (i k : Str) (c : WgPeerConfig) (w : Peers)
    → str_eq c.public_key k ≡ false
    → set_peer i c w i k ≡ w i k
other_peers i k c w h = rw (str_eq_refl i, h) refl

abbrev peers_kernel : Peered peers_host
peers_kernel = record {
  peer = λ i k w. w i k;
  ready = λ i w. Unit;
  stays = λ i c w h. tt;
  named = λ i c w r n a.
      subst (Shows small_text (configured_ips c (w i c.public_key))) (sym (named_peers i c w))
        (Shows-same (configured_ips c (w i c.public_key)));
  others = λ i k c w h a. Loses-none c.allowed_ips _ _ (other_peers i k c w h);
}

abbrev peer_b : PeerConfig
peer_b = record {
  id = 2;
  network_id = 1;
  name = bytes "b";
  public_key = key_b;
  preshared_key = [];
  allowed_ips = text_b;
  endpoint = [];
  persistent_keepalive = 25;
  role = bytes "client";
  site_networks = [];
  enabled = true;
}

-- Peers A and B are on the device, and only B, with another network, is in the database.
abbrev both : Peers
both i k =
    if str_eq (bytes "wg0") i
    then (if str_eq key_a k
        then some (net_a ∷ [])
        else if str_eq key_b k
        then some (net_a ∷ [])
        else none)
    else none

lookup-both :
    (k : Str)
    → lookup k (kernel_peers wg0.peers []) ≡ (
        if str_eq key_a k
        then some (info key_a)
        else if str_eq key_b k
        then some (info key_b)
        else none)
unfolding kernel_peers lookup insert str_eq
lookup-both k = refl

both-Shown : Shown peers_host peers_kernel (bytes "wg0") (some wg0) both
both-Shown k = ground (arith, lookup-both k, str_eq_refl (bytes "wg0"))

b-Parsed : Parsed peers_host peers_kernel (bytes "wg0") (peer_b ∷ [])
b-Parsed p (inl e) =
    subst
      (λ (q : PeerConfig).
        (nets : List Net) × (parse_allowed_ips small_text q.allowed_ips ≡ some nets)
        × NoRepeat (texts small_text nets))
      e (net_b ∷ [], read_b, (tt, tt))
b-Parsed p (inr m) = absurd m

b-Unshared : Unshared peers_host peers_kernel (bytes "wg0") (peer_b ∷ [])
b-Unshared p q np nq (inl e) (inl f) ne _ _ _ _ =
    absurd (ne (ap (λ (r : PeerConfig). r.public_key) (sym e ∙ f)))
b-Unshared p q np nq (inl e) (inr m) ne _ _ _ _ = absurd m
b-Unshared p q np nq (inr m) _ ne _ _ _ _ = absurd m

sync_peers-Synced_example :
    Synced peers_host peers_kernel
      (bytes "wg0")
      (db_peer key_a (peer_b ∷ []))
      (sync_peers peers_host (bytes "wg0") (some wg0) (peer_b ∷ []) both (bytes "wg0") key_a)
sync_peers-Synced_example =
    sync_peers-Synced peers_host peers_kernel (bytes "wg0") (some wg0) (peer_b ∷ []) both key_a
      (λ q m. absurd m, tt) b-Parsed b-Unshared (λ p nets c m e s w here. refl) (λ q m w here. refl)
      tt both-Shown

set_peers-other :
    (i j k : Str) (cs : List WgPeerConfig) (w : Peers)
    → str_eq i j ≡ false
    → set_peers i cs w j k ≡ w j k
set_peers-other i j k [] w h = refl
set_peers-other i j k (c ∷ cs) w h = set_peers-other i j k cs (set_peer i c w) h ∙ rw h refl

abbrev office : NetworkConfig
office = record {
  id = 1;
  name = bytes "office";
  interface = bytes "wg0";
  mode = [];
  subnet = bytes "10.0.0.0/24";
  listen_port = 51820;
  private_key = [];
  public_key = [];
  dns_servers = [];
  nat_enabled = true;
  inter_peer_routing = true;
  enabled = true;
}

abbrev store : NetworkStore
store = record {
  list_networks = ok (office ∷ []);
  list_peers_by_network_id = λ n. ok (peer_b ∷ []);
}

-- What is seen of a peer of an interface that is not in the database.
abbrev elsewhere : Peers → Option (List Net)
elsewhere w = w (bytes "wg9") key_a

elsewhere-Quiet : Quiet peers_host (Option (List Net)) elsewhere (bytes "wg0")
unfolding str_eq
elsewhere-Quiet = record {
  created = λ w. refl;
  deleted = λ w. refl;
  configured = λ c w. set_peers-other (bytes "wg0") (bytes "wg9") key_a c.peers w refl;
  upped = λ w. refl;
  downed = λ w. refl;
  addressed = λ a w. refl;
}

reconcile-unmanaged_example : elsewhere (reconcile peers_host store both).1 ≡ elsewhere both
reconcile-unmanaged_example =
    reconcile-unmanaged peers_host (Option (List Net)) elsewhere store (office ∷ []) refl
      (elsewhere-Quiet, tt) both
