-- ===== src/Wg/Manager/Peers.antt =====
-- The peers of an interface after a configuration of one peer (internal/wg/manager.go and
-- reconcile.go).
use wgpilot.Base.{
  ◌≡◌, true, false, Option, none, some, List, [], ◌∷◌, Str, str_eq, if◌then◌else◌, arith, length,
  ◌↔◌, Member,
}
use wgpilot.Base.Distinct.{NoRepeat}
use wgpilot.Wg.Types.{WgPeerConfig, PeerConfig, Host}
use wgpilot.Wg.Nets.{Net, NetText, parse_allowed_ips}
use wgpilot.Wg.Nets.Matching.{texts}
use wgpilot.Wg.Manager.{configure, call, peers_only, build_peer_config, add_peer, send_peer}

-- What a configuration asks of the allowed IPs of the peer that it names (`none` if the peer is
-- not there): a removal leaves no peer, and an update passes over one that is missing.
abbrev pub configured_ips : WgPeerConfig → Option (List Net) → Option (List Net)
configured_ips c old =
    if c.remove
    then none
    else if c.update_only
    then elim old [ none ↦ none | some ips ↦ some c.allowed_ips ]
    else some c.allowed_ips

-- The configuration that AddPeer sends.
abbrev pub add_config : PeerConfig → List Net → WgPeerConfig
add_config p nets = record {
  public_key = p.public_key;
  remove = false;
  update_only = false;
  preshared_key = p.preshared_key;
  endpoint = p.endpoint;
  keepalive_seconds = p.persistent_keepalive;
  replace_allowed_ips = true;
  allowed_ips = nets;
}

module _ (T : NetText) where
  -- The same networks, in whatever order.
  abbrev pub SameNets : List Net → List Net → Type 0
  SameNets nets ips =
      (length nets ≡ length ips) × ((a : Str) → Member a (texts T nets) ↔ Member a (texts T ips))

  abbrev pub Apart : List Net → List Net → Type 0
  Apart xs ys = (a : Str) → Member a (texts T xs) → ¬ (Member a (texts T ys))

  -- The kernel shows what was asked for, in an order of its own.
  abbrev pub Shows : Option (List Net) → Option (List Net) → Type 0
  Shows none v = v ≡ none
  Shows (some nets) v = (ips : List Net) × (v ≡ some ips) × SameNets nets ips

  -- Another peer stays there or away, and loses none but these networks: WireGuard moves an allowed
  -- IP to the peer that was configured last.
  abbrev pub Loses : List Net → Option (List Net) → Option (List Net) → Type 0
  Loses nets old new =
      (old ≡ none → new ≡ none)
      × ((ips : List Net) → old ≡ some ips → (left : List Net) × (new ≡ some left))
      × ((ips : List Net) → old ≡ some ips → Apart nets ips → new ≡ some ips)

module _ (H : Host) where
  -- The kernel after a configuration of one peer, and what it answers.
  abbrev pub sent : Str → WgPeerConfig → H.World → H.World
  sent i c w = (H.configure_device i (peers_only (c ∷ [])) w).1

  abbrev pub reply : Str → WgPeerConfig → H.World → Option Str
  reply i c w = (H.configure_device i (peers_only (c ∷ [])) w).0

-- What the reconciliation relies on, where a call succeeds: `peer` is the allowed IPs of the peer
-- with that key, and `ready` says that the interface is there.
pub record Peered (H : Host) : Type 1 where
  pub peer : Str → Str → H.World → Option (List Net)
  pub ready : Str → H.World → Type 0
  pub stays : (i : Str) (c : WgPeerConfig) (w : H.World) → ready i w → ready i (sent H i c w)
  pub named :
      (i : Str) (c : WgPeerConfig) (w : H.World)
      → (if c.remove then true else c.replace_allowed_ips) ≡ true
      → NoRepeat (texts H.text c.allowed_ips)
      → reply H i c w ≡ none
      → Shows H.text (configured_ips c (peer i c.public_key w)) (peer i c.public_key (sent H i c w))
  pub others :
      (i k : Str) (c : WgPeerConfig) (w : H.World)
      → str_eq c.public_key k ≡ false
      → reply H i c w ≡ none
      → Loses H.text c.allowed_ips (peer i k w) (peer i k (sent H i c w))

module _ (H : Host) where
  -- The kernel accepts this configuration wherever the interface is there.
  abbrev pub Accepts : Peered H → Str → WgPeerConfig → Type 0
  Accepts P i c = (w : H.World) → P.ready i w → reply H i c w ≡ none

  pub call-sent :
      (i : Str) (c : WgPeerConfig) (w : H.World)
      → (call H configure (H.configure_device i (peers_only (c ∷ []))) w).1 ≡ sent H i c w
  call-sent i c w = ground arith

  pub add_peer-sent :
      (i : Str) (p : PeerConfig) (w : H.World) (nets : List Net)
      → parse_allowed_ips H.text p.allowed_ips ≡ some nets
      → (add_peer H i p w).1 ≡ sent H i (add_config p nets) w
  unfolding add_peer send_peer build_peer_config
  add_peer-sent i p w nets e =
      rw (e, add_peer, send_peer, build_peer_config) (call-sent i (add_config p nets) w)
