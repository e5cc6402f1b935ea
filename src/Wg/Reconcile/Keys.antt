-- ===== src/Wg/Reconcile/Keys.antt =====
-- The keys that the maps of syncPeers (internal/wg/reconcile.go) have.
use wgpilot.Base.{
  ◌≡◌, ◌≢◌, refl, Bool, true, false, Option, none, some, List, [], ◌∷◌, Str, str_eq, str_eq_iff,
  if◌then◌else◌, arith, Member, inl, inr, subst, Bool-cases,
}
use wgpilot.Base.Dict.{Dict, lookup, insert, lookup-insert}
use wgpilot.Wg.Types.{WgPeerInfo, PeerConfig}
use wgpilot.Wg.Nets.{Net}
use wgpilot.Wg.Reconcile.{kernel_peers, db_peer_keys}

-- The peer of the database with that key.
unfoldable pub db_peer : Str → List PeerConfig → Option PeerConfig
db_peer k [] = none
db_peer k (p ∷ ps) = if str_eq p.public_key k then some p else db_peer k ps

-- No key occurs twice in the database.
abbrev pub DistinctKeys : List PeerConfig → Type 0
DistinctKeys [] = Unit
DistinctKeys (p ∷ ps) =
    ((q : PeerConfig) → Member q ps → p.public_key ≢ q.public_key) × DistinctKeys ps

-- Is there a peer with that key on the device?
unfoldable pub has_key : Str → List WgPeerInfo → Bool
has_key k [] = false
has_key k (q ∷ qs) = if str_eq q.public_key k then true else has_key k qs

-- The allowed IPs that the map of the kernel's peers has under a key.
abbrev pub snapshot : Str → Dict WgPeerInfo → Option (List Net)
snapshot k known = elim (lookup k known) [ none ↦ none | some q ↦ some q.allowed_ips ]

pub db_peer-none :
    (k : Str) (ps : List PeerConfig)
    → ((p : PeerConfig) → Member p ps → k ≢ p.public_key)
    → db_peer k ps ≡ none
unfolding db_peer
db_peer-none k [] h = refl
db_peer-none k (p ∷ ps) h =
    let other : k ≢ p.public_key = h p (inl refl) in
    ground (arith, db_peer-none k ps (λ r m. h r (inr m)), str_eq_iff p.public_key k)

pub lookup-db_peer_keys :
    (k : Str) (ps : List PeerConfig) (m : Dict Bool)
    → lookup k (db_peer_keys ps m) ≡ elim (db_peer k ps) [ none ↦ lookup k m | some p ↦ some true ]
unfolding db_peer_keys db_peer
lookup-db_peer_keys k [] m = refl
lookup-db_peer_keys k (p ∷ ps) m = ground (
  arith,
  lookup-db_peer_keys k ps (insert p.public_key true m),
  lookup-insert p.public_key k true m,
)

pub lookup-kernel_peers :
    (k : Str) (qs : List WgPeerInfo) (m : Dict WgPeerInfo)
    → has_key k qs ≡ false
    → lookup k (kernel_peers qs m) ≡ lookup k m
unfolding kernel_peers has_key
lookup-kernel_peers k [] m h = refl
lookup-kernel_peers k (q ∷ qs) m h =
    ground
      (arith, lookup-kernel_peers k qs (insert q.public_key q m), lookup-insert q.public_key k q m)

some_inj : {p q : PeerConfig} → ◌≡◌ {A = Option PeerConfig} (some p) (some q) → p ≡ q
some_inj e = cc

pub db_peer-Member :
    (k : Str) (ps : List PeerConfig) (p : PeerConfig)
    → db_peer k ps ≡ some p
    → Member p ps × (p.public_key ≡ k)
unfolding db_peer
db_peer-Member k [] p h = cc
db_peer-Member k (q ∷ ps) p h = elim (Bool-cases (str_eq q.public_key k)) [
  | inl same ↦
      let e : q ≡ p = some_inj (rw same at h) in
      (inl e, subst (λ (r : PeerConfig). r.public_key ≡ k) e ((str_eq_iff q.public_key k).0 same))
  | inr other ↦ let (m, e) = db_peer-Member k ps p (rw other at h) in (inr m, e)
]

pub db_peer-other :
    (k : Str) (ps : List PeerConfig) (p : PeerConfig)
    → db_peer k ps ≡ none
    → Member p ps
    → str_eq p.public_key k ≡ false
unfolding db_peer
db_peer-other k [] p h m = absurd m
db_peer-other k (q ∷ ps) p h (inl e) =
    subst (λ (r : PeerConfig). str_eq r.public_key k ≡ false) e (ground arith)
db_peer-other k (q ∷ ps) p h (inr m) = db_peer-other k ps p (ground arith) m
