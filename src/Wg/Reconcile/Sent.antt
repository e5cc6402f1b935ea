-- ===== src/Wg/Reconcile/Sent.antt =====
-- What syncPeers (internal/wg/reconcile.go) sends for one peer of the database, and what that
-- leaves of the other peers.
use wgpilot.Base.{
  ◌≡◌, refl, sym, Bool, true, false, Option, none, some, List, Str, arith, if◌then◌else◌,
  Bool-cases, inl, inr, subst,
}
use wgpilot.Base.Dict.{Dict, lookup}
use wgpilot.Wg.Types.{WgPeerConfig, WgPeerInfo, PeerConfig, Host}
use wgpilot.Wg.Nets.{Net, parse_allowed_ips, allowed_ips_match}
use wgpilot.Wg.Manager.{remove_config}
use wgpilot.Wg.Manager.Peers.{add_config, Apart, sent, call-sent, add_peer-sent}
use wgpilot.Wg.Reconcile.{update_config, remove_peer_locked, update_peer_locked, sync_peer}

module _ (H : Host) where
  -- The configuration that is sent, if any.
  unfoldable pub act : Bool → PeerConfig → List Net → Option WgPeerInfo → Option WgPeerConfig
  act false p nets none = none
  act false p nets (some q) = some (remove_config p.public_key)
  act true p nets none = some (add_config p nets)
  act true p nets (some q) =
      if allowed_ips_match H.text p.allowed_ips q.allowed_ips
      then none
      else some (update_config p nets)

  abbrev pub send : Str → Option WgPeerConfig → H.World → H.World
  send i none w = w
  send i (some c) w = sent H i c w

  pub remove-sent :
      (i key : Str) (w : H.World)
      → (remove_peer_locked H i key w).1 ≡ sent H i (remove_config key) w
  unfolding remove_peer_locked
  remove-sent i key w = call-sent H i (remove_config key) w

  update-sent :
      (i : Str) (p : PeerConfig) (w : H.World) (nets : List Net)
      → parse_allowed_ips H.text p.allowed_ips ≡ some nets
      → (update_peer_locked H i p w).1 ≡ sent H i (update_config p nets) w
  unfolding update_peer_locked
  update-sent i p w nets e = rw (e, update_peer_locked) (call-sent H i (update_config p nets) w)

  pub sync_peer-act :
      (i : Str) (known : Dict WgPeerInfo) (p : PeerConfig) (w : H.World) (nets : List Net)
      → parse_allowed_ips H.text p.allowed_ips ≡ some nets
      → sync_peer H i known p w ≡ send i (act p.enabled p nets (lookup p.public_key known)) w
  unfolding sync_peer act
  sync_peer-act i known p w nets e =
      ground (
        arith,
        remove-sent i p.public_key w,
        update-sent i p w nets e,
        add_peer-sent H i p w nets e,
      )

  -- A configuration that may be sent for a peer: to remove it, to add it, or to update it.
  pub data Sendable (p : PeerConfig) (nets : List Net) : WgPeerConfig → Type 0 where
    removal : Sendable p nets (remove_config p.public_key)
    addition : p.enabled ≡ true → Sendable p nets (add_config p nets)
    change : p.enabled ≡ true → Sendable p nets (update_config p nets)

  -- What holds where nothing is sent, and after every configuration that may be sent, holds after
  -- the peer's turn.
  pub sync_peer_cases {ℓ} :
      (Q : H.World → Type ℓ) (i : Str) (known : Dict WgPeerInfo) (p : PeerConfig) (w : H.World)
      (nets : List Net)
      → parse_allowed_ips H.text p.allowed_ips ≡ some nets
      → Q w
      → ((c : WgPeerConfig) → Sendable p nets c → Q (sent H i c w))
      → Q (sync_peer H i known p w)
  unfolding act
  sync_peer_cases Q i known p w nets e idle some_sent =
      subst Q (sym (sync_peer-act i known p w nets e))
        (go p.enabled refl (lookup p.public_key known))
    where
      go :
          (b : Bool)
          → p.enabled ≡ b
          → (found : Option WgPeerInfo) → Q (send i (act b p nets found) w)
      go false h none = idle
      go false h (some q) = some_sent _ removal
      go true h none = some_sent _ (addition h)
      go true h (some q) =
          elim (Bool-cases (allowed_ips_match H.text p.allowed_ips q.allowed_ips)) [
            | inl same ↦ rw same idle
            | inr other ↦ rw other (some_sent _ (change h))
          ]

  pub Sendable-key :
      (p : PeerConfig) (nets : List Net) (c : WgPeerConfig)
      → Sendable p nets c
      → c.public_key ≡ p.public_key
  Sendable-key p nets _ removal = refl
  Sendable-key p nets _ (addition h) = refl
  Sendable-key p nets _ (change h) = refl

  -- It takes networks from other peers only if the peer is enabled, and only its own.
  pub Sendable-Apart :
      (p : PeerConfig) (nets ips : List Net) (c : WgPeerConfig)
      → Sendable p nets c
      → (p.enabled ≡ true → Apart H.text nets ips)
      → Apart H.text c.allowed_ips ips
  Sendable-Apart p nets ips _ removal h = λ a m. absurd m
  Sendable-Apart p nets ips _ (addition e) h = h e
  Sendable-Apart p nets ips _ (change e) h = h e
