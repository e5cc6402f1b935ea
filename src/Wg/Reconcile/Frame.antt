-- ===== src/Wg/Reconcile/Frame.antt =====
-- What the reconciliation (internal/wg/reconcile.go) leaves alone.
use wgpilot.Base.{
  Bool, ◌⊎◌, ◌≡◌, refl, ◌∙◌, true, false, Option, none, some, List, [], ◌∷◌, Str, All, arith,
  Option-cases, inl, inr,
}
use wgpilot.Base.Dict.{Dict, lookup}
use wgpilot.Wg.Types.{
  WgPeerInfo, DeviceInfo, NetworkConfig, PeerConfig, Outcome, ok, err, Host, NetworkStore,
}
use wgpilot.Wg.Nets.{parse_allowed_ips}
use wgpilot.Wg.Manager.{create_interface, delete_interface, peers_only, remove_config}
use wgpilot.Wg.Manager.Steps.{
  Quiet, configure-keeps, add_peer-keeps, delete_interface-keeps, create_interface-keeps,
}
use wgpilot.Wg.Reconcile.{
  update_config, remove_peer_locked, update_peer_locked, sync_peer, sync_each, remove_orphan,
  remove_orphans, sync_peers, sync_network, recreate, reconcile_network, reconcile_each, reconcile,
  kernel_peers, db_peer_keys, device_map,
}

module _ (H : Host) (V : Type 0) (view : H.World → V) where
  module _ (name : Str) (Q : Quiet H V view name) where
    remove_peer_locked-keeps :
        (key : Str) (w : H.World) → view (remove_peer_locked H name key w).1 ≡ view w
    unfolding remove_peer_locked
    remove_peer_locked-keeps key w =
        configure-keeps H V view name Q (peers_only (remove_config key ∷ [])) w

    update_peer_locked-keeps :
        (p : PeerConfig) (w : H.World) → view (update_peer_locked H name p w).1 ≡ view w
    unfolding update_peer_locked
    update_peer_locked-keeps p w = elim (Option-cases (parse_allowed_ips H.text p.allowed_ips)) [
      | inl e ↦ rw (e, update_peer_locked) refl
      | inr (nets, e) ↦
          rw (e, update_peer_locked)
            (configure-keeps H V view name Q (peers_only (update_config p nets ∷ [])) w)
    ]

    sync_peer-keeps :
        (known : Dict WgPeerInfo) (p : PeerConfig) (w : H.World)
        → view (sync_peer H name known p w) ≡ view w
    unfolding sync_peer
    sync_peer-keeps known p w = ground (
      arith,
      remove_peer_locked-keeps p.public_key w,
      update_peer_locked-keeps p w,
      add_peer-keeps H V view name Q p w,
    )

    sync_each-keeps :
        (known : Dict WgPeerInfo) (ps : List PeerConfig) (w : H.World)
        → view (sync_each H name known ps w) ≡ view w
    unfolding sync_each
    sync_each-keeps known [] w = refl
    sync_each-keeps known (p ∷ ps) w =
        sync_each-keeps known ps (sync_peer H name known p w) ∙ sync_peer-keeps known p w

    remove_orphans-keeps :
        (keys : Dict _) (qs : List WgPeerInfo) (w : H.World)
        → view (remove_orphans H name keys qs w) ≡ view w
    unfolding remove_orphans remove_orphan
    remove_orphans-keeps keys [] w = refl
    remove_orphans-keeps keys (q ∷ qs) w =
        remove_orphans-keeps keys qs (remove_orphan H name keys q w)
        ∙ ground (arith, remove_peer_locked-keeps q.public_key w)

    sync_peers-keeps :
        (dev : Option DeviceInfo) (ps : List PeerConfig) (w : H.World)
        → view (sync_peers H name dev ps w) ≡ view w
    unfolding sync_peers
    sync_peers-keeps none ps w = sync_each-keeps [] ps w
    sync_peers-keeps (some d) ps w =
        remove_orphans-keeps (db_peer_keys ps []) d.peers
          (sync_each H name (kernel_peers d.peers []) ps w)
        ∙ sync_each-keeps (kernel_peers d.peers []) ps w

  module _ (S : NetworkStore) where
    sync_network-keeps :
        (n : NetworkConfig) (dev : Option DeviceInfo)
        → Quiet H V view n.interface
        → (w : H.World) → view (sync_network H S n dev w) ≡ view w
    unfolding sync_network
    sync_network-keeps n dev Q w = after (S.list_peers_by_network_id n.id)
      where
        after :
            (r : Outcome Str (List PeerConfig))
            → view (elim r [ err e ↦ w | ok ps ↦ sync_peers H n.interface dev ps w ]) ≡ view w
        after (err e) = refl
        after (ok ps) = sync_peers-keeps n.interface Q dev ps w

    recreate-keeps :
        (n : NetworkConfig)
        → Quiet H V view n.interface
        → (w : H.World) → view (recreate H S n w) ≡ view w
    unfolding recreate
    recreate-keeps n Q w =
        let w' = (create_interface H n w).1 in
        ground (arith, create_interface-keeps H V view n Q w, sync_network-keeps n none Q w')

    reconcile_network-keeps :
        (devs : Dict DeviceInfo) (n : NetworkConfig)
        → Quiet H V view n.interface
        → (w : H.World) → view (reconcile_network H S devs n w) ≡ view w
    unfolding reconcile_network
    reconcile_network-keeps devs n Q w = after n.enabled (lookup n.interface devs)
      where
        after :
            (b : Bool) (dev : Option DeviceInfo)
            → view (elim b [
              | false ↦ elim dev [ none ↦ w | some d ↦ (delete_interface H n.interface w).1 ]
              | true ↦ elim dev [ none ↦ recreate H S n w | some d ↦ sync_network H S n (some d) w ]
            ])
              ≡ view w
        after false none = refl
        after false (some d) = delete_interface-keeps H V view n.interface Q w
        after true none = recreate-keeps n Q w
        after true (some d) = sync_network-keeps n (some d) Q w

    reconcile_each-keeps :
        (devs : Dict DeviceInfo) (ns : List NetworkConfig)
        → All (λ (n : NetworkConfig). Quiet H V view n.interface) ns
        → (w : H.World) → view (reconcile_each H S devs ns w) ≡ view w
    unfolding reconcile_each
    reconcile_each-keeps devs [] q w = refl
    reconcile_each-keeps devs (n ∷ ns) (q, qs) w =
        reconcile_each-keeps devs ns qs (reconcile_network H S devs n w)
        ∙ reconcile_network-keeps devs n q w

-- Whatever calls of the host fail, the reconciliation does not change what a view shows, if no call
-- of the host on the interface of a network of the database changes what it shows: an interface
-- that the database does not name stays as it is.
pub reconcile-unmanaged :
    (H : Host) (V : Type 0) (view : H.World → V) (S : NetworkStore) (ns : List NetworkConfig)
    → S.list_networks ≡ ok ns
    → All (λ (n : NetworkConfig). Quiet H V view n.interface) ns
    → (w : H.World) → view (reconcile H S w).1 ≡ view w
unfolding reconcile
reconcile-unmanaged H V view S ns listed q w = elim (devices_cases (H.devices w)) [
  | inl (ds, e) ↦
      rw (listed, e, reconcile) (reconcile_each-keeps H V view S (device_map ds []) ns q w)
  | inr (f, e) ↦ rw (listed, e, reconcile) refl
]
  where
    devices_cases :
        (r : Outcome Str (List DeviceInfo))
        → ((ds : List DeviceInfo) × (r ≡ ok ds)) ⊎ ((f : Str) × (r ≡ err f))
    devices_cases (ok ds) = inl (ds, refl)
    devices_cases (err f) = inr (f, refl)
