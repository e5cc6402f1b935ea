-- ===== src/Wg/Manager/Steps.antt =====
-- What the methods of the manager (internal/wg/manager.go) leave alone: a view of the world that no
-- call of the host on an interface changes is not changed by a method on that interface.
use wgpilot.Base.{◌≡◌, refl, ◌∙◌, false, Option, List, [], ◌∷◌, Str, arith}
use wgpilot.Wg.Types.{WgPeerInfo, DeviceConfig, NetworkConfig, PeerConfig, Outcome, ok, err, Host}
use wgpilot.Wg.Manager.{
  Error, link_add, assign_address, configure, bring_up, remove_peers, bring_down, delete_failed, M,
  ◌>>=◌, call, or_delete, create_interface, delete_interface, parse_net, get_device_info,
  remove_all, key_and_port, server_address, peers_only, add_peer, send_peer, build_peer_config,
}

-- No call of the host on the interface `name` changes the view.
pub record Quiet (H : Host) (V : Type 0) (view : H.World → V) (name : Str) : Type 0 where
  pub created : (w : H.World) → view (H.create_wireguard_link name w).1 ≡ view w
  pub deleted : (w : H.World) → view (H.delete_link name w).1 ≡ view w
  pub configured : (c : DeviceConfig) (w : H.World) → view (H.configure_device name c w).1 ≡ view w
  pub upped : (w : H.World) → view (H.set_link_up name w).1 ≡ view w
  pub downed : (w : H.World) → view (H.set_link_down name w).1 ≡ view w
  pub addressed : (a : Str) (w : H.World) → view (H.add_address name a w).1 ≡ view w

module _ (H : Host) (V : Type 0) (view : H.World → V) where
  record Keeps {A : Type 0} (m : M H A) : Type 0 where
    keeps : (w : H.World) → view (m w).1 ≡ view w

  call-Keeps :
      (wrap : Str → Error) (op : H.World → Option Str × H.World)
      → ((w : H.World) → view (op w).1 ≡ view w)
      → Keeps (call H wrap op)
  call-Keeps wrap op h = record { keeps = λ w. ground (arith, h w) }

  bind-Keeps :
      {A B : Type 0} (m : M H A) (f : A → M H B)
      → Keeps m
      → ((a : A) → Keeps (f a))
      → Keeps (◌>>=◌ H m f)
  bind-Keeps {A = A} {B = B} m f hm hf = record {
    keeps = λ w. after w (m w).0 (m w).1 (hm.keeps w);
  }
    where
      after :
          (w : H.World) (r : Outcome Error A) (w' : H.World)
          → view w' ≡ view w
          → let v : Outcome Error B × H.World = elim r [ ok a ↦ f a w' | err e ↦ (err e, w') ] in
            view v.1 ≡ view w
      after w (ok a) w' h = (hf a).keeps w' ∙ h
      after w (err e) w' h = h

  module _ (name : Str) (Q : Quiet H V view name) where
    or_delete-Keeps : {A : Type 0} (m : M H A) → Keeps m → Keeps (or_delete H name m)
    or_delete-Keeps m s = record { keeps = λ w. ground (arith, s.keeps w, Q.deleted (m w).1) }

    parse_net-Keeps : (s : Str) → Keeps (parse_net H s)
    unfolding parse_net
    parse_net-Keeps s = record { keeps = λ w. ground arith }

    get_device_info-Keeps : Keeps (get_device_info H name)
    unfolding get_device_info
    get_device_info-Keeps = record { keeps = λ w. ground arith }

    remove_all-Keeps : (ps : List WgPeerInfo) → Keeps (remove_all H name ps)
    unfolding remove_all
    remove_all-Keeps [] = record { keeps = λ w. refl }
    remove_all-Keeps (p ∷ ps) = record {
      keeps = λ w.
          (call-Keeps remove_peers (H.configure_device name _) (λ v. Q.configured _ v)).keeps w;
    }

    send_peer-Keeps : (r : Outcome Error _) → Keeps (send_peer H name r)
    unfolding send_peer
    send_peer-Keeps (err e) = record { keeps = λ w. refl }
    send_peer-Keeps (ok cfg) = record {
      keeps = λ w.
          (call-Keeps configure (H.configure_device name (peers_only (cfg ∷ [])))
              (λ v. Q.configured (peers_only (cfg ∷ [])) v)).keeps
            w;
    }

    pub configure-keeps :
        (c : DeviceConfig) (w : H.World)
        → view (call H configure (H.configure_device name c) w).1 ≡ view w
    configure-keeps c w =
        (call-Keeps configure (H.configure_device name c) (λ v. Q.configured c v)).keeps w

    pub add_peer-keeps : (p : PeerConfig) (w : H.World) → view (add_peer H name p w).1 ≡ view w
    unfolding add_peer
    add_peer-keeps p w = (send_peer-Keeps (build_peer_config H p false)).keeps w

    pub delete_interface-keeps : (w : H.World) → view (delete_interface H name w).1 ≡ view w
    unfolding delete_interface
    delete_interface-keeps w =
        (bind-Keeps _ _ get_device_info-Keeps (λ dev.
            bind-Keeps _ _ (remove_all-Keeps dev.peers) (λ _.
              bind-Keeps _ _ (call-Keeps bring_down (H.set_link_down name) (λ v. Q.downed v))
                (λ _. call-Keeps delete_failed (H.delete_link name) (λ v. Q.deleted v))))).keeps
          w

  pub create_interface-keeps :
      (n : NetworkConfig)
      → Quiet H V view n.interface
      → (w : H.World) → view (create_interface H n w).1 ≡ view w
  unfolding create_interface
  create_interface-keeps n Q w =
      let name = n.interface in
      (bind-Keeps _ _ (call-Keeps link_add (H.create_wireguard_link name) (λ v. Q.created v)) (λ _.
          bind-Keeps _ _ (or_delete-Keeps name Q _ (parse_net-Keeps name Q n.subnet)) (λ net.
            let address = server_address H.text net in
            bind-Keeps _ _
              (or_delete-Keeps name Q _ (
                call-Keeps assign_address (H.add_address name address)
                  (λ v. Q.addressed address v)))
              (λ _.
                bind-Keeps _ _
                  (or_delete-Keeps name Q _ (
                    call-Keeps configure (H.configure_device name (key_and_port H n))
                      (λ v. Q.configured (key_and_port H n) v)))
                  (λ _.
                    or_delete-Keeps name Q _
                      (call-Keeps bring_up (H.set_link_up name) (λ v. Q.upped v))))))).keeps
        w
