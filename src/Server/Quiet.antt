-- ===== src/Server/Quiet.antt =====
-- The steps of the network handlers that leave the database as it was.
use wgpilot.Base.{ℕ, ◌≡◌, refl, Bool, Option, none, some, List, [], ◌∷◌, Str, arith}
use wgpilot.Wg.Types.{Outcome, ok, err}
use wgpilot.Wg.Manager.{M, delete_interface}
use wgpilot.Nft.Manager.{Op, remove_bridge}
use wgpilot.Server.Types.{Network, Bridge, Peer, Reply, Env, Server}
use wgpilot.Server.Handlers.{
  must, ignore, nothing, firewall, wireguard, find_network, fetch_or, fetch_network,
}
use wgpilot.Server.Networks.{drop_interface, draw_keys, toggle_nat, toggle_forwarding}
use wgpilot.Server.Networks.Lifecycle.{
  other_id, remove_one_bridge, remove_each_bridge, remove_bridges, close_rules, open_rules,
  add_each_peer, add_peers,
}
use wgpilot.Server.Steps.{
  Quiet, either_Quiet, bind-Quiet, done-Quiet, when-Quiet, ignore-Quiet, must-Quiet, firewall_quiet,
  wireguard_quiet,
}

module _ (E : Env) where
  pub fire :
      (op : Op) (undo : Server E → Server E) (r : Reply)
      → ((s : Server E) → (undo s).db ≡ s.db)
      → Quiet E (must (firewall op) undo r)
  fire op undo r h = must-Quiet E (firewall op) undo r (firewall_quiet E op) h

  pub fire_quietly : (op : Op) → Quiet E (ignore (firewall op))
  fire_quietly op = ignore-Quiet E (firewall op) (firewall_quiet E op)

  pub wire : (m : M E.host (Unit {0})) (r : Reply) → Quiet E (must (wireguard m) nothing r)
  wire m r = must-Quiet E (wireguard m) nothing r (wireguard_quiet E m) (λ s. refl)

  pub wire_quietly : (m : M E.host (Unit {0})) → Quiet E (ignore (wireguard m))
  wire_quietly m = ignore-Quiet E (wireguard m) (wireguard_quiet E m)

  pub close_rules-Quiet : (n : Network) → Quiet E (close_rules n)
  unfolding close_rules
  close_rules-Quiet n = bind-Quiet E _ _ (fire_quietly _) (λ _.
      bind-Quiet E _ _ (when-Quiet E n.nat_enabled _ (fire_quietly _))
        (λ _. when-Quiet E n.inter_peer_routing _ (fire_quietly _)))

  pub open_rules-Quiet : (n : Network) → Quiet E (open_rules n)
  unfolding open_rules
  open_rules-Quiet n = bind-Quiet E _ _ (fire_quietly _) (λ _.
      bind-Quiet E _ _ (when-Quiet E n.nat_enabled _ (fire_quietly _))
        (λ _. when-Quiet E n.inter_peer_routing _ (fire_quietly _)))

  remove_one_bridge-Quiet : (n : Network) (b : Bridge) → Quiet E (remove_one_bridge n b)
  unfolding remove_one_bridge
  remove_one_bridge-Quiet n b = record {
    quiet = λ s. after s (E.database.get_network_by_id (other_id n.id b) s.db);
  }
    where
      after :
          (s : Server E) (r : Outcome Str (Option Network))
          → let v : Outcome Reply (Unit {0}) × Server E = elim r [
            | err e ↦ (ok tt, s)
            | ok q ↦ elim q [
              | none ↦ (ok tt, s)
              | some other ↦ ignore (firewall (remove_bridge n.interface other.interface)) s
            ]
          ] in
            v.1.db ≡ s.db
      after s (err e) = refl
      after s (ok none) = refl
      after s (ok (some other)) = (fire_quietly _).quiet s

  remove_each_bridge-Quiet : (n : Network) (bs : List Bridge) → Quiet E (remove_each_bridge n bs)
  unfolding remove_each_bridge
  remove_each_bridge-Quiet n [] = done-Quiet E tt
  remove_each_bridge-Quiet n (b ∷ bs) =
      bind-Quiet E _ _ (remove_one_bridge-Quiet n b) (λ _. remove_each_bridge-Quiet n bs)

  pub remove_bridges-Quiet : (n : Network) → Quiet E (remove_bridges n)
  unfolding remove_bridges
  remove_bridges-Quiet n = record {
    quiet = λ s. after s (E.database.list_bridges_by_network_id n.id s.db);
  }
    where
      after :
          (s : Server E) (r : Outcome Str (List Bridge))
          → let v : Outcome Reply (Unit {0}) × Server E = elim r [
            | err e ↦ (ok tt, s)
            | ok bs ↦ remove_each_bridge n bs s
          ] in
            v.1.db ≡ s.db
      after s (err e) = refl
      after s (ok bs) = (remove_each_bridge-Quiet n bs).quiet s

  add_each_peer-Quiet : (n : Network) (ps : List Peer) → Quiet E (add_each_peer n ps)
  unfolding add_each_peer
  add_each_peer-Quiet n [] = done-Quiet E tt
  add_each_peer-Quiet n (p ∷ ps) =
      bind-Quiet E _ _ (when-Quiet E p.enabled _ (wire_quietly _)) (λ _. add_each_peer-Quiet n ps)

  pub add_peers-Quiet : (n : Network) → Quiet E (add_peers n)
  unfolding add_peers
  add_peers-Quiet n = record {
    quiet = λ s. after s (E.database.list_peers_by_network_id n.id s.db);
  }
    where
      after :
          (s : Server E) (r : Outcome Str (List Peer))
          → let v : Outcome Reply (Unit {0}) × Server E = elim r [
            | err e ↦ (ok tt, s)
            | ok ps ↦ add_each_peer n ps s
          ] in
            v.1.db ≡ s.db
      after s (err e) = refl
      after s (ok ps) = (add_each_peer-Quiet n ps).quiet s

  pub fetch_network-Quiet : (i : ℕ) → Quiet E (fetch_network {E = E} i)
  unfolding fetch_network
  fetch_network-Quiet i = record { quiet = λ s. ground arith }

  pub fetch_or-Quiet : (n : Network) → Quiet E (fetch_or {E = E} n)
  unfolding fetch_or
  fetch_or-Quiet n = record { quiet = λ s. ground arith }

  pub drop_interface_quiet : (name : Str) (s : Server E) → (drop_interface E name s).db ≡ s.db
  unfolding drop_interface
  drop_interface_quiet name s = wireguard_quiet E (delete_interface E.host name) s

  pub find_network-Quiet : (i : ℕ) → Quiet E (find_network i)
  unfolding find_network
  find_network-Quiet i = record { quiet = λ s. ground arith }

  pub draw_keys-Quiet : Quiet E (draw_keys E)
  unfolding draw_keys
  draw_keys-Quiet = record { quiet = λ s. ground arith }

  pub toggle_nat-Quiet : (b : Option Bool) (n : Network) → Quiet E (toggle_nat E b n)
  unfolding toggle_nat
  toggle_nat-Quiet none n = done-Quiet E n
  toggle_nat-Quiet (some b) n =
      either_Quiet E _ (bind-Quiet E _ _ (fire _ nothing _ (λ s. refl)) (λ _. done-Quiet E _))
        (done-Quiet E n)

  pub toggle_forwarding-Quiet : (b : Option Bool) (n : Network) → Quiet E (toggle_forwarding E b n)
  unfolding toggle_forwarding
  toggle_forwarding-Quiet none n = done-Quiet E n
  toggle_forwarding-Quiet (some b) n =
      either_Quiet E _ (bind-Quiet E _ _ (fire _ nothing _ (λ s. refl)) (λ _. done-Quiet E _))
        (done-Quiet E n)
