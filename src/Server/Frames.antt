-- ===== src/Server/Frames.antt =====
-- Handlers that keep an invariant of the database since no change that they make breaks it.
use wgpilot.Base.{ℕ, sym, subst, Str}
use wgpilot.Wg.Types.{Outcome, ok, err}
use wgpilot.Server.Types.{Network, Reply, Env, Server}
use wgpilot.Server.Handlers.{internal_error}
use wgpilot.Server.Networks.{
  drop_interface, store_network, build_network, handle_create_network, handle_update_network,
}
use wgpilot.Server.Networks.Lifecycle.{
  enable_network, disable_network, handle_delete_network, handle_enable_network,
  handle_disable_network,
}
use wgpilot.Server.Validate.{CreateNetworkRequest, UpdateNetworkRequest}
use wgpilot.Server.Requests.{
  NetworkRequest, create, update, delete, enable, disable, network_handler,
}
use wgpilot.Server.Steps.{
  decoded-Quiet, done-Quiet, when-Quiet, reject-Quiet, reject_invalid-Quiet, query-Quiet,
}
use wgpilot.Server.Keeps.{Holds, Safe, change-Safe, bind-Keeps, pass_then, pass_end, either_Keeps}
use wgpilot.Server.Quiet.{
  fire, wire, wire_quietly, close_rules-Quiet, open_rules-Quiet, remove_bridges-Quiet,
  add_peers-Quiet, find_network-Quiet, fetch_network-Quiet, fetch_or-Quiet, drop_interface_quiet,
  draw_keys-Quiet, toggle_nat-Quiet, toggle_forwarding-Quiet,
}

module _ (E : Env) (I : E.database.Db → Type 0) where
  -- No change of the networks breaks the invariant.
  pub record KeptByNetworks : Type 0 where
    pub created : (n : Network) (d : E.database.Db) → I d → I (E.database.create_network n d).1
    pub updated : (n : Network) (d : E.database.Db) → I d → I (E.database.update_network n d).1
    pub deleted : (i : ℕ) (d : E.database.Db) → I d → I (E.database.delete_network i d).1

module _ (E : Env) (I : E.database.Db → Type 0) (K : KeptByNetworks E I) where
  store_network-Safe : (n : Network) → Safe E I (store_network E n)
  unfolding store_network
  store_network-Safe n = record {
    keeps = λ s i pre.
        after s (E.database.create_network n s.db).0 (E.database.create_network n s.db).1
          (K.created n s.db i);
  }
    where
      after :
          (s : Server E) (r : Outcome Str ℕ) (d : E.database.Db)
          → I d
          → let s' : Server E = record s { db = d } in
            let v : Outcome Reply ℕ × Server E = elim r [
              | ok id ↦ (ok id, s')
              | err x ↦ (err internal_error, drop_interface E n.interface s')
            ] in
            Holds E I {A = ℕ} (λ a e. Unit) v.0 v.1.db
      after s (ok id) d i = (i, tt)
      after s (err x) d i =
          subst I (sym (drop_interface_quiet E n.interface (record s { db = d }))) i

  build_network-Safe : (n : Network) → Safe E I (build_network E n)
  unfolding build_network
  build_network-Safe n =
      let undo = drop_interface_quiet E n.interface in
      pass_then E I (wire E _ _) (λ _.
        pass_then E I (fire E _ (drop_interface E n.interface) _ undo) (λ _.
          pass_then E I
            (when-Quiet E n.nat_enabled _ (fire E _ (drop_interface E n.interface) _ undo))
            (λ _.
              pass_then E I
                (when-Quiet E n.inter_peer_routing _
                  (fire E _ (drop_interface E n.interface) _ undo))
                (λ _. bind-Keeps E I (store_network-Safe n) (λ id.
                  pass_then E I (fetch_network-Quiet E id) (λ _. pass_end E I (done-Quiet E _)))))))

  create-Safe :
      (body : Outcome Reply CreateNetworkRequest) → Safe E I (handle_create_network E body)
  unfolding handle_create_network
  create-Safe body = pass_then E I (decoded-Quiet E body) (λ req.
      pass_then E I (reject_invalid-Quiet E _) (λ _. pass_then E I (query-Quiet E _) (λ ns.
        pass_then E I (reject-Quiet E _ _) (λ _.
          pass_then E I (reject-Quiet E _ _)
            (λ _. pass_then E I (draw_keys-Quiet E) (λ keys. build_network-Safe _))))))

  update-Safe :
      (path : Outcome Reply ℕ) (body : Outcome Reply UpdateNetworkRequest)
      → Safe E I (handle_update_network E path body)
  unfolding handle_update_network
  update-Safe path body = pass_then E I (decoded-Quiet E path) (λ id.
      pass_then E I (decoded-Quiet E body) (λ req. pass_then E I (reject_invalid-Quiet E _) (λ _.
        pass_then E I (find_network-Quiet E id) (λ old.
          pass_then E I (toggle_nat-Quiet E req.nat_enabled _) (λ n.
            pass_then E I (toggle_forwarding-Quiet E req.inter_peer_routing n) (λ m.
              bind-Keeps E I (change-Safe E I _ _ (K.updated m)) (λ _.
                pass_then E I (fetch_network-Quiet E id) (λ _. pass_end E I (done-Quiet E _)))))))))

  delete-Safe : (path : Outcome Reply ℕ) → Safe E I (handle_delete_network path)
  unfolding handle_delete_network
  delete-Safe path = pass_then E I (decoded-Quiet E path) (λ id.
      pass_then E I (find_network-Quiet E id) (λ n.
        pass_then E I (when-Quiet E E.has_firewall _ (remove_bridges-Quiet E n)) (λ _.
          pass_then E I (close_rules-Quiet E n) (λ _. pass_then E I (wire_quietly E _) (λ _.
            bind-Keeps E I (change-Safe E I _ _ (K.deleted id))
              (λ _. pass_end E I (done-Quiet E _)))))))

  enable_network-Safe : (n : Network) → Safe E I (enable_network n)
  unfolding enable_network
  enable_network-Safe n = pass_then E I (wire E _ _) (λ _.
      pass_then E I (when-Quiet E E.has_wireguard _ (add_peers-Quiet E n)) (λ _.
        pass_then E I (open_rules-Quiet E n) (λ _.
          bind-Keeps E I (change-Safe E I _ _ (K.updated _))
            (λ _. pass_then E I (fetch_or-Quiet E _) (λ _. pass_end E I (done-Quiet E _))))))

  disable_network-Safe : (n : Network) → Safe E I (disable_network n)
  unfolding disable_network
  disable_network-Safe n = pass_then E I (close_rules-Quiet E n) (λ _.
      pass_then E I (wire_quietly E _) (λ _.
        bind-Keeps E I (change-Safe E I _ _ (K.updated _))
          (λ _. pass_then E I (fetch_or-Quiet E _) (λ _. pass_end E I (done-Quiet E _)))))

  enable-Safe : (path : Outcome Reply ℕ) → Safe E I (handle_enable_network path)
  unfolding handle_enable_network
  enable-Safe path = pass_then E I (decoded-Quiet E path) (λ id.
      pass_then E I (find_network-Quiet E id)
        (λ n. either_Keeps E I n.enabled (pass_end E I (done-Quiet E _)) (enable_network-Safe n)))

  disable-Safe : (path : Outcome Reply ℕ) → Safe E I (handle_disable_network path)
  unfolding handle_disable_network
  disable-Safe path = pass_then E I (decoded-Quiet E path) (λ id.
      pass_then E I (find_network-Quiet E id)
        (λ n. either_Keeps E I n.enabled (disable_network-Safe n) (pass_end E I (done-Quiet E _))))

  pub network_handler-Safe : (r : NetworkRequest) → Safe E I (network_handler E r)
  unfolding network_handler
  network_handler-Safe (create body) = create-Safe body
  network_handler-Safe (update path body) = update-Safe path body
  network_handler-Safe (delete path) = delete-Safe path
  network_handler-Safe (enable path) = enable-Safe path
  network_handler-Safe (disable path) = disable-Safe path
