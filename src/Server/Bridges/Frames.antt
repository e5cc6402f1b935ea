-- ===== src/Server/Bridges/Frames.antt =====
-- The bridge handlers keep an invariant of the database that their changes, made after the checks
-- of the handlers, do not break.
use wgpilot.Base.{ℕ, ◌≡◌, refl, sym, subst, ◌∙◌, ap, false, Str, ◌==◌}
use wgpilot.Wg.Types.{Outcome, ok, err}
use wgpilot.Nft.Manager.{remove_bridge}
use wgpilot.Server.Types.{Network, Bridge, Reply, Env, Server}
use wgpilot.Server.Handlers.{internal_error, firewall, nothing}
use wgpilot.Server.Bridges.{
  CreateBridgeRequest, UpdateBridgeRequest, new_bridge, store_bridge, build_bridge, changed,
  handle_create_bridge, handle_update_bridge, handle_delete_bridge,
}
use wgpilot.Server.Requests.{BridgeRequest, connect, change_bridge, disconnect, bridge_handler}
use wgpilot.Server.Steps.{decoded-Quiet, done-Quiet, when-Quiet, reject-Quiet, firewall_quiet}
use wgpilot.Server.Keeps.{
  Holds, Keeps, Safe, change-Safe, bind-Keeps, pass_then, pass_end, reject-Keeps, query-Keeps,
  given, weaken,
}
use wgpilot.Server.Quiet.{fire, find_network-Quiet}
use wgpilot.Server.Bridges.Quiet.{
  find_bridge-Quiet, fetch_bridge-Quiet, fetch_bridge_or-Quiet, redirect-Quiet, drop_bridge-Quiet,
}

module _ (E : Env) (I : E.database.Db → Type 0) where
  -- No change of the bridges breaks the invariant, if a new one has passed the two checks.
  pub record KeptByBridges : Type 0 where
    pub created :
        (b : Bridge) (d : E.database.Db)
        → (b.network_a_id == b.network_b_id) ≡ false
        → E.database.bridge_exists_between b.network_a_id b.network_b_id d ≡ ok false
        → I d
        → I (E.database.create_bridge b d).1
    pub updated : (b : Bridge) (d : E.database.Db) → I d → I (E.database.update_bridge b d).1
    pub deleted : (i : ℕ) (d : E.database.Db) → I d → I (E.database.delete_bridge i d).1

module _ (E : Env) (I : E.database.Db → Type 0) (K : KeptByBridges E I) where
  abbrev Checks : CreateBridgeRequest → E.database.Db → Type 0
  Checks req d =
      ((req.network_a_id == req.network_b_id) ≡ false)
      × (E.database.bridge_exists_between req.network_a_id req.network_b_id d ≡ ok false)

  store_bridge-Keeps :
      (a b : Network) (req : CreateBridgeRequest)
      → Keeps E I (Checks req) (store_bridge E a b (new_bridge req)) (λ i d. Unit)
  unfolding store_bridge
  store_bridge-Keeps a b req = record {
    keeps = λ s i (differ, free).
        after s (E.database.create_bridge new s.db).0 (E.database.create_bridge new s.db).1
          (K.created new s.db differ free i);
  }
    where
      new : Bridge
      new = new_bridge req

      after :
          (s : Server E) (r : Outcome Str ℕ) (d : E.database.Db)
          → I d
          → let s' : Server E = record s { db = d } in
            let v : Outcome Reply ℕ × Server E = elim r [
              | ok id ↦ (ok id, s')
              | err x ↦
                  (err internal_error, (firewall (remove_bridge a.interface b.interface) s').1)
            ] in
            Holds E I {A = ℕ} (λ a e. Unit) v.0 v.1.db
      after s (ok id) d i = (i, tt)
      after s (err x) d i =
          subst I
            (sym (firewall_quiet E (remove_bridge a.interface b.interface) (record s { db = d }))) i

  build_bridge-Keeps :
      (a b : Network) (req : CreateBridgeRequest)
      → Keeps E I (Checks req) (build_bridge E a b req) (λ r d. Unit)
  unfolding build_bridge
  build_bridge-Keeps a b req = pass_then E I (fire E _ nothing _ (λ s. refl)) (λ _.
      bind-Keeps E I (store_bridge-Keeps a b req)
        (λ id. pass_then E I (fetch_bridge-Quiet E id) (λ _. pass_end E I (done-Quiet E _))))

  create-Safe : (body : Outcome Reply CreateBridgeRequest) → Safe E I (handle_create_bridge E body)
  unfolding handle_create_bridge
  create-Safe body = pass_then E I (decoded-Quiet E body) (λ req.
      pass_then E I (reject-Quiet E _ _) (λ _. bind-Keeps E I (reject-Keeps E I _ _) (λ _.
        given E I (λ differ. pass_then E I (find_network-Quiet E _) (λ a.
          pass_then E I (find_network-Quiet E _) (λ b. bind-Keeps E I (query-Keeps E I _) (λ exists.
            bind-Keeps E I (reject-Keeps E I _ _) (λ _. given E I (λ free.
              weaken E I (λ d (u, found). (differ, found ∙ ap ok free))
                (build_bridge-Keeps a b req))))))))))

  update-Safe :
      (path : Outcome Reply ℕ) (body : Outcome Reply UpdateBridgeRequest)
      → Safe E I (handle_update_bridge E path body)
  unfolding handle_update_bridge
  update-Safe path body = pass_then E I (decoded-Quiet E path) (λ id.
      pass_then E I (find_bridge-Quiet E id) (λ old. pass_then E I (decoded-Quiet E body) (λ req.
        pass_then E I (reject-Quiet E _ _) (λ _.
          pass_then E I
            (when-Quiet E E.has_firewall _ (when-Quiet E _ _ (redirect-Quiet E (changed req old))))
            (λ _. bind-Keeps E I (change-Safe E I _ _ (K.updated (changed req old))) (λ _.
              pass_then E I (fetch_bridge_or-Quiet E _) (λ _. pass_end E I (done-Quiet E _))))))))

  delete-Safe : (path : Outcome Reply ℕ) → Safe E I (handle_delete_bridge E path)
  unfolding handle_delete_bridge
  delete-Safe path = pass_then E I (decoded-Quiet E path) (λ id.
      pass_then E I (find_bridge-Quiet E id) (λ b.
        pass_then E I (when-Quiet E E.has_firewall _ (drop_bridge-Quiet E b)) (λ _.
          bind-Keeps E I (change-Safe E I _ _ (K.deleted id))
            (λ _. pass_end E I (done-Quiet E _)))))

  pub bridge_handler-Safe : (r : BridgeRequest) → Safe E I (bridge_handler E r)
  unfolding bridge_handler
  bridge_handler-Safe (connect body) = create-Safe body
  bridge_handler-Safe (change_bridge path body) = update-Safe path body
  bridge_handler-Safe (disconnect path) = delete-Safe path
