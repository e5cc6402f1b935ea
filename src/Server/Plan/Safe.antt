-- ===== src/Server/Plan/Safe.antt =====
-- Each handler of internal/server/routes_networks.go keeps the plan of the networks.
use wgpilot.Base.{
  ℕ, ◌≤◌, ◌≡◌, refl, subst, ◌∙◌, Bool, true, false, Option, none, some, List, [], Str, arith,
  Member,
}
use wgpilot.Wg.Types.{Outcome}
use wgpilot.Server.Types.{Network, ip4, Reply, Env}
use wgpilot.Server.Handlers.{done, nothing}
use wgpilot.Server.Validate.{
  CreateNetworkRequest, UpdateNetworkRequest, validate_create_network, is_valid_private_cidr,
}
use wgpilot.Server.Validate.Private.{accepted_cidr}
use wgpilot.Server.Names.{next_interface_name, next_interface_name_fresh}
use wgpilot.Server.Networks.{
  conflicts, port_taken, new_network, drop_interface, build_network, handle_create_network,
  toggle_nat, toggle_forwarding, renamed, handle_update_network,
}
use wgpilot.Server.Networks.Lifecycle.{
  handle_delete_network, enable_network, handle_enable_network, disable_network,
  handle_disable_network,
}
use wgpilot.Server.Plan.{claim, no_conflict}
use wgpilot.Server.Requests.{
  NetworkRequest, create, update, delete, enable, disable, network_handler,
}
use wgpilot.Server.Steps.{done-Quiet, decoded-Quiet, when-Quiet}
use wgpilot.Server.Keeps.{
  Safe, Keeps, bind-Keeps, pass_then, either_Keeps, weaken, given, pass_end, reject_invalid-Keeps,
  reject-Keeps,
}
use wgpilot.Server.Stored.{Stored}
use wgpilot.Server.Plan.Rows.{
  InPlan, query_networks-Keeps, find_network-Keeps, update-Keeps, delete-Keeps, CanJoin,
  store_network-Keeps,
}
use wgpilot.Server.Quiet.{
  draw_keys-Quiet, fire, wire, wire_quietly, close_rules-Quiet, open_rules-Quiet,
  remove_bridges-Quiet, add_peers-Quiet, fetch_network-Quiet, fetch_or-Quiet, drop_interface_quiet,
}

module _ (E : Env) (S : Stored E.database) where
  delete-Safe : (path : Outcome Reply ℕ) → Safe E (InPlan E S) (handle_delete_network path)
  unfolding handle_delete_network
  delete-Safe path = pass_then E (InPlan E S) (decoded-Quiet E path) (λ id.
      bind-Keeps E (InPlan E S) (find_network-Keeps E S id) (λ n.
        pass_then E (InPlan E S) (when-Quiet E E.has_firewall _ (remove_bridges-Quiet E n)) (λ _.
          pass_then E (InPlan E S) (close_rules-Quiet E n) (λ _.
            pass_then E (InPlan E S) (wire_quietly E _) (λ _.
              bind-Keeps E (InPlan E S) (delete-Keeps E S id _)
                (λ _. pass_end E (InPlan E S) (done-Quiet E _)))))))

  enable_network-Keeps :
      (n : Network)
      → Keeps E (InPlan E S) (λ d. Member n (S.rows d)) (enable_network n) (λ a d. Unit)
  unfolding enable_network
  enable_network-Keeps n = pass_then E (InPlan E S) (wire E _ _) (λ _.
      pass_then E (InPlan E S) (when-Quiet E E.has_wireguard _ (add_peers-Quiet E n)) (λ _.
        pass_then E (InPlan E S) (open_rules-Quiet E n) (λ _.
          bind-Keeps E (InPlan E S) (update-Keeps E S _ n _ refl) (λ _.
            pass_then E (InPlan E S) (fetch_or-Quiet E _)
              (λ _. pass_end E (InPlan E S) (done-Quiet E _))))))

  disable_network-Keeps :
      (n : Network)
      → Keeps E (InPlan E S) (λ d. Member n (S.rows d)) (disable_network n) (λ a d. Unit)
  unfolding disable_network
  disable_network-Keeps n = pass_then E (InPlan E S) (close_rules-Quiet E n) (λ _.
      pass_then E (InPlan E S) (wire_quietly E _) (λ _.
        bind-Keeps E (InPlan E S) (update-Keeps E S _ n _ refl) (λ _.
          pass_then E (InPlan E S) (fetch_or-Quiet E _)
            (λ _. pass_end E (InPlan E S) (done-Quiet E _)))))

  enable-Safe : (path : Outcome Reply ℕ) → Safe E (InPlan E S) (handle_enable_network path)
  unfolding handle_enable_network
  enable-Safe path = pass_then E (InPlan E S) (decoded-Quiet E path) (λ id.
      bind-Keeps E (InPlan E S) (find_network-Keeps E S id) (λ n.
        either_Keeps E (InPlan E S) n.enabled (pass_end E (InPlan E S) (done-Quiet E _))
          (enable_network-Keeps n)))

  disable-Safe : (path : Outcome Reply ℕ) → Safe E (InPlan E S) (handle_disable_network path)
  unfolding handle_disable_network
  disable-Safe path = pass_then E (InPlan E S) (decoded-Quiet E path) (λ id.
      bind-Keeps E (InPlan E S) (find_network-Keeps E S id) (λ n.
        either_Keeps E (InPlan E S) n.enabled (disable_network-Keeps n)
          (pass_end E (InPlan E S) (done-Quiet E _))))

  keep_claim :
      {Pre : E.database.Db → Type 0} (m n : Network)
      → claim m ≡ claim n
      → Keeps E (InPlan E S) Pre (done m) (λ k d. Pre d × (claim k ≡ claim n))
  unfolding done
  keep_claim m n e = record { keeps = λ s plan pre. (plan, (pre, e)) }

  toggle_nat-Keeps :
      {Pre : E.database.Db → Type 0} (b : Option Bool) (n : Network)
      → Keeps E (InPlan E S) Pre (toggle_nat E b n) (λ m d. Pre d × (claim m ≡ claim n))
  unfolding toggle_nat
  toggle_nat-Keeps none n = keep_claim n n refl
  toggle_nat-Keeps (some b) n =
      either_Keeps E (InPlan E S) _
        (pass_then E (InPlan E S) (fire E _ nothing _ (λ s. refl)) (λ _. keep_claim _ n refl))
        (keep_claim n n refl)

  toggle_forwarding-Keeps :
      {Pre : E.database.Db → Type 0} (b : Option Bool) (n : Network)
      → Keeps E (InPlan E S) Pre (toggle_forwarding E b n) (λ m d. Pre d × (claim m ≡ claim n))
  unfolding toggle_forwarding
  toggle_forwarding-Keeps none n = keep_claim n n refl
  toggle_forwarding-Keeps (some b) n =
      either_Keeps E (InPlan E S) _
        (pass_then E (InPlan E S) (fire E _ nothing _ (λ s. refl)) (λ _. keep_claim _ n refl))
        (keep_claim n n refl)

  update-Safe :
      (path : Outcome Reply ℕ) (body : Outcome Reply UpdateNetworkRequest)
      → Safe E (InPlan E S) (handle_update_network E path body)
  unfolding handle_update_network
  update-Safe path body = pass_then E (InPlan E S) (decoded-Quiet E path) (λ id.
      pass_then E (InPlan E S) (decoded-Quiet E body) (λ req.
        bind-Keeps E (InPlan E S) (reject_invalid-Keeps E (InPlan E S) _) (λ _.
          bind-Keeps E (InPlan E S) (find_network-Keeps E S id) (λ old.
            bind-Keeps E (InPlan E S) (toggle_nat-Keeps req.nat_enabled (renamed E req old)) (λ n.
              given E (InPlan E S) (λ en.
                bind-Keeps E (InPlan E S) (toggle_forwarding-Keeps req.inter_peer_routing n) (λ m.
                  given E (InPlan E S) (λ em.
                    bind-Keeps E (InPlan E S) (update-Keeps E S m old _ (em ∙ en)) (λ _.
                      pass_then E (InPlan E S) (fetch_network-Quiet E id)
                        (λ _. pass_end E (InPlan E S) (done-Quiet E _)))))))))))

  build_network-Keeps :
      (n : Network)
      → Keeps E (InPlan E S) (λ d. CanJoin E S n (S.rows d)) (build_network E n) (λ a d. Unit)
  unfolding build_network
  build_network-Keeps n =
      let undo = drop_interface_quiet E n.interface in
      pass_then E (InPlan E S) (wire E _ _) (λ _.
        pass_then E (InPlan E S) (fire E _ (drop_interface E n.interface) _ undo) (λ _.
          pass_then E (InPlan E S)
            (when-Quiet E n.nat_enabled _ (fire E _ (drop_interface E n.interface) _ undo))
            (λ _.
              pass_then E (InPlan E S)
                (when-Quiet E n.inter_peer_routing _
                  (fire E _ (drop_interface E n.interface) _ undo))
                (λ _. bind-Keeps E (InPlan E S) (store_network-Keeps E S n) (λ id.
                  pass_then E (InPlan E S) (fetch_network-Quiet E id)
                    (λ _. pass_end E (InPlan E S) (done-Quiet E _)))))))

  valid_request :
      (req : CreateNetworkRequest)
      → validate_create_network E.parsers req ≡ []
      → (is_valid_private_cidr E.parsers req.subnet ≡ true)
        × (1024 ≤ req.listen_port)
        × (req.listen_port ≤ 65535)
  unfolding validate_create_network
  valid_request req h = ground arith

  -- What the checks of handleCreateNetwork have found out.
  new_network-CanJoin :
      (req : CreateNetworkRequest) (keys : Str × Str) (ns : List Network)
      → validate_create_network E.parsers req ≡ []
      → conflicts E.parsers req.subnet ns ≡ false
      → port_taken req.listen_port ns ≡ false
      → CanJoin E S (new_network req (next_interface_name ns) keys) ns
  unfolding conflicts
  new_network-CanJoin req keys ns valid free port =
      let (private, low, high) = valid_request req valid in
      let (a, n, parsed, _, _) = accepted_cidr E.parsers req.subnet private in
      record {
        fits = record { private = private; low = low; high = high };
        disjoint = no_conflict E.parsers req.subnet (ip4 a) n ns parsed (ground arith);
        interface = next_interface_name_fresh ns;
        port = port;
      }

  create-Safe :
      (body : Outcome Reply CreateNetworkRequest)
      → Safe E (InPlan E S) (handle_create_network E body)
  unfolding handle_create_network
  create-Safe body = pass_then E (InPlan E S) (decoded-Quiet E body) (λ req.
      bind-Keeps E (InPlan E S) (reject_invalid-Keeps E (InPlan E S) _) (λ _.
        given E (InPlan E S) (λ valid. bind-Keeps E (InPlan E S) (query_networks-Keeps E S) (λ ns.
          bind-Keeps E (InPlan E S) (reject-Keeps E (InPlan E S) _ _) (λ _.
            given E (InPlan E S) (λ free.
              bind-Keeps E (InPlan E S) (reject-Keeps E (InPlan E S) _ _) (λ _.
                given E (InPlan E S) (λ port. pass_then E (InPlan E S) (draw_keys-Quiet E) (λ keys.
                  weaken E (InPlan E S)
                    (λ d (u, here).
                      subst (CanJoin E S _) here (new_network-CanJoin req keys ns valid free port))
                    (build_network-Keeps _))))))))))

  pub plan_network_handler : (r : NetworkRequest) → Safe E (InPlan E S) (network_handler E r)
  unfolding network_handler
  plan_network_handler (create body) = create-Safe body
  plan_network_handler (update path body) = update-Safe path body
  plan_network_handler (delete path) = delete-Safe path
  plan_network_handler (enable path) = enable-Safe path
  plan_network_handler (disable path) = disable-Safe path
