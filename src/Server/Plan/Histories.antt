-- ===== src/Server/Plan/Histories.antt =====
-- The plan of the networks over any history of requests.
use wgpilot.Base.{◌≡◌, sym, subst, List, [], ◌∷◌}
use wgpilot.Server.Types.{Env, Server}
use wgpilot.Server.Handlers.{answer}
use wgpilot.Server.Requests.{Request, to_networks, to_bridges, to_peers, handler, serve}
use wgpilot.Server.Stored.{Stored}
use wgpilot.Server.Peers.Frames.{peer_handler-Safe}
use wgpilot.Server.Keeps.{Safe, answer_Safe}
use wgpilot.Server.Bridges.Frames.{bridge_handler-Safe}
use wgpilot.Server.Plan.{claims, Planned}
use wgpilot.Server.Plan.Rows.{InPlan}
use wgpilot.Server.Plan.Safe.{plan_network_handler}

module _ (E : Env) (S : Stored E.database) where
  handler-Safe : (r : Request) → Safe E (InPlan E S) (handler E r)
  unfolding handler InPlan
  handler-Safe (to_networks r) = plan_network_handler E S r
  handler-Safe (to_bridges r) =
      let same = λ (d d' : E.database.Db) (e : S.rows d' ≡ S.rows d) (plan : InPlan E S d).
        subst (λ l. Planned E.parsers (claims l)) (sym e) plan in
      bridge_handler-Safe E (InPlan E S)
        (record {
          created = λ b d differ free plan. same d _ (S.rows_linked b d) plan;
          updated = λ b d plan. same d _ (S.rows_relinked b d) plan;
          deleted = λ i d plan. same d _ (S.rows_unlinked i d) plan;
        })
        r
  handler-Safe (to_peers r) =
      let same = λ (d d' : E.database.Db) (e : S.rows d' ≡ S.rows d) (plan : InPlan E S d).
        subst (λ l. Planned E.parsers (claims l)) (sym e) plan in
      peer_handler-Safe E (InPlan E S)
        (record {
          created = λ n req i ip ps keys shared t d l e plan. same d _ (S.rows_add_peer _ d) plan;
          updated = λ i p q d g e f plan. same d _ (S.rows_set_peer q d) plan;
          deleted = λ i d plan. same d _ (S.rows_drop_peer i d) plan;
        })
        r

-- Over a database that stores rows as `Stored` says, whatever requests come, and whatever calls of
-- the database, of the firewall or of WireGuard fail: if the networks of the database have distinct
-- identifiers, interfaces and ports, no IPv4 address is in the subnets of two of them, and each has
-- a private subnet and a port from 1024 to 65535, then so it is after the requests.
pub serve-Planned :
    (E : Env) (S : Stored E.database) (rs : List Request) (s : Server E)
    → Planned E.parsers (claims (S.rows s.db))
    → Planned E.parsers (claims (S.rows (serve E rs s).db))
unfolding serve InPlan
serve-Planned E S [] s plan = plan
serve-Planned E S (r ∷ rs) s plan =
    serve-Planned E S rs (answer (handler E r) s).1
      (answer_Safe E (InPlan E S) (handler E r) s (handler-Safe E S r) plan)
