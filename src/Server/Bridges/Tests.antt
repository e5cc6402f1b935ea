-- ===== src/Server/Bridges/Tests.antt =====
-- Requests for bridges to a server with a database in memory.
use wgpilot.Base.{List, [], ◌∷◌, bytes}
use wgpilot.Wg.Types.{ok}
use wgpilot.Server.Bridges.{CreateBridgeRequest}
use wgpilot.Server.Bridges.Pairs.{Paired, serve-Paired}
use wgpilot.Server.Requests.{Request, to_networks, to_bridges, create, connect, serve}
use wgpilot.Server.Example.{example_env, fresh_server, office, home, memory-Stored}

abbrev connection : CreateBridgeRequest
connection = record {
  network_a_id = 1;
  network_b_id = 2;
  direction = bytes "a_to_b";
  allowed_cidrs = [];
}

abbrev requests : List Request
requests =
    to_networks (create (ok office))
    ∷ to_networks (create (ok (record home { listen_port = 51821 })))
    ∷ to_bridges (connect (ok connection))
    ∷ []

serve-Paired_example : Paired (serve example_env requests fresh_server).db.bridges
unfolding memory-Stored
serve-Paired_example = serve-Paired example_env memory-Stored requests fresh_server tt
