-- ===== src/Server/Plan/Tests.antt =====
-- Requests to a server with a database in memory.
use wgpilot.Base.{List, [], ◌∷◌}
use wgpilot.Wg.Types.{ok}
use wgpilot.Server.Requests.{Request, to_networks, create, disable, serve}
use wgpilot.Server.Example.{example_env, fresh_server, office, home, memory-Stored}
use wgpilot.Server.Plan.{claims, Planned}
use wgpilot.Server.Plan.Histories.{serve-Planned}

-- The second request has the port of the first one.
abbrev requests : List Request
requests =
    to_networks (create (ok office))
    ∷ to_networks (create (ok home))
    ∷ to_networks (disable (ok 1))
    ∷ []

serve-Planned_example :
    Planned example_env.parsers (claims (serve example_env requests fresh_server).db.networks)
unfolding memory-Stored
serve-Planned_example = serve-Planned example_env memory-Stored requests fresh_server tt
