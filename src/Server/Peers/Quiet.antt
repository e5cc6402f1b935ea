-- ===== src/Server/Peers/Quiet.antt =====
-- The steps of the peer handlers that leave the database as it was.
use wgpilot.Base.{arith, ℕ, refl}
use wgpilot.Server.Types.{Peer, Env}
use wgpilot.Server.Peers.Handlers.{
  network_of, fetch_peer, fetch_peer_or, draw_preshared_key, read_now,
}
use wgpilot.Server.Steps.{Quiet}

module _ (E : Env) where
  pub network_of-Quiet : (i : ℕ) → Quiet E (network_of E i)
  unfolding network_of
  network_of-Quiet i = record { quiet = λ s. ground arith }

  pub fetch_peer-Quiet : (i : ℕ) → Quiet E (fetch_peer E i)
  unfolding fetch_peer
  fetch_peer-Quiet i = record { quiet = λ s. ground arith }

  pub fetch_peer_or-Quiet : (i : ℕ) (p : Peer) → Quiet E (fetch_peer_or E i p)
  unfolding fetch_peer_or
  fetch_peer_or-Quiet i p = record { quiet = λ s. ground arith }

  pub draw_preshared_key-Quiet : Quiet E (draw_preshared_key E)
  unfolding draw_preshared_key
  draw_preshared_key-Quiet = record { quiet = λ s. ground arith }

  pub read_now-Quiet : Quiet E (read_now E)
  unfolding read_now
  read_now-Quiet = record { quiet = λ s. refl }
