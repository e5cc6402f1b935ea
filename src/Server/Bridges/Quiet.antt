-- ===== src/Server/Bridges/Quiet.antt =====
-- The steps of the bridge handlers that leave the database as it was.
use wgpilot.Base.{ℕ, refl, Option, none, some, arith}
use wgpilot.Server.Types.{Network, Bridge, Env}
use wgpilot.Server.Bridges.{
  find_bridge, fetch_bridge, fetch_bridge_or, end_network, turn, redirect, drop_rules, drop_bridge,
}
use wgpilot.Server.Steps.{Quiet, bind-Quiet, done-Quiet}
use wgpilot.Server.Quiet.{fire, fire_quietly}
use wgpilot.Server.Handlers.{nothing}

module _ (E : Env) where
  pub find_bridge-Quiet : (i : ℕ) → Quiet E (find_bridge E i)
  unfolding find_bridge
  find_bridge-Quiet i = record { quiet = λ s. ground arith }

  pub fetch_bridge-Quiet : (i : ℕ) → Quiet E (fetch_bridge E i)
  unfolding fetch_bridge
  fetch_bridge-Quiet i = record { quiet = λ s. ground arith }

  pub fetch_bridge_or-Quiet : (b : Bridge) → Quiet E (fetch_bridge_or E b)
  unfolding fetch_bridge_or
  fetch_bridge_or-Quiet b = record { quiet = λ s. ground arith }

  end_network-Quiet : (i : ℕ) → Quiet E (end_network E i)
  unfolding end_network
  end_network-Quiet i = record { quiet = λ s. ground arith }

  turn-Quiet : (new : Bridge) (a b : Option Network) → Quiet E (turn E new a b)
  unfolding turn
  turn-Quiet new none b = done-Quiet E tt
  turn-Quiet new (some a) none = done-Quiet E tt
  turn-Quiet new (some a) (some b) =
      bind-Quiet E _ _ (fire_quietly E _) (λ _. fire E _ nothing _ (λ s. refl))

  pub redirect-Quiet : (new : Bridge) → Quiet E (redirect E new)
  unfolding redirect
  redirect-Quiet new =
      bind-Quiet E _ _ (end_network-Quiet _)
        (λ a. bind-Quiet E _ _ (end_network-Quiet _) (λ b. turn-Quiet new a b))

  drop_rules-Quiet : (a b : Option Network) → Quiet E (drop_rules E a b)
  unfolding drop_rules
  drop_rules-Quiet none b = done-Quiet E tt
  drop_rules-Quiet (some a) none = done-Quiet E tt
  drop_rules-Quiet (some a) (some b) = fire_quietly E _

  pub drop_bridge-Quiet : (b : Bridge) → Quiet E (drop_bridge E b)
  unfolding drop_bridge
  drop_bridge-Quiet b =
      bind-Quiet E _ _ (end_network-Quiet _)
        (λ x. bind-Quiet E _ _ (end_network-Quiet _) (λ y. drop_rules-Quiet x y))
