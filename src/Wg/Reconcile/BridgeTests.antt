-- ===== src/Wg/Reconcile/BridgeTests.antt =====
-- ReconcileBridges over a netlink kernel that accepts every batch.
use wgpilot.Base.{refl, subst, true, false, List, [], ◌∷◌, inl, inr, arith}
use wgpilot.Wg.Types.{BridgeConfig, ok}
use wgpilot.Wg.Reconcile.{reconcile_bridges}
use wgpilot.Wg.Reconcile.Bridges.{bridged, PlainBridges, Kept, reconcile_bridges-bridged}
use wgpilot.Nft.Rules.{a_to_b}
use wgpilot.Nft.Rules.Keys.{NoColon}
use wgpilot.Nft.Netlink.Batch.{wanted}
use wgpilot.Nft.Netlink.Tests.{open_netlink, open_loads}
use wgpilot.Nft.Manager.{State, add_network_bridge}
use wgpilot.Nft.Manager.Sync.{nft_applier}
use wgpilot.Nft.Manager.View.{Agrees, view}
use wgpilot.Nft.Manager.Tests.{
  in_order, open-AcceptsAll, unopened, empty-IsTable, wg0, wg1, no_rules,
}

abbrev bridges : List BridgeConfig
bridges =
    record { id = 1; interface_a = wg0; interface_b = wg1; direction = a_to_b; enabled = true }
    ∷ record { id = 2; interface_a = wg1; interface_b = wg1; direction = []; enabled = true }
    ∷ record { id = 3; interface_a = wg0; interface_b = wg0; direction = a_to_b; enabled = false }
    ∷ []

bridges-PlainBridges : PlainBridges bridges
bridges-PlainBridges b (inl e) =
    subst (λ (c : BridgeConfig). NoColon c.interface_a × NoColon c.interface_b) e
      (omega arith, omega arith)
bridges-PlainBridges b (inr (inl e)) =
    subst (λ (c : BridgeConfig). NoColon c.interface_a × NoColon c.interface_b) e
      (omega arith, omega arith)
bridges-PlainBridges b (inr (inr (inl e))) =
    subst (λ (c : BridgeConfig). NoColon c.interface_a × NoColon c.interface_b) e
      (omega arith, omega arith)
bridges-PlainBridges b (inr (inr (inr m))) = absurd m

abbrev reconciled : State (nft_applier open_netlink)
reconciled =
    (reconcile_bridges (add_network_bridge (nft_applier open_netlink) in_order) (ok bridges)
      unopened).1

reconcile_bridges-bridged_example :
    Agrees (view reconciled.rules) (bridged bridges (view []))
    × Kept open_netlink open_loads in_order reconciled
reconcile_bridges-bridged_example =
    reconcile_bridges-bridged open_netlink open_loads in_order bridges unopened open-AcceptsAll
      bridges-PlainBridges (empty-IsTable, inl ([], unfold wanted in refl, no_rules))
