-- ===== src/Wg/Reconcile/Bridges.antt =====
-- ReconcileBridges (internal/wg/reconcile.go) through the firewall manager
-- (internal/nft/manager.go) and its applier (internal/nft/applier.go).
use wgpilot.Base.{
  ◌≡◌, refl, sym, subst, ◌∙◌, ap, Bool, true, false, ◌&&◌, if◌then◌else◌, Option, some, List, [],
  ◌∷◌, Str, Member, inl, inr, Bool-cases, arith,
}
use wgpilot.Wg.Types.{BridgeConfig, ok}
use wgpilot.Wg.Reconcile.{apply_bridge, apply_bridges, reconcile_bridges}
use wgpilot.Nft.Rules.{valid_direction}
use wgpilot.Nft.Rules.Keys.{NoColon, same_pair}
use wgpilot.Nft.Netlink.{Netlink}
use wgpilot.Nft.Netlink.Tables.{Loads}
use wgpilot.Nft.Manager.{Applier, RangeOrder, State, add_bridge, add_network_bridge, step}
use wgpilot.Nft.Manager.Table.{IsTable, step-IsTable}
use wgpilot.Nft.Manager.Table.Accepted.{AcceptsAll, add_bridge_accepted, refused_direction}
use wgpilot.Nft.Manager.Sync.{nft_applier, InSync, step-InSync}
use wgpilot.Nft.Manager.View.{spec, Firewall, Agrees, Agrees-trans, view, step-spec}

-- A bridge that counts: it is enabled, and its direction is one of the three.
abbrev pub counts : BridgeConfig → Bool
counts b = b.enabled && valid_direction b.direction

-- The bridge of two interfaces after the list of the database: the last one that counts and joins
-- them, or else the old one.
unfoldable pub latest :
    List BridgeConfig → Str → Str → Option (Str × Str × Str) → Option (Str × Str × Str)
latest [] x y old = old
latest (b ∷ bs) x y old = latest bs x y (
    if counts b && same_pair b.interface_a b.interface_b x y
    then some (b.interface_a, b.interface_b, b.direction)
    else old)

-- A firewall with the bridges of the database.
abbrev pub bridged : List BridgeConfig → Firewall → Firewall
bridged bs f = record f { bridge = λ x y. latest bs x y (f.bridge x y) }

-- The names of the interfaces have no colon.
abbrev pub PlainBridges : List BridgeConfig → Type 0
PlainBridges bs = (b : BridgeConfig) → Member b bs → NoColon b.interface_a × NoColon b.interface_b

bridged-Agrees :
    (bs : List BridgeConfig) {f g : Firewall} → Agrees f g → Agrees (bridged bs f) (bridged bs g)
bridged-Agrees bs h = record {
  nat = h.nat;
  forwarding = h.forwarding;
  bridge = λ x y hx hy. ap (latest bs x y) (h.bridge x y hx hy);
  port_open = h.port_open;
}

module _ (A : Applier) (O : RangeOrder) (all : AcceptsAll A) where
  -- One bridge that is skipped, and one that the manager adds.
  skipped : (b : BridgeConfig) (f : Firewall) → counts b ≡ false → Agrees f (bridged (b ∷ []) f)
  unfolding latest
  skipped b f h = record {
    nat = λ i. refl;
    forwarding = λ i. refl;
    bridge = λ x y _ _. rw h refl;
    port_open = λ p. refl;
  }

  added :
      (b : BridgeConfig) (st : State A)
      → NoColon b.interface_a × NoColon b.interface_b
      → counts b ≡ true
      → valid_direction b.direction ≡ true
      → Agrees
          (view (add_network_bridge A O b.interface_a b.interface_b b.direction st).1.rules)
          (bridged (b ∷ []) (view st.rules))
  unfolding latest step spec
  added b st plain h good =
      let op = add_bridge b.interface_a b.interface_b b.direction in
      Agrees-trans
        (step-spec A O op st plain
          (add_bridge_accepted A O all b.interface_a b.interface_b b.direction st good))
        (record {
          nat = λ i. refl;
          forwarding = λ i. refl;
          bridge = λ x y _ _. rw h refl;
          port_open = λ p. refl;
        })

  bridge_on :
      (b : BridgeConfig) (st : State A)
      → b.enabled ≡ true
      → apply_bridge (add_network_bridge A O) b st
        ≡ (add_network_bridge A O b.interface_a b.interface_b b.direction st).1
  unfolding apply_bridge
  bridge_on b st on = rw on refl

  bridge_off :
      (b : BridgeConfig) (st : State A)
      → b.enabled ≡ false
      → apply_bridge (add_network_bridge A O) b st ≡ st
  unfolding apply_bridge
  bridge_off b st off = rw off refl

  apply_bridge-view :
      (b : BridgeConfig) (st : State A)
      → NoColon b.interface_a × NoColon b.interface_b
      → Agrees
          (view (apply_bridge (add_network_bridge A O) b st).rules)
          (bridged (b ∷ []) (view st.rules))
  apply_bridge-view b st plain =
      let leads = λ (st' : State A). Agrees (view st'.rules) (bridged (b ∷ []) (view st.rules)) in
      elim (Bool-cases b.enabled) [
        | inl on ↦ elim (Bool-cases (valid_direction b.direction)) [
          | inl good ↦
              subst leads (sym (bridge_on b st on)) (added b st plain (ground (arith, on)) good)
          | inr wrong ↦
              subst leads
                (sym (
                  bridge_on b st on
                  ∙ refused_direction A O b.interface_a b.interface_b b.direction st wrong))
                (skipped b (view st.rules) (ground (arith, wrong)))
        ]
        | inr off ↦
            subst leads (sym (bridge_off b st off))
              (skipped b (view st.rules) (ground (arith, off)))
      ]

  apply_bridges-view :
      (bs : List BridgeConfig) (st : State A)
      → PlainBridges bs
      → Agrees
          (view (apply_bridges (add_network_bridge A O) bs st).rules)
          (bridged bs (view st.rules))
  unfolding apply_bridges latest
  apply_bridges-view [] st plain = record {
    nat = λ i. refl;
    forwarding = λ i. refl;
    bridge = λ x y _ _. refl;
    port_open = λ p. refl;
  }
  apply_bridges-view (b ∷ bs) st plain =
      Agrees-trans
        (apply_bridges-view bs (apply_bridge (add_network_bridge A O) b st)
          (λ c m. plain c (inr m)))
        (bridged-Agrees bs (apply_bridge-view b st (plain b (inl refl))))

module _ (N : Netlink) (L : Loads N) (O : RangeOrder) where
  -- The rule table is well formed, and the kernel has the table for its rules, or none.
  abbrev pub Kept : State (nft_applier N) → Type 0
  Kept st = IsTable st.rules × InSync N L O st

  apply_bridge-Kept :
      (b : BridgeConfig) (st : State (nft_applier N))
      → Kept st
      → Kept (apply_bridge (add_network_bridge (nft_applier N) O) b st)
  unfolding apply_bridge step
  apply_bridge-Kept b st k = elim (Bool-cases b.enabled) [
    | inl on ↦
        let op = add_bridge b.interface_a b.interface_b b.direction in
        rw (on, apply_bridge)
          (step-IsTable (nft_applier N) O op st k.0, step-InSync N L O op st k.0 k.1)
    | inr off ↦ rw (off, apply_bridge) k
  ]

  apply_bridges-Kept :
      (bs : List BridgeConfig) (st : State (nft_applier N))
      → Kept st
      → Kept (apply_bridges (add_network_bridge (nft_applier N) O) bs st)
  unfolding apply_bridges
  apply_bridges-Kept [] st k = k
  apply_bridges-Kept (b ∷ bs) st k =
      apply_bridges-Kept bs (apply_bridge (add_network_bridge (nft_applier N) O) b st)
        (apply_bridge-Kept b st k)

  -- If the kernel accepts every rule set, treats the table as `Loads` says, and the names of the
  -- interfaces have no colon, then after ReconcileBridges the firewall differs from the one before
  -- in the bridges only: two interfaces have the bridge of the last row that joins them, is enabled
  -- and has one of the three directions, and without such a row they have what they had. The rule
  -- table stays well formed, and in step with the table in the kernel as `InSync` says.
  pub reconcile_bridges-bridged :
      (bs : List BridgeConfig) (st : State (nft_applier N))
      → AcceptsAll (nft_applier N)
      → PlainBridges bs
      → Kept st
      → let st' = (reconcile_bridges (add_network_bridge (nft_applier N) O) (ok bs) st).1 in
        Agrees (view st'.rules) (bridged bs (view st.rules)) × Kept st'
  unfolding reconcile_bridges
  reconcile_bridges-bridged bs st all plain k =
      (apply_bridges-view (nft_applier N) O all bs st plain, apply_bridges-Kept bs st k)
