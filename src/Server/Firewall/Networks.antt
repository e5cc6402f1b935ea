-- ===== src/Server/Firewall/Networks.antt =====
-- What the handlers of internal/server/routes_networks.go do to the firewall.
use wgpilot.Base.{
  ℕ, ◌≡◌, refl, true, false, Option, none, Str, arith, if◌then◌else◌, str_eq_iff, ==_iff,
}
use wgpilot.Wg.Types.{ok}
use wgpilot.Wg.Manager.{M}
use wgpilot.Nft.Manager.{
  open_port, close_port, add_nat, remove_nat, enable_forwarding, disable_forwarding,
}
use wgpilot.Nft.Manager.Table.Accepted.{AcceptsAll}
use wgpilot.Nft.Manager.View.{Firewall, Agrees, Agrees-trans, spec}
use wgpilot.Server.Types.{Network, Reply, Env, Server}
use wgpilot.Server.Handlers.{
  done, must, ignore, nothing, change, wireguard, fetch_network, fetch_or,
}
use wgpilot.Server.Networks.{store_network, build_network}
use wgpilot.Server.Networks.Lifecycle.{close_rules, disable_network}
use wgpilot.Server.Firewall.{
  Leads, table, Respects, bind-Leads, silent-Leads, fire-Leads, fire_quietly-Leads, when-Leads,
  when-Respects, comp-Respects, silent_first, silent_last, spec-Respects,
}

-- The port of a network opened, and the rules that it asks for; and the same closed again.
abbrev pub opened : Network → Firewall → Firewall
opened n f =
    let g = spec (open_port n.listen_port) f in
    let h = if n.nat_enabled then spec (add_nat n.interface n.subnet) g else g in
    if n.inter_peer_routing then spec (enable_forwarding n.interface) h else h

abbrev pub closed : Network → Firewall → Firewall
closed n f =
    let g = spec (close_port n.listen_port) f in
    let h = if n.nat_enabled then spec (remove_nat n.interface) g else g in
    if n.inter_peer_routing then spec (disable_forwarding n.interface) h else h

module _ (E : Env) where
  wire-Leads :
      (m : M E.host (Unit {0})) (r : Reply) → Leads E (must (wireguard m) nothing r) (λ f. f)
  unfolding must wireguard
  wire-Leads m r = silent-Leads E (λ s a e. ground arith)

  wire_quietly-Leads : (m : M E.host (Unit {0})) → Leads E (ignore (wireguard m)) (λ f. f)
  unfolding ignore wireguard
  wire_quietly-Leads m = silent-Leads E (λ s a e. ground arith)

  store_network-Leads : (n : Network) → Leads E (store_network E n) (λ f. f)
  unfolding store_network
  store_network-Leads n = silent-Leads E (λ s a e. ground arith)

  fetch_network-Leads : (i : ℕ) → Leads E (fetch_network i) (λ f. f)
  unfolding fetch_network
  fetch_network-Leads i = silent-Leads E (λ s a e. ground arith)

  fetch_or-Leads : (n : Network) → Leads E (fetch_or n) (λ f. f)
  unfolding fetch_or
  fetch_or-Leads n = silent-Leads E (λ s a e. ground arith)

  pub change-Leads :
      (f : E.database.Db → Option Str × E.database.Db) (r : Reply)
      → Leads E (must (change f) nothing r) (λ g. g)
  unfolding must
  change-Leads f r = silent-Leads E (λ s a e. ground arith)

  pub done-Leads : {A : Type 0} (a : A) → Leads E (done a) (λ f. f)
  unfolding done
  done-Leads a = silent-Leads E (λ s b e. refl)

  rules_opened :
      (n : Network)
      → Respects E (λ g.
        if n.inter_peer_routing
        then spec
            (enable_forwarding n.interface)
            (if n.nat_enabled then spec (add_nat n.interface n.subnet) g else g)
        else (if n.nat_enabled then spec (add_nat n.interface n.subnet) g else g))
  rules_opened n =
      comp-Respects E (λ g. if n.nat_enabled then spec (add_nat n.interface n.subnet) g else g)
        (λ h. if n.inter_peer_routing then spec (enable_forwarding n.interface) h else h)
        (when-Respects E _ n.nat_enabled) (when-Respects E _ n.inter_peer_routing)

  rules_closed :
      (n : Network)
      → Respects E (λ g.
        if n.inter_peer_routing
        then spec
            (disable_forwarding n.interface)
            (if n.nat_enabled then spec (remove_nat n.interface) g else g)
        else (if n.nat_enabled then spec (remove_nat n.interface) g else g))
  rules_closed n =
      comp-Respects E (λ g. if n.nat_enabled then spec (remove_nat n.interface) g else g)
        (λ h. if n.inter_peer_routing then spec (disable_forwarding n.interface) h else h)
        (when-Respects E _ n.nat_enabled) (when-Respects E _ n.inter_peer_routing)

  opened-Respects : (n : Network) → Respects E (opened n)
  opened-Respects n =
      comp-Respects E (spec (open_port n.listen_port)) _ (spec-Respects E _) (rules_opened n)

  closed-Respects : (n : Network) (f g : Firewall) → Agrees f g → Agrees (closed n f) (closed n g)
  unfolding Respects
  closed-Respects n =
      comp-Respects E (spec (close_port n.listen_port)) _ (spec-Respects E _) (rules_closed n)

  build_network-Leads :
      (has : E.has_firewall ≡ true) (n : Network) → Leads E (build_network E n) (opened n)
  unfolding build_network
  build_network-Leads has n = silent_first E (opened-Respects n) (wire-Leads _ _) (λ _.
      bind-Leads E {F = spec (open_port n.listen_port)} (rules_opened n) (fire-Leads E has _ _ _ tt)
        (λ _.
          bind-Leads E {F = λ g. if n.nat_enabled then spec (add_nat n.interface n.subnet) g else g}
            {G = λ h. if n.inter_peer_routing then spec (enable_forwarding n.interface) h else h}
            (when-Respects E _ n.inter_peer_routing)
            (when-Leads E n.nat_enabled _ (fire-Leads E has _ _ _ tt))
            (λ _.
              silent_last E (when-Leads E n.inter_peer_routing _ (fire-Leads E has _ _ _ tt)) (λ _.
                silent_last E (store_network-Leads n)
                  (λ id. silent_last E (fetch_network-Leads id) (λ _. done-Leads _))))))

  close_rules-Leads :
      (has : E.has_firewall ≡ true) (all : AcceptsAll E.applier) (n : Network)
      → Leads E (close_rules n) (closed n)
  unfolding close_rules
  close_rules-Leads has all n =
      bind-Leads E {F = spec (close_port n.listen_port)} (rules_closed n)
        (fire_quietly-Leads E has all _ tt tt)
        (λ _.
          bind-Leads E {F = λ g. if n.nat_enabled then spec (remove_nat n.interface) g else g}
            {G = λ h. if n.inter_peer_routing then spec (disable_forwarding n.interface) h else h}
            (when-Respects E _ n.inter_peer_routing)
            (when-Leads E n.nat_enabled _ (fire_quietly-Leads E has all _ tt tt))
            (λ _. when-Leads E n.inter_peer_routing _ (fire_quietly-Leads E has all _ tt tt)))

  disable_network-Leads :
      (has : E.has_firewall ≡ true) (all : AcceptsAll E.applier) (n : Network)
      → Leads E (disable_network n) (closed n)
  unfolding disable_network
  disable_network-Leads has all n = silent_last E (close_rules-Leads has all n) (λ _.
      silent_last E (wire_quietly-Leads _) (λ _.
        silent_last E (change-Leads _ _)
          (λ _. silent_last E (fetch_or-Leads _) (λ _. done-Leads _))))

-- No rule is about the network.
pub record Unused (n : Network) (f : Firewall) : Type 0 where
  pub port : f.port_open n.listen_port ≡ false
  pub nat : f.nat n.interface ≡ none
  pub forwarding : f.forwarding n.interface ≡ false

closed-opened : (n : Network) (f : Firewall) → Unused n f → Agrees (closed n (opened n f)) f
unfolding spec
closed-opened n f u = record {
  nat = λ i. ground (arith, u.nat, str_eq_iff n.interface i);
  forwarding = λ i. ground (arith, u.forwarding, str_eq_iff n.interface i);
  bridge = λ a b ha hb. ground arith;
  port_open = λ p. ground (arith, u.port, ==_iff n.listen_port p);
}

-- Where there is a firewall manager: if the creation of a network ends with the new network, its
-- port has been opened in the firewall, the masquerade and the forwarding have been added where
-- they are asked for, and nothing else in the firewall has changed.
pub build_network-opened :
    (E : Env) (n : Network) (s : Server E) (r : Reply)
    → E.has_firewall ≡ true
    → (build_network E n s).0 ≡ ok r
    → Agrees (table E (build_network E n s).1) (opened n (table E s))
build_network-opened E n s r has h = (build_network-Leads E has n).leads s r h

-- Where there is a firewall manager: if no rule was about a network, and its creation and then its
-- disabling, under the identifier that it was given, end with the network, then over a kernel that
-- accepts every rule set the firewall is as it was before.
pub disable-build :
    (E : Env) (n : Network) (i : ℕ) (s : Server E) (r r' : Reply)
    → E.has_firewall ≡ true
    → AcceptsAll E.applier
    → Unused n (table E s)
    → (build_network E n s).0 ≡ ok r
    → let s' = (build_network E n s).1 in
      (disable_network {E = E} (record n { id = i }) s').0 ≡ ok r'
      → Agrees (table E (disable_network {E = E} (record n { id = i }) s').1) (table E s)
disable-build E n i s r r' has all u built disabled =
    let s' = (build_network E n s).1 in
    Agrees-trans ((disable_network-Leads E has all (record n { id = i })).leads s' r' disabled) (
      Agrees-trans
        (closed-Respects E n (table E s') (opened n (table E s))
          (build_network-opened E n s r has built))
        (closed-opened n (table E s) u))
