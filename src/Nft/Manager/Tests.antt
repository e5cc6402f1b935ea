-- ===== src/Nft/Manager/Tests.antt =====
-- The manager over a small kernel that holds at most two rules.
use wgpilot.Base.{
  str_eq, ◌≡◌, refl, Option, none, some, List, [], ◌∷◌, arith, Str, bytes, length, leb,
  if◌then◌else◌, inl, ◌⊎◌, ap,
}
use wgpilot.Base.Dict.{Dict, lookup, values, insert}
use wgpilot.Base.Decimal.{decimal}
use wgpilot.Nft.Rules.{Rule, nat_key, udp_key, a_to_b, rule_key, valid_direction}
use wgpilot.Nft.Manager.{
  Applier, RangeOrder, State, Error, Op, apply_failed, open_port, add_bridge, nat_rule, step, run,
  open_udp_port, add_network_bridge,
}
use wgpilot.Nft.Manager.Table.{IsTable, step-IsTable, step_error_unchanged}
use wgpilot.Nft.Manager.Sync.{
  nft_applier, error_of, Same, Installed, InSync, run-InSync, step-Installed,
}
use wgpilot.Nft.Netlink.Batch.{wanted}
use wgpilot.Nft.Netlink.Tests.{
  small_netlink, small_loads, open_netlink, open_loads, apply_rules-open,
}
use wgpilot.Nft.Manager.Table.Accepted.{AcceptsAll, step_accepted}
use wgpilot.Nft.Manager.View.{Agrees, view, spec, step-spec}

pub small_apply : List Rule → List Rule → Option Str × List Rule
small_apply rs g = if leb (length rs) 2 then (none, rs) else (some (bytes "full"), g)

abbrev pub small : Applier
small = record { Kernel = List Rule; apply = small_apply }

abbrev pub in_order : RangeOrder
in_order = record { visit = values; visit_iff = λ r m. (λ h. h, λ h. h) }

abbrev pub wg0 : Str
wg0 = bytes "wg0"

abbrev pub wg1 : Str
wg1 = bytes "wg1"

abbrev net : Str
net = bytes "10.0.0.0/24"

abbrev pub empty : State small
empty = record { rules = []; kernel = [] }

abbrev full_rules : Dict Rule
full_rules = (nat_key wg0, nat_rule wg0 net) ∷ (nat_key wg1, nat_rule wg1 net) ∷ []

abbrev full : State small
full = record { rules = full_rules; kernel = values full_rules }

pub empty-IsTable : IsTable empty.rules
unfolding lookup
empty-IsTable = record { distinct = tt; keyed = λ k r e. cc }

step-IsTable_example : IsTable (step small in_order (open_port 51820) empty).1.rules
step-IsTable_example = step-IsTable small in_order (open_port 51820) empty empty-IsTable

full-refuses : (step small in_order (open_port 51820) full).0 ≡ some (apply_failed (bytes "full"))
unfolding step open_udp_port small_apply rule_key lookup insert str_eq decimal
full-refuses = refl

bridge-accepted : (step small in_order (add_bridge wg0 wg1 a_to_b) empty).0 ≡ none
unfolding step add_network_bridge small_apply rule_key insert str_eq valid_direction
bridge-accepted = refl

step_error_unchanged_example :
    lookup (udp_key 51820) (step small in_order (open_port 51820) full).1.rules
    ≡ lookup (udp_key 51820) full_rules
step_error_unchanged_example =
    step_error_unchanged small in_order (open_port 51820) full (apply_failed (bytes "full"))
      (udp_key 51820) full-refuses

-- The firewall over the netlink kernel that loads at most two rules.
abbrev unwritten : State (nft_applier small_netlink)
unwritten = record { rules = []; kernel = none }

pub no_rules : Same [] []
no_rules r = (λ h. absurd h, λ h. unfold lookup in cc (h.1))

abbrev ports : List Op
ports = open_port 51820 ∷ open_port 51821 ∷ open_port 51822 ∷ []

run-InSync_example :
    InSync small_netlink small_loads in_order
      (run (nft_applier small_netlink) in_order ports unwritten)
run-InSync_example =
    run-InSync small_netlink small_loads in_order ports unwritten empty-IsTable
      (inl ([], unfold wanted in refl, no_rules))

pub open-AcceptsAll : AcceptsAll (nft_applier open_netlink)
open-AcceptsAll rs w = ap error_of (apply_rules-open rs w)

abbrev pub unopened : State (nft_applier open_netlink)
unopened = record { rules = []; kernel = none }

abbrev opened : Option Error × State (nft_applier open_netlink)
opened = step (nft_applier open_netlink) in_order (open_port 51820) unopened

step-Installed_example : (opened.1.rules ≡ []) ⊎ Installed open_netlink open_loads in_order opened.1
step-Installed_example =
    step-Installed open_netlink open_loads in_order (open_port 51820) unopened empty-IsTable (
      step_accepted (nft_applier open_netlink) in_order open-AcceptsAll (open_port 51820) unopened
        tt)

step-spec_example :
    Agrees
      (view (step small in_order (add_bridge wg0 wg1 a_to_b) empty).1.rules)
      (spec (add_bridge wg0 wg1 a_to_b) (view []))
step-spec_example =
    step-spec small in_order (add_bridge wg0 wg1 a_to_b) empty (omega arith, omega arith)
      bridge-accepted
