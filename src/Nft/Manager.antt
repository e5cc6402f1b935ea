-- ===== src/Nft/Manager.antt =====
-- internal/nft/manager.go and interfaces.go: the rule table and its operations. Each public method
-- holds the mutex from its first to its last line, so a method is one step on the state. Logging
-- is left out. Ports are not negative.
pub mod Table
pub mod View
pub mod Tests
pub mod Sync
use wgpilot.Base.{ℕ, Bool, Option, none, some, List, [], ◌∷◌, ◌↔◌, Str, if◌then◌else◌, Member, not}
use wgpilot.Base.Dict.{Dict, lookup, insert, delete, values}
use wgpilot.Nft.Rules.{
  Rule, nat_masquerade, inter_peer_forward, bridge_forward, udp_input, rule_key, nat_key,
  forward_key, bridge_key, udp_key, valid_direction,
}

-- The interface `Applier`. The first part of a result is the error, `none` for nil.
pub record Applier : Type 1 where
  pub Kernel : Type 0
  pub apply : List Rule → Kernel → Option Str × Kernel

-- The order in which `range` visits a map: the language fixes only that it visits the entries.
pub record RangeOrder : Type 0 where
  pub visit : Dict Rule → List Rule
  pub visit_iff : (r : Rule) (m : Dict Rule) → Member r (visit m) ↔ Member r (values m)

-- The rules in memory, beside the kernel that the applier writes to.
pub record State (A : Applier) : Type 0 where
  pub rules : Dict Rule
  pub kernel : A.Kernel

pub data Error : Type 0 where
  invalid_direction : Str → Error
  apply_failed : Str → Error

pub data Op : Type 0 where
  add_nat : (iface subnet : Str) → Op
  remove_nat : (iface : Str) → Op
  enable_forwarding : (iface : Str) → Op
  disable_forwarding : (iface : Str) → Op
  add_bridge : (iface_a iface_b direction : Str) → Op
  remove_bridge : (iface_a iface_b : Str) → Op
  open_port : (port : ℕ) → Op
  close_port : (port : ℕ) → Op

abbrev pub nat_rule : Str → Str → Rule
nat_rule iface subnet = record {
  kind = nat_masquerade;
  iface = iface;
  iface_b = [];
  subnet = subnet;
  direction = [];
  port = 0;
}

abbrev pub forward_rule : Str → Rule
forward_rule iface = record {
  kind = inter_peer_forward;
  iface = iface;
  iface_b = [];
  subnet = [];
  direction = [];
  port = 0;
}

abbrev pub bridge_rule : Str → Str → Str → Rule
bridge_rule iface_a iface_b direction = record {
  kind = bridge_forward;
  iface = iface_a;
  iface_b = iface_b;
  subnet = [];
  direction = direction;
  port = 0;
}

abbrev pub udp_rule : ℕ → Rule
udp_rule port = record {
  kind = udp_input;
  iface = [];
  iface_b = [];
  subnet = [];
  direction = [];
  port = port;
}

-- `m.rules[key] = old` if there was an old rule, else `delete(m.rules, key)`.
pub restore : Str → Option Rule → Dict Rule → Dict Rule
restore key none rules = delete key rules
restore key (some old) rules = insert key old rules

module _ (A : Applier) (O : RangeOrder) where
  unfoldable pub apply : State A → Option Str × State A
  apply st = let (e, k) = A.apply (O.visit st.rules) st.kernel in (e, record st { kernel = k })

  -- The error branch after `apply`: put the old entry of `key` back and report.
  unfoldable pub settle : Str → Option Rule → Option Str × State A → Option Error × State A
  settle key old (none, st) = (none, st)
  settle key old (some e, st) =
      (some (apply_failed e), record st { rules = restore key old st.rules })

  -- An entry that is not there yet: assign, apply, and delete it again if that fails.
  unfoldable pub add_once : Rule → State A → Option Error × State A
  unfolding settle apply
  add_once rule st = elim (lookup (rule_key rule) st.rules) [
    | some present ↦ (none, st)
    | none ↦
        settle (rule_key rule) none
          (apply (record st { rules = insert (rule_key rule) rule st.rules }))
  ]

  -- An entry that is there: delete, apply, and put it back if that fails.
  unfoldable pub remove_once : Str → State A → Option Error × State A
  unfolding settle apply
  remove_once key st = elim (lookup key st.rules) [
    | none ↦ (none, st)
    | some old ↦ settle key (some old) (apply (record st { rules = delete key st.rules }))
  ]

  unfoldable pub add_nat_masquerade : Str → Str → State A → Option Error × State A
  unfolding add_once
  add_nat_masquerade iface subnet st = add_once (nat_rule iface subnet) st

  unfoldable pub remove_nat_masquerade : Str → State A → Option Error × State A
  unfolding remove_once
  remove_nat_masquerade iface st = remove_once (nat_key iface) st

  pub enable_inter_peer_forwarding : Str → State A → Option Error × State A
  unfolding add_once
  enable_inter_peer_forwarding iface st = add_once (forward_rule iface) st

  pub disable_inter_peer_forwarding : Str → State A → Option Error × State A
  unfolding remove_once
  disable_inter_peer_forwarding iface st = remove_once (forward_key iface) st

  -- An existing bridge is overwritten, and put back if the kernel refuses the new set.
  unfoldable pub replace : Rule → State A → Option Error × State A
  unfolding settle apply
  replace rule st =
      settle (rule_key rule) (lookup (rule_key rule) st.rules)
        (apply (record st { rules = insert (rule_key rule) rule st.rules }))

  unfoldable pub add_network_bridge : Str → Str → Str → State A → Option Error × State A
  unfolding replace
  add_network_bridge iface_a iface_b direction st =
      if not (valid_direction direction)
      then (some (invalid_direction direction), st)
      else replace (bridge_rule iface_a iface_b direction) st

  unfoldable pub remove_network_bridge : Str → Str → State A → Option Error × State A
  unfolding remove_once
  remove_network_bridge iface_a iface_b st = remove_once (bridge_key iface_a iface_b) st

  unfoldable pub open_udp_port : ℕ → State A → Option Error × State A
  unfolding add_once
  open_udp_port port st = add_once (udp_rule port) st

  unfoldable pub close_udp_port : ℕ → State A → Option Error × State A
  unfolding remove_once
  close_udp_port port st = remove_once (udp_key port) st

  -- One call of a method of the manager.
  unfoldable pub step : Op → State A → Option Error × State A
  step (add_nat iface subnet) st = add_nat_masquerade iface subnet st
  step (remove_nat iface) st = remove_nat_masquerade iface st
  step (enable_forwarding iface) st = enable_inter_peer_forwarding iface st
  step (disable_forwarding iface) st = disable_inter_peer_forwarding iface st
  step (add_bridge iface_a iface_b direction) st = add_network_bridge iface_a iface_b direction st
  step (remove_bridge iface_a iface_b) st = remove_network_bridge iface_a iface_b st
  step (open_port port) st = open_udp_port port st
  step (close_port port) st = close_udp_port port st

  -- A history of calls, each caller reading its own error.
  pub run : List Op → State A → State A
  unfolding step
  run [] st = st
  run (op ∷ ops) st = run ops (step op st).1
