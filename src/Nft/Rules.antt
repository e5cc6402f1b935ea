-- ===== src/Nft/Rules.antt =====
-- internal/nft/rules.go: the rules, their keys, and the forward entries that a rule stands for.
pub mod Keys
use wgpilot.Base.{ℕ, Bool, List, [], ◌∷◌, ◌++◌, ◌||◌, Str, bytes, str_eq, str_ltb, if◌then◌else◌}
use wgpilot.Base.Decimal.{decimal}

-- `other` is any further value of the string type `RuleKind`.
pub data RuleKind : Type 0 where
  nat_masquerade inter_peer_forward bridge_forward udp_input : RuleKind
  other : Str → RuleKind

pub record Rule : Type 0 where
  pub kind : RuleKind
  pub iface : Str
  pub iface_b : Str
  pub subnet : Str
  pub direction : Str
  pub port : ℕ

abbrev pub a_to_b : Str
a_to_b = bytes "a_to_b"

abbrev pub b_to_a : Str
b_to_a = bytes "b_to_a"

abbrev pub bidirectional : Str
bidirectional = bytes "bidirectional"

-- "a:b" where a ≤ b.
pub sorted_pair : Str → Str → Str
sorted_pair a b = if str_ltb b a then b ++ (b':' ∷ a) else a ++ (b':' ∷ b)

abbrev pub nat_key : Str → Str
nat_key iface = bytes "nat:" ++ iface

abbrev pub forward_key : Str → Str
forward_key iface = bytes "forward:" ++ iface

abbrev pub bridge_key : Str → Str → Str
bridge_key a b = bytes "bridge:" ++ sorted_pair a b

abbrev pub udp_key : ℕ → Str
udp_key port = bytes "udp:" ++ decimal port

-- The name of a kind outside the four constants, as the default branch prints it.
unfoldable pub rule_key : Rule → Str
rule_key r = elim r.kind [
  | nat_masquerade ↦ nat_key r.iface
  | inter_peer_forward ↦ forward_key r.iface
  | bridge_forward ↦ bridge_key r.iface r.iface_b
  | udp_input ↦ udp_key r.port
  | other name ↦ bytes "unknown:" ++ (name ++ (b':' ∷ r.iface))
]

unfoldable pub valid_direction : Str → Bool
valid_direction d = str_eq d a_to_b || (str_eq d b_to_a || str_eq d bidirectional)

pub record ForwardEntry : Type 0 where
  pub iface_in : Str
  pub iface_out : Str
  pub comment : Str

abbrev bridge_comment : Str → Str → Str → Str
bridge_comment a arrow b = bytes "bridge " ++ (a ++ (arrow ++ b))

unfoldable pub bridge_entries : Rule → List ForwardEntry
bridge_entries r =
    if str_eq r.direction a_to_b
    then record {
      iface_in = r.iface;
      iface_out = r.iface_b;
      comment = bridge_comment r.iface (bytes " -> ") r.iface_b;
    }
      ∷ []
    else if str_eq r.direction b_to_a
    then record {
      iface_in = r.iface_b;
      iface_out = r.iface;
      comment = bridge_comment r.iface_b (bytes " -> ") r.iface;
    }
      ∷ []
    else if str_eq r.direction bidirectional
    then record {
      iface_in = r.iface;
      iface_out = r.iface_b;
      comment = bridge_comment r.iface (bytes " <-> ") r.iface_b;
    }
      ∷ record {
        iface_in = r.iface_b;
        iface_out = r.iface;
        comment = bridge_comment r.iface (bytes " <-> ") r.iface_b;
      }
      ∷ []
    else []

unfoldable pub expand_forward_entries : Rule → List ForwardEntry
unfolding bridge_entries
expand_forward_entries r = elim r.kind [
  | inter_peer_forward ↦
      record { iface_in = r.iface; iface_out = r.iface; comment = bytes "inter-peer forwarding" }
      ∷ []
  | bridge_forward ↦ bridge_entries r
  | _ ↦ []
]
