-- ===== src/Nft/Netlink.antt =====
-- internal/nft/applier.go: the rule set as netlink messages. The library and the kernel are the
-- record Netlink: a connection gathers messages, and a flush sends them as one batch.
pub mod Expressions
pub mod Batch
pub mod Tables
pub mod Tests
use wgpilot.Base.{
  ℕ, ◌/◌, ◌%◌, Bool, true, false, Option, none, some, List, [], ◌∷◌, ◌++◌, Str, bytes, str_eq, keep,
  if◌then◌else◌,
}
use wgpilot.Wg.Types.{Outcome, ok, err}
use wgpilot.Nft.Rules.{
  Rule, nat_masquerade, inter_peer_forward, bridge_forward, udp_input, a_to_b, b_to_a,
  bidirectional,
}

pub data MetaKey : Type 0 where
  iifname oifname l4proto : MetaKey

pub data CmpOp : Type 0 where
  cmp_eq cmp_neq : CmpOp

-- `expr.Any`. A payload is taken from the transport header; the verdict is to accept.
pub data Expr : Type 0 where
  meta : (key : MetaKey) (register : ℕ) → Expr
  cmp : (op : CmpOp) (register : ℕ) (payload_bytes : Str) → Expr
  payload : (dest_register offset len : ℕ) → Expr
  masq : Expr
  accept : Expr

-- The chains by name; type, hook and priority are fixed with it.
pub data Chain : Type 0 where
  input postrouting forward : Chain

pub data Message : Type 0 where
  del_table : Message
  add_table : Message
  add_chain : Chain → Message
  add_rule : Chain → List Expr → Message

pub record Table : Type 0 where
  pub name : Str
  pub ipv4 : Bool

pub record Netlink : Type 1 where
  pub World : Type 0
  pub connect : World → Option Str
  pub list_tables : World → Outcome Str (List Table)
  pub flush : List Message → World → Option Str × World

pub data Failure : Type 0 where
  not_connected : Str → Failure
  not_listed : Str → Failure
  not_deleted : Str → Failure
  not_flushed : Str → Failure

-- The name and the byte 0 behind it.
pub iface_bytes : Str → Str
iface_bytes iface = iface ++ 0 ∷ []

pub masquerade_exprs : Str → List Expr
unfolding iface_bytes
masquerade_exprs iface =
    meta iifname 1
    ∷ cmp cmp_eq 1 (iface_bytes iface)
    ∷ meta oifname 1
    ∷ cmp cmp_neq 1 (iface_bytes iface)
    ∷ masq
    ∷ []

pub forward_pair_exprs : Str → Str → List Expr
unfolding iface_bytes
forward_pair_exprs iface_in iface_out =
    meta iifname 1
    ∷ cmp cmp_eq 1 (iface_bytes iface_in)
    ∷ meta oifname 1
    ∷ cmp cmp_eq 1 (iface_bytes iface_out)
    ∷ accept
    ∷ []

-- The cases on the direction of a bridge.
bridge_exprs : Rule → List (List Expr)
bridge_exprs r =
    if str_eq r.direction a_to_b
    then forward_pair_exprs r.iface r.iface_b ∷ []
    else if str_eq r.direction b_to_a
    then forward_pair_exprs r.iface_b r.iface ∷ []
    else if str_eq r.direction bidirectional
    then forward_pair_exprs r.iface r.iface_b ∷ forward_pair_exprs r.iface_b r.iface ∷ []
    else []

pub build_forward_exprs : Rule → List (List Expr)
unfolding bridge_exprs
build_forward_exprs r = elim r.kind [
  | inter_peer_forward ↦ forward_pair_exprs r.iface r.iface ∷ []
  | bridge_forward ↦ bridge_exprs r
  | _ ↦ []
]

-- The port as a 16-bit number, high byte first.
pub port_bytes : ℕ → Str
port_bytes port = (port / 256 % 256) ∷ (port % 256) ∷ []

pub udp_input_exprs : ℕ → List Expr
unfolding port_bytes
udp_input_exprs port =
    meta l4proto 1
    ∷ cmp cmp_eq 1 (17 ∷ [])
    ∷ payload 1 2 2
    ∷ cmp cmp_eq 1 (port_bytes port)
    ∷ accept
    ∷ []

-- The rules whose kind belongs to a chain.
pub is_input : Rule → Bool
is_input r = elim r.kind [ udp_input ↦ true | _ ↦ false ]

pub is_nat : Rule → Bool
is_nat r = elim r.kind [ nat_masquerade ↦ true | _ ↦ false ]

pub is_forward : Rule → Bool
is_forward r = elim r.kind [ inter_peer_forward ↦ true | bridge_forward ↦ true | _ ↦ false ]

-- The messages for a list of expressions, and for the rules of a chain.
pub add_rules : Chain → List (List Expr) → List Message
add_rules c [] = []
add_rules c (es ∷ ess) = add_rule c es ∷ add_rules c ess

pub each_rule : Chain → (Rule → List (List Expr)) → List Rule → List Message
unfolding add_rules
each_rule c exprs [] = []
each_rule c exprs (r ∷ rs) = add_rules c (exprs r) ++ each_rule c exprs rs

-- A chain is added only if it has rules.
pub fill_chain : Chain → (Rule → List (List Expr)) → List Rule → List Message
unfolding each_rule
fill_chain c exprs [] = []
fill_chain c exprs (r ∷ rs) = add_chain c ∷ each_rule c exprs (r ∷ rs)

pub batch : List Rule → List Message
unfolding fill_chain
batch rules =
    add_table
    ∷ (fill_chain input (λ r. udp_input_exprs r.port ∷ []) (keep is_input rules)
        ++ (fill_chain postrouting (λ r. masquerade_exprs r.iface ∷ []) (keep is_nat rules)
            ++ fill_chain forward build_forward_exprs (keep is_forward rules)))

pub is_ours : Table → Bool
is_ours t = if str_eq t.name (bytes "wgpilot") then t.ipv4 else false

module _ (N : Netlink) where
  -- A flush whose error is wrapped.
  abbrev pub send : (Str → Failure) → List Message → N.World → Option Failure × N.World
  send wrap ms w =
      let (e, w') = N.flush ms w in elim e [ none ↦ (none, w') | some s ↦ (some (wrap s), w') ]

  -- The first table of the program that is listed is deleted.
  pub delete_existing : List Table → N.World → Option Failure × N.World
  delete_existing [] w = (none, w)
  delete_existing (t ∷ ts) w =
      let rest = delete_existing ts w in
      if is_ours t then send not_deleted (del_table ∷ []) w else rest

  pub install : List Rule → N.World → Option Failure × N.World
  install [] w = (none, w)
  install (r ∷ rs) w = send not_flushed (batch (r ∷ rs)) w

  pub apply_rules : List Rule → N.World → Option Failure × N.World
  unfolding delete_existing install
  apply_rules rules w = elim (N.connect w) [
    | some e ↦ (some (not_connected e), w)
    | none ↦ elim (N.list_tables w) [
      | err e ↦ (some (not_listed e), w)
      | ok ts ↦
          let (e, w') = delete_existing ts w in
          elim e [ some f ↦ (some f, w') | none ↦ install rules w' ]
    ]
  ]
