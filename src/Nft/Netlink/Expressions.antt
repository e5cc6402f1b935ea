-- ===== src/Nft/Netlink/Expressions.antt =====
-- The expressions of forward rules (internal/nft/applier.go) beside the forward entries of
-- internal/nft/rules.go.
use wgpilot.Base.{◌≡◌, refl, arith, List, map, str_eq, Bool-cases, inl, inr}
use wgpilot.Nft.Rules.{
  Rule, ForwardEntry, expand_forward_entries, bridge_entries, a_to_b, b_to_a, bidirectional,
}
use wgpilot.Nft.Netlink.{Expr, forward_pair_exprs, build_forward_exprs, bridge_exprs}

abbrev pub entry_exprs : ForwardEntry → List Expr
entry_exprs e = forward_pair_exprs e.iface_in e.iface_out

bridge_exprs-entries : (r : Rule) → bridge_exprs r ≡ map entry_exprs (bridge_entries r)
unfolding bridge_exprs bridge_entries
bridge_exprs-entries r = elim (Bool-cases (str_eq r.direction a_to_b)) [
  | inl e ↦ rw e refl
  | inr ne ↦ elim (Bool-cases (str_eq r.direction b_to_a)) [
    | inl e ↦ rw (ne, e) refl
    | inr ne' ↦ elim (Bool-cases (str_eq r.direction bidirectional)) [
      | inl e ↦ rw (ne, ne', e) refl
      | inr ne'' ↦ rw (ne, ne', ne'') refl
    ]
  ]
]

-- The kernel gets, for a forward rule, one set of expressions for each forward entry that the rule
-- stands for, in their order, and for a rule of another kind none: the two places that read the
-- direction of a bridge agree.
pub build_forward_exprs-expand_forward_entries :
    (r : Rule) → build_forward_exprs r ≡ map entry_exprs (expand_forward_entries r)
unfolding build_forward_exprs expand_forward_entries
build_forward_exprs-expand_forward_entries r = ground (arith, bridge_exprs-entries r)
