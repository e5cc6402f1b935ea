-- ===== src/Nft/Netlink/Batch.antt =====
-- The rules that the batch of Apply (internal/nft/applier.go) adds.
use wgpilot.Base.{
  ◌≡◌, refl, arith, ap, false, map, ◌∙◌, Bool, Option, none, some, List, [], ◌∷◌, ◌++◌, keep,
  if◌then◌else◌, Bool-cases, inl, inr,
}
use wgpilot.Nft.Rules.{Rule, nat_masquerade, udp_input, ForwardEntry, expand_forward_entries}
use wgpilot.Nft.Netlink.Expressions.{entry_exprs, build_forward_exprs-expand_forward_entries}
use wgpilot.Nft.Netlink.{
  Expr, Chain, input, postrouting, forward, Message, del_table, add_table, add_chain, add_rule,
  masquerade_exprs, build_forward_exprs, udp_input_exprs, is_input, is_nat, is_forward, add_rules,
  each_rule, fill_chain, batch,
}

-- A rule of the kernel: its chain and its expressions.
abbrev pub Loaded : Type 0
Loaded = List (Chain × List Expr)

-- The rules that a batch adds.
unfoldable pub added : List Message → Loaded
added [] = []
added (add_rule c es ∷ ms) = (c, es) ∷ added ms
added (del_table ∷ ms) = added ms
added (add_table ∷ ms) = added ms
added (add_chain c ∷ ms) = added ms

-- The kernel's rules of a rule, and those of the rules that `p` picks, in order.
in_chain : Chain → List (List Expr) → Loaded
in_chain c [] = []
in_chain c (es ∷ ess) = (c, es) ∷ in_chain c ess

picked : (Rule → Bool) → (Rule → Loaded) → List Rule → Loaded
picked p f [] = []
picked p f (r ∷ rs) = (if p r then f r else []) ++ picked p f rs

-- What a rule asks of each chain: a port of the input chain, a masquerade of the postrouting chain,
-- and each forward entry that it stands for of the forward chain.
entries : Chain → Rule → Loaded
entries input r = elim r.kind [ udp_input ↦ (input, udp_input_exprs r.port) ∷ [] | _ ↦ [] ]
entries postrouting r = elim r.kind [
  | nat_masquerade ↦ (postrouting, masquerade_exprs r.iface) ∷ []
  | _ ↦ []
]
entries forward r = map (λ e. (forward, entry_exprs e)) (expand_forward_entries r)

of_chain : Chain → List Rule → Loaded
unfolding entries
of_chain c [] = []
of_chain c (r ∷ rs) = entries c r ++ of_chain c rs

-- What the table holds for a rule set, chain by chain; there is none for no rules.
unfoldable pub wanted : List Rule → Option Loaded
unfolding of_chain
wanted [] = none
wanted (r ∷ rs) =
    some (of_chain input (r ∷ rs) ++ (of_chain postrouting (r ∷ rs) ++ of_chain forward (r ∷ rs)))

picked-of_chain :
    (c : Chain) (p : Rule → Bool) (f : Rule → Loaded)
    → ((r : Rule) → (if p r then f r else []) ≡ entries c r)
    → (rs : List Rule) → picked p f rs ≡ of_chain c rs
unfolding picked of_chain
picked-of_chain c p f h [] = refl
picked-of_chain c p f h (r ∷ rs) = rw (h r, picked-of_chain c p f h rs) refl

input-entries :
    (r : Rule)
    → (if is_input r then in_chain input (udp_input_exprs r.port ∷ []) else []) ≡ entries input r
unfolding is_input entries in_chain
input-entries r = ground arith

nat-entries :
    (r : Rule)
    → (if is_nat r then in_chain postrouting (masquerade_exprs r.iface ∷ []) else [])
      ≡ entries postrouting r
unfolding is_nat entries in_chain
nat-entries r = ground arith

in_chain-map :
    (es : List ForwardEntry)
    → in_chain forward (map entry_exprs es) ≡ map (λ e. (forward, entry_exprs e)) es
unfolding in_chain
in_chain-map [] = refl
in_chain-map (e ∷ es) = ap (λ l. (forward, entry_exprs e) ∷ l) (in_chain-map es)

expand_forward_entries_none : (r : Rule) → is_forward r ≡ false → expand_forward_entries r ≡ []
unfolding is_forward expand_forward_entries
expand_forward_entries_none r h = ground arith

forward-entries :
    (r : Rule)
    → (if is_forward r then in_chain forward (build_forward_exprs r) else []) ≡ entries forward r
unfolding entries
forward-entries r =
    rw (build_forward_exprs-expand_forward_entries r, in_chain-map (expand_forward_entries r))
      (elim (Bool-cases (is_forward r)) [
        | inl e ↦ rw e refl
        | inr e ↦ rw (e, expand_forward_entries_none r e) refl
      ])

added-append : (ms ns : List Message) → added (ms ++ ns) ≡ added ms ++ added ns
unfolding added
added-append [] ns = refl
added-append (add_rule c es ∷ ms) ns = ap (λ l. (c, es) ∷ l) (added-append ms ns)
added-append (del_table ∷ ms) ns = added-append ms ns
added-append (add_table ∷ ms) ns = added-append ms ns
added-append (add_chain c ∷ ms) ns = added-append ms ns

added-add_rules : (c : Chain) (ess : List (List Expr)) → added (add_rules c ess) ≡ in_chain c ess
unfolding added add_rules in_chain
added-add_rules c [] = refl
added-add_rules c (es ∷ ess) = ap (λ l. (c, es) ∷ l) (added-add_rules c ess)

added-each_rule :
    (c : Chain) (p : Rule → Bool) (exprs : Rule → List (List Expr)) (rs : List Rule)
    → added (each_rule c exprs (keep p rs)) ≡ picked p (λ r. in_chain c (exprs r)) rs
unfolding each_rule picked
added-each_rule c p exprs [] = unfold added in refl
added-each_rule c p exprs (r ∷ rs) = elim (Bool-cases (p r)) [
  | inl e ↦ rw e (
      added-append (add_rules c (exprs r)) (each_rule c exprs (keep p rs))
      ∙ rw (added-add_rules c (exprs r), added-each_rule c p exprs rs) refl)
  | inr e ↦ rw e (added-each_rule c p exprs rs)
]

added-fill_chain :
    (c : Chain) (exprs : Rule → List (List Expr)) (rs : List Rule)
    → added (fill_chain c exprs rs) ≡ added (each_rule c exprs rs)
unfolding fill_chain added each_rule
added-fill_chain c exprs [] = refl
added-fill_chain c exprs (r ∷ rs) = refl

chain_entries :
    (c : Chain) (p : Rule → Bool) (exprs : Rule → List (List Expr))
    → ((r : Rule) → (if p r then in_chain c (exprs r) else []) ≡ entries c r)
    → (rs : List Rule) → added (fill_chain c exprs (keep p rs)) ≡ of_chain c rs
chain_entries c p exprs h rs =
    added-fill_chain c exprs (keep p rs)
    ∙ added-each_rule c p exprs rs
    ∙ picked-of_chain c p (λ r. in_chain c (exprs r)) h rs

pub added-batch : (r : Rule) (rs : List Rule) → some (added (batch (r ∷ rs))) ≡ wanted (r ∷ rs)
unfolding batch wanted added
added-batch r rs =
    let first = fill_chain input (λ q. udp_input_exprs q.port ∷ []) (keep is_input (r ∷ rs)) in
    let second =
      fill_chain postrouting (λ q. masquerade_exprs q.iface ∷ []) (keep is_nat (r ∷ rs)) in
    let third = fill_chain forward build_forward_exprs (keep is_forward (r ∷ rs)) in
    ap some (
      added-append first (second ++ third)
      ∙ rw
          (
            added-append second third,
            chain_entries input is_input (λ q. udp_input_exprs q.port ∷ []) input-entries (r ∷ rs),
            chain_entries postrouting is_nat (λ q. masquerade_exprs q.iface ∷ []) nat-entries
                (r ∷ rs),
            chain_entries forward is_forward build_forward_exprs forward-entries (r ∷ rs),
          )
          refl)
