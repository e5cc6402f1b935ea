-- ===== src/Nft/Manager/View.antt =====
-- The table as the firewall that the interface NFTableManager describes, and that each method does
-- there what its comment says.
use wgpilot.Base.{
  ℕ, ◌≡◌, refl, ◌∙◌, Bool, true, false, Option, none, some, arith, Str, str_eq, str_eq_iff,
  if◌then◌else◌, ◌==◌, Option-cases, Bool-cases, inl, inr,
}
use wgpilot.Base.Dict.{Dict, lookup, insert, delete, lookup-insert, lookup-delete}
use wgpilot.Nft.Rules.{Rule, rule_key, nat_key, forward_key, bridge_key, udp_key, valid_direction}
use wgpilot.Nft.Rules.Keys.{udp_key_eq, NoColon, same_pair, bridge_key-same_pair}
use wgpilot.Nft.Manager.{
  Applier, RangeOrder, State, Op, add_nat, remove_nat, enable_forwarding, disable_forwarding,
  add_bridge, remove_bridge, open_port, close_port, add_once, remove_once, replace,
  add_nat_masquerade, remove_nat_masquerade, enable_inter_peer_forwarding,
  disable_inter_peer_forwarding, add_network_bridge, remove_network_bridge, open_udp_port,
  close_udp_port, step, nat_rule, forward_rule, bridge_rule, udp_rule,
}
use wgpilot.Nft.Manager.Table.{commit, commit_cases}

-- The subnet masqueraded for an interface, whether its peers may reach each other, the bridge of
-- two interfaces as it was asked for, and the open ports.
pub record Firewall : Type 0 where
  pub nat : Str → Option Str
  pub forwarding : Str → Bool
  pub bridge : Str → Str → Option (Str × Str × Str)
  pub port_open : ℕ → Bool

abbrev is_some {ℓ} : {A : Type ℓ} → Option A → Bool
is_some none = false
is_some (some a) = true

abbrev subnet_of : Option Rule → Option Str
subnet_of none = none
subnet_of (some r) = some r.subnet

abbrev bridge_of : Option Rule → Option (Str × Str × Str)
bridge_of none = none
bridge_of (some r) = some (r.iface, r.iface_b, r.direction)

unfoldable pub view : Dict Rule → Firewall
view m = record {
  nat = λ i. subnet_of (lookup (nat_key i) m);
  forwarding = λ i. is_some (lookup (forward_key i) m);
  bridge = λ a b. bridge_of (lookup (bridge_key a b) m);
  port_open = λ p. is_some (lookup (udp_key p) m);
}

abbrev or_else {ℓ} : {A : Type ℓ} → Option A → A → Option A
or_else none a = some a
or_else (some b) a = some b

-- What the comments of the interface say of a call that succeeds.
unfoldable pub spec : Op → Firewall → Firewall
spec (add_nat i s) f = record f { nat = λ j. if str_eq i j then or_else (f.nat j) s else f.nat j }
spec (remove_nat i) f = record f { nat = λ j. if str_eq i j then none else f.nat j }
spec (enable_forwarding i) f = record f {
  forwarding = λ j. if str_eq i j then true else f.forwarding j;
}
spec (disable_forwarding i) f = record f {
  forwarding = λ j. if str_eq i j then false else f.forwarding j;
}
spec (add_bridge a b d) f = record f {
  bridge = λ c e. if same_pair a b c e then some (a, b, d) else f.bridge c e;
}
spec (remove_bridge a b) f = record f {
  bridge = λ c e. if same_pair a b c e then none else f.bridge c e;
}
spec (open_port p) f = record f { port_open = λ q. if p == q then true else f.port_open q }
spec (close_port p) f = record f { port_open = λ q. if p == q then false else f.port_open q }

-- Equal at every interface and port; at the pairs of interfaces whose names have no colon.
pub record Agrees (f g : Firewall) : Type 0 where
  pub nat : (i : Str) → f.nat i ≡ g.nat i
  pub forwarding : (i : Str) → f.forwarding i ≡ g.forwarding i
  pub bridge : (a b : Str) → NoColon a → NoColon b → f.bridge a b ≡ g.bridge a b
  pub port_open : (p : ℕ) → f.port_open p ≡ g.port_open p

abbrev pub PlainNames : Op → Type 0
PlainNames (add_bridge a b d) = NoColon a × NoColon b
PlainNames (remove_bridge a b) = NoColon a × NoColon b
PlainNames _ = Unit

-- What a successful change leaves under every key.
abbrev After : Str → Option Rule → Dict Rule → Dict Rule → Type 0
After k new m m' = (j : Str) → lookup j m' ≡ (if str_eq k j then new else lookup j m)

module _ (A : Applier) (O : RangeOrder) where
  commit-ok :
      (k : Str) (m' : Dict Rule) (st : State A)
      → (commit A O k m' st).0 ≡ none
      → (commit A O k m' st).1.rules ≡ m'
  commit-ok k m' st =
      commit_cases A O (λ x. x.0 ≡ none → x.1.rules ≡ m') k m' st (λ g _ _. refl) λ g e _ h. cc

  add_once-After :
      (r : Rule) (st : State A)
      → (add_once A O r st).0 ≡ none
      → After
          (rule_key r)
          (or_else (lookup (rule_key r) st.rules) r)
          st.rules
          (add_once A O r st).1.rules
  unfolding add_once
  add_once-After r st = elim (Option-cases (lookup (rule_key r) st.rules)) [
    | inl e ↦
        let m' = insert (rule_key r) r st.rules in
        let ok = commit-ok (rule_key r) m' st in
        rw (e, add_once) λ h j. rw ((rw e at ok) h) (lookup-insert (rule_key r) j r st.rules)
    | inr (old, e) ↦ rw (e, add_once) λ h j. ground (arith, str_eq_iff (rule_key r) j)
  ]

  remove_once-After :
      (k : Str) (st : State A)
      → (remove_once A O k st).0 ≡ none
      → After k none st.rules (remove_once A O k st).1.rules
  unfolding remove_once
  remove_once-After k st = elim (Option-cases (lookup k st.rules)) [
    | inl e ↦ rw (e, remove_once) λ h j. ground (arith, str_eq_iff k j)
    | inr (old, e) ↦
        let ok = commit-ok k (delete k st.rules) st in
        rw (e, remove_once) λ h j. rw ((rw e at ok) h) (lookup-delete k j st.rules)
  ]

  add_bridge-After :
      (a b d : Str) (st : State A)
      → (add_network_bridge A O a b d st).0 ≡ none
      → After
          (bridge_key a b)
          (some (bridge_rule a b d))
          st.rules
          (add_network_bridge A O a b d st).1.rules
  unfolding add_network_bridge replace rule_key
  add_bridge-After a b d st = elim (Bool-cases (valid_direction d)) [
    | inl good ↦
        let r = bridge_rule a b d in
        let m' = insert (bridge_key a b) r st.rules in
        rw good λ h j.
          rw (commit-ok (bridge_key a b) m' st h) (lookup-insert (bridge_key a b) j r st.rules)
    | inr wrong ↦ rw wrong λ h j. cc
  ]

-- A change of one key, as the firewall sees it.
module _ (m m' : Dict Rule) (new : Option Rule) where
  view-nat :
      (i : Str)
      → After (nat_key i) new m m'
      → Agrees
          (view m')
          (record (view m) { nat = λ j. if str_eq i j then subnet_of new else (view m).nat j })
  unfolding view str_eq
  view-nat i h = record {
    nat = λ j. ground (arith, h (nat_key j));
    forwarding = λ j. ground (arith, h (forward_key j));
    bridge = λ a b _ _. ground (arith, h (bridge_key a b));
    port_open = λ p. ground (arith, h (udp_key p));
  }

  view-forwarding :
      (i : Str)
      → After (forward_key i) new m m'
      → Agrees (view m') (record (view m) {
        forwarding = λ j. if str_eq i j then is_some new else (view m).forwarding j;
      })
  unfolding view str_eq
  view-forwarding i h = record {
    nat = λ j. ground (arith, h (nat_key j));
    forwarding = λ j. ground (arith, h (forward_key j));
    bridge = λ a b _ _. ground (arith, h (bridge_key a b));
    port_open = λ p. ground (arith, h (udp_key p));
  }

  view-bridge :
      (a b : Str)
      → NoColon a
      → NoColon b
      → After (bridge_key a b) new m m'
      → Agrees (view m') (record (view m) {
        bridge = λ c e. if same_pair a b c e then bridge_of new else (view m).bridge c e;
      })
  unfolding view
  view-bridge a b ha hb h = record {
    nat = λ j. unfold str_eq in ground (arith, h (nat_key j));
    forwarding = λ j. unfold str_eq in ground (arith, h (forward_key j));
    bridge =
        λ c e hc he. ground (arith, h (bridge_key c e), bridge_key-same_pair a b c e ha hb hc he);
    port_open = λ p. unfold str_eq in ground (arith, h (udp_key p));
  }

  view-port_open :
      (p : ℕ)
      → After (udp_key p) new m m'
      → Agrees (view m') (record (view m) {
        port_open = λ q. if p == q then is_some new else (view m).port_open q;
      })
  unfolding view
  view-port_open p h = record {
    nat = λ j. unfold str_eq in ground (arith, h (nat_key j));
    forwarding = λ j. unfold str_eq in ground (arith, h (forward_key j));
    bridge = λ a b _ _. unfold str_eq in ground (arith, h (bridge_key a b));
    port_open = λ q. ground (arith, h (udp_key q), udp_key_eq p q);
  }

pub Agrees-trans : {f g h : Firewall} → Agrees f g → Agrees g h → Agrees f h
Agrees-trans p q = record {
  nat = λ i. p.nat i ∙ q.nat i;
  forwarding = λ i. p.forwarding i ∙ q.forwarding i;
  bridge = λ a b ha hb. p.bridge a b ha hb ∙ q.bridge a b ha hb;
  port_open = λ n. p.port_open n ∙ q.port_open n;
}

module _ (A : Applier) (O : RangeOrder) where
  -- A method that succeeds does to the firewall what the interface says: it sets or clears one
  -- entry, an interface that is masqueraded already keeps its subnet, a bridge is replaced, and
  -- nothing else changes. The names in a bridge call have no colon.
  pub step-spec :
      (op : Op) (st : State A)
      → PlainNames op
      → (step A O op st).0 ≡ none
      → Agrees (view (step A O op st).1.rules) (spec op (view st.rules))
  unfolding step spec
  step-spec (add_nat i s) st _ h =
      unfold add_nat_masquerade rule_key in
      Agrees-trans (view-nat st.rules _ _ i (add_once-After A O (nat_rule i s) st h)) (record {
        nat = λ j. unfold view in ground (arith, str_eq_iff i j);
        forwarding = λ _. refl;
        bridge = λ _ _ _ _. refl;
        port_open = λ _. refl;
      })
  step-spec (remove_nat i) st _ h =
      unfold remove_nat_masquerade in
      view-nat st.rules _ none i (remove_once-After A O (nat_key i) st h)
  step-spec (enable_forwarding i) st _ h =
      unfold enable_inter_peer_forwarding rule_key in
      Agrees-trans (view-forwarding st.rules _ _ i (add_once-After A O (forward_rule i) st h))
        (record {
          nat = λ _. refl;
          forwarding = λ j. ground arith;
          bridge = λ _ _ _ _. refl;
          port_open = λ _. refl;
        })
  step-spec (disable_forwarding i) st _ h =
      unfold disable_inter_peer_forwarding in
      view-forwarding st.rules _ none i (remove_once-After A O (forward_key i) st h)
  step-spec (add_bridge a b d) st (ha, hb) h =
      view-bridge st.rules _ (some (bridge_rule a b d)) a b ha hb (add_bridge-After A O a b d st h)
  step-spec (remove_bridge a b) st (ha, hb) h =
      unfold remove_network_bridge in
      view-bridge st.rules _ none a b ha hb (remove_once-After A O (bridge_key a b) st h)
  step-spec (open_port p) st _ h =
      unfold open_udp_port rule_key in
      Agrees-trans (view-port_open st.rules _ _ p (add_once-After A O (udp_rule p) st h)) (record {
        nat = λ _. refl;
        forwarding = λ _. refl;
        bridge = λ _ _ _ _. refl;
        port_open = λ q. ground arith;
      })
  step-spec (close_port p) st _ h =
      unfold close_udp_port in
      view-port_open st.rules _ none p (remove_once-After A O (udp_key p) st h)
