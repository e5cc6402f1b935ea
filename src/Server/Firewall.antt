-- ===== src/Server/Firewall.antt =====
-- What the steps of the handlers do to the firewall, as the abstract firewall of Nft.Manager.View
-- shows it.
pub mod Networks
pub mod Bridges
mod Tests
use wgpilot.Base.{
  ℕ, ◌≡◌, refl, sym, ap, subst, ◌∙◌, Bool, true, false, Option, none, some, List, Str, arith,
  if◌then◌else◌, str_eq, ◌==◌,
}
use wgpilot.Wg.Types.{Outcome, ok, err}
use wgpilot.Wg.Manager.{M, create_interface, delete_interface}
use wgpilot.Nft.Manager.{
  Op, Applier, step, open_port, close_port, add_nat, remove_nat, enable_forwarding,
  disable_forwarding, add_bridge, remove_bridge, Error as FirewallError,
}
use wgpilot.Nft.Manager.Table.Accepted.{AcceptsAll, NoNewBridge, step_accepted}
use wgpilot.Nft.Manager.View.{Firewall, Agrees, Agrees-trans, PlainNames, view, spec, step-spec}
use wgpilot.Server.Types.{Network, Reply, Env, Server}
use wgpilot.Server.Handlers.{
  internal_error, Handler, Call, ◌>>=◌, ◌>>◌, done, when, must, ignore, nothing, change, firewall,
  wireguard, fetch_network, fetch_or,
}
use wgpilot.Server.Networks.{drop_interface, store_network, build_network, interface_config}
use wgpilot.Server.Networks.Lifecycle.{close_rules, open_rules, disable_network}

pub Agrees-refl : (f : Firewall) → Agrees f f
Agrees-refl f = record {
  nat = λ i. refl;
  forwarding = λ i. refl;
  bridge = λ a b ha hb. refl;
  port_open = λ p. refl;
}

module _ (E : Env) where
  abbrev pub table : Server E → Firewall
  table s = view s.firewall.rules

  -- A step that, when it goes on, has changed the firewall by `F`.
  pub record Leads {A : Type 0} (m : Handler E A) (F : Firewall → Firewall) : Type 0 where
    pub leads : (s : Server E) (a : A) → (m s).0 ≡ ok a → Agrees (table (m s).1) (F (table s))

  unfoldable pub Respects : (Firewall → Firewall) → Type 0
  Respects F = (f g : Firewall) → Agrees f g → Agrees (F f) (F g)

  pub spec-Respects : (op : Op) → Respects (spec op)
  unfolding spec Respects
  spec-Respects (add_nat i n) f g h = record {
    nat = λ j. ground (arith, h.nat j);
    forwarding = h.forwarding;
    bridge = h.bridge;
    port_open = h.port_open;
  }
  spec-Respects (remove_nat i) f g h = record {
    nat = λ j. ground (arith, h.nat j);
    forwarding = h.forwarding;
    bridge = h.bridge;
    port_open = h.port_open;
  }
  spec-Respects (enable_forwarding i) f g h = record {
    nat = h.nat;
    forwarding = λ j. ground (arith, h.forwarding j);
    bridge = h.bridge;
    port_open = h.port_open;
  }
  spec-Respects (disable_forwarding i) f g h = record {
    nat = h.nat;
    forwarding = λ j. ground (arith, h.forwarding j);
    bridge = h.bridge;
    port_open = h.port_open;
  }
  spec-Respects (add_bridge a b d) f g h = record {
    nat = h.nat;
    forwarding = h.forwarding;
    bridge = λ x y hx hy. ground (arith, h.bridge x y hx hy);
    port_open = h.port_open;
  }
  spec-Respects (remove_bridge a b) f g h = record {
    nat = h.nat;
    forwarding = h.forwarding;
    bridge = λ x y hx hy. ground (arith, h.bridge x y hx hy);
    port_open = h.port_open;
  }
  spec-Respects (open_port p) f g h = record {
    nat = h.nat;
    forwarding = h.forwarding;
    bridge = h.bridge;
    port_open = λ q. ground (arith, h.port_open q);
  }
  spec-Respects (close_port p) f g h = record {
    nat = h.nat;
    forwarding = h.forwarding;
    bridge = h.bridge;
    port_open = λ q. ground (arith, h.port_open q);
  }

  pub bind-Leads :
      {A B : Type 0} {F G : Firewall → Firewall} {m : Handler E A} {k : A → Handler E B}
      → Respects G
      → Leads m F
      → ((a : A) → Leads (k a) G)
      → Leads (m >>= k) (λ f. G (F f))
  unfolding ◌>>=◌ Respects
  bind-Leads {A} {B} {F} {G} {m} {k} r hm hk = record {
    leads = λ s b h. after s (m s).0 (m s).1 b (hm.leads s) h;
  }
    where
      after :
          (s : Server E) (x : Outcome Reply A) (s' : Server E) (b : B)
          → ((a : A) → x ≡ ok a → Agrees (table s') (F (table s)))
          → let v : Outcome Reply B × Server E = elim x [ ok a ↦ k a s' | err e ↦ (err e, s') ] in
            v.0 ≡ ok b → Agrees (table v.1) (G (F (table s)))
      after s (ok a) s' b hx h =
          Agrees-trans ((hk a).leads s' b h) (r (table s') (F (table s)) (hx a refl))
      after s (err e) s' b hx h = cc

  -- A step that leaves the firewall as it was.
  pub silent-Leads :
      {A : Type 0} {m : Handler E A}
      → ((s : Server E) (a : A) → (m s).0 ≡ ok a → (m s).1.firewall ≡ s.firewall)
      → Leads m (λ f. f)
  silent-Leads {A} {m} h = record {
    leads = λ s a e.
        subst (λ t. Agrees (table (m s).1) (view t.rules)) (h s a e) (Agrees-refl (table (m s).1));
  }

  firewall_eq :
      (op : Op) (s : Server E)
      → E.has_firewall ≡ true
      → (let (e, f) = step E.applier E.range op s.firewall in
          firewall {E = E} op s ≡ (e, record s { firewall = f }))
  unfolding firewall
  firewall_eq op s has = rw has refl

  must_ok :
      {X : Type 0} (call : Call E X) (undo : Server E → Server E) (r : Reply) (s : Server E)
      (u : Unit {0})
      → (must call undo r s).0 ≡ ok u
      → ((call s).0 ≡ none) × ((must call undo r s).1 ≡ (call s).1)
  unfolding must
  must_ok call undo r s u h = ground arith

  pub fire-Leads :
      (has : E.has_firewall ≡ true) (op : Op) (undo : Server E → Server E) (r : Reply)
      → PlainNames op
      → Leads (must (firewall op) undo r) (spec op)
  fire-Leads has op undo r plain = record {
    leads = λ s a h.
        let (accepted, same) = must_ok (firewall op) undo r s a h in
        let e = firewall_eq op s has in
        subst (λ (t : Server E). Agrees (table t) (spec op (table s)))
          (sym (same ∙ ap (λ (v : Option FirewallError × Server E). v.1) e))
          (step-spec E.applier E.range op s.firewall plain
            (sym (ap (λ (v : Option FirewallError × Server E). v.0) e) ∙ accepted));
  }

  pub fire_quietly-Leads :
      (has : E.has_firewall ≡ true) (all : AcceptsAll E.applier) (op : Op)
      → PlainNames op
      → NoNewBridge op
      → Leads (ignore (firewall op)) (spec op)
  unfolding ignore
  fire_quietly-Leads has all op plain closing = record {
    leads = λ s a h.
        let e = firewall_eq op s has in
        subst (λ (t : Server E). Agrees (table t) (spec op (table s)))
          (sym (ap (λ (v : Option FirewallError × Server E). v.1) e))
          (step-spec E.applier E.range op s.firewall plain
            (step_accepted E.applier E.range all op s.firewall closing));
  }

  pub when-Leads :
      {F : Firewall → Firewall} (b : Bool) (m : Handler E (Unit {0}))
      → Leads m F
      → Leads (when b m) (λ f. if b then F f else f)
  unfolding when
  when-Leads true m h = h
  when-Leads false m h = silent-Leads (λ s a e. refl)

  pub when-Respects : (op : Op) (b : Bool) → Respects (λ f. if b then spec op f else f)
  unfolding Respects
  when-Respects op true = spec-Respects op
  when-Respects op false = λ f g e. e

  pub id-Respects : Respects (λ f. f)
  unfolding Respects
  id-Respects f g e = e

  pub comp-Respects :
      (F G : Firewall → Firewall) → Respects F → Respects G → Respects (λ f. G (F f))
  unfolding Respects
  comp-Respects F G hf hg f g e = hg (F f) (F g) (hf f g e)

  -- Before and after steps that leave the firewall as it was.
  pub silent_first :
      {A B : Type 0} {G : Firewall → Firewall} {m : Handler E A} {k : A → Handler E B}
      → Respects G
      → Leads m (λ f. f)
      → ((a : A) → Leads (k a) G)
      → Leads (m >>= k) G
  silent_first {G = G} r hm hk = bind-Leads {F = λ f. f} {G = G} r hm hk

  pub silent_last :
      {A B : Type 0} {F : Firewall → Firewall} {m : Handler E A} {k : A → Handler E B}
      → Leads m F
      → ((a : A) → Leads (k a) (λ f. f))
      → Leads (m >>= k) F
  silent_last {F = F} hm hk = bind-Leads {F = F} {G = λ f. f} id-Respects hm hk
