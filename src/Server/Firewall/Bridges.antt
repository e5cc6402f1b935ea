-- ===== src/Server/Firewall/Bridges.antt =====
-- What handleUpdateBridge of internal/server/routes_bridges.go does to the firewall.
use wgpilot.Base.{
  ℕ, ◌≡◌, refl, sym, ap, subst, ◌∙◌, Bool, true, false, not, some, Str, arith, str_eq,
  if◌then◌else◌, Bool-cases, inl, inr,
}
use wgpilot.Wg.Types.{Outcome, ok, err}
use wgpilot.Nft.Rules.Keys.{NoColon, same_pair}
use wgpilot.Nft.Manager.{add_bridge, remove_bridge}
use wgpilot.Nft.Manager.Table.Accepted.{AcceptsAll}
use wgpilot.Nft.Manager.View.{Firewall, Agrees, Agrees-trans, spec}
use wgpilot.Server.Types.{Network, Bridge, Reply, failed, validation, bridge, Env, Server}
use wgpilot.Server.Handlers.{
  internal_error, Handler, ◌>>=◌, ◌>>◌, done, reject, when, must, nothing, change,
}
use wgpilot.Server.Passes.{bind_pass, decoded_pass}
use wgpilot.Server.Bridges.{
  UpdateBridgeRequest, or_else, changed, names_direction, find_bridge, end_network, turn, redirect,
  fetch_bridge_or, handle_update_bridge,
}
use wgpilot.Server.Firewall.{
  table, Leads, spec-Respects, bind-Leads, silent-Leads, silent_last, fire-Leads,
  fire_quietly-Leads, when-Leads, Agrees-refl,
}
use wgpilot.Server.Firewall.Networks.{change-Leads, done-Leads}

-- The firewall after an update of the bridge of two interfaces: the bridge has the new direction,
-- and nothing else changes; whether the bridge is enabled does not count.
abbrev pub redirected : Str → Str → Str → Str → Firewall → Firewall
redirected a b old new f =
    if not (str_eq old new)
    then record f { bridge = λ x y. if same_pair a b x y then some (a, b, new) else f.bridge x y }
    else f

module _ (E : Env) where
  find_bridge_pass :
      (id : ℕ) (b : Bridge) (s : Server E)
      → E.database.get_bridge_by_id id s.db ≡ ok (some b)
      → find_bridge E id s ≡ (ok b, s)
  unfolding find_bridge
  find_bridge_pass id b s g = rw (find_bridge, g) refl

  end_network_pass :
      (id : ℕ) (n : Network) (s : Server E)
      → E.database.get_network_by_id id s.db ≡ ok (some n)
      → end_network E id s ≡ (ok (some n), s)
  unfolding end_network
  end_network_pass id n s g = rw (end_network, g) refl

  reject_pass : (r : Reply) (s : Server E) → reject {E = E} false r s ≡ (ok tt, s)
  unfolding reject
  reject_pass r s = refl

  at_ends :
      (new : Bridge) (a b : Network) (s : Server E)
      → E.database.get_network_by_id new.network_a_id s.db ≡ ok (some a)
      → E.database.get_network_by_id new.network_b_id s.db ≡ ok (some b)
      → redirect E new s ≡ turn E new (some a) (some b) s
  unfolding redirect
  at_ends new a b s ga gb =
      bind_pass E _ _ (some a) s (end_network_pass new.network_a_id a s ga)
      ∙ bind_pass E _ _ (some b) s (end_network_pass new.network_b_id b s gb)

  turn-Leads :
      (has : E.has_firewall ≡ true) (all : AcceptsAll E.applier) (new : Bridge) (a b : Network)
      → NoColon a.interface
      → NoColon b.interface
      → Leads E (turn E new (some a) (some b)) (λ f.
        spec
          (add_bridge a.interface b.interface new.direction)
          (spec (remove_bridge a.interface b.interface) f))
  unfolding turn
  turn-Leads has all new a b ha hb =
      bind-Leads E {F = spec (remove_bridge a.interface b.interface)}
        {G = spec (add_bridge a.interface b.interface new.direction)} (spec-Respects E _)
        (fire_quietly-Leads E has all _ (ha, hb) tt) (λ _. fire-Leads E has _ _ _ (ha, hb))

  fetch_bridge_or-Leads : (b : Bridge) → Leads E (fetch_bridge_or E b) (λ f. f)
  unfolding fetch_bridge_or
  fetch_bridge_or-Leads b = silent-Leads E (λ s a e. ground arith)

  -- What is left to do when the firewall is done.
  abbrev finish : Bridge → Handler E Reply
  finish new = do
    must (change (E.database.update_bridge new)) nothing internal_error
    updated ← fetch_bridge_or E new
    done (bridge 200 updated)

  finish-Leads : (new : Bridge) → Leads E (finish new) (λ f. f)
  finish-Leads new =
      silent_last E (change-Leads E _ _)
        (λ _. silent_last E (fetch_bridge_or-Leads new) (λ _. done-Leads E _))

  bind_at :
      {A B : Type 0} (m k : Handler E A) (f : A → Handler E B) (s : Server E)
      → m s ≡ k s
      → (m >>= f) s ≡ (k >>= f) s
  unfolding ◌>>=◌
  bind_at {A} m k f s e =
      ap (λ (v : Outcome Reply A × Server E). elim v.0 [ ok b ↦ f b v.1 | err x ↦ (err x, v.1) ]) e

  when_on : (c : Bool) (m : Handler E (Unit {0})) (s : Server E) → c ≡ true → when c m s ≡ m s
  unfolding when
  when_on c m s e = rw e refl

  when_same :
      (c : Bool) (m k : Handler E (Unit {0})) (s : Server E) → m s ≡ k s → when c m s ≡ when c k s
  unfolding when
  when_same true m k s e = e
  when_same false m k s e = refl

  -- The handler, once the bridge and its networks are found.
  update-steps :
      (id : ℕ) (req : UpdateBridgeRequest) (old : Bridge) (a b : Network) (s : Server E)
      → E.has_firewall ≡ true
      → E.database.get_bridge_by_id id s.db ≡ ok (some old)
      → E.database.get_network_by_id old.network_a_id s.db ≡ ok (some a)
      → E.database.get_network_by_id old.network_b_id s.db ≡ ok (some b)
      → names_direction req ≡ true
      → handle_update_bridge E (ok id) (ok req) s
        ≡ (when
                (not (str_eq old.direction (changed req old).direction))
                (turn E (changed req old) (some a) (some b))
              >>= λ _. finish (changed req old))
            s
  unfolding handle_update_bridge
  update-steps id req old a b s has g ga gb good =
      let new = changed req old in
      let turns = not (str_eq old.direction new.direction) in
      bind_pass E _ _ id s (decoded_pass E id s)
      ∙ bind_pass E _ _ old s (find_bridge_pass id old s g)
      ∙ bind_pass E _ _ req s (decoded_pass E req s)
      ∙ bind_pass E _ _ tt s (
          ap (λ c. reject {E = E} (not c) (failed 400 validation) s) good
          ∙ reject_pass (failed 400 validation) s)
      ∙ bind_at _ _ _ s (
          when_on E.has_firewall (when turns (redirect E new)) s has
          ∙ when_same turns (redirect E new) (turn E new (some a) (some b)) s
              (at_ends new a b s ga gb))

  turned_redirected :
      (a b old new : Str) (f : Firewall)
      → Agrees
          (if not (str_eq old new)
            then spec (add_bridge a b new) (spec (remove_bridge a b) f)
            else f)
          (redirected a b old new f)
  unfolding spec
  turned_redirected a b old new f = elim (Bool-cases (not (str_eq old new))) [
    | inl e ↦ rw e (record {
      nat = λ i. refl;
      forwarding = λ i. refl;
      bridge = λ x y _ _. ground arith;
      port_open = λ p. refl;
    })
    | inr e ↦ rw e (Agrees-refl f)
  ]

  -- If there is a firewall manager, over a kernel that accepts every rule set, the bridge and its
  -- networks are found, their interfaces have names without a colon, the request names one of the
  -- three directions or none, and it succeeds: then the bridge has the requested direction in the
  -- firewall if that differs from the stored one, and nothing else has changed there. So whether
  -- the request enables or disables the bridge makes no difference to the firewall.
  pub update_bridge-redirected :
      (id : ℕ) (req : UpdateBridgeRequest) (old : Bridge) (a b : Network) (r : Reply) (s : Server E)
      → E.has_firewall ≡ true
      → AcceptsAll E.applier
      → E.database.get_bridge_by_id id s.db ≡ ok (some old)
      → E.database.get_network_by_id old.network_a_id s.db ≡ ok (some a)
      → E.database.get_network_by_id old.network_b_id s.db ≡ ok (some b)
      → NoColon a.interface
      → NoColon b.interface
      → names_direction req ≡ true
      → (handle_update_bridge E (ok id) (ok req) s).0 ≡ ok r
      → Agrees (table E (handle_update_bridge E (ok id) (ok req) s).1) (
          redirected a.interface b.interface old.direction
            (or_else req.direction old.direction)
            (table E s))
  update_bridge-redirected id req old a b r s has all g ga gb ha hb good h =
      let new = changed req old in
      let turns = not (str_eq old.direction new.direction) in
      let e = update-steps id req old a b s has g ga gb good in
      let led : Leads E (when turns (turn E new (some a) (some b)) >>= λ _. finish new) (λ f.
        if turns
        then spec (add_bridge a.interface b.interface new.direction)
            (spec (remove_bridge a.interface b.interface) f)
        else f) =
        silent_last E (when-Leads E turns _ (turn-Leads has all new a b ha hb))
          (λ _. finish-Leads new) in
      subst
        (λ (v : Outcome Reply Reply × Server E).
          Agrees (table E v.1)
            (redirected a.interface b.interface old.direction new.direction (table E s)))
        (sym e)
        (Agrees-trans (led.leads s r (sym (ap (λ (v : Outcome Reply Reply × Server E). v.0) e) ∙ h))
          (turned_redirected a.interface b.interface old.direction new.direction (table E s)))
