-- ===== src/Server/Plan/Rows.antt =====
-- The steps of the handlers that read and write the rows of the networks.
use wgpilot.Base.{
  ℕ, ◌≡◌, ◌≢◌, refl, sym, ap, subst, ◌∙◌, false, Option, none, some, List, [], ◌∷◌, ◌++◌, Str, All,
  Member,
}
use wgpilot.Wg.Types.{Outcome, ok, err}
use wgpilot.Server.Types.{Network, network_not_found, Reply, failed, Env, Server}
use wgpilot.Server.Handlers.{internal_error, query, must, nothing, change, find_network}
use wgpilot.Server.Stored.{Stored, replace_row, remove_row}
use wgpilot.Server.Plan.{
  Claim, claim, claims, Disjoint, Fits, Planned, claims-replace_row, remove_row-Planned,
  Planned-append, FreeOf-Apart,
}
use wgpilot.Server.Names.{has_interface}
use wgpilot.Server.Networks.{port_taken, drop_interface, store_network}
use wgpilot.Server.Quiet.{drop_interface_quiet}
use wgpilot.Server.Keeps.{Holds, Keeps}

module _ (E : Env) (S : Stored E.database) where
  unfoldable pub InPlan : E.database.Db → Type 0
  InPlan d = Planned E.parsers (claims (S.rows d))

  pub query_networks-Keeps :
      {Pre : E.database.Db → Type 0}
      → Keeps E
          (InPlan)
          Pre
          (query {E = E} E.database.list_networks)
          (λ ns d. Pre d × (ns ≡ S.rows d))
  unfolding query
  query_networks-Keeps {Pre} = record {
    keeps = λ s plan pre. after s (E.database.list_networks s.db) refl plan pre;
  }
    where
      after :
          (s : Server E) (r : Outcome Str (List Network))
          → E.database.list_networks s.db ≡ r
          → InPlan s.db
          → Pre s.db
          → let v : Outcome Reply (List Network) × Server E = elim r [
            | ok a ↦ (ok a, s)
            | err e ↦ (err internal_error, s)
          ] in
            Holds E (InPlan) (λ ns d. Pre d × (ns ≡ S.rows d)) v.0 v.1.db
      after s (ok ns) e plan pre = (plan, (pre, S.listed s.db ns e))
      after s (err x) e plan pre = plan

  pub find_network-Keeps :
      {Pre : E.database.Db → Type 0} (i : ℕ)
      → Keeps E (InPlan) Pre (find_network i) (λ n d. Member n (S.rows d))
  unfolding find_network
  find_network-Keeps {Pre} i = record {
    keeps = λ s plan pre. after s (E.database.get_network_by_id i s.db) refl plan;
  }
    where
      after :
          (s : Server E) (r : Outcome Str (Option Network))
          → E.database.get_network_by_id i s.db ≡ r
          → InPlan s.db
          → let v : Outcome Reply Network × Server E = elim r [
            | err e ↦ (err internal_error, s)
            | ok q ↦ elim q [ none ↦ (err (failed 404 network_not_found), s) | some n ↦ (ok n, s) ]
          ] in
            Holds E (InPlan) (λ n d. Member n (S.rows d)) v.0 v.1.db
      after s (ok (some n)) e plan = (plan, S.got i s.db n e)
      after s (ok none) e plan = plan
      after s (err x) e plan = plan

  -- A row that claims what a row of the database claims is written in its place.
  pub update-Keeps :
      (m n : Network) (r : Reply)
      → claim m ≡ claim n
      → Keeps E
          (InPlan)
          (λ d. Member n (S.rows d))
          (must (change (E.database.update_network m)) nothing r)
          (λ u d. Unit)
  unfolding InPlan must
  update-Keeps m n r same = record {
    keeps = λ s plan mem. after s (E.database.update_network m s.db).0 (S.updated m s.db) plan mem;
  }
    where
      kept :
          (d d' : E.database.Db) (e : Option Str)
          → S.rows d' ≡ elim e [ none ↦ replace_row m (S.rows d) | some x ↦ S.rows d ]
          → InPlan d
          → Member n (S.rows d)
          → InPlan d'
      kept d d' none e plan mem =
          subst (Planned E.parsers)
            (sym (ap claims e ∙ claims-replace_row E.parsers m n (S.rows d) plan mem same)) plan
      kept d d' (some x) e plan mem = subst (λ l. Planned E.parsers (claims l)) (sym e) plan

      after :
          (s : Server E) (e : Option Str)
          → let d' = (E.database.update_network m s.db).1 in
            S.rows d' ≡ (elim e [ none ↦ replace_row m (S.rows s.db) | some x ↦ S.rows s.db ])
            → InPlan s.db
            → Member n (S.rows s.db)
            → let s' : Server E = record s { db = d' } in
              let v : Outcome Reply (Unit {0}) × Server E = elim e [
                | none ↦ (ok tt, s')
                | some x ↦ (err r, s')
              ] in
              Holds E (InPlan) (λ u d. Unit) v.0 v.1.db
      after s none e plan mem = (kept s.db _ none e plan mem, tt)
      after s (some x) e plan mem = kept s.db _ (some x) e plan mem

  pub delete-Keeps :
      {Pre : E.database.Db → Type 0} (i : ℕ) (r : Reply)
      → Keeps E (InPlan) Pre (must (change (E.database.delete_network i)) nothing r) (λ u d. Unit)
  unfolding InPlan must
  delete-Keeps i r = record {
    keeps = λ s plan pre. after s (E.database.delete_network i s.db).0 (S.deleted i s.db) plan;
  }
    where
      after :
          (s : Server E) (e : Option Str)
          → let d' = (E.database.delete_network i s.db).1 in
            S.rows d' ≡ (elim e [ none ↦ remove_row i (S.rows s.db) | some x ↦ S.rows s.db ])
            → InPlan s.db
            → let s' : Server E = record s { db = d' } in
              let v : Outcome Reply (Unit {0}) × Server E = elim e [
                | none ↦ (ok tt, s')
                | some x ↦ (err r, s')
              ] in
              Holds E (InPlan) (λ u d. Unit) v.0 v.1.db
      after s none e plan = (
        subst (λ l. Planned E.parsers (claims l)) (sym e)
            (remove_row-Planned E.parsers i (S.rows s.db) plan),
        tt,
      )
      after s (some x) e plan = subst (λ l. Planned E.parsers (claims l)) (sym e) plan

  -- What a network must be to be added to the rows.
  pub record CanJoin (n : Network) (ns : List Network) : Type 0 where
    pub fits : Fits E.parsers (claim n)
    pub disjoint : All (λ (c : Claim). Disjoint E.parsers c.subnet n.subnet) (claims ns)
    pub interface : has_interface n.interface ns ≡ false
    pub port : port_taken n.listen_port ns ≡ false

  joined :
      (n : Network) (i : ℕ) (ns : List Network)
      → CanJoin n ns
      → All (λ (m : Network). m.id ≢ i) ns
      → Planned E.parsers (claims ns)
      → Planned E.parsers (claims (ns ++ record n { id = i } ∷ []))
  joined n i ns j fresh plan = subst (Planned E.parsers) (sym (claims_append ns)) (
      Planned-append E.parsers (claims ns) c plan
        (FreeOf-Apart E.parsers c ns (j.disjoint, j.interface, j.port, fresh))
        (record { private = j.fits.private; low = j.fits.low; high = j.fits.high }))
    where
      c : Claim
      c = claim (record n { id = i })

      claims_append :
          (l : List Network) → claims (l ++ record n { id = i } ∷ []) ≡ claims l ++ c ∷ []
      claims_append [] = refl
      claims_append (r ∷ l) = ap (λ k. claim r ∷ k) (claims_append l)

  pub store_network-Keeps :
      (n : Network) → Keeps E (InPlan) (λ d. CanJoin n (S.rows d)) (store_network E n) (λ i d. Unit)
  unfolding store_network InPlan
  store_network-Keeps n = record {
    keeps = λ s plan j.
        after s (E.database.create_network n s.db).0 (E.database.create_network n s.db).1
          (λ i e. S.inserted n s.db i e) (λ x e. S.refused n s.db x e) plan j;
  }
    where
      after :
          (s : Server E) (r : Outcome Str ℕ) (d : E.database.Db)
          → ((i : ℕ)
              → r ≡ ok i
              → (S.rows d ≡ S.rows s.db ++ record n { id = i } ∷ [])
                × All (λ (m : Network). m.id ≢ i) (S.rows s.db))
          → ((x : Str) → r ≡ err x → S.rows d ≡ S.rows s.db)
          → InPlan s.db
          → CanJoin n (S.rows s.db)
          → let s' : Server E = record s { db = d } in
            let v : Outcome Reply ℕ × Server E = elim r [
              | ok id ↦ (ok id, s')
              | err x ↦ (err internal_error, drop_interface E n.interface s')
            ] in
            Holds E (InPlan) (λ i e. Unit) v.0 v.1.db
      after s (ok i) d h k plan j =
          let (added, fresh) = h i refl in
          (
            subst (λ l. Planned E.parsers (claims l)) (sym added)
                (joined n i (S.rows s.db) j fresh plan),
            tt,
          )
      after s (err x) d h k plan j =
          subst (InPlan) (sym (drop_interface_quiet E n.interface (record s { db = d })))
            (subst (λ l. Planned E.parsers (claims l)) (sym (k x refl)) plan)
