-- ===== src/Nft/Netlink/Tables.antt =====
-- The table in the kernel after Apply (internal/nft/applier.go).
use wgpilot.Base.{
  ◌≡◌, refl, ◌∙◌, arith, Bool, true, false, Option, none, some, List, [], ◌∷◌, ◌++◌, keep, Str,
  if◌then◌else◌, Bool-cases, inl, inr,
}
use wgpilot.Wg.Types.{Outcome, ok, err}
use wgpilot.Nft.Rules.{Rule}
use wgpilot.Nft.Netlink.{
  Expr, Chain, input, postrouting, forward, Message, del_table, add_table, add_chain, add_rule,
  add_rules, each_rule, fill_chain, udp_input_exprs, masquerade_exprs, build_forward_exprs,
  is_input, is_nat, is_forward, Table, Netlink, Failure, not_connected, not_listed, not_deleted,
  not_flushed, batch, is_ours, send, delete_existing, install, apply_rules,
}
use wgpilot.Nft.Netlink.Batch.{Loaded, added, wanted, added-batch}

-- Is the table of the program among those listed?
unfoldable pub any_ours : List Table → Bool
any_ours [] = false
any_ours (t ∷ ts) = if is_ours t then true else any_ours ts

-- Messages that add chains and rules only.
unfoldable pub Adds : List Message → Type 0
Adds [] = Unit
Adds (del_table ∷ ms) = ⊥
Adds (add_table ∷ ms) = ⊥
Adds (add_chain c ∷ ms) = Adds ms
Adds (add_rule c es ∷ ms) = Adds ms

Adds-append : (xs ys : List Message) → Adds xs → Adds ys → Adds (xs ++ ys)
unfolding Adds
Adds-append [] ys hx hy = hy
Adds-append (del_table ∷ xs) ys hx hy = absurd hx
Adds-append (add_table ∷ xs) ys hx hy = absurd hx
Adds-append (add_chain c ∷ xs) ys hx hy = Adds-append xs ys hx hy
Adds-append (add_rule c es ∷ xs) ys hx hy = Adds-append xs ys hx hy

Adds-add_rules : (c : Chain) (ess : List (List Expr)) → Adds (add_rules c ess)
unfolding Adds add_rules
Adds-add_rules c [] = tt
Adds-add_rules c (es ∷ ess) = Adds-add_rules c ess

Adds-each_rule :
    (c : Chain) (exprs : Rule → List (List Expr)) (rs : List Rule) → Adds (each_rule c exprs rs)
unfolding each_rule
Adds-each_rule c exprs [] = unfold Adds in tt
Adds-each_rule c exprs (r ∷ rs) =
    Adds-append (add_rules c (exprs r)) _ (Adds-add_rules c (exprs r)) (Adds-each_rule c exprs rs)

Adds-fill_chain :
    (c : Chain) (exprs : Rule → List (List Expr)) (rs : List Rule) → Adds (fill_chain c exprs rs)
unfolding Adds fill_chain
Adds-fill_chain c exprs [] = tt
Adds-fill_chain c exprs (r ∷ rs) = Adds-each_rule c exprs (r ∷ rs)

-- The messages behind the table in a batch.
chains-Adds :
    (rules : List Rule)
    → Adds (
        fill_chain input (λ r. udp_input_exprs r.port ∷ []) (keep is_input rules)
        ++ (fill_chain postrouting (λ r. masquerade_exprs r.iface ∷ []) (keep is_nat rules)
            ++ fill_chain forward build_forward_exprs (keep is_forward rules)))
chains-Adds rules =
    let ports = λ (r : Rule). udp_input_exprs r.port ∷ [] in
    let masquerades = λ (r : Rule). masquerade_exprs r.iface ∷ [] in
    Adds-append (fill_chain input ports (keep is_input rules)) _
      (Adds-fill_chain input ports (keep is_input rules))
      (Adds-append (fill_chain postrouting masquerades (keep is_nat rules)) _
        (Adds-fill_chain postrouting masquerades (keep is_nat rules))
        (Adds-fill_chain forward build_forward_exprs (keep is_forward rules)))

-- What the applier relies on, `table` being the program's table, `none` if there is none: the list
-- shows it, a deletion leaves none, a batch into no table loads what it adds, and a batch that is
-- refused changes nothing.
pub record Loads (N : Netlink) : Type 0 where
  pub table : N.World → Option Loaded
  pub listed :
      (w : N.World) (ts : List Table)
      → N.list_tables w ≡ ok ts
      → any_ours ts ≡ elim (table w) [ none ↦ false | some l ↦ true ]
  pub deleted :
      (w : N.World)
      → (N.flush (del_table ∷ []) w).0 ≡ none
      → table (N.flush (del_table ∷ []) w).1 ≡ none
  pub loaded :
      (w : N.World) (ms : List Message)
      → Adds ms
      → table w ≡ none
      → (N.flush (add_table ∷ ms) w).0 ≡ none
      → table (N.flush (add_table ∷ ms) w).1 ≡ some (added ms)
  pub refused :
      (w : N.World) (ms : List Message) (e : Str)
      → (N.flush ms w).0 ≡ some e
      → table (N.flush ms w).1 ≡ table w

-- What a failure leaves of the table: a last flush that is refused leaves none.
abbrev pub left : Failure → Option Loaded → Option Loaded
left (not_connected e) old = old
left (not_listed e) old = old
left (not_deleted e) old = old
left (not_flushed e) old = none

module _ (N : Netlink) (L : Loads N) where
  -- How the table stands after a step that may fail.
  abbrev pub outcome_table : Option Failure → Option Loaded → Option Loaded → Option Loaded
  outcome_table none new old = new
  outcome_table (some f) new old = left f old

  send-table :
      (wrap : Str → Failure) (ms : List Message) (w : N.World) (new old : Option Loaded)
      → ((N.flush ms w).0 ≡ none → L.table (N.flush ms w).1 ≡ new)
      → ((e : Str) → L.table w ≡ left (wrap e) old)
      → L.table (send N wrap ms w).1 ≡ outcome_table (send N wrap ms w).0 new old
  send-table wrap ms w new old done failed = after (N.flush ms w).0 refl
    where
      after :
          (e : Option Str)
          → (N.flush ms w).0 ≡ e
          → let r : Option Failure × N.World = elim e [
            | none ↦ (none, (N.flush ms w).1)
            | some s ↦ (some (wrap s), (N.flush ms w).1)
          ] in
            L.table r.1 ≡ outcome_table r.0 new old
      after none h = done h
      after (some s) h = L.refused w ms s h ∙ failed s

  delete_existing-ours :
      (ts : List Table) (w : N.World)
      → any_ours ts ≡ true
      → L.table (delete_existing N ts w).1
        ≡ outcome_table (delete_existing N ts w).0 none (L.table w)
  unfolding delete_existing any_ours
  delete_existing-ours [] w h = cc
  delete_existing-ours (t ∷ ts) w h = elim (Bool-cases (is_ours t)) [
    | inl e ↦
        rw e (send-table not_deleted (del_table ∷ []) w none (L.table w) (L.deleted w) (λ s. refl))
    | inr e ↦ let rest : any_ours ts ≡ true = ground arith in rw e (delete_existing-ours ts w rest)
  ]

  delete_existing-none :
      (ts : List Table) (w : N.World) → any_ours ts ≡ false → delete_existing N ts w ≡ (none, w)
  unfolding delete_existing any_ours
  delete_existing-none [] w h = refl
  delete_existing-none (t ∷ ts) w h = ground (arith, delete_existing-none ts w)

  delete_existing-table :
      (ts : List Table) (w : N.World)
      → N.list_tables w ≡ ok ts
      → L.table (delete_existing N ts w).1
        ≡ outcome_table (delete_existing N ts w).0 none (L.table w)
  delete_existing-table ts w h = elim (Bool-cases (any_ours ts)) [
    | inl e ↦ delete_existing-ours ts w e
    | inr e ↦
        let empty : L.table w ≡ none = ground (arith, L.listed w ts h) in
        rw (delete_existing-none ts w e) empty
  ]

  install-table :
      (rules : List Rule) (w : N.World) (old : Option Loaded)
      → L.table w ≡ none
      → L.table (install N rules w).1 ≡ outcome_table (install N rules w).0 (wanted rules) old
  unfolding install batch added wanted
  install-table [] w old h = unfold wanted in h
  install-table (r ∷ rs) w old h =
      send-table not_flushed (batch (r ∷ rs)) w (wanted (r ∷ rs)) old
        (λ e. L.loaded w _ (chains-Adds (r ∷ rs)) h e ∙ added-batch r rs) (λ s. h)

  -- Over a kernel that treats the table as `Loads` says: Apply that succeeds leaves the table with
  -- exactly the kernel rules of the given rules, chain by chain and in their order, and leaves no
  -- table if there are none. If it fails, the old table is there as it was, except when the last
  -- flush fails: then there is no table.
  pub apply_rules-table :
      (rules : List Rule) (w : N.World)
      → L.table (apply_rules N rules w).1
        ≡ outcome_table (apply_rules N rules w).0 (wanted rules) (L.table w)
  unfolding apply_rules
  apply_rules-table rules w = connected (N.connect w)
    where
      installed :
          (e : Option Failure) (w' : N.World)
          → L.table w' ≡ outcome_table e none (L.table w)
          → let r : Option Failure × N.World = elim e [
            | some f ↦ (some f, w')
            | none ↦ install N rules w'
          ] in
            L.table r.1 ≡ outcome_table r.0 (wanted rules) (L.table w)
      installed none w' h = install-table rules w' (L.table w) h
      installed (some f) w' h = h

      listed :
          (r : Outcome Str (List Table))
          → N.list_tables w ≡ r
          → let v : Option Failure × N.World = elim r [
            | err e ↦ (some (not_listed e), w)
            | ok ts ↦ elim (delete_existing N ts w).0 [
              | some f ↦ (some f, (delete_existing N ts w).1)
              | none ↦ install N rules (delete_existing N ts w).1
            ]
          ] in
            L.table v.1 ≡ outcome_table v.0 (wanted rules) (L.table w)
      listed (err e) h = refl
      listed (ok ts) h = installed _ _ (delete_existing-table ts w h)

      connected :
          (c : Option Str)
          → let v : Option Failure × N.World = elim c [
            | some e ↦ (some (not_connected e), w)
            | none ↦ elim (N.list_tables w) [
              | err e ↦ (some (not_listed e), w)
              | ok ts ↦ elim (delete_existing N ts w).0 [
                | some f ↦ (some f, (delete_existing N ts w).1)
                | none ↦ install N rules (delete_existing N ts w).1
              ]
            ]
          ] in
            L.table v.1 ≡ outcome_table v.0 (wanted rules) (L.table w)
      connected (some e) = refl
      connected none = listed (N.list_tables w) refl
