-- ===== src/Nft/Manager/Sync.antt =====
-- The rules in memory beside the table in the kernel: the manager of internal/nft/manager.go over
-- the applier of internal/nft/applier.go.
use wgpilot.Base.{
  ◌≡◌, refl, sym, ap, ◌∙◌, ◌↔◌, Option, none, some, List, [], ◌∷◌, ◌++◌, Str, bytes, Member, ◌⊎◌,
  inl, inr,
}
use wgpilot.Base.Dict.{Dict, lookup, Member-values_of_lookup, lookup_of_Member}
use wgpilot.Nft.Rules.{Rule}
use wgpilot.Nft.Netlink.{
  Netlink, Failure, not_connected, not_listed, not_deleted, not_flushed, apply_rules,
}
use wgpilot.Nft.Netlink.Batch.{Loaded, wanted}
use wgpilot.Nft.Netlink.Tables.{Loads, outcome_table, left, apply_rules-table}
use wgpilot.Nft.Manager.{restore, Applier, RangeOrder, State, Op, step, run}
use wgpilot.Nft.Manager.Table.{
  IsTable, Change, Change-IsTable, lookup-restore-Change, step_cases, commit, commit_cases,
  step-IsTable,
}

-- The wrapped errors of `Apply`.
unfoldable pub message : Failure → Str
message (not_connected e) = bytes "nftables connect: " ++ e
message (not_listed e) = bytes "nftables list tables: " ++ e
message (not_deleted e) = bytes "nftables delete table: " ++ e
message (not_flushed e) = bytes "nftables flush: " ++ e

abbrev pub error_of : Option Failure → Option Str
error_of none = none
error_of (some f) = some (message f)

-- `nftApplier`: its method `Apply`, which keeps no state of its own.
abbrev pub nft_applier : Netlink → Applier
nft_applier N = record {
  Kernel = N.World;
  apply = λ rs w. (error_of (apply_rules N rs w).0, (apply_rules N rs w).1);
}

-- The list has exactly the rules that the table finds.
abbrev pub Same : List Rule → Dict Rule → Type 0
Same rs m = (r : Rule) → Member r rs ↔ ((k : Str) × (lookup k m ≡ some r))

module _ (N : Netlink) (L : Loads N) (O : RangeOrder) where
  -- The table of the kernel is the one for the rules in memory, in some order.
  abbrev pub Installed : State (nft_applier N) → Type 0
  Installed st = (rs : List Rule) × (L.table st.kernel ≡ wanted rs) × Same rs st.rules

  -- That, or a refused last flush has left no table.
  abbrev pub InSync : State (nft_applier N) → Type 0
  InSync st = Installed st ⊎ (L.table st.kernel ≡ none)

  accepted_table :
      (rs : List Rule) (w w' : N.World)
      → (nft_applier N).apply rs w ≡ (none, w')
      → L.table w' ≡ wanted rs
  accepted_table rs w w' h =
      after (apply_rules N rs w).0 (apply_rules-table N L rs w) (ap (λ r. r.0) h) (ap (λ r. r.1) h)
    where
      after :
          (e : Option Failure)
          → L.table (apply_rules N rs w).1 ≡ outcome_table N L e (wanted rs) (L.table w)
          → error_of e ≡ none
          → (apply_rules N rs w).1 ≡ w'
          → L.table w' ≡ wanted rs
      after none t z k = ap L.table (sym k) ∙ t
      after (some f) t z k = cc

  -- What a failure leaves: the old table, or none.
  left_cases : (f : Failure) (old v : Option Loaded) → v ≡ left f old → (v ≡ old) ⊎ (v ≡ none)
  left_cases (not_connected e) old v h = inl h
  left_cases (not_listed e) old v h = inl h
  left_cases (not_deleted e) old v h = inl h
  left_cases (not_flushed e) old v h = inr h

  refused_table :
      (rs : List Rule) (w w' : N.World) (s : Str)
      → (nft_applier N).apply rs w ≡ (some s, w')
      → (L.table w' ≡ L.table w) ⊎ (L.table w' ≡ none)
  refused_table rs w w' s h =
      after (apply_rules N rs w).0 (apply_rules-table N L rs w) (ap (λ r. r.0) h) (ap (λ r. r.1) h)
    where
      after :
          (e : Option Failure)
          → L.table (apply_rules N rs w).1 ≡ outcome_table N L e (wanted rs) (L.table w)
          → error_of e ≡ some s
          → (apply_rules N rs w).1 ≡ w'
          → (L.table w' ≡ L.table w) ⊎ (L.table w' ≡ none)
      after none t z k = cc
      after (some f) t z k = left_cases f (L.table w) (L.table w') (ap L.table (sym k) ∙ t)

  visited : (m : Dict Rule) → IsTable m → Same (O.visit m) m
  visited m t r =
      let order = O.visit_iff r m in
      (
        λ i. lookup_of_Member r m t.distinct (order.0 i),
        λ (j, found). order.1 (Member-values_of_lookup j r m found),
      )

  commit-InSync :
      (k : Str) (m' : Dict Rule) (st : State (nft_applier N))
      → Change st.rules k m'
      → IsTable st.rules
      → InSync st
      → InSync (commit (nft_applier N) O k m' st).1
  commit-InSync k m' st c t s =
      commit_cases (nft_applier N) O (λ x. InSync x.1) k m' st
        (λ g h. inl (O.visit m', accepted_table _ _ _ h, visited m' (Change-IsTable c t)))
        (λ g e h. kept g (refused_table _ _ _ e h) s)
    where
      kept :
          (g : N.World)
          → (L.table g ≡ L.table st.kernel) ⊎ (L.table g ≡ none)
          → InSync st
          → InSync (record { rules = restore k (lookup k st.rules) m'; kernel = g })
      kept g (inr lost) s = inr lost
      kept g (inl same) (inr lost) = inr (same ∙ lost)
      kept g (inl same) (inl (rs, e, each)) = inl (
        rs,
        same ∙ e,
        λ r. (
          λ i. let (j, found) = (each r).0 i in (j, rw (lookup-restore-Change c j) found),
          λ (j, found). (each r).1 (j, rw (lookup-restore-Change c j) at found),
        ),
      )

  pub step-InSync :
      (op : Op) (st : State (nft_applier N))
      → IsTable st.rules
      → InSync st
      → InSync (step (nft_applier N) O op st).1
  step-InSync op st t s =
      step_cases (nft_applier N) O (λ x. InSync x.1) op st s (λ d. s)
        λ k m' c. commit-InSync k m' st c t s

  -- Over a kernel that treats the table as `Loads` says, after any history of calls, failed ones
  -- included: the table in the kernel is the one for exactly the rules in memory, or there is no
  -- table.
  pub run-InSync :
      (ops : List Op) (st : State (nft_applier N))
      → IsTable st.rules
      → InSync st
      → InSync (run (nft_applier N) O ops st)
  unfolding run
  run-InSync [] st t s = s
  run-InSync (op ∷ ops) st t s =
      run-InSync ops (step (nft_applier N) O op st).1 (step-IsTable (nft_applier N) O op st t)
        (step-InSync op st t s)

  -- Over the same kernel, also where a failed call has left no table before: a call that succeeds
  -- leaves the rules in memory as they were, or puts exactly the rules in memory into the kernel.
  pub step-Installed :
      (op : Op) (st : State (nft_applier N))
      → IsTable st.rules
      → (step (nft_applier N) O op st).0 ≡ none
      → ((step (nft_applier N) O op st).1.rules ≡ st.rules)
        ⊎ Installed (step (nft_applier N) O op st).1
  step-Installed op st t =
      step_cases (nft_applier N) O (λ x. x.0 ≡ none → (x.1.rules ≡ st.rules) ⊎ Installed x.1) op st
        (λ h. inl refl) (λ d h. cc)
        λ k m' c.
          commit_cases (nft_applier N) O (λ x. x.0 ≡ none → (x.1.rules ≡ st.rules) ⊎ Installed x.1)
            k m' st
            (λ g h _. inr (O.visit m', accepted_table _ _ _ h, visited m' (Change-IsTable c t)))
            (λ g e h z. cc)
