-- ===== src/Nft/Manager/Table.antt =====
-- The rule table in memory: every rule stands under its own key, and a failed call changes nothing.
pub mod Accepted
use wgpilot.Base.{
  ◌≡◌, refl, Option, none, some, arith, Str, str_eq, str_eq_iff, if◌then◌else◌, Option-cases,
  Bool-cases, inl, inr, false, ◌∙◌,
}
use wgpilot.Base.Dict.{
  Dict, lookup, insert, delete, lookup-insert, lookup-delete, Distinct, insert-Distinct,
  delete-Distinct,
}
use wgpilot.Nft.Rules.{Rule, rule_key, valid_direction}
use wgpilot.Nft.Manager.{
  Applier, RangeOrder, State, Error, invalid_direction, apply_failed, Op, add_nat, remove_nat,
  enable_forwarding, disable_forwarding, add_bridge, remove_bridge, open_port, close_port, restore,
  apply, settle, add_once, remove_once, replace, add_nat_masquerade, remove_nat_masquerade,
  enable_inter_peer_forwarding, disable_inter_peer_forwarding, add_network_bridge,
  remove_network_bridge, open_udp_port, close_udp_port, step,
}

-- No key occurs twice, and a rule is found only under the key that `ruleKey` gives it.
pub record IsTable (rules : Dict Rule) : Type 0 where
  pub distinct : Distinct rules
  pub keyed : (k : Str) (r : Rule) → lookup k rules ≡ some r → rule_key r ≡ k

insert-IsTable : (r : Rule) (m : Dict Rule) → IsTable m → IsTable (insert (rule_key r) r m)
insert-IsTable r m t = record {
  distinct = insert-Distinct (rule_key r) r m t.distinct;
  keyed = λ k q e.
      ground (arith, lookup-insert (rule_key r) k r m, str_eq_iff (rule_key r) k, t.keyed k q);
}

delete-IsTable : (k : Str) (m : Dict Rule) → IsTable m → IsTable (delete k m)
delete-IsTable k m t = record {
  distinct = delete-Distinct k m t.distinct;
  keyed = λ j q e. ground (arith, lookup-delete k j m, t.keyed j q);
}

pub lookup-restore :
    (key j : Str) (old : Option Rule) (m : Dict Rule)
    → lookup j (restore key old m) ≡ (if str_eq key j then old else lookup j m)
unfolding restore
lookup-restore key j none m = lookup-delete key j m
lookup-restore key j (some old) m = lookup-insert key j old m

restore-IsTable :
    (key : Str) (m : Dict Rule) (old : Option Rule)
    → ((r : Rule) → old ≡ some r → rule_key r ≡ key)
    → IsTable m
    → IsTable (restore key old m)
unfolding restore
restore-IsTable key m none own t = delete-IsTable key m t
restore-IsTable key m (some old) own t = rw (← own old refl) (insert-IsTable old m t)

-- What an operation may do to the table: assign a rule to its key, or delete a key.
pub data Change (m : Dict Rule) : Str → Dict Rule → Type 0 where
  put : (r : Rule) → Change m (rule_key r) (insert (rule_key r) r m)
  drop : (k : Str) → Change m k (delete k m)

pub Change-IsTable :
    {m : Dict Rule} {k : Str} {m' : Dict Rule} → Change m k m' → IsTable m → IsTable m'
Change-IsTable {m} (put r) t = insert-IsTable r m t
Change-IsTable {m} (drop k) t = delete-IsTable k m t

pub Change-lookup :
    {m : Dict Rule} {k : Str} {m' : Dict Rule}
    → Change m k m'
    → (j : Str) → str_eq k j ≡ false
    → lookup j m' ≡ lookup j m
Change-lookup {m} (put r) j h = lookup-insert (rule_key r) j r m ∙ rw h
Change-lookup {m} (drop k) j h = lookup-delete k j m ∙ rw h

-- A failed change that is restored leaves every lookup as it was.
pub lookup-restore-Change :
    {m : Dict Rule} {k : Str} {m' : Dict Rule}
    → Change m k m'
    → (j : Str) → lookup j (restore k (lookup k m) m') ≡ lookup j m
lookup-restore-Change {m} {k} {m'} c j = elim (Bool-cases (str_eq k j)) [
  | inl same ↦ ground (arith, lookup-restore k j (lookup k m) m', str_eq_iff k j)
  | inr other ↦ ground (arith, lookup-restore k j (lookup k m) m', Change-lookup c j other)
]

module _ (A : Applier) (O : RangeOrder) where
  -- The changed table is sent to the kernel, and the old entry comes back if that fails.
  abbrev pub commit : Str → Dict Rule → State A → Option Error × State A
  commit key m' st = settle A O key (lookup key st.rules) (apply A O (record st { rules = m' }))

  -- What holds where an operation changes nothing, and of every change that it may send to the
  -- kernel, holds of the operation.
  add_once_cases {ℓ} :
      (P : Option Error × State A → Type ℓ) (r : Rule) (st : State A)
      → P (none, st)
      → ((k : Str) (m' : Dict Rule) → Change st.rules k m' → P (commit k m' st))
      → P (add_once A O r st)
  unfolding add_once
  add_once_cases P r st idle change = elim (Option-cases (lookup (rule_key r) st.rules)) [
    | inl e ↦ rw (e, add_once) (rw e at (change (rule_key r) _ (put r)))
    | inr (old, e) ↦ rw (e, add_once) idle
  ]

  remove_once_cases {ℓ} :
      (P : Option Error × State A → Type ℓ) (k : Str) (st : State A)
      → P (none, st)
      → ((k : Str) (m' : Dict Rule) → Change st.rules k m' → P (commit k m' st))
      → P (remove_once A O k st)
  unfolding remove_once
  remove_once_cases P k st idle change = elim (Option-cases (lookup k st.rules)) [
    | inl e ↦ rw (e, remove_once) idle
    | inr (old, e) ↦ rw (e, remove_once) (rw e at (change k _ (drop k)))
  ]

  add_bridge_cases {ℓ} :
      (P : Option Error × State A → Type ℓ) (a b d : Str) (st : State A)
      → P (some (invalid_direction d), st)
      → ((k : Str) (m' : Dict Rule) → Change st.rules k m' → P (commit k m' st))
      → P (add_network_bridge A O a b d st)
  unfolding add_network_bridge replace
  add_bridge_cases P a b d st bad change = elim (Bool-cases (valid_direction d)) [
    | inl good ↦ rw good (change _ _ (put _))
    | inr wrong ↦ rw wrong bad
  ]

  pub step_cases {ℓ} :
      (P : Option Error × State A → Type ℓ) (op : Op) (st : State A)
      → P (none, st)
      → ((d : Str) → P (some (invalid_direction d), st))
      → ((k : Str) (m' : Dict Rule) → Change st.rules k m' → P (commit k m' st))
      → P (step A O op st)
  unfolding step
  step_cases P (add_nat i s) st idle bad change =
      unfold add_nat_masquerade in add_once_cases P _ st idle change
  step_cases P (remove_nat i) st idle bad change =
      unfold remove_nat_masquerade in remove_once_cases P _ st idle change
  step_cases P (enable_forwarding i) st idle bad change =
      unfold enable_inter_peer_forwarding in add_once_cases P _ st idle change
  step_cases P (disable_forwarding i) st idle bad change =
      unfold disable_inter_peer_forwarding in remove_once_cases P _ st idle change
  step_cases P (add_bridge a b d) st idle bad change = add_bridge_cases P a b d st (bad d) change
  step_cases P (remove_bridge a b) st idle bad change =
      unfold remove_network_bridge in remove_once_cases P _ st idle change
  step_cases P (open_port p) st idle bad change =
      unfold open_udp_port in add_once_cases P _ st idle change
  step_cases P (close_port p) st idle bad change =
      unfold close_udp_port in remove_once_cases P _ st idle change

  -- `settle` on the two answers that `apply` may give.
  pub commit_cases {ℓ} :
      (P : Option Error × State A → Type ℓ) (k : Str) (m' : Dict Rule) (st : State A)
      → ((g : A.Kernel)
          → A.apply (O.visit m') st.kernel ≡ (none, g)
          → P (none, record { rules = m'; kernel = g }))
      → ((g : A.Kernel) (e : Str)
          → A.apply (O.visit m') st.kernel ≡ (some e, g)
          → P (
            some (apply_failed e),
            record { rules = restore k (lookup k st.rules) m'; kernel = g },
          ))
      → P (commit k m' st)
  unfolding settle apply
  commit_cases P k m' st accepted refused =
      let (e, g) = A.apply (O.visit m') st.kernel in go e g refl
    where
      go :
          (e : Option Str) (g : A.Kernel)
          → A.apply (O.visit m') st.kernel ≡ (e, g)
          → P (settle A O k (lookup k st.rules) (apply A O (record st { rules = m' })))
      go none g h = rw h (accepted g h)
      go (some e) g h = rw h (refused g e h)

  commit-IsTable :
      (k : Str) (m' : Dict Rule) (st : State A)
      → Change st.rules k m'
      → IsTable st.rules
      → IsTable (commit k m' st).1.rules
  commit-IsTable k m' st c t =
      commit_cases (λ r. IsTable r.1.rules) k m' st (λ g h. Change-IsTable c t)
        λ g e h. restore-IsTable k m' _ (t.keyed k) (Change-IsTable c t)

  -- Every operation, whatever the kernel answers, keeps each rule under its own key, and no key
  -- twice.
  pub step-IsTable : (op : Op) (st : State A) → IsTable st.rules → IsTable (step A O op st).1.rules
  step-IsTable op st t =
      step_cases (λ r. IsTable r.1.rules) op st t (λ d. t) λ k m' c. commit-IsTable k m' st c t

  -- An operation that returns an error leaves what is found under every key as it was.
  pub step_error_unchanged :
      (op : Op) (st : State A) (e : Error) (j : Str)
      → (step A O op st).0 ≡ some e
      → lookup j (step A O op st).1.rules ≡ lookup j st.rules
  step_error_unchanged op st e j =
      step_cases (λ r. r.0 ≡ some e → lookup j r.1.rules ≡ lookup j st.rules) op st (λ h. refl)
        (λ d h. refl)
        λ k m' c.
          commit_cases (λ r. r.0 ≡ some e → lookup j r.1.rules ≡ lookup j st.rules) k m' st
            (λ g _ h. cc) λ g _ _ _. lookup-restore-Change c j
