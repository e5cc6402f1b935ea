-- ===== src/Nft/Manager/Table/Accepted.antt =====
-- The methods of internal/nft/manager.go over a kernel that accepts every rule set.
use wgpilot.Base.{◌≡◌, refl, none, true, false, Str, List}
use wgpilot.Base.Dict.{Dict}
use wgpilot.Nft.Rules.{Rule, valid_direction}
use wgpilot.Nft.Manager.{
  Applier, RangeOrder, State, Op, add_nat, remove_nat, enable_forwarding, disable_forwarding,
  add_bridge, remove_bridge, open_port, close_port, step, add_nat_masquerade, remove_nat_masquerade,
  enable_inter_peer_forwarding, disable_inter_peer_forwarding, remove_network_bridge, open_udp_port,
  close_udp_port, add_network_bridge, replace,
}
use wgpilot.Nft.Manager.Table.{commit, commit_cases, add_once_cases, remove_once_cases}

abbrev pub AcceptsAll : Applier → Type 0
AcceptsAll A = (rs : List Rule) (g : A.Kernel) → (A.apply rs g).0 ≡ none

-- Not a bridge, whose direction may be refused before the kernel is asked.
abbrev pub NoNewBridge : Op → Type 0
NoNewBridge (add_bridge a b d) = ⊥
NoNewBridge _ = Unit

module _ (A : Applier) (O : RangeOrder) (all : AcceptsAll A) where
  commit_accepted : (k : Str) (m' : Dict Rule) (st : State A) → (commit A O k m' st).0 ≡ none
  commit_accepted k m' st =
      commit_cases A O (λ r. r.0 ≡ none) k m' st (λ g e. refl)
        λ g e h. cc (h, all (O.visit m') st.kernel)

  pub step_accepted : (op : Op) (st : State A) → NoNewBridge op → (step A O op st).0 ≡ none
  unfolding step
  step_accepted (add_nat i s) st _ =
      unfold add_nat_masquerade in
      add_once_cases A O (λ r. r.0 ≡ none) _ st refl λ k m' c. commit_accepted k m' st
  step_accepted (remove_nat i) st _ =
      unfold remove_nat_masquerade in
      remove_once_cases A O (λ r. r.0 ≡ none) _ st refl λ k m' c. commit_accepted k m' st
  step_accepted (enable_forwarding i) st _ =
      unfold enable_inter_peer_forwarding in
      add_once_cases A O (λ r. r.0 ≡ none) _ st refl λ k m' c. commit_accepted k m' st
  step_accepted (disable_forwarding i) st _ =
      unfold disable_inter_peer_forwarding in
      remove_once_cases A O (λ r. r.0 ≡ none) _ st refl λ k m' c. commit_accepted k m' st
  step_accepted (add_bridge a b d) st h = absurd h
  step_accepted (remove_bridge a b) st _ =
      unfold remove_network_bridge in
      remove_once_cases A O (λ r. r.0 ≡ none) _ st refl λ k m' c. commit_accepted k m' st
  step_accepted (open_port p) st _ =
      unfold open_udp_port in
      add_once_cases A O (λ r. r.0 ≡ none) _ st refl λ k m' c. commit_accepted k m' st
  step_accepted (close_port p) st _ =
      unfold close_udp_port in
      remove_once_cases A O (λ r. r.0 ≡ none) _ st refl λ k m' c. commit_accepted k m' st

  pub add_bridge_accepted :
      (a b d : Str) (st : State A)
      → valid_direction d ≡ true
      → (step A O (add_bridge a b d) st).0 ≡ none
  unfolding step add_network_bridge replace
  add_bridge_accepted a b d st good = rw good (commit_accepted _ _ st)

pub refused_direction :
    (A : Applier) (O : RangeOrder) (a b d : Str) (st : State A)
    → valid_direction d ≡ false
    → (add_network_bridge A O a b d st).1 ≡ st
unfolding add_network_bridge
refused_direction A O a b d st wrong = rw wrong refl
