-- ===== src/Server/Validate/Tests.antt =====
-- The checks of requests of internal/server/routes_networks.go on one text.
use wgpilot.Base.{ℕ, ◌+◌, ◌≤◌, ◌<◌, ◌≡◌, refl, subst, str_eq, arith, Bool-cases, inl, inr}
use wgpilot.IpAlloc.{Subnet, word, contains, mask, block}
use wgpilot.Server.Example.{lan, wide, lan_text, wide_text, parse_example, example_parsers}
use wgpilot.Server.Validate.{is_valid_private_cidr, is_private_net, is_private_address}
use wgpilot.Server.Validate.Private.{Masks, InPrivateRange, is_valid_private_cidr_sound}

abbrev Masked : ℕ → Subnet → Type 0
Masked a n = (n.ip ≡ mask n.ones a) × ((n.ones ≤ 32) × (a < word))

masked : (b : ℕ) (m : Subnet) (a : ℕ) (n : Subnet) → Masked b m → b ≡ a → m ≡ n → Masked a n
masked b m a n h p q = subst (λ c. Masked c n) p (subst (Masked b) q h)

example-Masks : Masks example_parsers
unfolding parse_example
example-Masks s a n e = elim (Bool-cases (str_eq s lan_text)) [
  | inl p ↦
      masked lan.ip lan a n (unfold mask in unfold block in (refl, (omega arith, omega arith)))
        (ground arith) (ground arith)
  | inr p ↦ elim (Bool-cases (str_eq s wide_text)) [
    | inl q ↦
        masked wide.ip wide a n (unfold mask in unfold block in (refl, (omega arith, omega arith)))
          (ground arith) (ground arith)
    | inr q ↦ absurd (ground arith)
  ]
]

is_valid_private_cidr_sound_example : InPrivateRange (lan.ip + 7)
unfolding parse_example is_valid_private_cidr is_private_net is_private_address str_eq contains mask
    block
is_valid_private_cidr_sound_example =
    is_valid_private_cidr_sound example_parsers lan_text lan.ip (lan.ip + 7) lan example-Masks refl
      refl refl
