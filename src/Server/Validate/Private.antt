-- ===== src/Server/Validate/Private.antt =====
-- What isValidPrivateCIDR of internal/server/routes_networks.go lets through.
use native.Mathlib.Nat.{mul_assoc, mul-add}
use wgpilot.Base.{
  ℕ, ◌+◌, ◌-◌, ◌*◌, ◌/◌, ◌^◌, ◌≤◌, ◌<◌, ◌≡◌, refl, ap, subst, ◌∙◌, ◌⊎◌, true, false, Option, none,
  some, Str, arith,
}
use wgpilot.Base.Arith.{cut_below, cut_above}
use wgpilot.IpAlloc.{Subnet, word, block, mask, contains}
use wgpilot.IpAlloc.Addresses.{
  network, contains_iff, mask_mul, mask_idem, mask_bounds, block_split, block_sixteen,
}
use wgpilot.Wg.Nets.{Net, v4, v6}
use wgpilot.Server.Types.{Ip, ip4, ip6, Parsers}
use wgpilot.Server.Validate.{is_private_address, is_private_net, is_valid_private_cidr}

-- 10.0.0.0/8, 172.16.0.0/12 and 192.168.0.0/16, as intervals.
abbrev pub InPrivateRange : ℕ → Type 0
InPrivateRange x =
    ((10 * 2 ^ 24 ≤ x) × (x < 11 * 2 ^ 24))
    ⊎ (((172 * 2 ^ 24 + 16 * 2 ^ 16 ≤ x) × (x < 172 * 2 ^ 24 + 32 * 2 ^ 16))
        ⊎ ((192 * 2 ^ 24 + 168 * 2 ^ 16 ≤ x) × (x < 192 * 2 ^ 24 + 169 * 2 ^ 16)))

-- What ParseCIDR documents for an IPv4 text: the network is the address with the host bits cleared.
abbrev pub Masks : Parsers → Type 0
Masks P =
    (s : Str) (a : ℕ) (n : Subnet)
    → P.parse_cidr s ≡ some (ip4 a, v4 n)
    → (n.ip ≡ mask n.ones a) × ((n.ones ≤ 32) × (a < word))

is_private_address_range :
    (a x : ℕ) → is_private_address a ≡ true → a / 2 ^ 16 ≡ x / 2 ^ 16 → InPrivateRange x
unfolding is_private_address
is_private_address_range a x h e = ground arith

private_net_cases :
    (a : ℕ) (n : Subnet)
    → is_private_net (ip4 a) (v4 n) ≡ true
    → (16 ≤ n.ones) × (n.ones ≤ 30) × (is_private_address a ≡ true)
unfolding is_private_net
private_net_cases a n t = ground arith

-- A text that the check accepts is an IPv4 network with a prefix of 16 to 30 bits.
pub accepted_cidr :
    (P : Parsers) (s : Str)
    → is_valid_private_cidr P s ≡ true
    → (a : ℕ) × (n : Subnet) × (P.parse_cidr s ≡ some (ip4 a, v4 n)) × (16 ≤ n.ones) × (n.ones ≤ 30)
unfolding is_valid_private_cidr is_private_net
accepted_cidr P s h = after (P.parse_cidr s) refl h
  where
    after :
        (r : Option (Ip × Net))
        → P.parse_cidr s ≡ r
        → (elim r [ none ↦ false | some v ↦ is_private_net v.0 v.1 ]) ≡ true
        → (a : ℕ) × (n : Subnet) × (P.parse_cidr s ≡ some (ip4 a, v4 n))
          × (16 ≤ n.ones)
          × (n.ones ≤ 30)
    after none e t = cc
    after (some (ip, v6 y o)) e t = cc
    after (some (ip6 b, v4 n)) e t = ground arith
    after (some (ip4 a, v4 n)) e t =
        let (low, high, _) = private_net_cases a n t in (a, n, e, low, high)

-- The addresses of a network with a prefix of at least 16 bits share their first two octets.
same_octets :
    (a x : ℕ) (n : Subnet)
    → n.ip ≡ mask n.ones a
    → 16 ≤ n.ones
    → contains n x ≡ true
    → a / 2 ^ 16 ≡ x / 2 ^ 16
same_octets a x n e low inside =
    let z = block n.ones in
    let k = 2 ^ ((32 - 16) - (32 - n.ones)) in
    let p = a / z in
    let q = a / 2 ^ 16 in
    let start : network n ≡ z * p = ap (mask n.ones) e ∙ mask_idem n.ones a ∙ mask_mul n.ones a in
    let unit : 2 ^ 16 ≡ z * k = block_sixteen ∙ block_split 16 n.ones low in
    let (x_low, x_high) = (contains_iff n x).0 inside in
    let (a_low, a_high) = mask_bounds n.ones a in
    let below : 2 ^ 16 * q ≡ z * (k * q) = ap (λ t. t * q) unit ∙ mul_assoc z k q in
    let above : 2 ^ 16 * q + 2 ^ 16 ≡ z * (k * q + k) =
      omega (arith, below, unit, mul-add z (k * q) k) in
    omega (
      arith,
      start,
      below,
      above,
      mask_mul n.ones a,
      cut_below z p (k * q) a (omega (arith, mask_mul n.ones a)) (omega (arith, below)),
      cut_above z p (k * q + k) a (omega (arith, mask_mul n.ones a)) (omega (arith, above)),
    )

-- Every address of a network that the check accepts is private, for a ParseCIDR that masks as
-- documented.
pub is_valid_private_cidr_sound :
    (P : Parsers) (s : Str) (a x : ℕ) (n : Subnet)
    → Masks P
    → P.parse_cidr s ≡ some (ip4 a, v4 n)
    → is_valid_private_cidr P s ≡ true
    → contains n x ≡ true
    → InPrivateRange x
unfolding is_valid_private_cidr
is_valid_private_cidr_sound P s a x n m e h inside =
    let net : is_private_net (ip4 a) (v4 n) ≡ true =
      subst
        (λ (r : Option (Ip × Net)).
          (elim r [ none ↦ false | some v ↦ is_private_net v.0 v.1 ]) ≡ true)
        e h in
    let (low, high, private) = private_net_cases a n net in
    is_private_address_range a x private (same_octets a x n (m s a n e).0 low inside)
