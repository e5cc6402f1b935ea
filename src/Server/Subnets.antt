-- ===== src/Server/Subnets.antt =====
-- The check for overlapping subnets in handleCreateNetwork of internal/server/routes_networks.go.
mod Tests
use wgpilot.Base.{
  ℕ, ◌+◌, ◌-◌, ◌*◌, ◌/◌, ◌%◌, ◌^◌, ◌≤◌, ◌<◌, ◌≡◌, refl, sym, ap, ◌∙◌, ◌↔◌, ◌⊎◌, inl, inr, Bool,
  true, false, ◌||◌, Option, none, some, Str, arith, ◌==◌, Bool-cases, ==_iff,
}
use wgpilot.Base.Arith.{cut_below, cut_above}
use wgpilot.IpAlloc.{Subnet, word, block, mask, contains}
use native.Mathlib.Nat.{mul_assoc, mul-add}
use native.Mathlib.Decide.{dec_lt}
use wgpilot.IpAlloc.Addresses.{
  network, contains_iff, contains_self, mask_mul, block_split, block_pos,
}
use wgpilot.Wg.Nets.{Net, v4, v6}

-- `a.Contains(b.IP)`. An address of one family is in no network of the other.
pub contains_start : Net → Net → Bool
contains_start (v4 a) (v4 b) = contains a b.ip
contains_start (v4 a) (v6 y m) = false
contains_start (v6 x n) (v4 b) = false
contains_start (v6 x n) (v6 y m) = x - x % 2 ^ (128 - n) == y - y % 2 ^ (128 - n)

pub overlaps : Net → Net → Bool
unfolding contains_start
overlaps a b = contains_start a b || contains_start b a

-- A block of the longer prefix that meets a block of the other lies inside it.
pub nested :
    (a b : Subnet) (x : ℕ)
    → a.ones ≤ b.ones
    → contains a x ≡ true
    → contains b x ≡ true
    → (network a ≤ network b) × (network b + block b.ones ≤ network a + block a.ones)
nested a b x h ax bx =
    let z = block b.ones in
    let k = 2 ^ ((32 - a.ones) - (32 - b.ones)) in
    let q = a.ip / block a.ones in
    let p = b.ip / z in
    let (a_low, a_high) = (contains_iff a x).0 ax in
    let (b_low, b_high) = (contains_iff b x).0 bx in
    let start : network a ≡ z * (k * q) =
      mask_mul a.ones a.ip ∙ ap (λ t. t * q) (block_split a.ones b.ones h) ∙ mul_assoc z k q in
    let end : network a + block a.ones ≡ z * (k * q + k) =
      omega (arith, start, block_split a.ones b.ones h, mul-add z (k * q) k) in
    omega (
      arith,
      start,
      end,
      mask_mul b.ones b.ip,
      cut_below z p (k * q) x (omega (arith, mask_mul b.ones b.ip)) (omega (arith, start)),
      cut_above z p (k * q + k) x (omega (arith, mask_mul b.ones b.ip)) (omega (arith, end)),
    )

contains_nested :
    (a b : Subnet) (x : ℕ)
    → a.ones ≤ b.ones
    → contains a x ≡ true
    → contains b x ≡ true
    → contains a b.ip ≡ true
contains_nested a b x h ax bx =
    let (low, high) = nested a b x h ax bx in
    let (start, end) = (contains_iff b b.ip).0 (contains_self b) in
    (contains_iff a b.ip).1 (omega arith)

-- The check that compares only the addresses of the two networks finds every overlap of IPv4
-- networks: it succeeds exactly if some address is in both.
pub overlaps_iff :
    (a b : Subnet)
    → (overlaps (v4 a) (v4 b) ≡ true) ↔ ((x : ℕ) × (contains a x ≡ true) × (contains b x ≡ true))
unfolding overlaps contains_start
overlaps_iff a b = (to, from)
  where
    to :
        (contains a b.ip || contains b a.ip) ≡ true
        → (x : ℕ) × (contains a x ≡ true) × (contains b x ≡ true)
    to h = elim (Bool-cases (contains a b.ip)) [
      | inl e ↦ (b.ip, e, contains_self b)
      | inr e ↦ (a.ip, contains_self a, ground arith)
    ]

    from :
        (x : ℕ) × (contains a x ≡ true) × (contains b x ≡ true)
        → (contains a b.ip || contains b a.ip) ≡ true
    from (x, ax, bx) = elim (dec_lt b.ones a.ones) [
      | yes lt ↦ let inside = contains_nested b a x (omega arith) bx ax in ground arith
      | no ge ↦ let inside = contains_nested a b x (omega arith) ax bx in ground arith
    ]
