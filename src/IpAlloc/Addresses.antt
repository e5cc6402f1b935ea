-- ===== src/IpAlloc/Addresses.antt =====
-- The arithmetic of subnets, and that the text of an address determines it.
use Prim.Native.Nat.add
use native.Mathlib.Nat.{
  mod-eq_of_lt, mod-lt, div-add-mod, pow-suc, one-le-pow, mul-add-mod_self_left, pow-le-pow_right,
}
use wgpilot.Base.{
  refl, ℕ, zero, suc, ◌+◌, ◌-◌, ◌*◌, ◌/◌, ◌%◌, ◌^◌, ◌≤◌, ◌<◌, ◌≡◌, sym, ap, ◌∙◌, ◌↔◌, arith, true,
  false, Str, All, ==_iff, Bool-cases, inl, inr, Without, append-sep_injective, [], ◌∷◌, ◌++◌,
}
use wgpilot.Base.Arith.{mul_step}
use wgpilot.Base.Decimal.{decimal, decimal_injective, decimal-IsDigit, IsDigit}
use wgpilot.IpAlloc.{Subnet, word, block, mask, contains, ip_string}

digits-Without : (sep : ℕ) (s : Str) → sep < b'0' → All IsDigit s → Without sep s
digits-Without sep [] h d = tt
digits-Without sep (c ∷ s) h d = ((λ e. omega arith), digits-Without sep s h d.1)

decimal-Without_dot : (n : ℕ) → Without b'.' (decimal n)
decimal-Without_dot n = digits-Without b'.' (decimal n) (omega arith) (decimal-IsDigit n)

pub ip_string_injective : (a b : ℕ) → a < word → b < word → ip_string a ≡ ip_string b → a ≡ b
unfolding ip_string
ip_string_injective a b ha hb e =
    let dot = λ (m n : ℕ) (s t : Str) (h : decimal m ++ (b'.' ∷ s) ≡ decimal n ++ (b'.' ∷ t)).
      append-sep_injective b'.' (decimal m) (decimal n) (decimal-Without_dot m)
        (decimal-Without_dot n) h in
    let first = dot _ _ _ _ e in
    let second = dot _ _ _ _ first.1 in
    let third = dot _ _ _ _ second.1 in
    omega (
      arith,
      decimal_injective _ _ first.0,
      decimal_injective _ _ second.0,
      decimal_injective _ _ third.0,
      decimal_injective _ _ third.1,
    )

pow-add : (a b : ℕ) → 2 ^ (a + b) ≡ 2 ^ a * 2 ^ b
pow-add zero b = rw (add.zero b) (omega arith)
pow-add (suc a) b = rw (add.suc a b, pow-suc 2 (a + b), pow-suc 2 a, pow-add a b) (omega arith)

pub block_pos : (ones : ℕ) → 0 < block ones
unfolding block
block_pos ones = one-le-pow (32 - ones) 2 (omega arith)

block_pow : (ones : ℕ) → ones ≤ 32 → block ones * 2 ^ ones ≡ word
unfolding block
block_pow ones h = sym (pow-add (32 - ones) ones) ∙ ap (λ k. 2 ^ k) {y = 32} (omega arith)

-- A block is at most half of the address space, unless the prefix is empty.
pub block_half : (ones : ℕ) → 1 ≤ ones → ones ≤ 32 → block ones + block ones ≤ word
unfolding block
block_half ones h k =
    omega (arith, pow-le-pow_right {n = 2} (omega arith) {i = 32 - ones} {j = 31} (omega arith))

pub mask_mul : (ones ip : ℕ) → mask ones ip ≡ block ones * (ip / block ones)
unfolding mask
mask_mul ones ip = omega (arith, div-add-mod ip (block ones))

-- The block of a shorter prefix is made of blocks of a longer one.
pub block_split : (m n : ℕ) → m ≤ n → block m ≡ block n * 2 ^ ((32 - m) - (32 - n))
unfolding block
block_split m n h =
    ap (λ k. 2 ^ k) {x = 32 - m} {y = (32 - n) + ((32 - m) - (32 - n))} (omega arith)
    ∙ pow-add (32 - n) ((32 - m) - (32 - n))

pub mask-le : (ones ip : ℕ) → mask ones ip ≤ ip
unfolding mask
mask-le ones ip = omega arith

-- Clearing the host bits gives the network exactly for the addresses of its block.
mask-eq_iff :
    (ones ip x : ℕ)
    → (mask ones x ≡ mask ones ip) ↔ ((mask ones ip ≤ x) × (x < mask ones ip + block ones))
unfolding mask
mask-eq_iff ones ip x = (to, from)
  where
    to : mask ones x ≡ mask ones ip → (mask ones ip ≤ x) × (x < mask ones ip + block ones)
    to e = omega (arith, mod-lt x (block_pos ones))

    from : (mask ones ip ≤ x) × (x < mask ones ip + block ones) → mask ones x ≡ mask ones ip
    from (low, high) =
        let z = block ones in
        let q = ip / z in
        let split : x ≡ z * q + (x - z * q) = omega (arith, mask_mul ones ip) in
        let small : x - z * q < z = omega (arith, mask_mul ones ip) in
        let rest : x % z ≡ x - z * q =
          ap (λ t. t % z) split ∙ mul-add-mod_self_left z q _ ∙ mod-eq_of_lt small in
        omega (arith, rest, mask_mul ones ip)

pub mask_idem : (ones ip : ℕ) → mask ones (mask ones ip) ≡ mask ones ip
mask_idem ones ip =
    (mask-eq_iff ones ip (mask ones ip)).1 (omega arith, omega (arith, block_pos ones))

pub mask_bounds : (ones ip : ℕ) → (mask ones ip ≤ ip) × (ip < mask ones ip + block ones)
mask_bounds ones ip = (mask-eq_iff ones ip ip).0 refl

pub block_sixteen : 2 ^ 16 ≡ block 16
unfolding block
block_sixteen = refl

-- The whole block lies in the address space.
pub block_fits : (ones ip : ℕ) → ones ≤ 32 → ip < word → mask ones ip + block ones ≤ word
block_fits ones ip h k = omega (
  arith,
  mul_step (block ones) (ip / block ones) (2 ^ ones)
      (omega (arith, mask_mul ones ip, block_pow ones h, mask-le ones ip)),
  mask_mul ones ip,
  block_pow ones h,
)

-- A subnet as the server accepts it: a prefix of 1 to 32 bits, and an address of 32 bits.
pub record IsSubnet (s : Subnet) : Type 0 where
  pub nonempty_prefix : 1 ≤ s.ones
  pub prefix_fits : s.ones ≤ 32
  pub address : s.ip < word

-- The network address of a subnet.
abbrev pub network : Subnet → ℕ
network s = mask s.ones s.ip

module _ (s : Subnet) where
  pub contains_iff :
      (x : ℕ) → (contains s x ≡ true) ↔ ((network s ≤ x) × (x < network s + block s.ones))
  unfolding contains
  contains_iff x =
      let same = ==_iff (mask s.ones x) (network s) in
      let block = mask-eq_iff s.ones s.ip x in (λ e. block.0 (same.0 e), λ h. same.1 (block.1 h))

  pub contains_self : contains s s.ip ≡ true
  unfolding contains
  contains_self = (==_iff (mask s.ones s.ip) (mask s.ones s.ip)).1 refl

  -- A position beyond the block, wrapped round the address space, is outside the subnet.
  pub contains_beyond :
      (p : ℕ)
      → IsSubnet s
      → network s + block s.ones ≤ p
      → p < network s + word
      → contains s (p % word) ≡ false
  contains_beyond p v h k = elim (Bool-cases (contains s (p % word))) [
    | inr out ↦ out
    | inl inside ↦
        let fits = block_fits s.ones s.ip v.prefix_fits v.address in
        let (low, high) = (contains_iff (p % word)).0 inside in absurd (omega arith)
  ]
