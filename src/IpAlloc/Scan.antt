-- ===== src/IpAlloc/Scan.antt =====
-- What `Allocate` finds: the least free host address, or that there is none.
use wgpilot.Base.{
  ℕ, zero, suc, ◌+◌, ◌-◌, ◌%◌, ◌≤◌, ◌<◌, ◌≡◌, subst, ◌↔◌, arith, true, false, Bool-cases, inl, inr,
  ==_iff,
}
use native.Mathlib.Nat.{mod-eq_of_lt, le_refl}
use native.Mathlib.Decide.{ℕ_discrete, dec_lt}
use wgpilot.IpAlloc.{
  Subnet, word, block, contains, next_ip, first_usable_ip, is_broadcast, IpAllocator, is_used,
  Search, found, exhausted, diverged, search, allocate_search,
}
use wgpilot.IpAlloc.Addresses.{
  IsSubnet, network, block_pos, block_half, block_fits, contains_iff, contains_beyond,
}

-- A host address: behind the network address and the server's, before the broadcast address.
abbrev pub IsHost : Subnet → ℕ → Type 0
IsHost s x = (network s + 2 ≤ x) × (x + 1 < network s + block s.ones)

-- The result of a search from position `p` of the block on.
abbrev pub Finds : IpAllocator → ℕ → Search → Type 0
Finds a p (found x) =
    (p ≤ x)
    × (x + 1 < network a.subnet + block a.subnet.ones)
    × (is_used a.used x ≡ false)
    × ((y : ℕ) → p ≤ y → y < x → is_used a.used y ≡ true)
Finds a p exhausted =
    (y : ℕ) → p ≤ y → y + 1 < network a.subnet + block a.subnet.ones → is_used a.used y ≡ true
Finds a p diverged = ⊥

next-mod : (p : ℕ) → next_ip (p % word) ≡ (p + 1) % word
unfolding next_ip
next-mod p = omega arith

lt_le_absurd : {p y : ℕ} → p ≤ y → y < p → ⊥
lt_le_absurd h k = omega arith

module _ (a : IpAllocator) (v : IsSubnet a.subnet) where
  -- A used position, or the broadcast address, may be passed over.
  Finds-skip :
      (p : ℕ) (r : Search)
      → (p + 1 < network a.subnet + block a.subnet.ones → is_used a.used p ≡ true)
      → Finds a (p + 1) r
      → Finds a p r
  Finds-skip p (found x) u (low, high, free, below) = (
    omega arith,
    high,
    free,
    λ y h k. elim (ℕ_discrete p y) [
      | yes e ↦ subst (λ t. is_used a.used t ≡ true) e (u (omega arith))
      | no ne ↦ below y (omega arith) k
    ],
  )
  Finds-skip p exhausted u all = λ y h k. elim (ℕ_discrete p y) [
    | yes e ↦ subst (λ t. is_used a.used t ≡ true) e (u (omega arith))
    | no ne ↦ all y (omega arith) k
  ]
  Finds-skip p diverged u h = h

  broadcast_iff :
      (p : ℕ) → (is_broadcast p a.subnet ≡ true) ↔ (p + 1 ≡ network a.subnet + block a.subnet.ones)
  unfolding is_broadcast
  broadcast_iff p =
      let pos = block_pos a.subnet.ones in
      let same = ==_iff p (network a.subnet + (block a.subnet.ones - 1)) in
      (λ e. omega (arith, same.0 e), λ e. same.1 (omega arith))

  -- The search is right wherever it starts, and its fuel lasts to the end of the block.
  search-Finds :
      (fuel p : ℕ)
      → network a.subnet ≤ p
      → p < network a.subnet + word
      → network a.subnet + block a.subnet.ones - p < fuel
      → Finds a p (search fuel a (p % word))
  unfolding search
  search-Finds zero p low high enough = absurd (omega arith)
  search-Finds (suc fuel) p low high enough =
      elim (dec_lt p (network a.subnet + block a.subnet.ones)) [
        | no ge ↦ rw (contains_beyond a.subnet p v (omega arith) high) λ y h k. absurd (omega arith)
        | yes lt ↦
            let fits = block_fits a.subnet.ones a.subnet.ip v.prefix_fits v.address in
            let here : p % word ≡ p = mod-eq_of_lt (omega arith) in
            let half = block_half a.subnet.ones v.nonempty_prefix v.prefix_fits in
            let later =
              rw (← next-mod p) at
                (search-Finds fuel (p + 1) (omega arith) (omega arith) (omega arith)) in
            let inside : contains a.subnet (p % word) ≡ true =
              rw here ((contains_iff a.subnet p).1 (low, lt)) in
            elim (Bool-cases (is_broadcast p a.subnet)) [
              | inl last ↦
                  let end = (broadcast_iff p).0 last in
                  rw (inside, here, last)
                    (Finds-skip p _ (λ h. absurd (omega arith)) (rw here at later))
              | inr more ↦ elim (Bool-cases (is_used a.used p)) [
                | inl taken ↦
                    rw (inside, here, more, taken) (Finds-skip p _ (λ h. taken) (rw here at later))
                | inr free ↦
                    let below : p + 1 < network a.subnet + block a.subnet.ones =
                      elim (ℕ_discrete (p + 1) (network a.subnet + block a.subnet.ones)) [
                        | yes e ↦ cc (more, (broadcast_iff p).1 e)
                        | no ne ↦ omega arith
                      ] in
                    rw (inside, here, more, free)
                      (le_refl p, below, free, λ y h k. absurd (lt_le_absurd h k))
              ]
            ]
      ]

  pub allocate_search-Finds : Finds a (network a.subnet + 2) (allocate_search a)
  unfolding allocate_search first_usable_ip
  allocate_search-Finds =
      let pos = block_pos a.subnet.ones in
      let start : next_ip (next_ip (network a.subnet)) ≡ (network a.subnet + 2) % word =
        unfold next_ip in omega arith in
      rw start (
        search-Finds (block a.subnet.ones) (network a.subnet + 2) (omega arith) (omega arith)
          (omega arith))
