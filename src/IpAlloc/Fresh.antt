-- ===== src/IpAlloc/Fresh.antt =====
-- A new allocator of internal/wg/ip_alloc.go, and an address that is released and asked for again.
use wgpilot.Base.{
  ℕ, ◌<◌, ◌≡◌, refl, sym, subst, ap, arith, Bool, false, ◌||◌, ◌==◌, some, List, [], ◌∷◌, All,
}
use native.Mathlib.Decide.{dec_lt}
use wgpilot.Base.Dict.{Dict, lookup}
use wgpilot.IpAlloc.{
  Subnet, word, mask, next_ip, first_usable_ip, IpAllocator, is_used, mark, mark_all,
  new_ip_allocator, Search, found, exhausted, diverged, allocate, release,
}
use wgpilot.IpAlloc.Addresses.{IsSubnet, network, mask-le, mask_idem}
use wgpilot.IpAlloc.Scan.{IsHost}
use wgpilot.IpAlloc.Leases.{is_used-mark, is_used-release, Allocated, allocate-Allocated, host_fits}

abbrev pub elem : ℕ → List ℕ → Bool
elem y [] = false
elem y (x ∷ xs) = (x == y) || elem y xs

pub is_used-mark_all :
    (ips : List ℕ) (used : Dict Bool) (y : ℕ)
    → All (λ x. x < word) ips
    → y < word
    → is_used (mark_all ips used) y ≡ (elem y ips || is_used used y)
unfolding mark_all
is_used-mark_all [] used y h k = refl
is_used-mark_all (x ∷ ips) used y (hx, h) k =
    ground (arith, is_used-mark_all ips (mark used x) y h k, is_used-mark used x y hx k)

is_used-empty : (y : ℕ) → is_used [] y ≡ false
unfolding is_used lookup
is_used-empty y = refl

pub next_ip-lt : (x : ℕ) → next_ip x < word
unfolding next_ip
next_ip-lt x = omega arith

-- A new allocator stands on the network address, and marks that, the server's address and the
-- addresses that are taken already, and no other.
pub new-reserves :
    (s : Subnet) (taken : List ℕ) (y : ℕ)
    → IsSubnet s
    → All (λ x. x < word) taken
    → y < word
    → (a : IpAllocator) × (new_ip_allocator (some s) taken ≡ some a)
      × (a.subnet ≡ record { ip = network s; ones = s.ones })
      × (is_used a.used y ≡ (elem y taken || ((first_usable_ip s == y) || (network s == y))))
unfolding new_ip_allocator first_usable_ip
new-reserves s taken y v h k = (
  _,
  refl,
  refl,
  ground (
    arith,
    is_used-mark_all taken (mark (mark [] (network s)) server) y h k,
    is_used-mark (mark [] (network s)) server y (next_ip-lt (mask s.ones (network s))) k,
    is_used-mark [] (network s) y (omega (arith, mask-le s.ones s.ip, v.address)) k,
    is_used-empty y,
    same,
  ),
)
  where
    server : ℕ
    server = first_usable_ip (record { ip = network s; ones = s.ones })

    same : server ≡ first_usable_ip s
    same = ap next_ip (mask_idem s.ones s.ip)

module _ (a b : IpAllocator) (x : ℕ) (v : IsSubnet a.subnet)
    (first : Allocated a (found x, b)) where
  -- Taking an address and giving it back leaves the set of used addresses as it was.
  release-used : (y : ℕ) → IsHost a.subnet y → is_used (release x b).used y ≡ is_used a.used y
  release-used y host =
      let hx = host_fits a.subnet v x first.0 in
      let hy = host_fits a.subnet v y host in
      ground (arith, is_used-release b x y hx hy, first.4 y hy, first.1)

  release-subnet : (release x b).subnet ≡ a.subnet
  unfolding release
  release-subnet = first.3

  found_again : (r : Search) (d : IpAllocator) → Allocated (release x b) (r, d) → r ≡ found x
  found_again (found z) d (host, free, least, _, _) =
      let mine : IsHost a.subnet z = subst (λ s. IsHost s z) release-subnet host in
      let hers : IsHost (release x b).subnet x =
        subst (λ s. IsHost s x) (sym release-subnet) first.0 in
      elim (dec_lt z x) [
        | yes lt ↦ cc (first.2 z mine lt, release-used z mine, free)
        | no ge ↦ elim (dec_lt x z) [
          | yes lt ↦ cc (least x hers lt, release-used x first.0, first.1)
          | no le ↦ ap found (omega arith)
        ]
      ]
  found_again exhausted d (all, _) =
      let hers : IsHost (release x b).subnet x =
        subst (λ s. IsHost s x) (sym release-subnet) first.0 in
      cc (all x hers, release-used x first.0, first.1)
  found_again diverged d h = absurd h

-- An address that is given out and released at once is the next one given out.
pub allocate-release :
    (a : IpAllocator) (x : ℕ)
    → IsSubnet a.subnet
    → (allocate a).0 ≡ found x
    → (allocate (release x (allocate a).1)).0 ≡ found x
allocate-release a x v e =
    let b = (allocate a).1 in
    let first : Allocated a (found x, b) =
      subst (λ r. Allocated a (r, b)) e (allocate-Allocated a v) in
    found_again a b x v first _ (allocate (release x b)).1
      (allocate-Allocated (release x b) (rw (release-subnet a b x v first) v))
