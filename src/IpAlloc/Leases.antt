-- ===== src/IpAlloc/Leases.antt =====
-- What `Allocate` and `Release` do to the set of used addresses, and the addresses in use over a
-- history of calls.
use wgpilot.Base.{
  ℕ, ◌+◌, ◌<◌, ◌≡◌, refl, ap, arith, Bool, true, false, if◌then◌else◌, ◌==◌, str_eq, str_eq_iff,
}
use wgpilot.Base.Dict.{Dict, lookup-insert, lookup-delete}
use wgpilot.IpAlloc.{
  Subnet, word, IpAllocator, is_used, mark, ip_string, Search, found, exhausted, diverged,
  allocate_search, allocate, grant, release,
}
use wgpilot.IpAlloc.Addresses.{IsSubnet, network, ip_string_injective, block_fits}
use wgpilot.IpAlloc.Scan.{IsHost, Finds, allocate_search-Finds}

string_eq : (x y : ℕ) → x < word → y < word → str_eq (ip_string x) (ip_string y) ≡ (x == y)
string_eq x y h k = ground (
  arith,
  str_eq_iff (ip_string x) (ip_string y),
  ip_string_injective x y h k,
  λ (e : x ≡ y). ap ip_string e,
)

pub is_used-mark :
    (used : Dict Bool) (x y : ℕ)
    → x < word
    → y < word
    → is_used (mark used x) y ≡ (if x == y then true else is_used used y)
unfolding is_used mark
is_used-mark used x y h k =
    ground (arith, lookup-insert (ip_string x) (ip_string y) true used, string_eq x y h k)

pub is_used-release :
    (a : IpAllocator) (x y : ℕ)
    → x < word
    → y < word
    → is_used (release x a).used y ≡ (if x == y then false else is_used a.used y)
unfolding is_used release
is_used-release a x y h k =
    ground (arith, lookup-delete (ip_string x) (ip_string y) a.used, string_eq x y h k)

-- The outcome of `Allocate`: the least host address that was free, which alone is used from then
-- on; or no change, when no host address is free.
abbrev pub Allocated : IpAllocator → Search × IpAllocator → Type 0
Allocated a (found x, b) =
    IsHost a.subnet x
    × (is_used a.used x ≡ false)
    × ((y : ℕ) → IsHost a.subnet y → y < x → is_used a.used y ≡ true)
    × (b.subnet ≡ a.subnet)
    × ((y : ℕ) → y < word → is_used b.used y ≡ (if x == y then true else is_used a.used y))
Allocated a (exhausted, b) = ((y : ℕ) → IsHost a.subnet y → is_used a.used y ≡ true) × (b ≡ a)
Allocated a (diverged, b) = ⊥

pub host_fits : (s : Subnet) → IsSubnet s → (x : ℕ) → IsHost s x → x < word
host_fits s v x h = omega (arith, block_fits s.ones s.ip v.prefix_fits v.address)

grant-Allocated :
    (a : IpAllocator)
    → IsSubnet a.subnet
    → (r : Search) → Finds a (network a.subnet + 2) r
    → Allocated a (grant a r)
grant-Allocated a v (found x) (low, high, free, below) =
    let host : IsHost a.subnet x = (low, high) in
    (
      host,
      free,
      λ y h k. below y h.0 k,
      refl,
      λ y h. is_used-mark a.used x y (host_fits a.subnet v x host) h,
    )
grant-Allocated a v exhausted all = (λ y h. all y h.0 h.1, refl)
grant-Allocated a v diverged h = h

-- `Allocate` ends, and gives out the least free host address of the subnet: never the network
-- address, the server's or the broadcast address, whatever was released. It fails only when every
-- host address is used, and then changes nothing.
pub allocate-Allocated : (a : IpAllocator) → IsSubnet a.subnet → Allocated a (allocate a)
unfolding allocate
allocate-Allocated a v = grant-Allocated a v (allocate_search a) (allocate_search-Finds a v)
