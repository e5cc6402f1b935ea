-- ===== src/IpAlloc.antt =====
-- internal/wg/ip_alloc.go: the addresses of a subnet, and the allocator that hands them out.
-- An IPv4 address is its 32-bit big-endian value, and a mask is its prefix length, as ParseCIDR
-- gives it. The IPv6 branches are left out: the server validates every subnet as IPv4. The mutex
-- is held from the first to the last line of each method.
pub mod Addresses
pub mod Scan
pub mod Leases
pub mod Histories
pub mod Fresh
mod Tests
use wgpilot.Base.{
  ℕ, zero, suc, ◌+◌, ◌-◌, ◌/◌, ◌%◌, ◌^◌, Bool, true, false, Option, none, some, List, [], ◌∷◌, ◌++◌,
  Str, if◌then◌else◌, ◌==◌, length,
}
use wgpilot.Base.Decimal.{decimal}
use wgpilot.Base.Dict.{Dict, lookup, insert, delete}

pub record Subnet : Type 0 where
  pub ip : ℕ
  pub ones : ℕ

abbrev pub word : ℕ
word = 2 ^ 32

-- How many addresses a prefix of that length leaves.
unfoldable pub block : ℕ → ℕ
block ones = 2 ^ (32 - ones)

-- `ip.Mask(mask)`: the bits below the prefix are cleared.
unfoldable pub mask : ℕ → ℕ → ℕ
mask ones ip = ip - ip % block ones

-- `subnet.Contains(ip)`.
unfoldable pub contains : Subnet → ℕ → Bool
contains s ip = mask s.ones ip == mask s.ones s.ip

-- `ip.String()`: the four octets in decimal, with dots between.
unfoldable pub ip_string : ℕ → Str
ip_string ip =
    decimal (ip / 2 ^ 24 % 256)
    ++ (b'.'
        ∷ (decimal (ip / 2 ^ 16 % 256)
            ++ (b'.' ∷ (decimal (ip / 2 ^ 8 % 256) ++ (b'.' ∷ decimal (ip % 256))))))

unfoldable pub next_ip : ℕ → ℕ
next_ip ip = (ip + 1) % word

unfoldable pub first_usable_ip : Subnet → ℕ
first_usable_ip s = next_ip (mask s.ones s.ip)

-- `network | ^mask`: the network address with every host bit set.
pub is_broadcast : ℕ → Subnet → Bool
is_broadcast ip s = ip == mask s.ones s.ip + (block s.ones - 1)

pub record IpAllocator : Type 0 where
  pub subnet : Subnet
  pub used : Dict Bool

-- `used[ip.String()]`, false for a missing key.
unfoldable pub is_used : Dict Bool → ℕ → Bool
is_used used ip = elim (lookup (ip_string ip) used) [ none ↦ false | some b ↦ b ]

pub mark : Dict Bool → ℕ → Dict Bool
mark used ip = insert (ip_string ip) true used

unfoldable pub mark_all : List ℕ → Dict Bool → Dict Bool
unfolding mark
mark_all [] used = used
mark_all (ip ∷ ips) used = mark_all ips (mark used ip)

-- `none` is the error on a nil subnet.
unfoldable pub new_ip_allocator : Option Subnet → List ℕ → Option IpAllocator
unfolding mark_all
new_ip_allocator none used = none
new_ip_allocator (some s) used =
    let net : Subnet = record { ip = mask s.ones s.ip; ones = s.ones } in
    let reserved = mark (mark [] net.ip) (first_usable_ip net) in
    some (record { subnet = net; used = mark_all used reserved })

-- How the loop of `Allocate` ends; `diverged` if its fuel runs out.
pub data Search : Type 0 where
  found : ℕ → Search
  exhausted diverged : Search

unfoldable pub search : ℕ → IpAllocator → ℕ → Search
search zero a ip = diverged
search (suc fuel) a ip =
    let rest = search fuel a (next_ip ip) in
    if contains a.subnet ip
    then (if is_broadcast ip a.subnet then rest else if is_used a.used ip then rest else found ip)
    else exhausted

-- A block of addresses takes at most as many rounds as it has addresses.
unfoldable pub allocate_search : IpAllocator → Search
unfolding search
allocate_search a = search (block a.subnet.ones) a (next_ip (first_usable_ip a.subnet))

abbrev pub grant : IpAllocator → Search → Search × IpAllocator
grant a (found ip) = (found ip, record a { used = mark a.used ip })
grant a exhausted = (exhausted, a)
grant a diverged = (diverged, a)

unfoldable pub allocate : IpAllocator → Search × IpAllocator
unfolding mark
allocate a = grant a (allocate_search a)

pub release : ℕ → IpAllocator → IpAllocator
release ip a = record a { used = delete (ip_string ip) a.used }

pub used_count : IpAllocator → ℕ
used_count a = length a.used

pub server_ip : IpAllocator → ℕ
server_ip a = first_usable_ip a.subnet
