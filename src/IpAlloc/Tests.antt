-- ===== src/IpAlloc/Tests.antt =====
-- The allocator on a subnet of eight addresses.
use wgpilot.Base.{ℕ, ◌+◌, ◌*◌, ◌^◌, ◌≡◌, refl, arith, true, some, [], ◌∷◌, bytes, str_eq}
use wgpilot.Base.Dict.{lookup, insert}
use wgpilot.Base.Decimal.{decimal}
use wgpilot.IpAlloc.{
  Subnet, block, mask, contains, ip_string, next_ip, first_usable_ip, is_broadcast, IpAllocator,
  is_used, mark, new_ip_allocator, found, allocate_search, allocate, release,
}
use wgpilot.IpAlloc.Addresses.{IsSubnet}
use wgpilot.IpAlloc.Leases.{Allocated, allocate-Allocated}
use wgpilot.IpAlloc.Histories.{allocates, releases, calls, Sound, calls-Sound}
use wgpilot.IpAlloc.Fresh.{new-reserves, allocate-release}

-- 10.0.0.8
abbrev base : ℕ
base = 10 * 2 ^ 24 + 8

abbrev lan : Subnet
lan = record { ip = base; ones = 29 }

lan-IsSubnet : IsSubnet lan
lan-IsSubnet = omega arith

abbrev empty_lan : IpAllocator
empty_lan = record { subnet = lan; used = [] }

dotted : ip_string base ≡ bytes "10.0.0.8"
unfolding ip_string decimal
dotted = refl

first_host : (allocate empty_lan).0 ≡ found (base + 2)
unfolding allocate allocate_search is_used contains mask block next_ip first_usable_ip is_broadcast
    lookup ip_string decimal str_eq mark insert
first_host = refl

allocate-Allocated_example : Allocated empty_lan (allocate empty_lan)
allocate-Allocated_example = allocate-Allocated empty_lan lan-IsSubnet

calls-Sound_example :
    Sound
      (calls
        (allocates ∷ releases base ∷ allocates ∷ [])
        (record { allocator = empty_lan; leases = [] })).allocator
      (calls
        (allocates ∷ releases base ∷ allocates ∷ [])
        (record { allocator = empty_lan; leases = [] })).leases
calls-Sound_example =
    calls-Sound (allocates ∷ releases base ∷ allocates ∷ [])
      (record { allocator = empty_lan; leases = [] }) lan-IsSubnet (omega arith) tt

new-reserves_example :
    (a : IpAllocator) × (new_ip_allocator (some lan) ((base + 4) ∷ []) ≡ some a)
    × (a.subnet ≡ record { ip = mask 29 base; ones = 29 })
    × (is_used a.used (base + 4) ≡ true)
new-reserves_example =
    new-reserves lan ((base + 4) ∷ []) (base + 4) lan-IsSubnet (omega arith) (omega arith)

allocate-release_example :
    (allocate (release (base + 2) (allocate empty_lan).1)).0 ≡ found (base + 2)
allocate-release_example = allocate-release empty_lan (base + 2) lan-IsSubnet first_host
