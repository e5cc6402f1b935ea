-- ===== src/Server/Peers/Free.antt =====
-- The address of a new peer is in no allowed IPs of the peers of its network.
use wgpilot.Base.{
  ℕ, zero, suc, ◌<◌, ◌≡◌, refl, false, Option, none, some, List, [], ◌∷◌, ◌++◌, Str, bytes, All,
  arith,
}
use wgpilot.Base.Space.{trim_space}
use wgpilot.IpAlloc.{
  Subnet, IpAllocator, Search, found, exhausted, diverged, word, next_ip, first_usable_ip, mask,
  mark, grant, is_used, block, new_ip_allocator, search, allocate_search, allocate, ip_string,
  mark_all,
}
use wgpilot.IpAlloc.Fresh.{elem, is_used-mark_all, next_ip-lt}
use wgpilot.Wg.Nets.{Net, v4}
use wgpilot.Wg.Types.{ok}
use wgpilot.Server.Types.{Ip, ip4, ip6, Parsers, Network, Peer}
use wgpilot.Server.Validate.{split_comma}
use wgpilot.Server.Peers.Lease.{
  subnet_of, with_address, granted, allocated, part_ips, used_ips, lease,
}

-- A search only finds an address that is not marked.
search_free :
    (fuel : ℕ) (a : IpAllocator) (ip x : ℕ)
    → ip < word
    → search fuel a ip ≡ found x
    → (is_used a.used x ≡ false) × (x < word)
unfolding search
search_free zero a ip x h e = absurd (ground arith)
search_free (suc fuel) a ip x h e =
    ground (arith, search_free fuel a (next_ip ip) x (next_ip-lt ip))

granted-found :
    (a : IpAllocator) (r : Search) (ip : ℕ) → granted (grant a r).0 ≡ ok ip → r ≡ found ip
unfolding granted
granted-found a (found x) ip e = ground arith
granted-found a exhausted ip e = absurd (ground arith)
granted-found a diverged ip e = absurd (ground arith)

-- The allocator of a subnet with these addresses taken.
allocated_free :
    (s : Subnet) (ips : List ℕ) (ip : ℕ)
    → All (λ x. x < word) ips
    → allocated (new_ip_allocator (some s) ips) ≡ ok ip
    → (elem ip ips ≡ false) × (ip < word)
unfolding allocated new_ip_allocator allocate allocate_search
allocated_free s ips ip h e =
    let net : Subnet = record { ip = mask s.ones s.ip; ones = s.ones } in
    let reserved = mark (mark [] net.ip) (first_usable_ip net) in
    let a : IpAllocator = record { subnet = net; used = mark_all ips reserved } in
    let r =
      search_free (block s.ones) a (next_ip (first_usable_ip net)) ip
        (next_ip-lt (first_usable_ip net)) (granted-found a _ ip e) in
    (ground (arith, is_used-mark_all ips reserved ip h r.1, r.0), r.1)

with_address_fits :
    (r : Option (Ip × Net)) (ips : List ℕ)
    → ((a : ℕ) (n : Net) → r ≡ some (ip4 a, n) → a < word)
    → All (λ x. x < word) ips
    → All (λ x. x < word) (with_address r ips)
with_address_fits none ips f h = h
with_address_fits (some (ip4 a, n)) ips f h = (f a n refl, h)
with_address_fits (some (ip6 a, n)) ips f h = h

-- What ParseCIDR does with an IPv4 address: it is of 32 bits, and its own text is read back.
pub record ReadsAddresses (P : Parsers) : Type 0 where
  pub fits : (s : Str) (a : ℕ) (n : Net) → P.parse_cidr s ≡ some (ip4 a, n) → a < word
  pub hosts :
      (a : ℕ)
      → a < word
      → P.parse_cidr (ip_string a ++ bytes "/32") ≡ some (ip4 a, v4 (record { ip = a; ones = 32 }))

module _ (P : Parsers) (R : ReadsAddresses P) where
  part_ips_fit :
      (ts : List Str) (ips : List ℕ)
      → All (λ x. x < word) ips
      → All (λ x. x < word) (part_ips P ts ips)
  unfolding part_ips
  part_ips_fit [] ips h = h
  part_ips_fit (t ∷ ts) ips h =
      with_address_fits (P.parse_cidr (trim_space t)) (part_ips P ts ips) (R.fits (trim_space t))
        (part_ips_fit ts ips h)

  pub used_ips_fit : (ps : List Peer) → All (λ x. x < word) (used_ips P ps)
  unfolding used_ips
  used_ips_fit [] = tt
  used_ips_fit (p ∷ ps) = part_ips_fit (split_comma p.allowed_ips) (used_ips P ps) (used_ips_fit ps)

  subnet_free :
      (o : Option Subnet) (ps : List Peer) (ip : ℕ)
      → allocated (new_ip_allocator o (used_ips P ps)) ≡ ok ip
      → (elem ip (used_ips P ps) ≡ false) × (ip < word)
  subnet_free none ps ip e =
      absurd (unfold allocated in unfold new_ip_allocator in ground (arith, e))
  subnet_free (some s) ps ip e = allocated_free s (used_ips P ps) ip (used_ips_fit ps) e

  -- An address that is leased is in no allowed IPs of the peers.
  pub lease_free :
      (n : Network) (ps : List Peer) (ip : ℕ)
      → lease P n ps ≡ ok ip
      → (elem ip (used_ips P ps) ≡ false) × (ip < word)
  unfolding lease
  lease_free n ps ip e = subnet_free (subnet_of (P.parse_cidr n.subnet)) ps ip e
