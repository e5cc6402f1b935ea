-- ===== src/Server/Peers/Answers.antt =====
-- The lease of a new peer: the least free host address, or none where all are taken.
use wgpilot.Base.{
  ℕ, ◌<◌, ◌≡◌, refl, sym, ap, subst, ◌∙◌, Bool, true, false, ◌||◌, Option, some, List, [], All, ◌⊎◌,
  inl, inr, arith, ◌==◌,
}
use wgpilot.IpAlloc.{
  Subnet, IpAllocator, Search, found, exhausted, diverged, word, next_ip, first_usable_ip, mask,
  mark, is_used, block, new_ip_allocator, allocate, mark_all,
}
use wgpilot.IpAlloc.Fresh.{elem, new-reserves}
use wgpilot.IpAlloc.Addresses.{IsSubnet, network, mask-le, mask_idem}
use wgpilot.IpAlloc.Scan.{IsHost}
use wgpilot.IpAlloc.Leases.{Allocated, host_fits, allocate-Allocated}
use wgpilot.Wg.Nets.{v4}
use wgpilot.Wg.Types.{Outcome, ok, err}
use wgpilot.Server.Types.{Ip, Parsers, Network, Peer, Reply, failed, ip_exhausted}
use wgpilot.Server.Peers.Lease.{subnet_of, granted, allocated, used_ips, lease}
use wgpilot.Server.Peers.Occupied.{Occupied, elem-used_ips_iff}
use wgpilot.Server.Peers.Free.{ReadsAddresses, used_ips_fit}

-- The network of a subnet is a subnet with the same hosts.
network-IsSubnet :
    (s : Subnet) → IsSubnet s → IsSubnet (record { ip = mask s.ones s.ip; ones = s.ones })
network-IsSubnet s v = record {
  nonempty_prefix = v.nonempty_prefix;
  prefix_fits = v.prefix_fits;
  address = omega (arith, mask-le s.ones s.ip, v.address);
}

-- What a search for a free address may answer: the least host address that is in no list, or that
-- every host address is in the list.
abbrev Answers : Subnet → List ℕ → Outcome Reply ℕ → Type 0
Answers s ips r =
    ((x : ℕ) × (r ≡ ok x)
      × IsHost s x
      × (elem x ips ≡ false)
      × ((y : ℕ) → IsHost s y → y < x → elem y ips ≡ true))
    ⊎ ((r ≡ err (failed 409 ip_exhausted)) × ((y : ℕ) → IsHost s y → elem y ips ≡ true))

-- On the hosts, exactly the listed addresses are used.
abbrev UsesOnly : Subnet → List ℕ → IpAllocator → Type 0
UsesOnly s ips a = (y : ℕ) → IsHost s y → is_used a.used y ≡ elem y ips

same_hosts :
    (s t : Subnet) (x : ℕ) → network s ≡ network t → s.ones ≡ t.ones → IsHost t x → IsHost s x
same_hosts s t x n o h = (omega (arith, h.0), omega (arith, h.1, ap block o))

granted-Answers :
    (s : Subnet) (ips : List ℕ) (a : IpAllocator) (r : Search × IpAllocator)
    → mask a.subnet.ones a.subnet.ip ≡ network s
    → a.subnet.ones ≡ s.ones
    → UsesOnly s ips a
    → Allocated a r
    → Answers s ips (granted r.0)
unfolding granted
granted-Answers s ips a (found x, b) n o u h =
    let host = same_hosts s a.subnet x (sym n) (sym o) h.0 in
    inl (
      x,
      refl,
      host,
      sym (u x host) ∙ h.1,
      λ y k below. sym (u y k) ∙ h.2 y (same_hosts a.subnet s y n o k) below,
    )
granted-Answers s ips a (exhausted, b) n o u h =
    inr (refl, λ y k. sym (u y k) ∙ h.0 y (same_hosts a.subnet s y n o k))
granted-Answers s ips a (diverged, b) n o u h = absurd h

or_false : (b : Bool) → (b || false) ≡ b
or_false true = refl
or_false false = refl

some_eq : (a b : IpAllocator) → ◌≡◌ {A = Option IpAllocator} (some a) (some b) → a ≡ b
some_eq a b e = cc

reserved_host :
    (s : Subnet) (y : ℕ)
    → y < word
    → IsHost s y
    → ((first_usable_ip s == y) || (network s == y)) ≡ false
unfolding first_usable_ip next_ip
reserved_host s y k h = ground (arith, h.0)

uses_only :
    (s : Subnet) (ips : List ℕ) (v : IsSubnet s)
    → All (λ x. x < word) ips
    → let net : Subnet = record { ip = mask s.ones s.ip; ones = s.ones } in
      UsesOnly s ips
        (record { subnet = net; used = mark_all ips (mark (mark [] net.ip) (first_usable_ip net)) })
unfolding new_ip_allocator
uses_only s ips v h y host =
    let k = host_fits s v y host in
    let r = new-reserves s ips y v h k in
    ap (λ (b : IpAllocator). is_used b.used y) (some_eq _ r.0 r.1)
    ∙ r.3
    ∙ ap (λ b. elem y ips || b) (reserved_host s y k host)
    ∙ or_false (elem y ips)

allocated-Answers :
    (s : Subnet) (ips : List ℕ)
    → IsSubnet s
    → All (λ x. x < word) ips
    → Answers s ips (allocated (new_ip_allocator (some s) ips))
unfolding allocated new_ip_allocator
allocated-Answers s ips v h =
    let net : Subnet = record { ip = mask s.ones s.ip; ones = s.ones } in
    let reserved = mark (mark [] net.ip) (first_usable_ip net) in
    let a : IpAllocator = record { subnet = net; used = mark_all ips reserved } in
    granted-Answers s ips a (allocate a) (mask_idem s.ones s.ip) refl (uses_only s ips v h)
      (allocate-Allocated a (network-IsSubnet s v))

-- What a new peer of a network with that subnet and those peers is answered: the least host address
-- that no peer holds, or 409 with the code for an exhausted subnet, when the peers hold them all.
abbrev pub Leases : Parsers → Subnet → List Peer → Outcome Reply ℕ → Type 0
Leases P s ps r =
    ((x : ℕ) × (r ≡ ok x)
      × IsHost s x
      × ¬ (Occupied P ps x)
      × ((y : ℕ) → IsHost s y → y < x → Occupied P ps y))
    ⊎ ((r ≡ err (failed 409 ip_exhausted)) × ((y : ℕ) → IsHost s y → Occupied P ps y))

Answers-Leases :
    (P : Parsers) (s : Subnet) (ps : List Peer) (r : Outcome Reply ℕ)
    → Answers s (used_ips P ps) r
    → Leases P s ps r
Answers-Leases P s ps r (inl (x, e, host, free, below)) = inl (
  x,
  e,
  host,
  λ o. absurd (ground (arith, free, (elem-used_ips_iff P ps x).1 o)),
  λ y k l. (elem-used_ips_iff P ps y).0 (below y k l),
)
Answers-Leases P s ps r (inr (e, all)) = inr (e, λ y k. (elem-used_ips_iff P ps y).0 (all y k))

module _ (P : Parsers) (R : ReadsAddresses P) where
  -- If the subnet of the network is one of IPv4 with a prefix of 1 to 32 bits, and ParseCIDR reads
  -- IPv4 addresses, then a new peer gets the least host address that no part of the allowed IPs of
  -- a peer names, or the answer 409 with the code for an exhausted subnet, when every host address
  -- is named by one.
  pub lease-Leases :
      (n : Network) (ps : List Peer) (i : Ip) (s : Subnet)
      → P.parse_cidr n.subnet ≡ some (i, v4 s)
      → IsSubnet s
      → Leases P s ps (lease P n ps)
  unfolding lease
  lease-Leases n ps i s e v = Answers-Leases P s ps (lease P n ps) (
      subst
        (λ r.
          Answers s (used_ips P ps) (allocated (new_ip_allocator (subnet_of r) (used_ips P ps))))
        (sym e) (allocated-Answers s (used_ips P ps) v (used_ips_fit P R ps)))
