-- ===== src/IpAlloc/Histories.antt =====
-- The addresses in use over a history of calls of the allocator of internal/wg/ip_alloc.go.
use wgpilot.Base.{
  ℕ, ◌<◌, ◌≡◌, refl, ap, ◌≢◌, arith, true, false, ◌==◌, ==_iff, List, [], ◌∷◌, All, All-keep, keep,
  not,
}
use native.Mathlib.Decide.{ℕ_discrete}
use wgpilot.IpAlloc.{
  word, IpAllocator, is_used, Search, found, exhausted, diverged, allocate, release,
}
use wgpilot.IpAlloc.Addresses.{IsSubnet}
use wgpilot.IpAlloc.Scan.{IsHost}
use wgpilot.IpAlloc.Leases.{Allocated, allocate-Allocated, is_used-release, host_fits}

-- A history of the allocator beside the addresses that it has given out and not got back.
pub record History : Type 0 where
  pub allocator : IpAllocator
  pub leases : List ℕ

pub data Call : Type 0 where
  allocates : Call
  releases : ℕ → Call

-- What the caller holds after `Allocate`.
abbrev pub lease : Search → List ℕ → List ℕ
lease (found x) xs = x ∷ xs
lease _ xs = xs

pub call : Call → History → History
call allocates h =
    let (r, a) = allocate h.allocator in record { allocator = a; leases = lease r h.leases }
call (releases x) h = record {
  allocator = release x h.allocator;
  leases = keep (λ y. not (x == y)) h.leases;
}

pub calls : List Call → History → History
unfolding call
calls [] h = h
calls (c ∷ cs) h = calls cs (call c h)

-- Every lease is a host address that is marked as used, and no address is leased twice.
abbrev pub Sound : IpAllocator → List ℕ → Type 0
Sound a [] = Unit
Sound a (x ∷ xs) = IsHost a.subnet x × (is_used a.used x ≡ true) × All (λ y. x ≢ y) xs × Sound a xs

-- Calls release addresses of 32 bits.
abbrev pub IsAddress : Call → Type 0
IsAddress allocates = Unit
IsAddress (releases x) = x < word

module _ (a b : IpAllocator) (same : b.subnet ≡ a.subnet) where
  Sound-grows :
      (xs : List ℕ)
      → ((y : ℕ) → IsHost a.subnet y → is_used a.used y ≡ true → is_used b.used y ≡ true)
      → Sound a xs
      → Sound b xs
  Sound-grows [] grow s = tt
  Sound-grows (x ∷ xs) grow (host, used, fresh, s) =
      (rw same host, grow x host used, fresh, Sound-grows xs grow s)

unused_fresh :
    (a : IpAllocator) (x : ℕ) (xs : List ℕ)
    → is_used a.used x ≡ false
    → Sound a xs
    → All (λ y. x ≢ y) xs
unused_fresh a x [] free s = tt
unused_fresh a x (y ∷ xs) free (host, used, fresh, s) =
    ((λ e. ground arith), unused_fresh a x xs free s)

Allocated-Sound :
    (a : IpAllocator) (r : Search) (b : IpAllocator) (xs : List ℕ)
    → IsSubnet a.subnet
    → Allocated a (r, b)
    → Sound a xs
    → Sound b (lease r xs)
Allocated-Sound a (found x) b xs v (host, free, _, same, used) s = (
  rw same host,
  ground (arith, used x (host_fits a.subnet v x host)),
  unused_fresh a x xs free s,
  Sound-grows a b same xs (λ y hy u. ground (arith, used y (host_fits a.subnet v y hy))) s,
)
Allocated-Sound a exhausted b xs v (_, same) s = rw same s
Allocated-Sound a diverged b xs v h s = absurd h

release-Sound :
    (a : IpAllocator) (x : ℕ) (xs : List ℕ)
    → IsSubnet a.subnet
    → x < word
    → Sound a xs
    → Sound (release x a) (keep (λ y. not (x == y)) xs)
release-Sound a x [] v k s = tt
release-Sound a x (y ∷ xs) v k (host, used, fresh, s) = elim (ℕ_discrete x y) [
  | yes e ↦ rw ((==_iff x y).1 e) (release-Sound a x xs v k s)
  | no ne ↦
      let differ : (x == y) ≡ false = ground arith in
      rw differ (
        unfold release in host,
        ground (arith, is_used-release a x y k (host_fits a.subnet v y host)),
        All-keep _ (λ z. not (x == z)) xs fresh,
        release-Sound a x xs v k s,
      )
]

call-Sound :
    (c : Call) (h : History)
    → IsSubnet h.allocator.subnet
    → IsAddress c
    → Sound h.allocator h.leases
    → Sound (call c h).allocator (call c h).leases
unfolding call
call-Sound allocates h v _ s =
    Allocated-Sound h.allocator _ _ h.leases v (allocate-Allocated h.allocator v) s
call-Sound (releases x) h v k s = release-Sound h.allocator x h.leases v k s

Allocated-subnet :
    (a : IpAllocator) (r : Search) (b : IpAllocator) → Allocated a (r, b) → b.subnet ≡ a.subnet
Allocated-subnet a (found x) b h = h.3
Allocated-subnet a exhausted b h = ap (λ (t : IpAllocator). t.subnet) h.1
Allocated-subnet a diverged b h = absurd h

call-subnet :
    (c : Call) (h : History)
    → IsSubnet h.allocator.subnet
    → (call c h).allocator.subnet ≡ h.allocator.subnet
unfolding call release
call-subnet allocates h v = Allocated-subnet h.allocator _ _ (allocate-Allocated h.allocator v)
call-subnet (releases x) h v = refl

-- Over any history of `Allocate` and `Release`, whatever addresses of 32 bits are released, the
-- addresses given out and not released since are distinct host addresses that are marked as used.
pub calls-Sound :
    (cs : List Call) (h : History)
    → IsSubnet h.allocator.subnet
    → All IsAddress cs
    → Sound h.allocator h.leases
    → Sound (calls cs h).allocator (calls cs h).leases
unfolding calls
calls-Sound [] h v _ s = s
calls-Sound (c ∷ cs) h v (k, ks) s =
    calls-Sound cs (call c h) (rw (call-subnet c h v) v) ks (call-Sound c h v k s)
