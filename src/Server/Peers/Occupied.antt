-- ===== src/Server/Peers/Occupied.antt =====
-- The addresses that the peers of a network hold, beside the list that handleCreatePeer of
-- internal/server/routes_peers.go collects.
use wgpilot.Base.{
  ℕ, ◌≡◌, refl, sym, ap, subst, ◌↔◌, true, Option, none, some, List, [], ◌∷◌, Str, Member, ◌⊎◌, inl,
  inr, arith, ==_iff, Bool-cases, ◌==◌,
}
use wgpilot.Base.Space.{trim_space}
use wgpilot.IpAlloc.Fresh.{elem}
use wgpilot.Wg.Nets.{Net}
use wgpilot.Server.Types.{Ip, ip4, ip6, Parsers, Peer}
use wgpilot.Server.Validate.{split_comma}
use wgpilot.Server.Peers.Lease.{with_address, part_ips, used_ips}

-- A part of a text with commas that ParseCIDR reads as this IPv4 address.
abbrev pub Names : Parsers → List Str → ℕ → Type 0
Names P parts x =
    (t : Str) × Member t parts × ((n : Net) × (P.parse_cidr (trim_space t) ≡ some (ip4 x, n)))

-- A peer whose allowed IPs name the address.
abbrev pub Occupied : Parsers → List Peer → ℕ → Type 0
Occupied P ps x = (p : Peer) × Member p ps × Names P (split_comma p.allowed_ips) x

module _ (P : Parsers) where
  elem-with_address_sound :
      (r : Option (Ip × Net)) (ips : List ℕ) (x : ℕ)
      → elem x (with_address r ips) ≡ true
      → ((n : Net) × (r ≡ some (ip4 x, n))) ⊎ (elem x ips ≡ true)
  elem-with_address_sound none ips x h = inr h
  elem-with_address_sound (some (ip4 a, n)) ips x h = elim (Bool-cases (x == a)) [
    | inl e ↦ inl (n, ap (λ (b : ℕ). some (ip4 b, n)) (sym ((==_iff x a).0 e)))
    | inr e ↦ inr (ground arith)
  ]
  elem-with_address_sound (some (ip6 a, n)) ips x h = inr h

  elem-with_address_here :
      (r : Option (Ip × Net)) (ips : List ℕ) (x : ℕ) (n : Net)
      → r ≡ some (ip4 x, n)
      → elem x (with_address r ips) ≡ true
  elem-with_address_here r ips x n e = rw e (ground arith)

  elem-with_address_there :
      (r : Option (Ip × Net)) (ips : List ℕ) (x : ℕ)
      → elem x ips ≡ true
      → elem x (with_address r ips) ≡ true
  elem-with_address_there none ips x h = h
  elem-with_address_there (some (ip4 b, n)) ips x h = ground arith
  elem-with_address_there (some (ip6 b, n)) ips x h = h

  elem-part_ips_iff :
      (ts : List Str) (ips : List ℕ) (x : ℕ)
      → (elem x (part_ips P ts ips) ≡ true) ↔ (Names P ts x ⊎ (elem x ips ≡ true))
  unfolding part_ips
  elem-part_ips_iff [] ips x = (λ h. inr h, λ o. elim o [ inl (t, m, n) ↦ absurd m | inr h ↦ h ])
  elem-part_ips_iff (t ∷ ts) ips x =
      let r = P.parse_cidr (trim_space t) in
      let rest = elem-part_ips_iff ts ips x in
      (
        λ h. elim (elem-with_address_sound r (part_ips P ts ips) x h) [
          | inl (n, e) ↦ inl (t, inl refl, (n, e))
          | inr later ↦ elim (rest.0 later) [
            | inl (u, m, v) ↦ inl (u, inr m, v)
            | inr old ↦ inr old
          ]
        ],
        λ o. elim o [
          | inl (u, inl e, (n, k)) ↦
              elem-with_address_here r (part_ips P ts ips) x n
                (subst (λ v. P.parse_cidr (trim_space v) ≡ some (ip4 x, n)) (sym e) k)
          | inl (u, inr m, v) ↦
              elem-with_address_there r (part_ips P ts ips) x (rest.1 (inl (u, m, v)))
          | inr old ↦ elem-with_address_there r (part_ips P ts ips) x (rest.1 (inr old))
        ],
      )

  -- The list has exactly the addresses that are held.
  pub elem-used_ips_iff :
      (ps : List Peer) (x : ℕ) → (elem x (used_ips P ps) ≡ true) ↔ Occupied P ps x
  unfolding used_ips
  elem-used_ips_iff [] x = (λ h. cc, λ (p, m, n). absurd m)
  elem-used_ips_iff (q ∷ qs) x =
      let here = elem-part_ips_iff (split_comma q.allowed_ips) (used_ips P qs) x in
      let rest = elem-used_ips_iff qs x in
      (
        λ h. elim (here.0 h) [
          | inl v ↦ (q, inl refl, v)
          | inr later ↦ let (p, m, v) = rest.0 later in (p, inr m, v)
        ],
        λ (p, o, v). elim o [
          | inl e ↦
              here.1 (inl (subst (λ (r : Peer). Names P (split_comma r.allowed_ips) x) (sym e) v))
          | inr m ↦ here.1 (inr (rest.1 (p, m, v)))
        ],
      )
