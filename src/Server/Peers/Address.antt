-- ===== src/Server/Peers/Address.antt =====
-- The address of a peer can be read off the allowed IPs that are stored.
use wgpilot.Base.{
  ℕ, ◌/◌, ◌%◌, ◌^◌, ◌<◌, ◌≤◌, ◌≡◌, ◌≢◌, refl, sym, ap, subst, ◌∙◌, true, false, Option, none, some,
  List, [], ◌∷◌, ◌++◌, Str, bytes, All, All-append, Member, inl, inr, arith, Bool-cases, ◌==◌,
  str_eq, ◌&&◌, not,
}
use wgpilot.Base.Decimal.{decimal, decimal-IsDigit, IsDigit}
use wgpilot.Base.Lines.{onto}
use wgpilot.Base.Space.{is_space, Nonspace, Nonspace-IsTrimmed, IsTrimmed, trim_space, trim_end}
use wgpilot.IpAlloc.{word, ip_string}
use wgpilot.IpAlloc.Fresh.{elem}
use wgpilot.Wg.Nets.{Net}
use wgpilot.Server.Types.{Ip, ip4, ip6, Parsers, Peer}
use wgpilot.Server.Validate.{split_comma}
use wgpilot.Server.Peers.Validate.{CreatePeerRequest, site_gateway}
use wgpilot.Server.Peers.Lease.{with_address, part_ips, used_ips, server_allowed_ips}
use wgpilot.Server.Peers.Free.{ReadsAddresses}

-- The first part of a list, and the IPv4 address of a CIDR text.
abbrev pub first : List Str → Str
first [] = []
first (t ∷ ts) = t

abbrev pub address_of : Option (Ip × Net) → Option ℕ
address_of none = none
address_of (some (ip4 a, n)) = some a
address_of (some (ip6 a, n)) = none

-- The address that a row of a peer leases: that of the first part of its allowed IPs.
unfoldable pub leased_address : Parsers → Str → Option ℕ
leased_address P s = address_of (P.parse_cidr (trim_space (first (split_comma s))))

elem-with_address :
    (r : Option (Ip × Net)) (ips : List ℕ) (a : ℕ)
    → address_of r ≡ some a
    → elem a (with_address r ips) ≡ true
elem-with_address none ips a e = absurd (ground arith)
elem-with_address (some (ip4 b, n)) ips a e = ground arith
elem-with_address (some (ip6 b, n)) ips a e = absurd (ground arith)

elem-with_address_later :
    (r : Option (Ip × Net)) (ips : List ℕ) (a : ℕ)
    → elem a ips ≡ true
    → elem a (with_address r ips) ≡ true
elem-with_address_later none ips a h = h
elem-with_address_later (some (ip4 b, n)) ips a h = ground arith
elem-with_address_later (some (ip6 b, n)) ips a h = h

module _ (P : Parsers) where
  elem-part_ips :
      (ts : List Str) (ips : List ℕ) (a : ℕ) → elem a ips ≡ true → elem a (part_ips P ts ips) ≡ true
  unfolding part_ips
  elem-part_ips [] ips a h = h
  elem-part_ips (t ∷ ts) ips a h =
      elem-with_address_later (P.parse_cidr (trim_space t)) (part_ips P ts ips) a
        (elem-part_ips ts ips a h)

  elem-first :
      (ts : List Str) (ips : List ℕ) (a : ℕ)
      → ts ≢ []
      → address_of (P.parse_cidr (trim_space (first ts))) ≡ some a
      → elem a (part_ips P ts ips) ≡ true
  unfolding part_ips
  elem-first [] ips a h e = absurd (h refl)
  elem-first (t ∷ ts) ips a h e =
      elem-with_address (P.parse_cidr (trim_space t)) (part_ips P ts ips) a e

  cons-ne_nil : {t : Str} {ts : List Str} → t ∷ ts ≢ []
  cons-ne_nil h = cc

  onto-ne_nil : (c : ℕ) (ls : List Str) → onto c ls ≢ []
  unfolding onto
  onto-ne_nil c [] h = cc
  onto-ne_nil c (l ∷ ls) h = cc

  split_comma-ne_nil : (s : Str) → split_comma s ≢ []
  unfolding split_comma
  split_comma-ne_nil [] = cons-ne_nil
  split_comma-ne_nil (c ∷ s) = elim (Bool-cases (c == b',')) [
    | inl e ↦ rw e cons-ne_nil
    | inr e ↦ rw e (onto-ne_nil c (split_comma s))
  ]

  -- The address that a peer leases is among those in use.
  pub elem-used_ips :
      (ps : List Peer) (p : Peer) (a : ℕ)
      → Member p ps
      → leased_address P p.allowed_ips ≡ some a
      → elem a (used_ips P ps) ≡ true
  unfolding used_ips leased_address
  elem-used_ips [] p a m e = absurd m
  elem-used_ips (q ∷ qs) p a (inl m) e =
      elem-first (split_comma q.allowed_ips) (used_ips P qs) a (split_comma-ne_nil q.allowed_ips)
        (subst (λ (r : Peer). leased_address P r.allowed_ips ≡ some a) (sym m) e)
  elem-used_ips (q ∷ qs) p a (inr m) e =
      elem-part_ips (split_comma q.allowed_ips) (used_ips P qs) a (elem-used_ips qs p a m e)

-- The text of an address and its prefix: digits, dots and a stroke.
abbrev IsAddressChar : ℕ → Type 0
IsAddressChar c = (b'.' ≤ c) × (c ≤ b'9')

digits : (s : Str) → All IsDigit s → All IsAddressChar s
digits [] h = tt
digits (c ∷ s) h = ((omega (arith, h.0.0), omega (arith, h.0.1)), digits s h.1)

other : (c : ℕ) → IsAddressChar c → (c == b',') ≡ false
other c h = ground arith

first-onto : (c : ℕ) (t : Str) (ls : List Str) → first ls ≡ t → first (onto c ls) ≡ c ∷ t
unfolding onto
first-onto c t [] e = ap (c ∷◌) e
first-onto c t (l ∷ ls) e = ap (c ∷◌) e

-- Behind a text without a comma stands nothing, or a comma.
first-alone : (t : Str) → All IsAddressChar t → first (split_comma t) ≡ t
unfolding split_comma
first-alone [] h = refl
first-alone (c ∷ t) h = rw (other c h.0) (first-onto c t (split_comma t) (first-alone t h.1))

first-comma : (t s : Str) → All IsAddressChar t → first (split_comma (t ++ (b',' ∷ s))) ≡ t
unfolding split_comma
first-comma [] s h = refl
first-comma (c ∷ t) s h =
    rw (other c h.0) (first-onto c t (split_comma (t ++ (b',' ∷ s))) (first-comma t s h.1))

host_text-Nonspace : (s : Str) → All IsAddressChar s → Nonspace s
unfolding is_space
host_text-Nonspace [] h = tt
host_text-Nonspace (c ∷ s) h = (ground arith, host_text-Nonspace s h.1)

octet : (n : ℕ) (t : Str) → All IsAddressChar t → All IsAddressChar (decimal n ++ (b'.' ∷ t))
octet n t h =
    All-append IsAddressChar (decimal n) (b'.' ∷ t) (digits (decimal n) (decimal-IsDigit n))
      ((omega arith, omega arith), h)

host_text : (ip : ℕ) → All IsAddressChar (ip_string ip ++ bytes "/32")
unfolding ip_string
host_text ip =
    let d = decimal (ip % 256) in
    let c = decimal (ip / 2 ^ 8 % 256) ++ (b'.' ∷ d) in
    let b = decimal (ip / 2 ^ 16 % 256) ++ (b'.' ∷ c) in
    let last = digits d (decimal-IsDigit (ip % 256)) in
    All-append IsAddressChar (ip_string ip) (bytes "/32")
      (octet (ip / 2 ^ 24 % 256) b (octet (ip / 2 ^ 16 % 256) c (octet (ip / 2 ^ 8 % 256) d last)))
      ((omega arith, omega arith), ((omega arith, omega arith), ((omega arith, omega arith), tt)))

trim_space_trimmed : (t : Str) → IsTrimmed t → trim_space t ≡ t
unfolding trim_space
trim_space_trimmed t h = ap trim_end h.0 ∙ h.1

first_allowed :
    (ip : ℕ) (req : CreatePeerRequest)
    → first (split_comma (server_allowed_ips ip req)) ≡ ip_string ip ++ bytes "/32"
unfolding server_allowed_ips
first_allowed ip req =
    elim (Bool-cases (str_eq req.role site_gateway && not (str_eq req.site_networks []))) [
      | inl e ↦
          rw e (first-comma (ip_string ip ++ bytes "/32") (b' ' ∷ req.site_networks) (host_text ip))
      | inr e ↦ rw e (first-alone (ip_string ip ++ bytes "/32") (host_text ip))
    ]

pub leased_address-server_allowed_ips :
    (P : Parsers)
    → ReadsAddresses P
    → (ip : ℕ) (req : CreatePeerRequest) → ip < word
    → leased_address P (server_allowed_ips ip req) ≡ some ip
unfolding leased_address
leased_address-server_allowed_ips P R ip req h =
    let t = ip_string ip ++ bytes "/32" in
    ap (λ u. address_of (P.parse_cidr (trim_space u))) (first_allowed ip req)
    ∙ ap (λ u. address_of (P.parse_cidr u))
        (trim_space_trimmed t (Nonspace-IsTrimmed t (host_text-Nonspace t (host_text ip))))
    ∙ ap address_of (R.hosts ip h)
