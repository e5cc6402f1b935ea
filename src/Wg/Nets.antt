-- ===== src/Wg/Nets.antt =====
-- The texts of networks: splitAndTrim and parseAllowedIPs of internal/wg/manager.go, and
-- allowedIPsMatch and formatIPNets of internal/wg/reconcile.go.
pub mod Texts
pub mod Matching
pub mod Tests
use wgpilot.Base.{
  ℕ, ◌+◌, Bool, true, false, not, ◌||◌, Option, none, some, List, [], ◌∷◌, ◌++◌, Str, bytes, str_eq,
  if◌then◌else◌, ◌==◌, length,
}
use wgpilot.Base.Decimal.{decimal}
use wgpilot.Base.Dict.{Dict, lookup, insert}
use wgpilot.IpAlloc.{Subnet, ip_string}

-- `net.IPNet`: an IPv4 network, or an IPv6 one by its address and prefix length.
pub data Net : Type 0 where
  v4 : Subnet → Net
  v6 : (address ones : ℕ) → Net

-- What the package net reads and prints: ParseCIDR, and an IPv6 address as text.
pub record NetText : Type 0 where
  pub parse_cidr : Str → Option Net
  pub v6_string : ℕ → Str

abbrev is_blank : ℕ → Bool
is_blank c = (c == b' ') || (c == 9)

trim_left : Str → Str
trim_left [] = []
trim_left (c ∷ s) = if is_blank c then trim_left s else c ∷ s

trim_right : Str → Str
trim_right [] = []
trim_right (c ∷ s) = elim (trim_right s) [
  | [] ↦ if is_blank c then [] else c ∷ []
  | d ∷ t ↦ c ∷ d ∷ t
]

pub trim : Str → Str
unfolding trim_left trim_right
trim s = trim_right (trim_left s)

-- A part that is blank throughout is dropped.
push_part : Str → List Str → List Str
push_part [] parts = parts
push_part (c ∷ s) parts = (c ∷ s) ∷ parts

-- The loop of `splitAndTrim`: the characters since the last comma, and what is left to read.
split_from : Str → Str → List Str
unfolding trim push_part
split_from part [] = push_part (trim part) []
split_from part (c ∷ s) =
    let closed = push_part (trim part) (split_from [] s) in
    let longer = split_from (part ++ c ∷ []) s in if c == b',' then closed else longer

pub split_and_trim : Str → List Str
unfolding split_from
split_and_trim s = split_from [] s

module _ (T : NetText) where
  -- `n.String()`.
  pub net_string : Net → Str
  net_string (v4 s) = ip_string s.ip ++ (b'/' ∷ decimal s.ones)
  net_string (v6 address ones) = T.v6_string address ++ (b'/' ∷ decimal ones)

  parse_all : List Str → Option (List Net)
  parse_all [] = some []
  parse_all (p ∷ ps) = elim (T.parse_cidr p) [
    | none ↦ none
    | some n ↦ elim (parse_all ps) [ none ↦ none | some ns ↦ some (n ∷ ns) ]
  ]

  -- `none` is the error of ParseCIDR on one of the parts.
  pub parse_allowed_ips : Str → Option (List Net)
  unfolding parse_all
  parse_allowed_ips [] = some []
  parse_allowed_ips (c ∷ s) = parse_all (split_and_trim (c ∷ s))

  -- The map `kernelSet`.
  string_set : List Net → Dict Bool
  string_set [] = []
  string_set (n ∷ ns) = insert (net_string n) true (string_set ns)

  in_set : Dict Bool → Net → Bool
  in_set m n = elim (lookup (net_string n) m) [ none ↦ false | some b ↦ b ]

  all_in : List Net → Dict Bool → Bool
  unfolding in_set
  all_in [] m = true
  all_in (n ∷ ns) m = if not (in_set m n) then false else all_in ns m

  pub nets_match : List Net → List Net → Bool
  unfolding string_set all_in
  nets_match db kernel =
      if not (length db == length kernel) then false else all_in db (string_set kernel)

  pub allowed_ips_match : Str → List Net → Bool
  unfolding nets_match
  allowed_ips_match db_allowed_ips kernel = elim (parse_allowed_ips db_allowed_ips) [
    | none ↦ false
    | some db ↦ nets_match db kernel
  ]

  format_rest : List Net → Str
  format_rest [] = []
  format_rest (n ∷ ns) = bytes ", " ++ (net_string n ++ format_rest ns)

  pub format_ip_nets : List Net → Str
  unfolding format_rest
  format_ip_nets [] = []
  format_ip_nets (n ∷ ns) = net_string n ++ format_rest ns
