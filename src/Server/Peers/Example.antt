-- ===== src/Server/Peers/Example.antt =====
-- A ParseCIDR for IPv4 addresses with the prefix 32, and the peers of the database in memory.
use wgpilot.Base.{
  ℕ, ◌+◌, ◌-◌, ◌*◌, ◌/◌, ◌%◌, ◌^◌, ◌≤◌, ◌<◌, ◌≡◌, ◌≢◌, refl, ap, subst, ◌∙◌, Option, none, some,
  List, [], ◌∷◌, ◌++◌, Str, bytes, str_eq, All, Member, inl, inr, arith, if◌then◌else◌, ltb, ◌==◌,
  Bool-cases, lt→ltb, append_assoc,
}
use wgpilot.Base.Decimal.{decimal, read, read-decimal, decimal-IsDigit, IsDigit}
use wgpilot.IpAlloc.{word, ip_string}
use wgpilot.Wg.Nets.{Net, v4}
use wgpilot.Server.Types.{Ip, ip4, Parsers, Peer, Env}
use wgpilot.Server.Example.{
  parse_example, example_parsers, example_env, memory, find_peer_row, next_peer_id,
}
use wgpilot.Server.Peers.Free.{ReadsAddresses}
use wgpilot.Server.Peers.Histories.{StoredPeers}

-- The address in front of "/32", from the octets read and the one that is being read.
unfoldable pub dotted : ℕ → ℕ → Str → Option ℕ
dotted ip octet [] = none
dotted ip octet (c ∷ s) =
    let point = dotted (ip * 256 + octet) 0 s in
    let digit = dotted ip (octet * 10 + (c - b'0')) s in
    if c == b'.'
    then point
    else if c == b'/'
    then (if str_eq s (bytes "32") then some (ip * 256 + octet) else none)
    else digit

dotted-digits :
    (ip octet : ℕ) (t s : Str)
    → All IsDigit t
    → dotted ip octet (t ++ s) ≡ dotted ip (read octet t) s
unfolding dotted read
dotted-digits ip octet [] s h = refl
dotted-digits ip octet (c ∷ t) s h =
    ground (arith, dotted-digits ip (octet * 10 + (c - b'0')) t s h.1)

dotted-decimal : (ip n : ℕ) (s : Str) → dotted ip 0 (decimal n ++ s) ≡ dotted ip n s
dotted-decimal ip n s =
    dotted-digits ip 0 (decimal n) s (decimal-IsDigit n) ∙ ap (λ o. dotted ip o s) (read-decimal n)

dotted-octet :
    (ip n : ℕ) (s t : Str)
    → dotted ip 0 ((decimal n ++ (b'.' ∷ s)) ++ t) ≡ dotted (ip * 256 + n) 0 (s ++ t)
dotted-octet ip n s t =
    ap (dotted ip 0) (append_assoc (decimal n) (b'.' ∷ s) t)
    ∙ dotted-decimal ip n (b'.' ∷ (s ++ t))
    ∙ unfold dotted in refl

dotted-ip_string : (ip : ℕ) → ip < word → dotted 0 0 (ip_string ip ++ bytes "/32") ≡ some ip
unfolding ip_string
dotted-ip_string ip h =
    dotted-octet 0 (ip / 2 ^ 24 % 256) _ (bytes "/32")
    ∙ dotted-octet _ (ip / 2 ^ 16 % 256) _ (bytes "/32")
    ∙ dotted-octet _ (ip / 2 ^ 8 % 256) _ (bytes "/32")
    ∙ dotted-decimal _ (ip % 256) (bytes "/32")
    ∙ unfold dotted in unfold str_eq in ap some (omega arith)

unfoldable pub host_or : Str → Option ℕ → Option (Ip × Net)
host_or s none = parse_example s
host_or s (some ip) =
    if ltb ip word then some (ip4 ip, v4 (record { ip = ip; ones = 32 })) else none

unfoldable pub parse_hosts : Str → Option (Ip × Net)
parse_hosts s = host_or s (dotted 0 0 s)

abbrev pub host_parsers : Parsers
host_parsers = record example_parsers { parse_cidr = parse_hosts }

abbrev pub host_env : Env
host_env = record example_env { parsers = host_parsers }

host_or_fits : (s : Str) (o : Option ℕ) (a : ℕ) (n : Net) → host_or s o ≡ some (ip4 a, n) → a < word
unfolding host_or parse_example
host_or_fits s none a n e = ground (arith, e)
host_or_fits s (some ip) a n e = ground (arith, e)

pub host_parsers-ReadsAddresses : ReadsAddresses host_parsers
unfolding parse_hosts
host_parsers-ReadsAddresses = record {
  fits = λ s a n. host_or_fits s (dotted 0 0 s) a n;
  hosts =
      λ a h. ap (host_or _) (dotted-ip_string a h) ∙ unfold host_or in rw (lt→ltb a word h) refl;
}

pub find_peer_row-Member :
    (i : ℕ) (ps : List Peer) (p : Peer) → find_peer_row i ps ≡ some p → Member p ps
unfolding find_peer_row
find_peer_row-Member i [] p h = cc
find_peer_row-Member i (q ∷ qs) p h = elim (Bool-cases (q.id == i)) [
  | inl e ↦ inl (ground arith)
  | inr e ↦ inr (find_peer_row-Member i qs p (ground arith))
]

next_peer_id_pos : (ps : List Peer) → 1 ≤ next_peer_id ps
unfolding next_peer_id
next_peer_id_pos [] = omega arith
next_peer_id_pos (p ∷ ps) = omega (arith, next_peer_id_pos ps)

pub next_peer_id_fresh :
    (k : ℕ) (ps : List Peer) → All (λ (q : Peer). q.id ≢ k + next_peer_id ps) ps
unfolding next_peer_id
next_peer_id_fresh k [] = tt
next_peer_id_fresh k (p ∷ ps) =
    let start = next_peer_id_pos ps in
    (
      λ e. omega arith,
      subst (λ t. All (λ (q : Peer). q.id ≢ t) ps) (omega arith) (next_peer_id_fresh (k + p.id) ps),
    )

unfoldable pub memory-StoredPeers : StoredPeers memory
memory-StoredPeers = record {
  peers = λ d. d.peers;
  listed = λ i d ps e. ground arith;
  got = λ i d p e. find_peer_row-Member i d.peers p (ground arith);
  inserted = λ p d i e. (
    ground arith,
    subst (λ t. All (λ (q : Peer). q.id ≢ t) d.peers) (ground arith) (next_peer_id_fresh 0 d.peers),
  );
  refused = λ p d e h. cc;
  updated = λ p d. refl;
  deleted = λ i d. refl;
  cascaded = λ i d. refl;
  network_created = λ n d. refl;
  network_updated = λ n d. refl;
  linked = λ b d. refl;
  relinked = λ b d. refl;
  unlinked = λ i d. refl;
}
