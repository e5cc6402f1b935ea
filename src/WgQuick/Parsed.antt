-- ===== src/WgQuick/Parsed.antt =====
-- What the import gives: trimmed values, numbers in range and a private key.
use wgpilot.Base.{
  Bool, true, false, some, none, List, [], ◌∷◌, Str, str_eq, All, All-append, if◌then◌else◌, Option,
  map, subst, length, leb, ◌≡◌, ◌≢◌, refl, arith,
}
use wgpilot.Base.Lines.{lines}
use wgpilot.Base.Int.{ℤ, IsInt, atoi, IsIntOption, atoi-IsIntOption}
use wgpilot.Base.Space.{IsTrimmed, trim_space, drop_cr, trim_start, trim_end, trim_space-IsTrimmed}
use wgpilot.Wg.Types.{ok}
use wgpilot.WgQuick.Types.{ImportedPeer, ImportedConfig}
use wgpilot.WgQuick.Import.{
  Parser, Section, no_section, interface_section, peer_section, start, or_else, set_current,
  add_current, is_skipped, lower, empty_peer, number, set_interface, set_peer, set_field,
  close_peer, cut, take_pair, take_line, scan, finish, max_token, parse_wg_quick_config,
}
use wgpilot.WgQuick.Lines.{step}

abbrev pub IsTidyPeer : ImportedPeer → Type 0
IsTidyPeer q =
    IsTrimmed q.public_key
    × IsTrimmed q.preshared_key
    × IsTrimmed q.allowed_ips
    × IsTrimmed q.endpoint
    × IsInt q.persistent_keepalive

abbrev pub IsTidy : ImportedConfig → Type 0
IsTidy c =
    IsTrimmed c.private_key
    × IsTrimmed c.address
    × IsInt c.listen_port
    × IsTrimmed c.dns_servers
    × IsInt c.mtu
    × All IsTidyPeer c.peers

abbrev IsTidyCurrent : Option ImportedPeer → Type 0
IsTidyCurrent none = Unit
IsTidyCurrent (some q) = IsTidyPeer q

-- The invariant of the loop.
abbrev IsTidyParser : Parser → Type 0
IsTidyParser p = IsTidy p.config × IsTidyCurrent p.current

if-holds : {A : Type 0} (P : A → Type 0) (b : Bool) {x y : A} → P x → P y → P (if b then x else y)
if-holds P true h k = h
if-holds P false h k = k

or_else-IsInt : (old : ℤ) (o : Option ℤ) → IsInt old → IsIntOption o → IsInt (or_else old o)
or_else-IsInt old none h k = h
or_else-IsInt old (some i) h k = k

number-IsInt : (v : Str) (old : ℤ) → IsInt old → IsInt (number v old)
unfolding number
number-IsInt v old h = or_else-IsInt old (atoi v) h (atoi-IsIntOption v)

set_interface-IsTidy :
    (key v : Str) (c : ImportedConfig) → IsTrimmed v → IsTidy c → IsTidy (set_interface key v c)
unfolding set_interface
set_interface-IsTidy key v c t h =
    if-holds IsTidy (str_eq key _) (t, h.1, h.2, h.3, h.4, h.5)
      (if-holds IsTidy (str_eq key _) (h.0, t, h.2, h.3, h.4, h.5)
        (if-holds IsTidy (str_eq key _) (h.0, h.1, number-IsInt v c.listen_port h.2, h.3, h.4, h.5)
          (if-holds IsTidy (str_eq key _) (h.0, h.1, h.2, t, h.4, h.5)
            (if-holds IsTidy (str_eq key _) (h.0, h.1, h.2, h.3, number-IsInt v c.mtu h.4, h.5)
              h))))

set_peer-IsTidyPeer :
    (key v : Str) (q : ImportedPeer) → IsTrimmed v → IsTidyPeer q → IsTidyPeer (set_peer key v q)
unfolding set_peer
set_peer-IsTidyPeer key v q t h =
    if-holds IsTidyPeer (str_eq key _) (t, h.1, h.2, h.3, h.4)
      (if-holds IsTidyPeer (str_eq key _) (h.0, t, h.2, h.3, h.4)
        (if-holds IsTidyPeer (str_eq key _) (h.0, h.1, t, h.3, h.4)
          (if-holds IsTidyPeer (str_eq key _) (h.0, h.1, h.2, t, h.4)
            (if-holds IsTidyPeer (str_eq key _)
              (h.0, h.1, h.2, h.3, number-IsInt v q.persistent_keepalive h.4) h))))

set_current-IsTidyParser :
    (key v : Str) (p : Parser) (o : Option ImportedPeer)
    → IsTrimmed v
    → IsTidyParser p
    → IsTidyCurrent o
    → IsTidyParser (set_current key v p o)
set_current-IsTidyParser key v p none t h k = h
set_current-IsTidyParser key v p (some q) t h k = (h.0, set_peer-IsTidyPeer key v q t k)

set_field-IsTidyParser :
    (s : Section) (key v : Str) (p : Parser)
    → IsTrimmed v
    → IsTidyParser p
    → IsTidyParser (set_field s key v p)
unfolding set_field
set_field-IsTidyParser no_section key v p t h = h
set_field-IsTidyParser interface_section key v p t h =
    (set_interface-IsTidy key v p.config t h.0, h.1)
set_field-IsTidyParser peer_section key v p t h = set_current-IsTidyParser key v p p.current t h h.1

add_current-IsTidy :
    (c : ImportedConfig) (o : Option ImportedPeer)
    → IsTidy c
    → IsTidyCurrent o
    → IsTidy (add_current c o)
add_current-IsTidy c none h k = h
add_current-IsTidy c (some q) h k =
    (h.0, h.1, h.2, h.3, h.4, All-append IsTidyPeer c.peers (q ∷ []) h.5 (k, tt))

close_peer-IsTidy : (p : Parser) → IsTidyParser p → IsTidy (close_peer p)
unfolding close_peer
close_peer-IsTidy p h = add_current-IsTidy p.config p.current h.0 h.1

take_pair-IsTidyParser :
    (p : Parser) (o : Option (Str × Str)) → IsTidyParser p → IsTidyParser (take_pair p o)
unfolding take_pair
take_pair-IsTidyParser p none h = h
take_pair-IsTidyParser p (some kv) h =
    set_field-IsTidyParser p.section _ (trim_space kv.1) p (trim_space-IsTrimmed kv.1) h

empty-IsTrimmed : IsTrimmed []
unfolding trim_start trim_end
empty-IsTrimmed = (refl, refl)

abbrev empty_peer-IsTidyPeer : IsTidyPeer empty_peer
empty_peer-IsTidyPeer =
    (empty-IsTrimmed, empty-IsTrimmed, empty-IsTrimmed, empty-IsTrimmed, omega arith)

take_line-IsTidyParser :
    (p : Parser) (line : Str) → IsTidyParser p → IsTidyParser (take_line p line)
unfolding take_line
take_line-IsTidyParser p line h = if-holds IsTidyParser (is_skipped line) h (
    if-holds IsTidyParser (str_eq (map lower line) _) h (
      if-holds IsTidyParser (str_eq (map lower line) _)
        (close_peer-IsTidy p h, empty_peer-IsTidyPeer) (take_pair-IsTidyParser p (cut line) h)))

scan-IsTidyParser : (p : Parser) (ls : List Str) → IsTidyParser p → IsTidyParser (scan p ls).0
unfolding scan
scan-IsTidyParser p [] h = h
scan-IsTidyParser p (l ∷ ls) h =
    if-holds {A = Parser × Bool} (λ r. IsTidyParser r.0) (leb max_token (length l)) h
      (scan-IsTidyParser (step p l) ls (take_line-IsTidyParser p (trim_space (drop_cr l)) h))

str_eq_nil : (s : Str) → str_eq s [] ≡ false → s ≢ []
unfolding str_eq
str_eq_nil [] h e = cc
str_eq_nil (c ∷ s) h e = cc

finish_ok :
    (r : Parser × Bool) (c : ImportedConfig)
    → finish r ≡ ok c
    → (close_peer r.0 ≡ c) × ((close_peer r.0).private_key ≢ [])
unfolding finish
finish_ok (p, false) c e = absurd (ground arith)
finish_ok (p, true) c e = ground (arith, str_eq_nil (close_peer p).private_key)

-- Whatever text the import accepts, the values that it gives start and end with no space, its
-- numbers are 64-bit, and its private key is not empty.
pub parse-IsTidy :
    (text : Str) (c : ImportedConfig)
    → parse_wg_quick_config text ≡ ok c
    → IsTidy c × (c.private_key ≢ [])
unfolding parse_wg_quick_config
parse-IsTidy text c e =
    let r = finish_ok (scan start (lines text)) c e in
    (
      subst IsTidy r.0 (
          close_peer-IsTidy (scan start (lines text)).0 (
            scan-IsTidyParser start (lines text) (
              (empty-IsTrimmed, empty-IsTrimmed, omega arith, empty-IsTrimmed, omega arith, tt),
              tt,
            ))),
      subst (λ d. d.private_key ≢ []) r.0 r.1,
    )
