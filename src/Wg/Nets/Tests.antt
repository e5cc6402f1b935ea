-- ===== src/Wg/Nets/Tests.antt =====
-- The texts of networks over a small parser that knows two networks.
use wgpilot.Base.{
  ◌≡◌, refl, arith, true, Option, none, some, [], ◌∷◌, Str, bytes, str_eq, if◌then◌else◌, All,
  length, Member, ◌↔◌,
}
use wgpilot.Base.Decimal.{decimal}
use wgpilot.IpAlloc.{ip_string}
use wgpilot.Wg.Nets.{
  Net, v4, NetText, net_string, parse_allowed_ips, allowed_ips_match, format_ip_nets,
  split_and_trim, split_from, trim, trim_left, trim_right, push_part, parse_all,
}
use wgpilot.Wg.Nets.Texts.{Reads, parse-format}
use wgpilot.Wg.Nets.Matching.{texts, match_iff, match_repeated}

abbrev pub net_a : Net
net_a = v4 (record { ip = 167772160; ones = 24 })

abbrev pub net_b : Net
net_b = v4 (record { ip = 3232235776; ones = 24 })

abbrev pub small_parse : Str → Option Net
small_parse s =
    if str_eq s (bytes "10.0.0.0/24")
    then some net_a
    else if str_eq s (bytes "192.168.1.0/24")
    then some net_b
    else none

abbrev pub small_text : NetText
small_text = record { parse_cidr = small_parse; v6_string = decimal }

both-Reads : All (Reads small_text) (net_a ∷ net_b ∷ [])
unfolding net_string ip_string decimal str_eq
both-Reads = ((omega arith, refl), ((omega arith, refl), tt))

parse-format_example :
    parse_allowed_ips small_text (format_ip_nets small_text (net_a ∷ net_b ∷ []))
    ≡ some (net_a ∷ net_b ∷ [])
parse-format_example = parse-format small_text (net_a ∷ net_b ∷ []) both-Reads

abbrev pub text_b : Str
text_b = bytes "192.168.1.0/24"

pub read_b : parse_allowed_ips small_text text_b ≡ some (net_b ∷ [])
unfolding format_ip_nets net_string ip_string decimal
read_b = parse-format small_text (net_b ∷ []) both-Reads.1

match_iff_example : (allowed_ips_match small_text text_b (net_a ∷ []) ≡ true) ↔ (
    (length (net_b ∷ []) ≡ length (net_a ∷ []))
    × ((a : Str)
        → Member a (texts small_text (net_b ∷ [])) ↔ Member a (texts small_text (net_a ∷ []))))
match_iff_example = match_iff small_text text_b (net_b ∷ []) (net_a ∷ []) read_b (tt, tt)

abbrev twice : Str
twice = bytes "10.0.0.0/24,10.0.0.0/24"

read_twice : parse_allowed_ips small_text twice ≡ some (net_a ∷ net_a ∷ [])
unfolding parse_allowed_ips split_and_trim split_from trim trim_left trim_right push_part parse_all
    str_eq
read_twice = refl

match_repeated_example : allowed_ips_match small_text twice (net_a ∷ net_b ∷ []) ≡ true
match_repeated_example = match_repeated small_text twice net_a net_b read_twice
