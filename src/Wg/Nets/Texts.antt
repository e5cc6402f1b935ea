-- ===== src/Wg/Nets/Texts.antt =====
-- Reading back the list of networks that formatIPNets of internal/wg/reconcile.go prints.
use wgpilot.Base.{
  ℕ, ◌≡◌, refl, ap, ◌∙◌, ◌≢◌, arith, some, List, [], ◌∷◌, ◌++◌, append_assoc, append-nil, map, Str,
  All,
}
use wgpilot.Base.Decimal.{decimal, decimal-IsDigit, IsDigit}
use wgpilot.Wg.Nets.{
  Net, NetText, trim_left, trim_right, trim, push_part, split_from, split_and_trim, net_string,
  parse_all, parse_allowed_ips, format_rest, format_ip_nets,
}

-- No comma, space or tab.
abbrev pub IsMark : ℕ → Type 0
IsMark c = (c ≢ b',') × (c ≢ b' ') × (c ≢ 9)

abbrev pub IsPlain : Str → Type 0
IsPlain [] = ⊥
IsPlain (c ∷ s) = IsMark c × All IsMark s

trim_right_plain : (s : Str) → All IsMark s → trim_right s ≡ s
unfolding trim_right
trim_right_plain [] h = refl
trim_right_plain (c ∷ []) h = ground arith
trim_right_plain (c ∷ d ∷ s) h = rw (trim_right_plain (d ∷ s) h.1, trim_right)

trim_plain : (s : Str) → IsPlain s → trim s ≡ s
unfolding trim trim_left
trim_plain [] h = absurd h
trim_plain (c ∷ s) h = ground (arith, trim_right_plain (c ∷ s) h)

trim-space : (s : Str) → trim (b' ' ∷ s) ≡ trim s
unfolding trim trim_left
trim-space s = refl

push_plain : (s : Str) (parts : List Str) → IsPlain s → push_part s parts ≡ s ∷ parts
unfolding push_part
push_plain [] parts h = absurd h
push_plain (c ∷ s) parts h = refl

-- Up to the next comma the characters gather in the part.
split_from-append :
    (part s t : Str) → All IsMark s → split_from part (s ++ t) ≡ split_from (part ++ s) t
unfolding split_from
split_from-append part [] t h = rw (append-nil part)
split_from-append part (c ∷ s) t h =
    ground (arith, split_from-append (part ++ c ∷ []) s t h.1, append_assoc part (c ∷ []) s)

Plain-All : (s : Str) → IsPlain s → All IsMark s
Plain-All [] h = absurd h
Plain-All (c ∷ s) h = h

module _ (T : NetText) where
  -- A network whose text is plain and is read back as the network.
  abbrev pub Reads : Net → Type 0
  Reads n = IsPlain (net_string T n) × (T.parse_cidr (net_string T n) ≡ some n)

  split_from-format_rest :
      (part : Str) (ns : List Net)
      → All Reads ns
      → split_from part (format_rest T ns) ≡ push_part (trim part) (map (net_string T) ns)
  unfolding split_from format_rest
  split_from-format_rest part [] h = refl
  split_from-format_rest part (n ∷ ns) ((plain, _), h) =
      let text = net_string T n in
      let later =
        split_from-append (b' ' ∷ []) text (format_rest T ns) (Plain-All text plain)
        ∙ split_from-format_rest (b' ' ∷ text) ns h
        ∙ ap (λ s. push_part s (map (net_string T) ns)) (trim-space text ∙ trim_plain text plain)
        ∙ push_plain text (map (net_string T) ns) plain in
      ap (push_part (trim part)) later

  parse_all-map : (ns : List Net) → All Reads ns → parse_all T (map (net_string T) ns) ≡ some ns
  unfolding parse_all
  parse_all-map [] h = refl
  parse_all-map (n ∷ ns) ((_, read), h) = rw (read, parse_all-map ns h)

  parse_plain :
      (s t : Str) → IsPlain s → parse_allowed_ips T (s ++ t) ≡ parse_all T (split_from [] (s ++ t))
  unfolding parse_allowed_ips split_and_trim
  parse_plain [] t h = absurd h
  parse_plain (c ∷ s) t h = refl

-- A list of networks survives being printed and parsed, if each of its networks is read back from
-- its own text, and these texts are not empty and have no comma or blank.
pub parse-format :
    (T : NetText) (ns : List Net)
    → All (Reads T) ns
    → parse_allowed_ips T (format_ip_nets T ns) ≡ some ns
unfolding format_ip_nets
parse-format T [] h = unfold parse_allowed_ips in refl
parse-format T (n ∷ ns) ((plain, read), h) =
    let text = net_string T n in
    parse_plain T text (format_rest T ns) plain
    ∙ ap (parse_all T) (
        split_from-append [] text (format_rest T ns) (Plain-All text plain)
        ∙ split_from-format_rest T text ns h
        ∙ ap (λ s. push_part s (map (net_string T) ns)) (trim_plain text plain)
        ∙ push_plain text (map (net_string T) ns) plain)
    ∙ parse_all-map T (n ∷ ns) ((plain, read), h)

digits-IsMark : (s : Str) → All IsDigit s → All IsMark s
digits-IsMark [] h = tt
digits-IsMark (c ∷ s) h =
    (((λ e. omega arith), (λ e. omega arith), λ e. omega arith), digits-IsMark s h.1)

decimal-IsMark : (n : ℕ) → All IsMark (decimal n)
decimal-IsMark n = digits-IsMark (decimal n) (decimal-IsDigit n)
