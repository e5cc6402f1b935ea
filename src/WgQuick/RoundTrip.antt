-- ===== src/WgQuick/RoundTrip.antt =====
-- The server file that is exported is read back by the import.
use wgpilot.Base.{
  zero, suc, ◌&&◌, subst, true, false, List, [], ◌∷◌, Str, bytes, str_eq, ◌≡◌, ◌≢◌, refl, ap, sym,
  ◌∙◌, All, Bool-cases, inl, inr, arith,
}
use wgpilot.Base.Lines.{unlines, lines-unlines}
use wgpilot.Base.Int.{ℤ, pos, negsuc}
use wgpilot.Wg.Types.{ok}
use wgpilot.WgQuick.Types.{ImportedConfig, ServerConfigParams}
use wgpilot.WgQuick.Export.{server_lines, with_nat_interface, is_zero, generate_server_config}
use wgpilot.WgQuick.Import.{Parser, start, close_peer, scan, finish, parse_wg_quick_config}
use wgpilot.WgQuick.Lines.{run, scan-run, IsShort}
use wgpilot.WgQuick.Sizes.{IsLine, Fits-text, no_newline}
use wgpilot.WgQuick.Interface.{IsCleanServer, imported_server, run-server_lines}
use wgpilot.WgQuick.Short.{server_lines-IsLine}

IsLine-Without : (ls : List Str) → All IsLine ls → All (λ l. All (λ c. c ≢ b'\n') l) ls
IsLine-Without [] h = tt
IsLine-Without (l ∷ ls) h = (h.0.whole, IsLine-Without ls h.1)

IsLine-IsShort : (ls : List Str) → All IsLine ls → All IsShort ls
IsLine-IsShort [] h = tt
IsLine-IsShort (l ∷ ls) h = (h.0.short, IsLine-IsShort ls h.1)

pub str_eq-nonempty : (s : Str) → s ≢ [] → str_eq s [] ≡ false
unfolding str_eq
str_eq-nonempty [] h = absurd (h refl)
str_eq-nonempty (c ∷ s) h = refl

is_zero-nonzero : (i : ℤ) → i ≢ pos 0 → is_zero i ≡ false
unfolding is_zero
is_zero-nonzero (pos zero) h = absurd (h refl)
is_zero-nonzero (pos (suc n)) h = refl
is_zero-nonzero (negsuc n) h = refl

finish_keyed : (p : Parser) → (close_peer p).private_key ≢ [] → finish (p, true) ≡ ok (close_peer p)
unfolding finish
finish_keyed p h = rw (str_eq-nonempty (close_peer p).private_key h) refl

-- A configuration that the lines give is the result, if it has a key.
pub parse-unlines :
    (ls : List Str) (c : ImportedConfig)
    → All IsLine ls
    → close_peer (run start ls) ≡ c
    → c.private_key ≢ []
    → parse_wg_quick_config (unlines ls) ≡ ok c
unfolding parse_wg_quick_config
parse-unlines ls c h e k =
    ap (λ t. finish (scan start t)) (lines-unlines ls (IsLine-Without ls h))
    ∙ ap finish (scan-run start ls (IsLine-IsShort ls h))
    ∙ finish_keyed (run start ls) (subst (λ d. d.private_key ≢ []) (sym e) k)
    ∙ ap ok e

with_nat_interface-IsCleanServer :
    (s : ServerConfigParams) → IsCleanServer s → IsCleanServer (with_nat_interface s)
unfolding with_nat_interface no_newline
with_nat_interface-IsCleanServer s h =
    elim (Bool-cases (s.nat_enabled && str_eq s.nat_interface [])) [
      | inl e ↦
          rw e (h.0, h.1, h.2, h.3, h.4, h.5, Fits-text 30000 (bytes "eth0") refl (omega arith))
      | inr e ↦ rw e h
    ]

imported_server-with_nat_interface :
    (s : ServerConfigParams) → imported_server (with_nat_interface s) ≡ imported_server s
unfolding with_nat_interface imported_server
imported_server-with_nat_interface s =
    elim (Bool-cases (s.nat_enabled && str_eq s.nat_interface [])) [
      | inl e ↦ rw e refl
      | inr e ↦ rw e refl
    ]

parse-server_lines :
    (s : ServerConfigParams)
    → IsCleanServer s
    → s.private_key ≢ []
    → parse_wg_quick_config (unlines (server_lines s)) ≡ ok (imported_server s)
parse-server_lines s h k =
    parse-unlines (server_lines s) (imported_server s) (server_lines-IsLine s h)
      (run-server_lines s h) (unfold imported_server in k)

generate-server_lines :
    (s : ServerConfigParams)
    → s.private_key ≢ []
    → s.listen_port ≢ pos 0
    → generate_server_config s ≡ ok (unlines (server_lines (with_nat_interface s)))
unfolding generate_server_config
generate-server_lines s k p =
    rw (str_eq-nonempty s.private_key k, is_zero-nonzero s.listen_port p) refl

private_key-with_nat_interface :
    (s : ServerConfigParams) → s.private_key ≢ [] → (with_nat_interface s).private_key ≢ []
unfolding with_nat_interface
private_key-with_nat_interface s h = ground arith

-- If every text of the parameters is one line of at most 30,000 bytes, the values start and end
-- with no space, the numbers are 64-bit, the private key is not empty and the port is not 0, then
-- the server file is generated, and the import reads it back: the interface and the peers in their
-- order with all their fields, but without the names and the rules of NAT, and with 0 for a
-- negative keep-alive.
pub parse-generate :
    (s : ServerConfigParams)
    → IsCleanServer s
    → s.private_key ≢ []
    → s.listen_port ≢ pos 0
    → (text : Str) × (generate_server_config s ≡ ok text)
      × (parse_wg_quick_config text ≡ ok (imported_server s))
parse-generate s h k p = (
  unlines (server_lines (with_nat_interface s)),
  generate-server_lines s k p,
  parse-server_lines (with_nat_interface s) (with_nat_interface-IsCleanServer s h)
        (private_key-with_nat_interface s k)
      ∙ ap ok (imported_server-with_nat_interface s),
)
