-- ===== src/WgQuick/Short.antt =====
-- Every line that the templates write for clean parameters is one line, and short.
use wgpilot.Base.{
  ℕ, zero, suc, ◌+◌, ◌≤◌, ◌<◌, Bool, true, false, List, [], ◌∷◌, Str, bytes, length, ◌≡◌, refl,
  arith, All, All-append,
}
use wgpilot.Base.Int.{ℤ, pos, negsuc, IsInt}
use wgpilot.WgQuick.Types.{ExportPeer, ServerConfigParams}
use wgpilot.WgQuick.Export.{
  pair, optional, keepalive_line, masquerade, nat_lines, export_fields_lines, export_peer_lines,
  export_peers_lines, interface_lines, server_lines, title,
}
use wgpilot.WgQuick.Sizes.{
  Fits, IsLine, max_value, no_newline, Fits-text, Fits-append, Fits-print_int,
}
use wgpilot.WgQuick.Blocks.{CleanPeer}
use wgpilot.WgQuick.Interface.{IsCleanServer}

-- The texts of the templates are far below the 5000 bytes that a value leaves.
fixed : (s : Str) → no_newline s ≡ true → length s ≤ 100 → Fits 100 s
fixed s h k = Fits-text 100 s h k

Fits-IsLine : {n : ℕ} {s : Str} → Fits n s → n < 65536 → IsLine s
Fits-IsLine h k = record { whole = h.one_line; short = omega (arith, h.bound) }

Fits-equals : {n : ℕ} (v : Str) → Fits n v → Fits (3 + n) (b' ' ∷ b'=' ∷ b' ' ∷ v)
Fits-equals v h = record {
  one_line = ((λ e. omega arith), ((λ e. omega arith), ((λ e. omega arith), h.one_line)));
  bound = omega (arith, h.bound);
}

pub pair-IsLine :
    {n : ℕ} (key v : Str)
    → no_newline key ≡ true
    → length key ≤ 100
    → Fits n v
    → n ≤ 61000
    → IsLine (pair key v)
pair-IsLine {n} key v h k f b =
    Fits-IsLine (Fits-append {n = 3 + n} key _ (fixed key h k) (Fits-equals v f)) (omega arith)

pub optional-IsLine :
    (key v : Str)
    → no_newline key ≡ true
    → length key ≤ 100
    → Fits max_value v
    → All IsLine (optional key v)
unfolding optional
optional-IsLine key [] h k f = tt
optional-IsLine key (c ∷ s) h k f = (pair-IsLine key (c ∷ s) h k f (omega arith), tt)

keepalive_line-IsLine : (i : ℤ) → IsInt i → All IsLine (keepalive_line i)
unfolding keepalive_line no_newline
keepalive_line-IsLine (pos zero) h = tt
keepalive_line-IsLine (negsuc n) h = tt
keepalive_line-IsLine (pos (suc n)) h = (
  pair-IsLine (bytes "PersistentKeepalive") _ refl (omega arith) (Fits-print_int (pos (suc n)) h)
      (omega arith),
  tt,
)

pub export_fields_lines-IsLine : (e : ExportPeer) → CleanPeer e → All IsLine (export_fields_lines e)
unfolding export_fields_lines no_newline
export_fields_lines-IsLine e h = (
  pair-IsLine (bytes "PublicKey") _ refl (omega arith) h.0.1 (omega arith),
  All-append IsLine (optional (bytes "PresharedKey") e.preshared_key) _
      (optional-IsLine _ _ refl (omega arith) h.1.1)
      (
        pair-IsLine (bytes "AllowedIPs") _ refl (omega arith) h.2.1 (omega arith),
        All-append IsLine (optional (bytes "Endpoint") e.endpoint) _
            (optional-IsLine _ _ refl (omega arith) h.3.1)
            (keepalive_line-IsLine e.persistent_keepalive h.4),
      ),
)

pub empty-IsLine : IsLine []
unfolding no_newline
empty-IsLine = Fits-IsLine (fixed [] refl (omega arith)) (omega arith)

pub peer_header-IsLine : IsLine (bytes "[Peer]")
unfolding no_newline
peer_header-IsLine = Fits-IsLine (fixed (bytes "[Peer]") refl (omega arith)) (omega arith)

pub interface_header-IsLine : IsLine (bytes "[Interface]")
unfolding no_newline
interface_header-IsLine = Fits-IsLine (fixed (bytes "[Interface]") refl (omega arith)) (omega arith)

export_peer_lines-IsLine : (e : ExportPeer) → CleanPeer e → All IsLine (export_peer_lines e)
unfolding export_peer_lines no_newline
export_peer_lines-IsLine e h = (
  empty-IsLine,
  (
    Fits-IsLine (Fits-append (bytes "# ") e.name (fixed _ refl (omega arith)) h.5) (omega arith),
    (peer_header-IsLine, export_fields_lines-IsLine e h),
  ),
)

export_peers_lines-IsLine :
    (es : List ExportPeer) → All CleanPeer es → All IsLine (export_peers_lines es)
unfolding export_peers_lines export_peer_lines no_newline
export_peers_lines-IsLine [] h = tt
export_peers_lines-IsLine (e ∷ es) h =
    All-append IsLine (export_peer_lines e) (export_peers_lines es) (export_peer_lines-IsLine e h.0)
      (export_peers_lines-IsLine es h.1)

masquerade-Fits : (flag i : Str) → Fits 100 flag → Fits max_value i → Fits 60700 (masquerade flag i)
unfolding no_newline
masquerade-Fits flag i f h =
    Fits-append _ _
      (Fits-append _ i
        (Fits-append _ _
          (Fits-append _ flag
            (Fits-append _ _
              (Fits-append _ i
                (Fits-append _ _
                  (Fits-append _ flag (fixed (bytes "iptables -t nat -") refl (omega arith)) f)
                  (fixed (bytes " POSTROUTING -o ") refl (omega arith)))
                h)
              (fixed (bytes " -j MASQUERADE; ip6tables -t nat -") refl (omega arith)))
            f)
          (fixed (bytes " POSTROUTING -o ") refl (omega arith)))
        h)
      (fixed (bytes " -j MASQUERADE") refl (omega arith))

nat_lines-IsLine : (b : Bool) (i : Str) → Fits max_value i → All IsLine (nat_lines b i)
unfolding nat_lines no_newline
nat_lines-IsLine false i h = tt
nat_lines-IsLine true i h = (
  pair-IsLine (bytes "PostUp") _ refl (omega arith)
      (masquerade-Fits (bytes "A") i (fixed _ refl (omega arith)) h) (omega arith),
  (
    pair-IsLine (bytes "PostDown") _ refl (omega arith)
        (masquerade-Fits (bytes "D") i (fixed _ refl (omega arith)) h) (omega arith),
    tt,
  ),
)

pub title-IsLine : (name : Str) → Fits max_value name → IsLine (title name)
unfolding no_newline
title-IsLine name h =
    Fits-IsLine
      (Fits-append (b'#' ∷ bytes " Generated by wgpilot ") _ (fixed _ refl (omega arith))
        (Fits-append (226 ∷ 128 ∷ 148 ∷ b' ' ∷ []) name (fixed _ refl (omega arith)) h))
      (omega arith)

pub server_lines-IsLine : (s : ServerConfigParams) → IsCleanServer s → All IsLine (server_lines s)
unfolding server_lines interface_lines no_newline
server_lines-IsLine s h = (
  title-IsLine s.interface_name h.5,
  (
    interface_header-IsLine,
    (
      pair-IsLine (bytes "PrivateKey") _ refl (omega arith) h.0.1 (omega arith),
      (
        pair-IsLine (bytes "Address") _ refl (omega arith) h.1.1 (omega arith),
        (
          pair-IsLine (bytes "ListenPort") _ refl (omega arith) (Fits-print_int s.listen_port h.2)
              (omega arith),
          All-append IsLine (optional (bytes "DNS") s.dns_servers) _
              (optional-IsLine _ _ refl (omega arith) h.3.1)
              (All-append IsLine (nat_lines s.nat_enabled s.nat_interface) _
                (nat_lines-IsLine _ s.nat_interface h.6) (export_peers_lines-IsLine s.peers h.4)),
        ),
      ),
    ),
  ),
)
