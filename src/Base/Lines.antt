-- ===== src/Base/Lines.antt =====
-- Texts of lines: written with a newline behind each, and read back as `bufio.ScanLines` does.
use Prim.Native.Nat.{ℕ}
use mathlib.Core.Path.{◌≡◌, refl, ap, ◌∙◌}
use mathlib.Core.List.{List, [], ◌∷◌, ◌++◌}
use native.Mathlib.Omega.{arith}
use wgpilot.Base.Tests.{◌==◌, if◌then◌else◌}
use wgpilot.Base.Lists.{All}
use wgpilot.Base.Text.{Str, Without}

unfoldable pub unlines : List Str → Str
unlines [] = []
unlines (l ∷ ls) = l ++ b'\n' ∷ unlines ls

-- A character in front of the first line, where there is one.
unfoldable pub onto : ℕ → List Str → List Str
onto c [] = (c ∷ []) ∷ []
onto c (l ∷ ls) = (c ∷ l) ∷ ls

-- The lines of a text without their newlines: nothing is left behind the last newline.
unfoldable pub lines : Str → List Str
lines [] = []
lines (c ∷ s) = let rest = lines s in if c == b'\n' then [] ∷ rest else onto c rest

lines-append : (l s : Str) → Without b'\n' l → lines (l ++ b'\n' ∷ s) ≡ l ∷ lines s
unfolding lines onto
lines-append [] s h = refl
lines-append (c ∷ l) s h = ground (arith, lines-append l s h.1)

pub lines-unlines : (ls : List Str) → All (Without b'\n') ls → lines (unlines ls) ≡ ls
unfolding unlines
lines-unlines [] h = unfold lines in refl
lines-unlines (l ∷ ls) h = lines-append l (unlines ls) h.0 ∙ ap (◌∷◌ l) (lines-unlines ls h.1)
