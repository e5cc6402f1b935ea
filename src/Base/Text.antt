-- ===== src/Base/Text.antt =====
-- Go strings as sequences of bytes: equality, lexicographic order, and the bytes of an ASCII text.
use Prim.Native.Nat.{ℕ}
use Prim.Native.Char.{code}
use Prim.Native.String.{String}
use mathlib.Core.Path.{◌≡◌, refl, ap, sym, ◌∙◌}
use mathlib.Core.Logic.{◌↔◌, ◌≢◌}
use mathlib.Core.Bool.{Bool, true, false, ◌&&◌}
use mathlib.Core.List.{List, [], ◌∷◌, ◌++◌}
use native.Mathlib.Omega.{arith}
use wgpilot.Base.Lists.{All}
use wgpilot.Base.Tests.{◌==◌, ltb, if◌then◌else◌}

abbrev pub Str : Type 0
Str = List ℕ

-- The bytes of an ASCII text.
abbrev pub bytes : String → Str
bytes String.[] = []
bytes (String.◌∷◌ c s) = code c ∷ bytes s

unfoldable pub str_eq : Str → Str → Bool
str_eq [] [] = true
str_eq [] (d ∷ t) = false
str_eq (c ∷ s) [] = false
str_eq (c ∷ s) (d ∷ t) = (c == d) && str_eq s t

-- `<` on strings: lexicographic by bytes.
unfoldable pub str_ltb : Str → Str → Bool
str_ltb s [] = false
str_ltb [] (d ∷ t) = true
str_ltb (c ∷ s) (d ∷ t) = if c == d then str_ltb s t else ltb c d

pub str_eq_refl : (s : Str) → str_eq s s ≡ true
unfolding str_eq
str_eq_refl [] = refl
str_eq_refl (c ∷ s) = ground (arith, str_eq_refl s)

eq_of_str_eq : (s t : Str) → str_eq s t ≡ true → s ≡ t
unfolding str_eq
eq_of_str_eq [] [] h = refl
eq_of_str_eq [] (d ∷ t) h = cc
eq_of_str_eq (c ∷ s) [] h = cc
eq_of_str_eq (c ∷ s) (d ∷ t) h = ground (arith, eq_of_str_eq s t)

pub str_eq_iff : (s t : Str) → (str_eq s t ≡ true) ↔ (s ≡ t)
str_eq_iff s t = (eq_of_str_eq s t, λ e. ap (str_eq s) (sym e) ∙ str_eq_refl s)

-- Exactly one of `s < t`, `t < s`, `s = t` decides the order of a pair.
pub str_ltb_total : (s t : Str) → str_ltb s t ≡ false → str_ltb t s ≡ false → s ≡ t
unfolding str_ltb
str_ltb_total [] [] h k = refl
str_ltb_total [] (d ∷ t) h k = cc
str_ltb_total (c ∷ s) [] h k = cc
str_ltb_total (c ∷ s) (d ∷ t) h k = ground (arith, str_ltb_total s t)

pub str_ltb_asymm : (s t : Str) → str_ltb s t ≡ true → str_ltb t s ≡ false
unfolding str_ltb
str_ltb_asymm [] [] h = refl
str_ltb_asymm [] (d ∷ t) h = refl
str_ltb_asymm (c ∷ s) [] h = cc
str_ltb_asymm (c ∷ s) (d ∷ t) h = ground (arith, str_ltb_asymm s t)

pub append_cancel : (p s t : Str) → p ++ s ≡ p ++ t → s ≡ t
append_cancel [] s t h = h
append_cancel (c ∷ p) s t h = append_cancel p s t (ground arith)

-- A text before a separator that it does not hold is determined by the whole.
abbrev pub Without : ℕ → Str → Type 0
Without sep s = All (λ c. c ≢ sep) s

pub append-sep_injective :
    (sep : ℕ) (a c : Str) {b d : Str}
    → Without sep a
    → Without sep c
    → a ++ (sep ∷ b) ≡ c ++ (sep ∷ d)
    → (a ≡ c) × (b ≡ d)
append-sep_injective sep [] [] h k e = ground arith
append-sep_injective sep [] (y ∷ c) h k e = absurd (ground arith)
append-sep_injective sep (x ∷ a) [] h k e = absurd (ground arith)
append-sep_injective sep (x ∷ a) (y ∷ c) {b} {d} h k e =
    ground (arith, append-sep_injective sep a c {b = b} {d = d} h.1 k.1)
